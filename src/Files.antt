-- ===== src/Files.antt =====
-- library/blob.c: `__eblob_write_ll`, `__eblob_read_ll` and `eblob_copy_data`, the loops around
-- pwrite(2) and pread(2), over files of bytes.
--
-- The system answers each call with the number of bytes it moved, or with an error. The answers
-- are a list; where it has run out a call moves all that it is asked for. The loops test
-- `errno == -EINTR`, which no error number is, so an interrupted call is an error like any other.
use eblob.Base.{
  ℕ, zero, suc, ◌+◌, ◌-◌, ◌*◌, ◌^◌, min, max, not, Bool, true, false, if◌then◌else◌, ◌==◌, leb, ltb,
  List, [], ◌∷◌, ◌++◌, length, Outcome, ok, err, Errno, errno, espipe, einval, enomem, epipe,
}
pub mod Transfers
pub mod Copies
pub mod Headers

-- A file: its size, and its bytes by their offset.
pub record File : Type 0 where
  pub size : ℕ
  pub byte : ℕ → ℕ

abbrev pub set : File → ℕ → ℕ → File
set f i b = record { size = max f.size (suc i); byte = λ j. if j == i then b else f.byte j }

-- What a write of some bytes at an offset leaves.
unfoldable pub put : File → ℕ → List ℕ → File
put f off [] = f
put f off (b ∷ bs) = put (set f off b) (suc off) bs

-- The bytes from an offset on.
unfoldable pub bytes_at : File → ℕ → ℕ → List ℕ
bytes_at f off zero = []
bytes_at f off (suc n) = f.byte off ∷ bytes_at f (suc off) n

abbrev pub take : ℕ → List ℕ → List ℕ
take zero bs = []
take (suc n) [] = []
take (suc n) (b ∷ bs) = b ∷ take n bs

abbrev pub drop : ℕ → List ℕ → List ℕ
drop zero bs = bs
drop (suc n) [] = []
drop (suc n) (b ∷ bs) = drop n bs

-- What one call of the system did: bytes moved, or -1 with a number in `errno`.
pub data Answer : Type 0 where
  moved : ℕ → Answer
  failed : ℕ → Answer

-- `__eblob_write_ll`, with the file and the answers that it leaves.
unfoldable pub write_ll : List Answer → File → ℕ → List ℕ → Outcome (Unit {0}) × File × List Answer
unfolding put
write_ll answers f off [] = (ok tt, f, answers)
write_ll [] f off (b ∷ bs) = (ok tt, put f off (b ∷ bs), [])
write_ll (failed e ∷ answers) f off (b ∷ bs) = (err (errno e), f, answers)
write_ll (moved n ∷ answers) f off (b ∷ bs) =
    let done = take n (b ∷ bs) in
    write_ll answers (put f off done) (off + length done) (drop n (b ∷ bs))

-- The bytes that a call which is asked for `n` gets: not past the end of the file.
abbrev pub available : File → ℕ → ℕ → ℕ
available f off n = min n (f.size - off)

abbrev pub prepend : List ℕ → Outcome (List ℕ) × List Answer → Outcome (List ℕ) × List Answer
prepend bs (ok more, answers) = (ok (bs ++ more), answers)
prepend bs (err e, answers) = (err e, answers)

-- `__eblob_read_ll`: the bytes read, or the error. A call that gets nothing ends the loop with
-- -ESPIPE.
unfoldable pub read_ll : List Answer → File → ℕ → ℕ → Outcome (List ℕ) × List Answer
unfolding bytes_at
read_ll answers f off zero = (ok [], answers)
read_ll [] f off (suc n) =
    if leb (off + suc n) f.size then (ok (bytes_at f off (suc n)), []) else (err espipe, [])
read_ll (failed e ∷ answers) f off (suc n) = (err (errno e), answers)
read_ll (moved m ∷ answers) f off (suc n) =
    let got = min m (available f off (suc n)) in
    let rest = read_ll answers f (off + got) (suc n - got) in
    elim (got == 0) [ true ↦ (err espipe, answers) | false ↦ prepend (bytes_at f off got) rest ]

-- One call that is asked for `n` bytes: what it moved, and the answers that are left.
abbrev pub next : List Answer → ℕ → Outcome ℕ × List Answer
next [] n = (ok n, [])
next (moved m ∷ answers) n = (ok (min m n), answers)
next (failed e ∷ answers) n = (err (errno e), answers)

-- The files by their descriptors.
abbrev pub with_file : (ℕ → File) → ℕ → File → ℕ → File
with_file files fd f i = if i == fd then f else files i

-- The loop of `eblob_copy_data`, on fuel: a round moves one byte at least.
unfoldable pub copy_loop :
    ℕ
    → ℕ
    → List Answer
    → (ℕ → File)
    → ℕ
    → ℕ
    → ℕ
    → ℕ
    → ℕ
    → Outcome (Unit {0}) × (ℕ → File) × List Answer
unfolding put bytes_at
copy_loop zero alloc_size answers files fd_in off_in fd_out off_out len = (ok tt, files, answers)
copy_loop (suc fuel) alloc_size answers files fd_in off_in fd_out off_out zero =
    (ok tt, files, answers)
copy_loop (suc fuel) alloc_size answers files fd_in off_in fd_out off_out (suc n) =
    let (asked, answers1) =
      next answers (available (files fd_in) off_in (min alloc_size (suc n))) in
    elim asked [
      | err e ↦ (err e, files, answers1)
      | ok got ↦
          let (written, answers2) = next answers1 got in
          elim (got == 0) [
            | true ↦ (err espipe, files, answers1)
            | false ↦ elim written [
              | err e ↦ (err e, files, answers2)
              | ok out ↦ elim (out == 0) [
                | true ↦ (err epipe, files, answers2)
                | false ↦
                    copy_loop fuel alloc_size answers2
                      (with_file files fd_out
                        (put (files fd_out) off_out (bytes_at (files fd_in) off_in out)))
                      fd_in (off_in + out) fd_out (off_out + out) (suc n - out)
              ]
            ]
          ]
    ]

-- `eblob_copy_data`; `malloc` tells whether the buffer of at most 10 MB can be allocated.
unfoldable pub copy_data :
    Bool
    → List Answer
    → (ℕ → File)
    → ℕ
    → ℕ
    → ℕ
    → ℕ
    → ℕ
    → Outcome (Unit {0}) × (ℕ → File) × List Answer
unfolding copy_loop
copy_data malloc answers files fd_in off_in fd_out off_out len =
    if len == 0
    then (err einval, files, answers)
    else if not malloc
    then (err enomem, files, answers)
    else copy_loop len (min len (10 * 2 ^ 20)) answers files fd_in off_in fd_out off_out len
