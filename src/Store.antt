-- ===== src/Store.antt =====
-- library/blob.c: the state that the reads and writes of records work on, and the steps they are
-- made of.
--
-- A step returns 0 or a negated errno and leaves a store in either case. What the rest of the
-- system answers is part of the state: `answers` to pread(2), pwrite(2) and posix_fallocate(3),
-- `allocs` to malloc(3), and `opened` what `eblob_add_new_base` gets when it opens a base. The cache
-- is reached through the three functions of `KeyCache`.
use eblob.Base.{
  ℕ, zero, suc, ◌+◌, ◌-◌, ◌*◌, ◌%◌, ◌^◌, max, bit_and, bit_or, Bool, true, false, if◌then◌else◌,
  not, ◌&&◌, ◌||◌, ltb, leb, ◌==◌, Option, none, some, List, [], ◌∷◌, ◌++◌, length, Outcome, ok,
  err, Errno, errno, einval, ebadf, enomem, enospc,
}
use eblob.Key.{Key}
use eblob.Record.{DiskControl, RamControl, BaseFds, get_index_fd, hdr_size}
use eblob.Binlog.{BinlogCfg, binlog_entry_new, binlog_append, binlog_enabled}
use eblob.Files.{File, Answer, moved, failed, write_ll, read_ll, copy_data, with_file}
use eblob.Files.Headers.{le64, encode, decode}
use eblob.Defrag.Requests.{Scheduler}
use eblob.Cache.{Backend}
pub mod Control
pub mod Writes
pub mod Prepare
pub mod Commands
pub mod Reads
pub mod Frames
pub mod Touched
pub mod Confined
pub mod Sums
pub mod Reserved
pub mod Advanced
pub mod Removed
pub mod Cached
pub mod Refused
pub mod Extents
pub mod Iterate
pub mod Vectors

-- The flags of a record that the code tests, `BLOB_DISK_CTL_*`.
abbrev pub ctl_remove : ℕ
ctl_remove = 1

abbrev pub ctl_nocsum : ℕ
ctl_nocsum = 2

abbrev pub ctl_compress : ℕ
ctl_compress = 4

abbrev pub ctl_write_return : ℕ
ctl_write_return = 8

abbrev pub ctl_append : ℕ
ctl_append = 16

abbrev pub ctl_exthdr : ℕ
ctl_exthdr = 64

abbrev pub ctl_uncommitted : ℕ
ctl_uncommitted = 128

-- `flags & flag`, `flags | flag` and `flags & ~flag`
abbrev pub has : ℕ → ℕ → Bool
has flag flags = not (bit_and flags flag == 0)

abbrev pub with_flag : ℕ → ℕ → ℕ
with_flag flag flags = bit_or flags flag

abbrev pub without_flag : ℕ → ℕ → ℕ
without_flag flag flags = bit_and flags (2 ^ 64 - 1 - flag)

-- `uint64_t`
abbrev pub w64 : ℕ → ℕ
w64 n = n % 2 ^ 64

abbrev pub sub64 : ℕ → ℕ → ℕ
sub64 a b = (a + (2 ^ 64 - b % 2 ^ 64)) % 2 ^ 64

-- The fields of `struct eblob_base_ctl` that a write uses.
pub record BaseCtl : Type 0 where
  pub index : ℕ
  pub data_fd : ℕ
  pub fds : BaseFds
  pub data_offset : ℕ
  pub index_size : ℕ
  pub binlog : BinlogCfg
  pub records_total : ℕ
  pub base_size : ℕ
  pub records_removed : ℕ
  pub removed_size : ℕ

-- The fields of `struct eblob_config`.
pub record Config : Type 0 where
  pub blob_size : ℕ
  pub records_in_blob : ℕ
  pub blob_size_limit : ℕ
  pub no_footer : Bool
  pub no_free_space_check : Bool
  pub reserve_10_percents : Bool

-- What a write asks of the cache: `eblob_cache_lookup`, with `*diskp`, `eblob_cache_insert` and
-- `eblob_cache_remove`.
pub record KeyCache : Type 0 where
  pub lookup : Backend → Key → Outcome (RamControl × Bool)
  pub insert : Backend → Key → RamControl → Outcome (Unit {0}) × Backend
  pub remove : Backend → Key → Outcome (Unit {0}) × Backend

-- The fields of `struct eblob_backend`, the files by their descriptors, and what the system answers.
-- `bases` names the bases in the order of the list; `avail` and `total` are the products of
-- `vfs_stat` that the code takes; `summary_size` is the counter of all bases together.
pub record Store : Type 0 where
  pub cfg : Config
  pub bases : List ℕ
  pub base : ℕ → BaseCtl
  pub files : ℕ → File
  pub cache : Backend
  pub scheduler : Scheduler
  pub generation : ℕ
  pub avail : ℕ
  pub total : ℕ
  pub summary_size : ℕ
  pub answers : List Answer
  pub allocs : List Bool
  pub opened : List (Outcome (ℕ × BaseCtl))

abbrev pub Step : Type 0 → Type 0
Step A = Store → Outcome A × Store

abbrev pub pure : {A : Type 0} → A → Step A
pure a s = (ok a, s)

abbrev pub raise : {A : Type 0} → Errno → Step A
raise e s = (err e, s)

abbrev pub gets : {A : Type 0} → (Store → A) → Step A
gets f s = (ok (f s), s)

infixl 5 ◌>>=◌ ◌>>◌
abbrev pub ◌>>=◌ : {A B : Type 0} → Step A → (A → Step B) → Step B
◌>>=◌ m f s = let (r, s') = m s in elim r [ ok a ↦ f a s' | err e ↦ (err e, s') ]

abbrev pub ◌>>◌ : {A B : Type 0} → Step A → Step B → Step B
m >> k = m >>= λ _. k

abbrev pub raise_if : Bool → Errno → Step (Unit {0})
raise_if b e s = (if b then err e else ok tt, s)

abbrev pub change_base : ℕ → (BaseCtl → BaseCtl) → Step (Unit {0})
change_base c f s = (ok tt, record s { base = λ i. if i == c then f (s.base i) else s.base i })

-- `__eblob_write_ll` and `__eblob_read_ll` on a descriptor; a negative one is `none`. The system
-- refuses an offset that is negative as an `off_t`.
abbrev is_negative : ℕ → ℕ → Bool
is_negative n offset = not (n == 0) && leb (2 ^ 63) offset

unfoldable pub pwrite : Option ℕ → ℕ → List ℕ → Step (Unit {0})
unfolding write_ll
pwrite none offset bytes s = (if length bytes == 0 then ok tt else err ebadf, s)
pwrite (some fd) offset bytes s =
    if is_negative (length bytes) offset
    then (err einval, s)
    else let (r, f, answers) = write_ll s.answers (s.files fd) offset bytes in
      (r, record s { files = with_file s.files fd f; answers = answers })

unfoldable pub pread : Option ℕ → ℕ → ℕ → Step (List ℕ)
unfolding read_ll
pread none offset n s = (if n == 0 then ok [] else err ebadf, s)
pread (some fd) offset n s =
    if is_negative n offset
    then (err einval, s)
    else let (r, answers) = read_ll s.answers (s.files fd) offset n in
      (r, record s { answers = answers })

-- malloc(3): whether it succeeds.
abbrev pub next_alloc : List Bool → Bool × List Bool
next_alloc [] = (true, [])
next_alloc (a ∷ allocs) = (a, allocs)

abbrev pub malloc : Step Bool
malloc s = let (a, allocs) = next_alloc s.allocs in (ok a, record s { allocs = allocs })

-- posix_fallocate(3), which returns an error number.
abbrev granted : List Answer → Outcome (Unit {0}) × List Answer
granted [] = (ok tt, [])
granted (moved n ∷ answers) = (ok tt, answers)
granted (failed e ∷ answers) = (err (errno e), answers)

-- `eblob_preallocate`, which makes the file at least as long as the range ends.
unfoldable pub preallocate : ℕ → ℕ → ℕ → Step (Unit {0})
preallocate fd offset size s =
    let (r, answers) = granted s.answers in
    let f = s.files fd in
    let files : ℕ → File = elim r [
      | ok u ↦ with_file s.files fd (record f { size = max f.size (offset + size) })
      | err e ↦ s.files
    ] in
    (r, record s { files = files; answers = answers })

-- `eblob_copy_data`, and `eblob_splice_data` as it is where there is no splice(2); the length
-- is an `ssize_t`, and a negative one is refused.
unfoldable pub copy : ℕ → ℕ → ℕ → ℕ → ℕ → Step (Unit {0})
unfolding copy_data
copy fd_in off_in fd_out off_out size s =
    if leb (2 ^ 63) size
    then (err einval, s)
    else let (enough, allocs) = next_alloc s.allocs in
      let (r, files, answers) =
        copy_data enough s.answers s.files fd_in off_in fd_out off_out size in
      (r, record s { files = files; answers = answers; allocs = allocs })

-- `eblob_add_new_base`: the new base stands last in the list.
unfoldable pub add_new_base : Step (Unit {0})
add_new_base s = elim s.opened [
  | [] ↦ (err enospc, s)
  | err e ∷ opened ↦ (err e, record s { opened = opened })
  | ok (c, ctl) ∷ opened ↦ (
    ok tt,
    record s {
      bases = s.bases ++ (c ∷ []);
      base = λ i. if i == c then ctl else s.base i;
      opened = opened;
    },
  )
]

-- `eblob_mark_index_removed`: the word at the offset of `flags` in the header.
unfoldable pub mark_index_removed : Option ℕ → ℕ → Step (Unit {0})
unfolding pwrite le64
mark_index_removed fd offset = pwrite fd (offset + 64) (le64 ctl_remove)
