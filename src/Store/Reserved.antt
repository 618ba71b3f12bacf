-- ===== src/Store/Reserved.antt =====
-- The space of a base while a record is reserved in it.
use eblob.Base.{
  ℕ, ◌+◌, ◌^◌, ◌<◌, Bool, true, false, if◌then◌else◌, not, ◌&&◌, ◌||◌, leb, ◌==◌, ==_iff, Option,
  none, some, Option-cases, List, length, Outcome, ok, err, fun_ext, ◌≡◌, refl, sym, ap, subst, ◌∙◌,
  inl, inr, arith, Bool-cases,
}
use eblob.Key.{Key}
use eblob.Record.{DiskControl, RamControl, hdr_size}
use eblob.Files.Headers.{encode, decode}
use eblob.Store.{
  Config, Store, BaseCtl, Step, pure, gets, ◌>>=◌, ◌>>◌, change_base, pwrite, pread, preallocate,
  copy, w64, sub64, has, with_flag, without_flag, ctl_remove, ctl_append,
}
use eblob.Store.Frames.{bind-Keeps}
use eblob.Store.Control.{WriteControl, wc_to_dc}
use eblob.Store.Writes.{commit_disk}
use eblob.Store.Prepare.{
  CopyFlavour, dont_copy, copy_record, copies, place, advance, rollback, same_key, copy_data_of,
  copy_old, extend, carry, fill_reserved, finish_reserved, reserve_fill, reserve_in,
}

-- A step leaves the bases as they are.
abbrev pub KeepsBases : {A : Type 0} → Step A → Type 0
KeepsBases m = (s : Store) → (m s).1.base ≡ s.base

pub pwrite-KeepsBases :
    (fd : Option ℕ) (off : ℕ) (bytes : List ℕ) → KeepsBases (pwrite fd off bytes)
unfolding pwrite
pwrite-KeepsBases none off bytes s = refl
pwrite-KeepsBases (some d) off bytes s =
    elim (Bool-cases (not (length bytes == 0) && leb (2 ^ 63) off)) [
      | inl e ↦ rw e refl
      | inr e ↦ rw e refl
    ]

pread-KeepsBases : (fd : Option ℕ) (off n : ℕ) → KeepsBases (pread fd off n)
unfolding pread
pread-KeepsBases none off n s = refl
pread-KeepsBases (some d) off n s = elim (Bool-cases (not (n == 0) && leb (2 ^ 63) off)) [
  | inl e ↦ rw e refl
  | inr e ↦ rw e refl
]

preallocate-KeepsBases : (fd off size : ℕ) → KeepsBases (preallocate fd off size)
unfolding preallocate
preallocate-KeepsBases fd off size s = refl

copy-KeepsBases : (a b c d n : ℕ) → KeepsBases (copy a b c d n)
unfolding copy
copy-KeepsBases a b c d n s = elim (Bool-cases (leb (2 ^ 63) n)) [
  | inl e ↦ rw e refl
  | inr e ↦ rw e refl
]

rollback-advance :
    (t : ℕ) (ctl : BaseCtl)
    → ctl.data_offset < 2 ^ 64
    → ctl.index_size < 2 ^ 64
    → rollback t (advance t ctl) ≡ ctl
unfolding rollback advance
rollback-advance t ctl h h' =
    let d : sub64 (w64 (ctl.data_offset + t)) t ≡ ctl.data_offset = omega (arith, h) in
    let i : sub64 (w64 (ctl.index_size + hdr_size)) hdr_size ≡ ctl.index_size = omega (arith, h') in
    rw (d, i) refl

commit_disk-KeepsBases :
    (key : Key) (wc : WriteControl) (remove : Bool) → KeepsBases (commit_disk key wc remove)
unfolding commit_disk
commit_disk-KeepsBases key wc remove =
    let flags =
      if remove then with_flag ctl_remove wc.flags else without_flag ctl_remove wc.flags in
    let w : WriteControl = record wc { flags = flags } in
    let dc = encode (wc_to_dc key w) in
    let to_data : Step (Unit {0}) = pwrite (some w.data_fd) w.ctl_data_offset dc in
    bind-Keeps (λ s. s.base) (pwrite w.index_fd w.ctl_index_offset dc) (λ _. to_data >> pure w)
      (pwrite-KeepsBases w.index_fd w.ctl_index_offset dc)
      (λ _.
        bind-Keeps (λ s. s.base) to_data (λ _. pure w)
          (pwrite-KeepsBases (some w.data_fd) w.ctl_data_offset dc) (λ _ s. refl))

copy_data_of-KeepsBases :
    (key : Key) (wc : WriteControl) (copy_offset : ℕ) (old : RamControl) (ctl : BaseCtl)
    (dc : DiskControl)
    → KeepsBases (copy_data_of key wc copy_offset old ctl dc)
unfolding copy_data_of
copy_data_of-KeepsBases key wc copy_offset old ctl dc s =
    elim (Bool-cases (not (same_key dc.key key))) [
      | inl e ↦ rw e refl
      | inr e ↦
          let from = w64 (old.data_offset + hdr_size) in
          let to = w64 (wc.ctl_data_offset + hdr_size + copy_offset) in
          let size = sub64 dc.disk_size hdr_size in
          rw e (
            bind-Keeps (λ s. s.base) (copy ctl.data_fd from wc.data_fd to size)
              (λ _. pure (true, wc)) (copy-KeepsBases ctl.data_fd from wc.data_fd to size)
              (λ _ s. refl) s)
    ]

copy_old-KeepsBases :
    (key : Key) (wc : WriteControl) (copy_offset : ℕ) (old : RamControl)
    → KeepsBases (copy_old key wc copy_offset old)
unfolding copy_old
copy_old-KeepsBases key wc copy_offset old s = elim (Option-cases old.bctl) [
  | inl e ↦ rw e refl
  | inr (c, e) ↦
      let append = has ctl_append wc.flags && not (copy_offset == 0) in
      let wc' : WriteControl = record wc {
        data_offset = if append then w64 (wc.data_offset + copy_offset) else wc.data_offset;
        total_data_size =
            if append then w64 (wc.total_data_size + copy_offset) else wc.total_data_size;
      } in
      let ctl = s.base c in
      rw e (
        bind-Keeps (λ s. s.base) (pread (some ctl.data_fd) old.data_offset hdr_size)
          (λ bytes. copy_data_of key wc' copy_offset old ctl (decode bytes))
          (pread-KeepsBases (some ctl.data_fd) old.data_offset hdr_size)
          (λ bytes. copy_data_of-KeepsBases key wc' copy_offset old ctl (decode bytes)) s)
]

extend-KeepsBases :
    (flavour : CopyFlavour) (wc : WriteControl) (cfg : Config) → KeepsBases (extend flavour wc cfg)
unfolding extend
extend-KeepsBases flavour wc cfg s = elim (Bool-cases (cfg.no_footer || copies flavour)) [
  | inl e ↦ rw e (preallocate-KeepsBases wc.data_fd wc.ctl_data_offset wc.total_size s)
  | inr e ↦ rw e refl
]

carry-KeepsBases :
    (key : Key) (wc : WriteControl) (flavour : CopyFlavour) (copy_offset : ℕ)
    (old : Option RamControl)
    → KeepsBases (carry key wc flavour copy_offset old)
unfolding carry
carry-KeepsBases key wc flavour copy_offset none s = refl
carry-KeepsBases key wc dont_copy copy_offset (some old) s = refl
carry-KeepsBases key wc copy_record copy_offset (some old) s =
    copy_old-KeepsBases key wc copy_offset old s

pub fill_reserved-KeepsBases :
    (key : Key) (wc : WriteControl) (flavour : CopyFlavour) (copy_offset : ℕ)
    (old : Option RamControl)
    → KeepsBases (fill_reserved key wc flavour copy_offset old)
unfolding fill_reserved
fill_reserved-KeepsBases key wc flavour copy_offset old =
    let rest : WriteControl → Step (Bool × WriteControl) = λ w.
      gets (λ s. s.cfg) >>= λ cfg. extend flavour w cfg >> carry key w flavour copy_offset old in
    bind-Keeps (λ s. s.base) (commit_disk key wc false) rest (commit_disk-KeepsBases key wc false)
      (λ w s.
        bind-Keeps (λ s. s.base) (extend flavour w s.cfg) (λ _. carry key w flavour copy_offset old)
          (extend-KeepsBases flavour w s.cfg) (λ _. carry-KeepsBases key w flavour copy_offset old)
          s)

-- Whether the reservation got to its end.
abbrev pub is_filled : Outcome (Bool × WriteControl) → Bool
is_filled (ok (filled, wc)) = filled
is_filled (err e) = false

-- The answer of the call to it: 0 also where the copy found another key.
abbrev pub answer_of : Outcome (Bool × WriteControl) → Outcome WriteControl
answer_of (ok (filled, wc)) = ok wc
answer_of (err e) = err e

finish_reserved-rollback :
    (key : Key) (c : ℕ) (wc : WriteControl) (old : Option RamControl)
    (r : Outcome (Bool × WriteControl)) (s : Store)
    → is_filled r ≡ false
    → ((finish_reserved key c wc old r s).1.base
        ≡ (change_base c (rollback wc.total_size) s).1.base)
      × ((finish_reserved key c wc old r s).0 ≡ answer_of r)
unfolding finish_reserved
finish_reserved-rollback key c wc old (err e) s h = (refl, refl)
finish_reserved-rollback key c wc old (ok (false, w)) s h = (refl, refl)
finish_reserved-rollback key c wc old (ok (true, w)) s h = absurd cc

rolled_back :
    (c t : ℕ) (base : ℕ → BaseCtl)
    → (base c).data_offset < 2 ^ 64
    → (base c).index_size < 2 ^ 64
    → (i : ℕ)
    → (if i == c
        then rollback t (if i == c then advance t (base i) else base i)
        else if i == c
        then advance t (base i)
        else base i)
      ≡ base i
rolled_back c t base h h' i = elim (Bool-cases (i == c)) [
  | inr e ↦ rw e refl
  | inl e ↦
      let here : c ≡ i = sym ((==_iff i c).0 e) in
      rw e (
        rollback-advance t (base i) (subst (λ k. (base k).data_offset < 2 ^ 64) here h)
          (subst (λ k. (base k).index_size < 2 ^ 64) here h'))
]

-- A reservation that does not get to its end leaves every base as it was, if the offsets of the base
-- fit in 64 bits: its space is given back, whether the header, the growth of the file or the copy
-- failed, and also where the copy found another key. It returns the error, or 0 in that last case.
pub reserve_in-rolled_back :
    (key : Key) (c : ℕ) (wc : WriteControl) (prepare_disk_size : ℕ) (flavour : CopyFlavour)
    (copy_offset : ℕ) (old : Option RamControl) (s : Store)
    → (s.base c).data_offset < 2 ^ 64
    → (s.base c).index_size < 2 ^ 64
    → is_filled
        (reserve_fill key c
          (place s.cfg c (s.base c) prepare_disk_size wc)
          flavour
          copy_offset
          old
          s).0
      ≡ false
    → ((reserve_in key c wc prepare_disk_size flavour copy_offset old s).1.base ≡ s.base)
      × ((reserve_in key c wc prepare_disk_size flavour copy_offset old s).0
          ≡ answer_of
              (reserve_fill key c
                (place s.cfg c (s.base c) prepare_disk_size wc)
                flavour
                copy_offset
                old
                s).0)
unfolding reserve_in reserve_fill
reserve_in-rolled_back key c wc size flavour copy_offset old s h h' failed_ =
    let placed = place s.cfg c (s.base c) size wc in
    let s1 = (change_base c (advance placed.total_size) s).1 in
    let (r, s2) = fill_reserved key placed flavour copy_offset old s1 in
    let kept : s2.base ≡ s1.base = fill_reserved-KeepsBases key placed flavour copy_offset old s1 in
    let (undone, answer) = finish_reserved-rollback key c placed old r s2 failed_ in
    (
      undone
          ∙ (ap (λ (b : ℕ → BaseCtl). λ i. if i == c then rollback placed.total_size (b i) else b i)
                kept
              ∙ fun_ext (rolled_back c placed.total_size s.base h h')),
      answer,
    )
