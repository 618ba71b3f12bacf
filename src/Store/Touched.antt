-- ===== src/Store/Touched.antt =====
-- Which bytes of which files the steps of a write reach.
use eblob.Base.{
  ℕ, ◌+◌, ◌-◌, ◌^◌, ◌≤◌, ◌<◌, Bool, true, false, if◌then◌else◌, not, ◌&&◌, ◌||◌, ltb, leb, ◌==◌,
  ==_iff, Option, none, some, List, [], ◌∷◌, length, All, Outcome, ok, err, einval, erange, efault,
  ok_inj, ◌≡◌, refl, sym, ap, ◌∙◌, ◌⊎◌, inl, inr, arith, Bool-cases, Outcome-cases,
}
use eblob.Record.{hdr_size}
use eblob.Files.{put}
use eblob.Files.Transfers.{IsOutside, write_ll-outside, write_ll-put}
use eblob.Store.{Store, Step, pure, ◌>>=◌, ◌>>◌, pwrite, w64, sub64, has, ctl_append, ctl_exthdr}
use eblob.Store.Control.{WriteControl, Iovec, size_of}
use eblob.Store.Writes.{writev_loop, writev_raw}

-- A byte of a file that a write of a range of a file does not reach.
abbrev pub IsElsewhere : Option ℕ → ℕ → ℕ → ℕ → ℕ → Type 0
IsElsewhere target off n fd i = (target ≡ some fd → ⊥) ⊎ IsOutside off n i

pub pwrite-outside :
    (target : Option ℕ) (off : ℕ) (bytes : List ℕ) (s : Store) (fd i : ℕ)
    → IsElsewhere target off (length bytes) fd i
    → ((pwrite target off bytes s).1.files fd).byte i ≡ (s.files fd).byte i
unfolding pwrite
pwrite-outside none off bytes s fd i h = refl
pwrite-outside (some d) off bytes s fd i h =
    elim (Bool-cases (not (length bytes == 0) && leb (2 ^ 63) off)) [
      | inl e ↦ rw e refl
      | inr e ↦ rw e (elim (Bool-cases (fd == d)) [
        | inr other ↦ rw other refl
        | inl same ↦
            let here : fd ≡ d = (==_iff fd d).0 same in
            rw same (
              write_ll-outside s.answers (s.files d) off bytes i (reached here h)
              ∙ ap (λ k. (s.files k).byte i) (sym here))
      ])
    ]
  where
    reached : fd ≡ d → IsElsewhere (some d) off (length bytes) fd i → IsOutside off (length bytes) i
    reached here (inl ne) = absurd (ne (ap some (sym here)))
    reached here (inr out) = out

pwrite_negative :
    (d off : ℕ) (bytes : List ℕ) (s : Store)
    → (not (length bytes == 0) && leb (2 ^ 63) off) ≡ true
    → (fd i : ℕ) → ((pwrite (some d) off bytes s).1.files fd).byte i ≡ (s.files fd).byte i
unfolding pwrite
pwrite_negative d off bytes s e fd i = rw e refl

IsOutside-range :
    (off n lo hi i : ℕ)
    → (ltb hi (w64 (off + n)) || ltb off lo) ≡ false
    → (not (n == 0) && leb (2 ^ 63) off) ≡ false
    → n < 2 ^ 63
    → (i < lo) ⊎ (hi ≤ i)
    → IsOutside off n i
IsOutside-range off n lo hi i t neg small h = ground arith

-- A byte that is not among the data of a record.
abbrev pub IsNotData : WriteControl → ℕ → ℕ → Type 0
IsNotData wc fd i =
    (some wc.data_fd ≡ some fd → ⊥)
    ⊎ ((i < w64 (wc.ctl_data_offset + hdr_size)) ⊎ (w64 (wc.ctl_data_offset + wc.total_size) ≤ i))

module _ (wc : WriteControl) (fd i : ℕ) (h : IsNotData wc fd i) where
  guarded_pwrite-outside :
      (off : ℕ) (bytes : List ℕ) (s : Store)
      → length bytes < 2 ^ 63
      → (ltb (w64 (wc.ctl_data_offset + wc.total_size)) (w64 (off + length bytes))
          || ltb off (w64 (wc.ctl_data_offset + hdr_size)))
        ≡ false
      → ((pwrite (some wc.data_fd) off bytes s).1.files fd).byte i ≡ (s.files fd).byte i
  guarded_pwrite-outside off bytes s small t =
      elim (Bool-cases (not (length bytes == 0) && leb (2 ^ 63) off)) [
        | inl e ↦ refused e
        | inr e ↦ pwrite-outside (some wc.data_fd) off bytes s fd i (elsewhere e h)
      ]
    where
      refused :
          (not (length bytes == 0) && leb (2 ^ 63) off) ≡ true
          → ((pwrite (some wc.data_fd) off bytes s).1.files fd).byte i ≡ (s.files fd).byte i
      refused e = pwrite_negative wc.data_fd off bytes s e fd i

      elsewhere :
          (not (length bytes == 0) && leb (2 ^ 63) off) ≡ false
          → IsNotData wc fd i
          → IsElsewhere (some wc.data_fd) off (length bytes) fd i
      elsewhere e (inl ne) = inl ne
      elsewhere e (inr out) = inr (IsOutside-range off (length bytes) _ _ i t e small out)

  writev_loop-outside :
      (iovs : List Iovec) (head : Bool) (status : Outcome (Unit {0})) (s : Store)
      → All (λ iov. size_of iov < 2 ^ 63) iovs
      → ((writev_loop wc head status iovs s).1.files fd).byte i ≡ (s.files fd).byte i
  unfolding writev_loop
  writev_loop-outside [] head status s small = refl
  writev_loop-outside (iov ∷ iovs) head status s small =
      let off =
        if head && has ctl_exthdr wc.flags
        then w64 (wc.ctl_data_offset + hdr_size)
        else w64 (wc.data_offset + iov.offset) in
      elim (Bool-cases (
        ltb (w64 (wc.ctl_data_offset + wc.total_size)) (w64 (off + size_of iov))
        || ltb off (w64 (wc.ctl_data_offset + hdr_size)))) [
          | inl e ↦ rw (writev_loop, e) refl
          | inr e ↦
              let step = guarded_pwrite-outside off iov.bytes s small.0 e in
              elim (Outcome-cases (pwrite (some wc.data_fd) off iov.bytes s).0) [
                | inl (x, r) ↦ rw (writev_loop, e, r) step
                | inr (u, r) ↦
                    rw (writev_loop, e, r)
                      (writev_loop-outside iovs false (ok tt)
                          (pwrite (some wc.data_fd) off iov.bytes s).1 small.1
                        ∙ step)
              ]
        ]

-- A value that replaces the one of a step leaves its store.
pub store-pure : {A B : Type 0} (m : Step A) (b : B) (s : Store) → ((m >> pure b) s).1 ≡ (m s).1
store-pure m b s = elim (Outcome-cases (m s).0) [
  | inl (e, r) ↦ rw (◌>>◌, ◌>>=◌, r) refl
  | inr (a, r) ↦ rw (◌>>◌, ◌>>=◌, r) refl
]

-- `eblob_writev_raw` changes nothing but the data of its record, whatever the system answers and
-- also where it fails, if no vector is as large as the memory: neither the header and the other
-- records of the data file nor another file.
pub writev_raw-outside :
    (wc : WriteControl) (iovs : List Iovec) (s : Store) (fd i : ℕ)
    → IsNotData wc fd i
    → All (λ iov. size_of iov < 2 ^ 63) iovs
    → ((writev_raw wc iovs s).1.files fd).byte i ≡ (s.files fd).byte i
unfolding writev_raw
writev_raw-outside wc iovs s fd i h small =
    elim (Bool-cases (has ctl_exthdr wc.flags && has ctl_append wc.flags)) [
      | inr e ↦ rw e (plain wc h)
      | inl e ↦ elim (Bool-cases (ltb wc.total_data_size shift)) [
        | inl short ↦ rw (e, short) refl
        | inr enough ↦
            rw (e, enough)
              (plain
                (record wc {
                  data_offset = sub64 wc.data_offset shift;
                  total_data_size = wc.total_data_size - shift;
                })
                h)
      ]
    ]
  where
    shift : ℕ
    shift = elim iovs [ [] ↦ 0 | iov ∷ rest ↦ size_of iov ]

    plain :
        (w : WriteControl)
        → IsNotData w fd i
        → (((writev_loop w true (err efault) iovs >> pure w) s).1.files fd).byte i
          ≡ (s.files fd).byte i
    plain w out =
        ap (λ t. (t.files fd).byte i) (store-pure (writev_loop w true (err efault) iovs) w s)
        ∙ writev_loop-outside w fd i out iovs true (err efault) s small

same_value :
    {A B : Type 0} (r : Outcome A) (t : Store) (b c : B)
    → (elim r as (λ _. Outcome B × Store) [ ok a ↦ (ok b, t) | err e ↦ (err e, t) ]).0 ≡ ok c
    → b ≡ c
same_value (ok a) t b c e = ok_inj e
same_value (err x) t b c e = absurd cc

pub result-pure :
    {A B : Type 0} (m : Step A) (b c : B) (s : Store) → ((m >> pure b) s).0 ≡ ok c → b ≡ c
result-pure m b c s h = same_value (m s).0 (m s).1 b c h

-- The write control that `eblob_writev_raw` leaves differs in where the data starts, and its size.
pub writev_raw_kept :
    (wc wc' : WriteControl) (iovs : List Iovec) (s : Store)
    → (writev_raw wc iovs s).0 ≡ ok wc'
    → (d : ℕ) × (t : ℕ) × (record wc { data_offset = d; total_data_size = t } ≡ wc')
unfolding writev_raw
writev_raw_kept wc wc' iovs s h =
    let shift : ℕ = elim iovs [ [] ↦ 0 | iov ∷ rest ↦ size_of iov ] in
    elim (Bool-cases (has ctl_exthdr wc.flags && has ctl_append wc.flags)) [
      | inr e ↦ (
        wc.data_offset,
        wc.total_data_size,
        result-pure (writev_loop wc true (err efault) iovs) wc wc' s (rw e at h),
      )
      | inl e ↦ elim (Bool-cases (ltb wc.total_data_size shift)) [
        | inl short ↦ absurd (absent (rw (e, short) at h))
        | inr enough ↦ (
          sub64 wc.data_offset shift,
          wc.total_data_size - shift,
          result-pure
              (writev_loop
                (record wc {
                  data_offset = sub64 wc.data_offset shift;
                  total_data_size = wc.total_data_size - shift;
                })
                true (err efault) iovs)
              (record wc {
                data_offset = sub64 wc.data_offset shift;
                total_data_size = wc.total_data_size - shift;
              })
              wc' s (rw (e, enough) at h),
        )
      ]
    ]
  where
    absent : Path (Outcome WriteControl) (err erange) (ok wc') → ⊥
    absent e = cc

-- A write that returns 0 has put its bytes into the file.
pub pwrite_ok :
    (d off : ℕ) (bytes : List ℕ) (s : Store)
    → (pwrite (some d) off bytes s).0 ≡ ok tt
    → (pwrite (some d) off bytes s).1.files d ≡ put (s.files d) off bytes
unfolding pwrite
pwrite_ok d off bytes s h = elim (Bool-cases (not (length bytes == 0) && leb (2 ^ 63) off)) [
  | inl e ↦ absurd (refused (rw e at h))
  | inr e ↦
      let same : (d == d) ≡ true = (==_iff d d).1 refl in
      rw (e, same) (write_ll-put s.answers (s.files d) off bytes (rw e at h))
]
  where
    refused : Path (Outcome (Unit {0})) (err einval) (ok tt) → ⊥
    refused e = cc
