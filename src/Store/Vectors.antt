-- ===== src/Store/Vectors.antt =====
-- What `eblob_writev_raw` leaves in the data file where it returns 0.
use eblob.Base.{
  ℕ, ◌+◌, ◌-◌, ◌≤◌, Bool, true, false, if◌then◌else◌, ◌&&◌, ◌||◌, ltb, some, List, [], ◌∷◌, Outcome,
  ok, err, Errno, erange, efault, ◌≡◌, refl, ap, subst, ◌∙◌, inl, inr, arith, Bool-cases,
  Outcome-cases,
}
use eblob.Record.{hdr_size}
use eblob.Files.{File, put}
use eblob.Store.{Store, Step, pure, ◌>>=◌, ◌>>◌, pwrite, w64, sub64, has, ctl_append, ctl_exthdr}
use eblob.Store.Control.{WriteControl, Iovec, size_of}
use eblob.Store.Writes.{writev_loop, writev_raw}
use eblob.Store.Touched.{pwrite_ok, store-pure, result-pure}

-- The vectors, one after another, each where its record's data starts and at its offset; the one
-- that heads a record with an extended header stands right behind the header of the record.
abbrev pub put_all : WriteControl → Bool → List Iovec → File → File
put_all wc head [] f = f
put_all wc head (iov ∷ iovs) f = put_all wc false iovs (
    put f
      (if head && has ctl_exthdr wc.flags
        then w64 (wc.ctl_data_offset + hdr_size)
        else w64 (wc.data_offset + iov.offset))
      iov.bytes)

-- The vectors of a record lie within its data.
abbrev pub AllInside : WriteControl → Bool → List Iovec → Type 0
AllInside wc head [] = Unit
AllInside wc head (iov ∷ iovs) =
    let off =
      if head && has ctl_exthdr wc.flags
      then w64 (wc.ctl_data_offset + hdr_size)
      else w64 (wc.data_offset + iov.offset) in
    (w64 (wc.ctl_data_offset + hdr_size) ≤ off)
    × ((w64 (off + size_of iov) ≤ w64 (wc.ctl_data_offset + wc.total_size))
        × AllInside wc false iovs)

inside :
    (off n lo hi : ℕ)
    → (ltb hi (w64 (off + n)) || ltb off lo) ≡ false
    → (lo ≤ off) × (w64 (off + n) ≤ hi)
inside off n lo hi h = (ground (arith, h), ground (arith, h))

writev_loop-put_all :
    (iovs : List Iovec) (wc : WriteControl) (head : Bool) (status : Outcome (Unit {0})) (s : Store)
    → (writev_loop wc head status iovs s).0 ≡ ok tt
    → ((writev_loop wc head status iovs s).1.files wc.data_fd
        ≡ put_all wc head iovs (s.files wc.data_fd))
      × AllInside wc head iovs
unfolding writev_loop
writev_loop-put_all [] wc head status s h = (refl, tt)
writev_loop-put_all (iov ∷ iovs) wc head status s h =
    let off =
      if head && has ctl_exthdr wc.flags
      then w64 (wc.ctl_data_offset + hdr_size)
      else w64 (wc.data_offset + iov.offset) in
    elim (Bool-cases (
      ltb (w64 (wc.ctl_data_offset + wc.total_size)) (w64 (off + size_of iov))
      || ltb off (w64 (wc.ctl_data_offset + hdr_size)))) [
        | inl e ↦ absurd (no (rw (writev_loop, e) at h))
        | inr e ↦
            let s' = (pwrite (some wc.data_fd) off iov.bytes s).1 in
            elim (Outcome-cases (pwrite (some wc.data_fd) off iov.bytes s).0) [
              | inl (x, r) ↦ absurd (no (rw (writev_loop, e, r) at h))
              | inr (u, r) ↦
                  let rest =
                    writev_loop-put_all iovs wc false (ok tt) s' (rw (writev_loop, e, r) at h) in
                  let (low, high) = inside off (size_of iov) _ _ e in
                  (
                    rw (writev_loop, e, r)
                        (rest.0
                          ∙ ap (put_all wc false iovs) (pwrite_ok wc.data_fd off iov.bytes s r)),
                    (low, (high, rest.1)),
                  )
            ]
      ]
  where
    no : {x : Errno} → Path (Outcome (Unit {0})) (err x) (ok tt) → ⊥
    no p = cc

status-pure :
    {B : Type 0} (m : Step (Unit {0})) (b c : B) (s : Store)
    → ((m >> pure b) s).0 ≡ ok c
    → (m s).0 ≡ ok tt
status-pure {B = B} m b c s h = elim (Outcome-cases (m s).0) [
  | inl (e, r) ↦ absurd (failed (rw (◌>>◌, ◌>>=◌, r) at h))
  | inr (u, r) ↦ r
]
  where
    failed : {e : Errno} → Path (Outcome B) (err e) (ok c) → ⊥
    failed p = cc

-- Where `eblob_writev_raw` returns 0 the data file is what it was with the vectors written one after
-- another, all of them whole, each where the write control that it leaves says; and each starts
-- behind the header of the record and ends, modulo 2^64, within its space.
pub writev_raw-put_all :
    (wc wc' : WriteControl) (iovs : List Iovec) (s : Store)
    → (writev_raw wc iovs s).0 ≡ ok wc'
    → ((writev_raw wc iovs s).1.files wc'.data_fd ≡ put_all wc' true iovs (s.files wc'.data_fd))
      × AllInside wc' true iovs
unfolding writev_raw
writev_raw-put_all wc wc' iovs s h =
    elim (Bool-cases (has ctl_exthdr wc.flags && has ctl_append wc.flags)) [
      | inr e ↦ rw e (plain wc (rw e at h))
      | inl e ↦ elim (Bool-cases (ltb wc.total_data_size shift)) [
        | inl short ↦ absurd (absent (rw (e, short) at h))
        | inr enough ↦
            rw (e, enough)
              (plain
                (record wc {
                  data_offset = sub64 wc.data_offset shift;
                  total_data_size = wc.total_data_size - shift;
                })
                (rw (e, enough) at h))
      ]
    ]
  where
    shift : ℕ
    shift = elim iovs [ [] ↦ 0 | iov ∷ rest ↦ size_of iov ]

    absent : Path (Outcome WriteControl) (err erange) (ok wc') → ⊥
    absent p = cc

    plain :
        (w : WriteControl)
        → ((writev_loop w true (err efault) iovs >> pure w) s).0 ≡ ok wc'
        → (((writev_loop w true (err efault) iovs >> pure w) s).1.files wc'.data_fd
            ≡ put_all wc' true iovs (s.files wc'.data_fd))
          × AllInside wc' true iovs
    plain w e =
        let m = writev_loop w true (err efault) iovs in
        let done = writev_loop-put_all iovs w true (err efault) s (status-pure m w wc' s e) in
        subst
          (λ v.
            ((m >> pure w) s).1.files v.data_fd ≡ put_all v true iovs (s.files v.data_fd)
            × AllInside v true iovs)
          (result-pure m w wc' s e)
          (ap (λ t. t.files w.data_fd) (store-pure m w s) ∙ done.0, done.1)
