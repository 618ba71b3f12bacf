-- ===== src/Store/Sums.antt =====
-- The footer that a commit writes, and the check of it by a read.
use eblob.Base.{
  ℕ, zero, suc, ◌+◌, ◌^◌, ◌≤◌, ◌<◌, true, false, not, ◌&&◌, ◌||◌, ltb, leb, ◌==◌, some, List, [],
  ◌∷◌, ◌++◌, length, Outcome, ok, err, Errno, ◌≡◌, refl, sym, ap, subst, ◌∙◌, inl, inr, arith,
  Outcome-cases,
}
use eblob.Key.Order.{memcmp_same}
use eblob.Record.{hdr_size}
use eblob.Files.{File, Answer, put, bytes_at, take, read_ll}
use eblob.Files.Headers.{le64, take-append}
use eblob.Files.Transfers.{put-bytes_at, put-outside, put_size, size-put}
use eblob.Store.{Config, Store, ◌>>=◌, pread, w64, sub64, has, ctl_nocsum, ctl_uncommitted}
use eblob.Store.Control.{WriteControl, footer_size}
use eblob.Store.Writes.{footer_of, write_commit_footer}
use eblob.Store.Reads.{check, csum_kind, csum_ok, same_bytes}
use eblob.Store.Touched.{pwrite_ok}
use eblob.Store.Confined.{footer_length}

-- A record with room for its data, a header and a footer, in 63 bits, that is committed and has a
-- checksum.
pub record IsSummed (wc : WriteControl) : Type 0 where
  pub room : wc.total_data_size + 168 ≤ wc.total_size
  pub fits : wc.ctl_data_offset + wc.total_size < 2 ^ 63
  pub committed : has ctl_uncommitted wc.flags ≡ false
  pub summed : has ctl_nocsum wc.flags ≡ false

kind_check :
    (d t : ℕ)
    → d + 168 ≤ t
    → t < 2 ^ 63
    → ((ltb t footer_size || ltb t hdr_size || ltb t d) ≡ false)
      × (ltb t (w64 (d + footer_size + hdr_size)) ≡ false)
kind_check d t h fits = (ground arith, ground arith)

csum_kind-check : (wc : WriteControl) → IsSummed wc → csum_kind wc ≡ check
unfolding csum_kind
csum_kind-check wc v =
    let (sizes, footer) =
      kind_check wc.total_data_size wc.total_size v.room (omega (arith, v.fits)) in
    rw (v.committed, sizes, v.summed, footer) refl

read_here :
    (answers : List Answer) (f : File) (off n : ℕ)
    → answers ≡ []
    → off + n ≤ f.size
    → (read_ll answers f off n).0 ≡ ok (bytes_at f off n)
unfolding read_ll bytes_at
read_here answers f off zero e h = refl
read_here [] f off (suc n) e h =
    let whole : leb (off + suc n) f.size ≡ true = ground (arith, h) in rw whole refl
read_here (a ∷ answers) f off (suc n) e h = absurd cc

pread_here :
    (d off n : ℕ) (s : Store)
    → s.answers ≡ []
    → off + n ≤ (s.files d).size
    → off < 2 ^ 63
    → ((pread (some d) off n s).0 ≡ ok (bytes_at (s.files d) off n))
      × ((pread (some d) off n s).1.files ≡ s.files)
unfolding pread
pread_here d off n s e h small =
    let positive : (not (n == 0) && leb (2 ^ 63) off) ≡ false = ground (arith, small) in
    rw positive (read_here s.answers (s.files d) off n e h, refl)

same_bytes_same : (bs : List ℕ) → same_bytes bs bs ≡ true
unfolding same_bytes
same_bytes_same bs = rw (same_bytes, memcmp_same bs) refl

-- What is relied on of `sha512_file`: a digest has 64 bytes, and depends on the bytes of the range,
-- whatever else a file that is no shorter holds.
pub record IsDigest (file_hash : File → ℕ → ℕ → Outcome (List ℕ)) : Type 0 where
  pub length :
      (f : File) (off n : ℕ) (csum : List ℕ) → file_hash f off n ≡ ok csum → length csum ≡ 64
  pub local_ :
      (f g : File) (off n : ℕ) (csum : List ℕ)
      → file_hash f off n ≡ ok csum
      → f.size ≤ g.size
      → ((i : ℕ) → off ≤ i → i < off + n → g.byte i ≡ f.byte i)
      → file_hash g off n ≡ ok csum

module _ (file_hash : File → ℕ → ℕ → Outcome (List ℕ)) where
  csum_ok_run :
      (wc : WriteControl) (s : Store) (footer csum : List ℕ)
      → csum_kind wc ≡ check
      → (pread
          (some wc.data_fd)
          (sub64 (wc.ctl_data_offset + wc.total_size) footer_size)
          footer_size
          s).0
        ≡ ok footer
      → file_hash
          ((pread
              (some wc.data_fd)
              (sub64 (wc.ctl_data_offset + wc.total_size) footer_size)
              footer_size
              s).1.files
            wc.data_fd)
          (w64 (wc.ctl_data_offset + hdr_size))
          wc.total_data_size
        ≡ ok csum
      → csum ≡ take 64 footer
      → (csum_ok file_hash wc s).0 ≡ ok tt
  unfolding csum_ok
  csum_ok_run wc s footer csum kind r sum same =
      let equal : same_bytes csum (take 64 footer) ≡ true =
        subst (λ l. same_bytes csum l ≡ true) same (same_bytes_same csum) in
      rw (csum_ok, kind, ◌>>=◌, r, sum, equal) refl

  -- What the footer's write has left where it returns 0.
  footer_of-put :
      (wc : WriteControl) (cfg : Config) (f : File) (s : Store)
      → has ctl_nocsum wc.flags ≡ false
      → cfg.no_footer ≡ false
      → s.files wc.data_fd ≡ f
      → (footer_of file_hash wc cfg f s).0 ≡ ok tt
      → (csum : List ℕ) × (file_hash f (w64 (wc.ctl_data_offset + hdr_size)) wc.total_data_size
          ≡ ok csum)
        × ((footer_of file_hash wc cfg f s).1.files wc.data_fd
            ≡ put f
                (sub64 (wc.ctl_data_offset + wc.total_size) footer_size)
                (csum ++ le64 wc.ctl_data_offset))
  unfolding footer_of
  footer_of-put wc cfg f s summed footer here h =
      elim (Outcome-cases (file_hash f (w64 (wc.ctl_data_offset + hdr_size)) wc.total_data_size)) [
        | inl (e, r) ↦ absurd (failed_sum (rw (footer_of, footer, summed, r) at h))
        | inr (csum, r) ↦
            let bytes = csum ++ le64 wc.ctl_data_offset in
            let off = sub64 (wc.ctl_data_offset + wc.total_size) footer_size in
            (
              csum,
              r,
              rw (footer_of, footer, summed, r)
                  (pwrite_ok wc.data_fd off bytes s (rw (footer_of, footer, summed, r) at h)
                    ∙ ap (λ g. put g off bytes) here),
            )
      ]
    where
      failed_sum : {e : Errno} → Path (Outcome (Unit {0})) (err e) (ok tt) → ⊥
      failed_sum p = cc

  module _ (digest : IsDigest file_hash) (wc : WriteControl) (v : IsSummed wc) where
    abbrev start : ℕ
    start = w64 (wc.ctl_data_offset + hdr_size)

    abbrev footer_at : ℕ
    footer_at = sub64 (wc.ctl_data_offset + wc.total_size) footer_size

    before_footer :
        (start + wc.total_data_size ≤ footer_at)
        × (footer_at + 72 ≡ wc.ctl_data_offset + wc.total_size)
        × (footer_at < 2 ^ 63)
    before_footer = (
      omega (arith, v.room, v.fits),
      omega (arith, v.room, v.fits),
      omega (arith, v.room, v.fits),
    )

    put_footer-csum_ok :
        (f : File) (csum : List ℕ) (s : Store)
        → file_hash f start wc.total_data_size ≡ ok csum
        → s.files wc.data_fd ≡ put f footer_at (csum ++ le64 wc.ctl_data_offset)
        → s.answers ≡ []
        → (csum_ok file_hash wc s).0 ≡ ok tt
    put_footer-csum_ok f csum s sum written quiet =
        let bytes = csum ++ le64 wc.ctl_data_offset in
        let n = digest.length f start wc.total_data_size csum sum in
        let long : length bytes ≡ 72 = footer_length csum wc.ctl_data_offset n in
        let (first, _, small) = before_footer in
        let reaches : footer_at + 72 ≤ (s.files wc.data_fd).size = rw (written) (
          subst (λ k. footer_at + k ≤ (put f footer_at bytes).size) long
            (put_size bytes f footer_at (omega (arith, long)))) in
        let got = pread_here wc.data_fd footer_at 72 s quiet reaches small in
        let read : (pread (some wc.data_fd) footer_at footer_size s).0 ≡ ok bytes =
          got.0
          ∙ ap ok (
              ap (λ g. bytes_at g footer_at 72) written
              ∙ subst (λ k. bytes_at (put f footer_at bytes) footer_at k ≡ bytes) long
                  (put-bytes_at bytes f footer_at)) in
        csum_ok_run wc s bytes csum (csum_kind-check wc v) read
          (rw (got.1, written)
            (digest.local_ f (put f footer_at bytes) start wc.total_data_size csum sum
              (size-put bytes f footer_at)
              (λ i low high. put-outside bytes f footer_at i (inl (omega (arith, high, first))))))
          (sym (take-append 64 csum (le64 wc.ctl_data_offset) n))

    -- A read right after a commit finds the checksum right: if the commit returned 0 and wrote a
    -- footer, the record is committed and has room for it, a digest depends on the bytes of its range
    -- alone, and the system gives every byte asked for.
    pub csum_ok-write_commit_footer :
        (s : Store)
        → s.cfg.no_footer ≡ false
        → (write_commit_footer file_hash wc s).0 ≡ ok tt
        → (write_commit_footer file_hash wc s).1.answers ≡ []
        → (csum_ok file_hash wc (write_commit_footer file_hash wc s).1).0 ≡ ok tt
    unfolding write_commit_footer
    csum_ok-write_commit_footer s footer h quiet =
        let (csum, sum, written) =
          footer_of-put wc s.cfg (s.files wc.data_fd) s v.summed footer refl h in
        put_footer-csum_ok (s.files wc.data_fd) csum (write_commit_footer file_hash wc s).1 sum
          written quiet
