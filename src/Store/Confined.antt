-- ===== src/Store/Confined.antt =====
-- An overwrite of a record in its place, and the bytes that it reaches.
use eblob.Base.{
  ℕ, ◌+◌, ◌^◌, ◌≤◌, ◌<◌, bit_and, false, if◌then◌else◌, not, ◌&&◌, ◌==◌, Option, some, List, ◌++◌,
  length, length-append, All, Outcome, ok, ◌≡◌, refl, subst, ◌∙◌, ◌⊎◌, inl, inr, arith, Bool-cases,
  Outcome-cases,
}
use eblob.Key.{Key}
use eblob.Record.{hdr_size}
use eblob.Binlog.{binlog_enabled}
use eblob.Files.{File}
use eblob.Files.Headers.{le64, encode, length-encode}
use eblob.Files.Transfers.{IsOutside}
use eblob.Store.{
  Config, KeyCache, Store, Step, pure, ◌>>=◌, ◌>>◌, pwrite, w64, sub64, has, without_flag,
  ctl_remove, ctl_nocsum, ctl_append, ctl_exthdr,
}
use eblob.Store.Frames.{bind-Keeps}
use eblob.Store.Control.{WriteControl, Iovec, size_of, footer_size, wc_to_dc}
use eblob.Store.Writes.{
  writev_raw, commit_disk, commit_ram, footer_of, write_commit_footer, write_commit_nolock,
  zero_csum,
}
use eblob.Store.Commands.{overwrite}
use eblob.Store.Touched.{
  IsElsewhere, IsNotData, pwrite-outside, writev_raw-outside, writev_raw_kept,
}

pub footer_length : (csum : List ℕ) (n : ℕ) → length csum ≡ 64 → length (csum ++ le64 n) ≡ 72
unfolding le64
footer_length csum n h = omega (arith, h, length-append csum (le64 n))

around :
    (a t i : ℕ)
    → hdr_size ≤ t
    → a + t < 2 ^ 64
    → IsOutside a t i
    → (i < w64 (a + hdr_size)) ⊎ (w64 (a + t) ≤ i)
around a t i large fits (inl before) = inl (omega (arith, before, large, fits))
around a t i large fits (inr after) = inr (omega (arith, after, fits))

module _ (fd i : ℕ) where
  -- A step leaves the byte `i` of the file `fd` as it is.
  abbrev pub Leaves : {A : Type 0} → Step A → Type 0
  Leaves m = (s : Store) → ((m s).1.files fd).byte i ≡ (s.files fd).byte i

  bind-Leaves :
      {A B : Type 0} (m : Step A) (f : A → Step B)
      → Leaves m
      → ((a : A) → Leaves (f a))
      → Leaves (m >>= f)
  bind-Leaves m f = bind-Keeps (λ s. (s.files fd).byte i) m f

  then-Leaves : {A B : Type 0} (m : Step A) (k : Step B) → Leaves m → Leaves k → Leaves (m >> k)
  then-Leaves m k hm hk = bind-Leaves m (λ _. k) hm (λ _. hk)

  pwrite-Leaves :
      (target : Option ℕ) (off : ℕ) (bytes : List ℕ) (n : ℕ)
      → length bytes ≡ n
      → IsElsewhere target off n fd i
      → Leaves (pwrite target off bytes)
  pwrite-Leaves target off bytes n e h s = pwrite-outside target off bytes s fd i (rw e h)

  -- A byte that belongs neither to the record nor to its entry in the index.
  pub record IsNotRecord (wc : WriteControl) : Type 0 where
    pub in_data : IsElsewhere (some wc.data_fd) wc.ctl_data_offset wc.total_size fd i
    pub in_index : IsElsewhere wc.index_fd wc.ctl_index_offset hdr_size fd i

  narrow :
      (target : Option ℕ) (off n off' n' : ℕ)
      → off ≤ off'
      → off' + n' ≤ off + n
      → IsElsewhere target off n fd i
      → IsElsewhere target off' n' fd i
  narrow target off n off' n' h h' (inl ne) = inl ne
  narrow target off n off' n' h h' (inr (inl before)) = inr (inl (omega (arith, h, before)))
  narrow target off n off' n' h h' (inr (inr after)) = inr (inr (omega (arith, h', after)))

  commit_disk-Leaves :
      (key : Key) (wc : WriteControl)
      → length key.id ≡ 64
      → hdr_size ≤ wc.total_size
      → IsNotRecord wc
      → Leaves (commit_disk key wc false)
  unfolding commit_disk
  commit_disk-Leaves key wc k large h =
      let w : WriteControl = record wc { flags = without_flag ctl_remove wc.flags } in
      let header = length-encode (wc_to_dc key w) k in
      let dc = encode (wc_to_dc key w) in
      let to_data : Step (Unit {0}) = pwrite (some w.data_fd) w.ctl_data_offset dc in
      then-Leaves (pwrite w.index_fd w.ctl_index_offset dc) (to_data >> pure w)
        (pwrite-Leaves w.index_fd w.ctl_index_offset dc 96 header h.in_index)
        (then-Leaves to_data (pure w)
          (pwrite-Leaves (some w.data_fd) w.ctl_data_offset dc 96 header (
            narrow (some w.data_fd) wc.ctl_data_offset wc.total_size wc.ctl_data_offset 96
              (omega arith) (omega (arith, large)) h.in_data))
          (λ s. refl))

  footer_place :
      (a t : ℕ)
      → a + t < 2 ^ 64
      → hdr_size ≤ t
      → (a ≤ sub64 (a + t) footer_size) × (sub64 (a + t) footer_size + 72 ≤ a + t)
  footer_place a t h large = (omega (arith, h, large), omega (arith, h, large))

  commit_ram-Leaves :
      (cache : KeyCache) (key : Key) (wc : WriteControl) → Leaves (commit_ram cache key wc)
  unfolding commit_ram
  commit_ram-Leaves cache key wc s = elim (Bool-cases wc.on_disk) [
    | inl e ↦ rw e refl
    | inr e ↦ rw e refl
  ]

  module _ (cache : KeyCache) (file_hash : File → ℕ → ℕ → Outcome (List ℕ))
      (digest : (f : File) (off n : ℕ) (csum : List ℕ)
        → file_hash f off n ≡ ok csum
        → length csum ≡ 64) where
    footer_of-Leaves :
        (wc : WriteControl) (cfg : Config) (data_file : File)
        → hdr_size ≤ wc.total_size
        → wc.ctl_data_offset + wc.total_size < 2 ^ 64
        → IsNotRecord wc
        → Leaves (footer_of file_hash wc cfg data_file)
    unfolding footer_of
    footer_of-Leaves wc cfg data_file large fits h s = elim (Bool-cases cfg.no_footer) [
      | inl e ↦ rw e refl
      | inr e ↦ elim (Bool-cases (has ctl_nocsum wc.flags)) [
        | inl plain ↦ rw (e, plain) (written zero_csum refl s)
        | inr summed ↦
            elim (Outcome-cases
              (file_hash data_file (w64 (wc.ctl_data_offset + hdr_size)) wc.total_data_size)) [
                | inl (x, r) ↦ rw (e, summed, r) refl
                | inr (csum, r) ↦ rw (e, summed, r) (written csum (digest _ _ _ csum r) s)
              ]
      ]
    ]
      where
        written :
            (csum : List ℕ)
            → length csum ≡ 64
            → Leaves (
                pwrite
                  (some wc.data_fd)
                  (sub64 (wc.ctl_data_offset + wc.total_size) footer_size)
                  (csum ++ le64 wc.ctl_data_offset))
        written csum n =
            let (first, last) = footer_place wc.ctl_data_offset wc.total_size fits large in
            pwrite-Leaves (some wc.data_fd) (sub64 (wc.ctl_data_offset + wc.total_size) footer_size)
              (csum ++ le64 wc.ctl_data_offset) 72 (footer_length csum wc.ctl_data_offset n)
              (narrow (some wc.data_fd) wc.ctl_data_offset wc.total_size
                (sub64 (wc.ctl_data_offset + wc.total_size) footer_size) 72 first last h.in_data)

    write_commit_footer-Leaves :
        (wc : WriteControl)
        → hdr_size ≤ wc.total_size
        → wc.ctl_data_offset + wc.total_size < 2 ^ 64
        → IsNotRecord wc
        → Leaves (write_commit_footer file_hash wc)
    unfolding write_commit_footer
    write_commit_footer-Leaves wc large fits h s =
        footer_of-Leaves wc s.cfg (s.files wc.data_fd) large fits h s

    write_commit_nolock-Leaves :
        (key : Key) (wc : WriteControl)
        → length key.id ≡ 64
        → hdr_size ≤ wc.total_size
        → wc.ctl_data_offset + wc.total_size < 2 ^ 64
        → IsNotRecord wc
        → Leaves (write_commit_nolock cache file_hash key wc)
    unfolding write_commit_nolock
    write_commit_nolock-Leaves key wc k large fits h =
        let store : WriteControl → Step WriteControl = λ w. commit_ram cache key w >> pure w in
        then-Leaves (write_commit_footer file_hash wc) (commit_disk key wc false >>= store)
          (write_commit_footer-Leaves wc large fits h)
          (bind-Leaves (commit_disk key wc false) store (commit_disk-Leaves key wc k large h) (λ w.
            then-Leaves (commit_ram cache key w) (pure w) (commit_ram-Leaves cache key w)
              (λ s. refl)))

    -- The place and the size of a record fit in 64 bits, with a header.
    pub record IsPlaced (wc : WriteControl) : Type 0 where
      pub header : hdr_size ≤ wc.total_size
      pub fits : wc.ctl_data_offset + wc.total_size < 2 ^ 64

    write_and_commit-Leaves :
        (key : Key) (iovs : List Iovec) (wc : WriteControl)
        → length key.id ≡ 64
        → IsPlaced wc
        → All (λ iov. size_of iov < 2 ^ 63) iovs
        → IsNotRecord wc
        → Leaves (writev_raw wc iovs >>= λ wc'. write_commit_nolock cache file_hash key wc')
    write_and_commit-Leaves key iovs wc k placed small h s =
        let raw = writev_raw-outside wc iovs s fd i (not_data wc placed h.in_data) small in
        elim (Outcome-cases (writev_raw wc iovs s).0) [
          | inl (e, r) ↦ rw (◌>>=◌, r) raw
          | inr (wc', r) ↦
              rw (◌>>=◌, r)
                (committed wc' (writev_raw_kept wc wc' iovs s r) (writev_raw wc iovs s).1 ∙ raw)
        ]
      where
        not_data :
            (w : WriteControl)
            → IsPlaced w
            → IsElsewhere (some w.data_fd) w.ctl_data_offset w.total_size fd i
            → IsNotData w fd i
        not_data w p (inl ne) = inl ne
        not_data w p (inr out) = inr (around w.ctl_data_offset w.total_size i p.header p.fits out)

        committed :
            (w : WriteControl)
            → (d : ℕ) × (t : ℕ) × (record wc { data_offset = d; total_data_size = t } ≡ w)
            → Leaves (write_commit_nolock cache file_hash key w)
        committed w (d, t, e) =
            subst (λ v. Leaves (write_commit_nolock cache file_hash key v)) e
              (write_commit_nolock-Leaves key (record wc { data_offset = d; total_data_size = t }) k
                placed.header placed.fits (record { in_data = h.in_data; in_index = h.in_index }))

    -- An overwrite in place changes no byte outside of the record that the cache found and its entry
    -- in the index, whatever the system answers and also where it fails, if the key has 64 bytes, the
    -- record has a header and fits in 64 bits, no vector is as large as the memory, and a digest has
    -- 64 bytes.
    pub overwrite-outside :
        (key : Key) (iovs : List Iovec) (wc found : WriteControl) (s : Store)
        → length key.id ≡ 64
        → IsPlaced found
        → All (λ iov. size_of iov < 2 ^ 63) iovs
        → IsNotRecord found
        → ((overwrite cache file_hash key iovs wc found s).1.files fd).byte i ≡ (s.files fd).byte i
    unfolding overwrite
    overwrite-outside key iovs wc found s k placed small h =
        let alone = has ctl_exthdr wc.flags && has ctl_append wc.flags && found.offset == 0 in
        let ready : WriteControl = record found {
          flags = if alone then without_flag ctl_append wc.flags else wc.flags;
          size = wc.size;
          total_data_size = w64 (found.offset + wc.size);
        } in
        let written =
          write_and_commit-Leaves key iovs ready k
            (record { header = placed.header; fits = placed.fits }) small
            (record { in_data = h.in_data; in_index = h.in_index }) in
        elim (Bool-cases (not (bit_and wc.flags ctl_exthdr == bit_and found.flags ctl_exthdr))) [
          | inl differ ↦ rw differ refl
          | inr same ↦ elim (Bool-cases (binlog_enabled (s.base found.bctl).binlog)) [
            | inl logged ↦ rw (same, logged) refl
            | inr free ↦ rw (same, free) (written s)
          ]
        ]
