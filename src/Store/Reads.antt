-- ===== src/Store/Reads.antt =====
-- library/blob.c: the requests that read a record.
--
-- The arguments are no null pointers; the counters of reads are left out.
use eblob.Base.{
  ℕ, ◌+◌, ◌-◌, Bool, true, false, if◌then◌else◌, not, ◌&&◌, ◌||◌, ltb, leb, ◌==◌, List, some,
  Outcome, ok, err, enoent, einval, enotsup, e2big, enomem, eilseq,
}
use Prim.Native.Nat.Ordering.{lt, eq, gt}
use eblob.Key.{Key, memcmp}
use eblob.Record.{hdr_size}
use eblob.Files.{File, take}
use eblob.Store.{
  KeyCache, Step, pure, raise, gets, ◌>>=◌, ◌>>◌, raise_if, pread, malloc, w64, sub64, has,
  ctl_nocsum, ctl_compress, ctl_uncommitted,
}
use eblob.Store.Control.{WriteControl, zero_wc, footer_size}
use eblob.Store.Commands.{fill_write_control_from_ram}

-- Where the data of a record stands: what `eblob_read` gives.
pub record Place : Type 0 where
  pub fd : ℕ
  pub offset : ℕ
  pub size : ℕ

-- Whether a record has a checksum to be verified, or none, or sizes that cannot be.
pub data CsumKind : Type 0 where
  no_check check bad_sizes : CsumKind

-- The tests of `eblob_csum_ok` before it reads.
unfoldable pub csum_kind : WriteControl → CsumKind
csum_kind wc =
    if has ctl_uncommitted wc.flags
    then no_check
    else if ltb wc.total_size footer_size
        || ltb wc.total_size hdr_size
        || ltb wc.total_size wc.total_data_size
    then bad_sizes
    else if has ctl_nocsum wc.flags
    then no_check
    else if ltb wc.total_size (w64 (wc.total_data_size + footer_size + hdr_size))
    then no_check
    else check

-- `memcmp` that gives 0.
unfoldable pub same_bytes : List ℕ → List ℕ → Bool
unfolding memcmp
same_bytes as_ bs = elim (memcmp as_ bs) [ eq ↦ true | lt ↦ false | gt ↦ false ]

module _ (file_hash : File → ℕ → ℕ → Outcome (List ℕ)) where
  -- `eblob_csum_ok`; `file_hash` is `sha512_file`.
  unfoldable pub csum_ok : WriteControl → Step (Unit {0})
  unfolding csum_kind pread same_bytes
  csum_ok wc = elim (csum_kind wc) [
    | no_check ↦ pure tt
    | bad_sizes ↦ raise einval
    | check ↦ do
      footer ←
          pread (some wc.data_fd) (sub64 (wc.ctl_data_offset + wc.total_size) footer_size)
            footer_size
      data_file ← gets (λ s. s.files wc.data_fd)
      csum ← λ s. (file_hash data_file (w64 (wc.ctl_data_offset + hdr_size)) wc.total_data_size, s)
      raise_if (not (same_bytes csum (take 64 footer))) eilseq
  ]

  module _ (cache : KeyCache) where
    -- `_eblob_read_ll`, which `eblob_read_return` calls.
    unfoldable pub read_return : Key → Bool → Step WriteControl
    unfolding fill_write_control_from_ram csum_ok
    read_return key csum = do
      f ← fill_write_control_from_ram cache key zero_wc false
      λ s. (elim f.status [ ok u ↦ ok tt | err e ↦ err e ], s)
      raise_if (has ctl_compress f.wc.flags) enotsup
      cfg ← gets (λ s. s.cfg)
      (if csum && not cfg.no_footer then csum_ok f.wc else pure tt)
      pure f.wc

    -- `eblob_read_ll`, which `eblob_read` and `eblob_read_nocsum` call.
    unfoldable pub read : Key → Bool → Step Place
    unfolding read_return
    read key csum = do
      wc ← read_return key csum
      raise_if (has ctl_uncommitted wc.flags) enoent
      pure (record { fd = wc.data_fd; offset = wc.data_offset; size = wc.size })

    -- `eblob_read_data_ll`, which `eblob_read_data` and `eblob_read_data_nocsum` call: the bytes it
    -- gives. A `size` of 0 asks for all.
    unfoldable pub read_data : Key → ℕ → ℕ → Bool → Step (List ℕ)
    unfolding read pread
    read_data key offset size csum = do
      place ← read key csum
      raise_if (leb place.size offset) e2big
      let left = place.size - offset
      enough ← malloc
      raise_if (not enough) enomem
      pread (some place.fd) (w64 (place.offset + offset))
          (if not (size == 0) && ltb size left then size else left)
