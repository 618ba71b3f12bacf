-- ===== src/Store/Control.antt =====
-- library/blob.c, library/blob.h, include/eblob/blob.h: the description of a write, its sizes, and
-- the checks that come before it.
use eblob.Base.{
  ℕ, ◌+◌, ◌-◌, ◌*◌, ◌^◌, Bool, true, false, if◌then◌else◌, not, ◌&&◌, ◌||◌, ltb, ◌==◌, Option, some,
  List, [], ◌∷◌, length, Outcome, ok, err, enospc, e2big, enotsup,
}
use eblob.Key.{Key}
use eblob.Record.{DiskControl, RamControl, hdr_size}
use eblob.Store.{Config, Store, w64, has, ctl_compress, ctl_write_return, ctl_remove}

-- `struct eblob_write_control`
pub record WriteControl : Type 0 where
  pub size : ℕ
  pub offset : ℕ
  pub flags : ℕ
  pub index : ℕ
  pub data_fd : ℕ
  pub index_fd : Option ℕ
  pub data_offset : ℕ
  pub ctl_data_offset : ℕ
  pub ctl_index_offset : ℕ
  pub total_size : ℕ
  pub total_data_size : ℕ
  pub on_disk : Bool
  pub bctl : ℕ

-- What `memset` leaves.
abbrev pub zero_wc : WriteControl
zero_wc = record {
  size = 0;
  offset = 0;
  flags = 0;
  index = 0;
  data_fd = 0;
  index_fd = some 0;
  data_offset = 0;
  ctl_data_offset = 0;
  ctl_index_offset = 0;
  total_size = 0;
  total_data_size = 0;
  on_disk = false;
  bctl = 0;
}

-- `sizeof(struct eblob_disk_footer)`: a checksum of 64 bytes and an offset, packed.
abbrev pub footer_size : ℕ
footer_size = 72

-- `eblob_calculate_size`
unfoldable pub calculate_size : Config → ℕ → ℕ → ℕ
calculate_size cfg offset size =
    let total_size = w64 (w64 (size + offset) + hdr_size) in
    if not cfg.no_footer then w64 (total_size + footer_size) else total_size

-- `eblob_check_free_space`; the product `total * 0.1` is taken exactly.
unfoldable pub check_free_space : Store → ℕ → Outcome (Unit {0})
check_free_space s size =
    if s.cfg.no_free_space_check
    then ok tt
    else if ltb s.avail size
    then err enospc
    else if not (s.cfg.blob_size_limit == 0)
    then (if ltb s.cfg.blob_size_limit (w64 (s.summary_size + size)) then err enospc else ok tt)
    else if s.cfg.reserve_10_percents && ltb (s.avail * 10) s.total
        || (not s.cfg.reserve_10_percents && ltb s.avail (w64 (2 * s.cfg.blob_size)))
    then err enospc
    else ok tt

-- `eblob_wc_to_dc`
unfoldable pub wc_to_dc : Key → WriteControl → DiskControl
wc_to_dc key wc = record {
  key = key;
  flags = wc.flags;
  data_size = wc.total_data_size;
  disk_size = wc.total_size;
  position = wc.ctl_data_offset;
}

-- `eblob_wc_to_rctl`
unfoldable pub wc_to_rctl : WriteControl → RamControl
wc_to_rctl wc = record {
  data_offset = wc.ctl_data_offset;
  index_offset = wc.ctl_index_offset;
  size = wc.total_data_size;
  bctl = some wc.bctl;
}

-- `struct eblob_iovec`: the bytes that `base` points to, `size` of them, and the offset.
pub record Iovec : Type 0 where
  pub bytes : List ℕ
  pub offset : ℕ

abbrev pub size_of : Iovec → ℕ
size_of iov = length iov.bytes

-- `struct eblob_iovec_bounds`
pub record Bounds : Type 0 where
  pub min : ℕ
  pub max : ℕ
  pub contiguous : Bool

-- One round of `eblob_iovec_get_bounds`.
unfoldable pub widen : Bounds → Iovec → Bounds
widen bounds iov =
    let sum = w64 (iov.offset + size_of iov) in
    record {
      min = if ltb iov.offset bounds.min then iov.offset else bounds.min;
      max = if ltb bounds.max sum then sum else bounds.max;
      contiguous = if not (iov.offset == bounds.max) then false else bounds.contiguous;
    }

unfoldable pub widen_all : Bounds → List Iovec → Bounds
unfolding widen
widen_all bounds [] = bounds
widen_all bounds (iov ∷ iovs) = widen_all (widen bounds iov) iovs

-- `eblob_iovec_get_bounds`
unfoldable pub iovec_get_bounds : List Iovec → Bounds
unfolding widen_all
iovec_get_bounds iovs = widen_all (record { min = 2 ^ 64 - 1; max = 0; contiguous = true }) iovs

-- `check_writev_return_flags`, with the bounds EBLOB_IOVCNT_MIN and EBLOB_IOVCNT_MAX.
unfoldable pub check_writev_return_flags : ℕ → ℕ → Outcome (Unit {0})
check_writev_return_flags flags iovcnt =
    if has ctl_compress flags
    then err enotsup
    else if has ctl_write_return flags
    then err enotsup
    else if has ctl_remove flags
    then err enotsup
    else if ltb iovcnt 1 || ltb 128 iovcnt
    then err e2big
    else ok tt
