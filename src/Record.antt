-- ===== src/Record.antt =====
-- include/eblob/blob.h and library/blob.h: the headers that describe a record on disk and in memory,
-- and the parts of `struct eblob_base_ctl` by which an index is read.
use eblob.Base.{ℕ, Option, none, some}
use eblob.Key.{Key}

-- `struct eblob_disk_control`. The conversions of byte order are the identity on a little-endian
-- machine.
pub record DiskControl : Type 0 where
  pub key : Key
  pub flags : ℕ
  pub data_size : ℕ
  pub disk_size : ℕ
  pub position : ℕ

-- `sizeof(struct eblob_disk_control)`: 64 bytes of id and four 64-bit words, packed.
abbrev pub hdr_size : ℕ
hdr_size = 96

-- `struct eblob_ram_control`; `bctl` is a pointer, named by a number, and null is `none`.
pub record RamControl : Type 0 where
  pub data_offset : ℕ
  pub index_offset : ℕ
  pub size : ℕ
  pub bctl : Option ℕ

-- The file descriptors of `struct eblob_base_ctl`; a negative descriptor is `none`.
pub record BaseFds : Type 0 where
  pub index_fd : Option ℕ
  pub sort_fd : Option ℕ

-- `eblob_get_index_fd`: the sorted index, if there is one.
unfoldable pub get_index_fd : BaseFds → Option ℕ
get_index_fd bctl = elim bctl.sort_fd [ some fd ↦ some fd | none ↦ bctl.index_fd ]

-- What `pread` of one header gives: the header, a number of bytes below its size, or -1 with the number in `errno`.
pub data Pread : Type 0 where
  full : DiskControl → Pread
  short : ℕ → Pread
  failed : ℕ → Pread

-- What the pointers and the descriptors lead to while the tables in memory are used.
pub record Disk : Type 0 where
  pub base : ℕ → BaseFds
  pub pread : Option ℕ → ℕ → Pread
