-- ===== src/Tests/Samples.antt =====
-- Keys, a disk and controls that the tests share.
use eblob.Base.{ℕ, zero, suc, List, [], ◌∷◌, none, some, if◌then◌else◌, ◌==◌, refl}
use eblob.Key.{Key}
use eblob.Record.{DiskControl, RamControl, Disk, full, short, failed, get_index_fd}
use eblob.L2hash.{index_hdr}
use eblob.L2hash.Contents.{BelongsTo}

abbrev pub fill : ℕ → ℕ → List ℕ
fill zero b = []
fill (suc n) b = b ∷ fill n b

-- The key of 64 equal bytes.
abbrev pub key_of : ℕ → Key
key_of b = record { id = fill 64 b }

abbrev pub header_of : ℕ → DiskControl
header_of b = record { key = key_of b; flags = 0; data_size = 10; disk_size = 106; position = 0 }

-- One base without a sorted index. Its index has the header of `key_of 7` at 0 and that of
-- `key_of 9` at 96; reading at 192 is cut short, and elsewhere fails.
abbrev pub sample_disk : Disk
sample_disk = record {
  base = λ b. record { index_fd = some 5; sort_fd = none };
  pread = λ fd offset.
      if offset == 0
      then full (header_of 7)
      else if offset == 96
      then full (header_of 9)
      else if offset == 192
      then short 40
      else failed 5;
}

abbrev pub rctl_at : ℕ → ℕ → RamControl
rctl_at index_offset size = record {
  data_offset = 0;
  index_offset = index_offset;
  size = size;
  bctl = some 1;
}

pub seven-BelongsTo : (size : ℕ) → BelongsTo sample_disk (key_of 7) (rctl_at 0 size)
unfolding index_hdr get_index_fd
seven-BelongsTo size = (header_of 7, refl, refl)

pub nine-BelongsTo : (size : ℕ) → BelongsTo sample_disk (key_of 9) (rctl_at 96 size)
unfolding index_hdr get_index_fd
nine-BelongsTo size = (header_of 9, refl, refl)
