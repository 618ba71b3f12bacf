-- ===== src/Tests/Transfers.antt =====
-- The transfers of library/blob.c at concrete inputs.
use eblob.Base.{ℕ, ◌≤◌, ◌+◌, [], ◌∷◌, ◌≡◌, refl, ◌⊎◌, inl, inr, arith, true}
use eblob.Files.{File, moved, failed, put, bytes_at, write_ll, read_ll, copy_data}
use eblob.Files.Transfers.{write_ll-put, read_ll-bytes_at}
use eblob.Files.Copies.{copy_data-Copied}
use eblob.Files.Copies.Rounds.{Copied}

-- A file of 20 bytes, each its own offset.
abbrev twenty_bytes : File
twenty_bytes = record { size = 20; byte = λ i. i }

write_ll-put_example :
    (write_ll (moved 2 ∷ []) twenty_bytes 5 (90 ∷ 91 ∷ 92 ∷ [])).1
    ≡ put twenty_bytes 5 (90 ∷ 91 ∷ 92 ∷ [])
unfolding write_ll
write_ll-put_example = write_ll-put (moved 2 ∷ []) twenty_bytes 5 (90 ∷ 91 ∷ 92 ∷ []) refl

read_ll-bytes_at_example :
    (17 ∷ 18 ∷ 19 ∷ [] ≡ bytes_at twenty_bytes 17 3) × (◌≡◌ {A = ℕ} 3 0 ⊎ (17 + 3 ≤ 20))
unfolding read_ll
read_ll-bytes_at_example =
    read_ll-bytes_at (moved 1 ∷ []) twenty_bytes 17 3 (17 ∷ 18 ∷ 19 ∷ []) refl

copy_data-Copied_example :
    Copied 4 4
      (λ fd. twenty_bytes)
      0
      10
      5
      (copy_data true (moved 2 ∷ failed 5 ∷ []) (λ fd. twenty_bytes) 4 0 4 10 5)
copy_data-Copied_example =
    copy_data-Copied 4 4 true (moved 2 ∷ failed 5 ∷ []) (λ fd. twenty_bytes) 0 10 5
      (inr (inl (omega arith)))
