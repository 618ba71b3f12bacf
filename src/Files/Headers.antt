-- ===== src/Files/Headers.antt =====
-- include/eblob/blob.h: `struct eblob_disk_control` and `struct eblob_disk_footer` as the bytes that
-- stand in a file, in little-endian order, packed.
use eblob.Base.{
  ℕ, zero, suc, ◌+◌, ◌*◌, ◌/◌, ◌%◌, ◌^◌, ◌<◌, List, [], ◌∷◌, ◌++◌, length, length-append, ◌≡◌, refl,
  ap, arith,
}
use eblob.Record.{DiskControl}
use eblob.Files.{take, drop}

-- A `uint64_t`, the low byte first.
unfoldable pub le64 : ℕ → List ℕ
le64 n =
    n % 256
    ∷ n / 256 % 256
    ∷ n / 2 ^ 16 % 256
    ∷ n / 2 ^ 24 % 256
    ∷ n / 2 ^ 32 % 256
    ∷ n / 2 ^ 40 % 256
    ∷ n / 2 ^ 48 % 256
    ∷ n / 2 ^ 56 % 256
    ∷ []

unfoldable pub of_le : List ℕ → ℕ
of_le [] = 0
of_le (b ∷ bs) = b + 256 * of_le bs

unfoldable pub encode : DiskControl → List ℕ
unfolding le64
encode dc =
    dc.key.id ++ (le64 dc.flags ++ (le64 dc.data_size ++ (le64 dc.disk_size ++ le64 dc.position)))

unfoldable pub decode : List ℕ → DiskControl
unfolding of_le
decode bs = record {
  key = record { id = take 64 bs };
  flags = of_le (take 8 (drop 64 bs));
  data_size = of_le (take 8 (drop 72 bs));
  disk_size = of_le (take 8 (drop 80 bs));
  position = of_le (take 8 (drop 88 bs));
}

-- A header that fits its fields.
pub record IsHeader (dc : DiskControl) : Type 0 where
  pub id : length dc.key.id ≡ 64
  pub flags : dc.flags < 2 ^ 64
  pub data_size : dc.data_size < 2 ^ 64
  pub disk_size : dc.disk_size < 2 ^ 64
  pub position : dc.position < 2 ^ 64

pub take-append : (n : ℕ) (xs ys : List ℕ) → length xs ≡ n → take n (xs ++ ys) ≡ xs
take-append zero [] ys h = refl
take-append zero (x ∷ xs) ys h = absurd (omega (arith, h))
take-append (suc n) [] ys h = absurd (omega (arith, h))
take-append (suc n) (x ∷ xs) ys h = ap (λ l. x ∷ l) (take-append n xs ys (omega (arith, h)))

pub length-encode : (dc : DiskControl) → length dc.key.id ≡ 64 → length (encode dc) ≡ 96
unfolding encode le64
length-encode dc h = omega (
  arith,
  h,
  length-append dc.key.id
      (le64 dc.flags ++ (le64 dc.data_size ++ (le64 dc.disk_size ++ le64 dc.position))),
)

-- The words of a header, after the id.
abbrev words : DiskControl → List ℕ
words dc = le64 dc.flags ++ (le64 dc.data_size ++ (le64 dc.disk_size ++ le64 dc.position))
