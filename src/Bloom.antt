-- ===== src/Bloom.antt =====
-- library/blob.h: the Bloom filter of a base with a sorted index (`__eblob_bloom_hash_fnv1a`,
-- `__eblob_bloom_hash_knr`, `__eblob_bloom_calc` and `eblob_bloom_ll` with its two callers).
--
-- The bits that a key stands for are computed in the order in which both commands visit them.
use eblob.Base.{
  ℕ, zero, suc, ◌+◌, ◌-◌, ◌*◌, ◌/◌, ◌%◌, ◌^◌, bit_and, bit_or, bit_xor, List, [], ◌∷◌, Bool, true,
  false, ◌==◌, if◌then◌else◌, Option, none, some, Outcome, ok, err, einval, ◌||◌, ltb,
}
use eblob.Key.{Key}
pub mod Bits
pub mod Members

-- The fields of `struct eblob_base_ctl` that the filter uses; a null pointer is `none`. The byte
-- array is the list of its bytes.
pub record BloomFilter : Type 0 where
  pub bloom : Option (List ℕ)
  pub bloom_size : ℕ
  pub bloom_func_num : ℕ

-- `__eblob_bloom_hash_fnv1a`: all bytes of the id.
fnv1a_from : ℕ → List ℕ → ℕ
fnv1a_from hash [] = hash
fnv1a_from hash (b ∷ bs) = fnv1a_from (bit_xor hash b * 1099511628211 % 2 ^ 64) bs

unfoldable pub bloom_hash_fnv1a : Key → ℕ
unfolding fnv1a_from
bloom_hash_fnv1a key = fnv1a_from 14695981039346656037 key.id

-- `__eblob_bloom_hash_knr`: the first EBLOB_ID_SIZE / sizeof(uint64_t), that is 8, bytes.
knr_from : ℕ → ℕ → List ℕ → ℕ
knr_from zero hash bs = hash
knr_from (suc n) hash [] = hash
knr_from (suc n) hash (b ∷ bs) = knr_from n ((hash + b) % 2 ^ 64) bs

unfoldable pub bloom_hash_knr : Key → ℕ
unfolding knr_from
bloom_hash_knr key = knr_from 8 0 key.id

pub data BloomHashType : Type 0 where
  knr fnv : BloomHashType

-- `__eblob_bloom_calc`: `*hash_num`; `*bloom_byte_num` and `*bloom_bit_num` are its quotient and
-- its remainder by 8.
unfoldable pub bloom_calc : Key → ℕ → BloomHashType → ℕ
unfolding bloom_hash_knr bloom_hash_fnv1a
bloom_calc key bloom_len knr = bloom_hash_knr key % bloom_len
bloom_calc key bloom_len fnv = bloom_hash_fnv1a key % bloom_len

-- The bits of the loop `for (i = 2; i < bloom_func_num; ++i)`, by the rounds that are left.
unfoldable pub loop_bits : ℕ → ℕ → ℕ → ℕ → ℕ → List ℕ
loop_bits h1 h2 size zero i = []
loop_bits h1 h2 size (suc n) i =
    ((h1 + i * h2 % 2 ^ 64) % 2 ^ 64 % size) ∷ loop_bits h1 h2 size n (i + 1)

unfoldable pub key_bits : Key → ℕ → ℕ → List ℕ
unfolding bloom_calc loop_bits
key_bits key size func_num =
    let h1 = bloom_calc key size knr in
    let h2 = bloom_calc key size fnv in h1 ∷ h2 ∷ loop_bits h1 h2 size (func_num - 2) 2

-- `bloom[bit / 8] & (1 << (bit % 8))`
abbrev pub byte_at : List ℕ → ℕ → ℕ
byte_at [] i = 0
byte_at (b ∷ bs) zero = b
byte_at (b ∷ bs) (suc i) = byte_at bs i

unfoldable pub has_bit : List ℕ → ℕ → Bool
has_bit bloom bit = ltb 0 (bit_and (byte_at bloom (bit / 8)) (2 ^ (bit % 8)))

-- `bloom[bit / 8] |= 1 << (bit % 8)`
abbrev pub or_byte : List ℕ → ℕ → ℕ → List ℕ
or_byte [] i m = []
or_byte (b ∷ bs) zero m = bit_or b m ∷ bs
or_byte (b ∷ bs) (suc i) m = b ∷ or_byte bs i m

unfoldable pub add_bit : List ℕ → ℕ → List ℕ
add_bit bloom bit = or_byte bloom (bit / 8) (2 ^ (bit % 8))

-- The tests of EBLOB_BLOOM_CMD_GET, up to the first bit that is clear.
unfoldable pub has_bits : List ℕ → List ℕ → Bool
unfolding has_bit
has_bits bloom [] = true
has_bits bloom (bit ∷ bits) = if has_bit bloom bit then has_bits bloom bits else false

-- The writes of EBLOB_BLOOM_CMD_SET.
unfoldable pub add_bits : List ℕ → List ℕ → List ℕ
unfolding add_bit
add_bits bloom [] = bloom
add_bits bloom (bit ∷ bits) = add_bits (add_bit bloom bit) bits

-- `eblob_bloom_get`: `eblob_bloom_ll` with EBLOB_BLOOM_CMD_GET.
unfoldable pub bloom_get : BloomFilter → Key → Outcome Bool
unfolding has_bits key_bits
bloom_get bctl key = elim bctl.bloom [
  | none ↦ err einval
  | some bloom ↦
      if bctl.bloom_size == 0
      then err einval
      else ok (has_bits bloom (key_bits key bctl.bloom_size bctl.bloom_func_num))
]

-- `eblob_bloom_set`: `eblob_bloom_ll` with EBLOB_BLOOM_CMD_SET; its result is ignored.
unfoldable pub bloom_set : BloomFilter → Key → BloomFilter
unfolding add_bits key_bits
bloom_set bctl key = elim bctl.bloom [
  | none ↦ bctl
  | some bloom ↦ if bctl.bloom_size == 0 then bctl else record bctl {
    bloom = some (add_bits bloom (key_bits key bctl.bloom_size bctl.bloom_func_num));
  }
]
