-- ===== src/Tests/Filters.antt =====
-- The Bloom filter of library/blob.h at concrete inputs.
use eblob.Base.{ℕ, List, [], ◌∷◌, All, true, false, some, ok, ◌≡◌, refl, arith}
use eblob.Bloom.{BloomFilter, bloom_get}
use eblob.Bloom.Members.{IsAllocated, add_keys, add_keys-present}
use eblob.L2hash.Murmur.{l2hash_key, l2hash_data, l2hash_data32}
use eblob.Tests.Samples.{key_of}

abbrev hello : List ℕ
hello = 104 ∷ 101 ∷ 108 ∷ 108 ∷ 111 ∷ 32 ∷ 119 ∷ 111 ∷ 114 ∷ 108 ∷ 100 ∷ []

abbrev empty_filter : BloomFilter
empty_filter = record {
  bloom = some (0 ∷ 0 ∷ 0 ∷ 0 ∷ 0 ∷ 0 ∷ 0 ∷ 0 ∷ 0 ∷ 0 ∷ 0 ∷ []);
  bloom_size = 11;
  bloom_func_num = 4;
}

empty_filter-IsAllocated : IsAllocated empty_filter (0 ∷ 0 ∷ 0 ∷ 0 ∷ 0 ∷ 0 ∷ 0 ∷ 0 ∷ 0 ∷ 0 ∷ 0 ∷ [])
empty_filter-IsAllocated = record {
  array = refl;
  bytes = omega arith;
  width = refl;
  positive = omega arith;
}

-- A key that was not added is denied.
denied : bloom_get (add_keys empty_filter (key_of 7 ∷ [])) (key_of 2) ≡ ok false
unfolding bloom_get add_keys
denied = refl

add_keys-present_example :
    All
      (λ k. bloom_get (add_keys empty_filter (key_of 7 ∷ key_of 9 ∷ [])) k ≡ ok true)
      (key_of 7 ∷ key_of 9 ∷ [])
add_keys-present_example =
    add_keys-present (key_of 7 ∷ key_of 9 ∷ []) empty_filter empty_filter-IsAllocated

-- The two versions of the short hash, against values computed apart.
short_hashes :
    (l2hash_key (key_of 7) ≡ 578287972533784322)
    × (l2hash_data hello 11 0 ≡ 15256545620076441550)
    × (l2hash_data32 hello 11 0 ≡ 1151865881)
unfolding l2hash_key l2hash_data32
short_hashes = (refl, refl, refl)
