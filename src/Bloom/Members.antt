-- ===== src/Bloom/Members.antt =====
-- The Bloom filter and the keys that are added to it.
use eblob.Base.{
  ℕ, zero, suc, ◌+◌, ◌-◌, ◌/◌, ◌<◌, ◌==◌, List, [], ◌∷◌, true, false, some, ok, length, All,
  All-imp, ok_inj, ◌≡◌, refl, ap, sym, ◌∙◌, arith,
}
use eblob.Key.{Key}
use eblob.Bloom.{
  BloomFilter, bloom_calc, loop_bits, key_bits, has_bit, add_bit, has_bits, add_bits, bloom_get,
  bloom_set,
}
use eblob.Bloom.Bits.{IsByte, length-or_byte, add_bit-IsByte, has_bit-add_bit, has_bit-add_bit_kept}

-- As `calloc` and the fill loop leave it: `bloom_size` bytes, and not none.
pub record IsAllocated (b : BloomFilter) (bloom : List ℕ) : Type 0 where
  pub array : b.bloom ≡ some bloom
  pub bytes : All IsByte bloom
  pub width : length bloom ≡ b.bloom_size
  pub positive : 0 < b.bloom_size

loop_bits-lt : (h1 h2 size n i : ℕ) → 0 < size → All (λ bit. bit < size) (loop_bits h1 h2 size n i)
unfolding loop_bits
loop_bits-lt h1 h2 size zero i pos = tt
loop_bits-lt h1 h2 size (suc n) i pos = (omega arith, loop_bits-lt h1 h2 size n (i + 1) pos)

pub key_bits-lt :
    (key : Key) (size func_num : ℕ)
    → 0 < size
    → All (λ bit. bit < size) (key_bits key size func_num)
unfolding key_bits bloom_calc
key_bits-lt key size func_num pos =
    (omega arith, (omega arith, loop_bits-lt _ _ size (func_num - 2) 2 pos))

length-add_bit : (bloom : List ℕ) (bit : ℕ) → length (add_bit bloom bit) ≡ length bloom
unfolding add_bit
length-add_bit bloom bit = length-or_byte bloom _ _

add_bits-IsByte :
    (bits bloom : List ℕ)
    → All IsByte bloom
    → All IsByte (add_bits bloom bits) × (length (add_bits bloom bits) ≡ length bloom)
unfolding add_bits
add_bits-IsByte [] bloom h = (h, refl)
add_bits-IsByte (b ∷ bits) bloom h =
    let (bytes, width) = add_bits-IsByte bits (add_bit bloom b) (add_bit-IsByte bloom b h) in
    (bytes, width ∙ length-add_bit bloom b)

has_bit-add_bits :
    (bits bloom : List ℕ) (other : ℕ)
    → All IsByte bloom
    → has_bit bloom other ≡ true
    → has_bit (add_bits bloom bits) other ≡ true
unfolding add_bits
has_bit-add_bits [] bloom other h set = set
has_bit-add_bits (b ∷ bits) bloom other h set =
    has_bit-add_bits bits (add_bit bloom b) other (add_bit-IsByte bloom b h)
      (has_bit-add_bit_kept bloom b other h set)

has_bits-add_bits :
    (bits bloom : List ℕ)
    → All IsByte bloom
    → All (λ bit. bit / 8 < length bloom) bits
    → has_bits (add_bits bloom bits) bits ≡ true
unfolding add_bits has_bits
has_bits-add_bits [] bloom h inside = refl
has_bits-add_bits (b ∷ bits) bloom h inside =
    rw
      (has_bit-add_bits bits (add_bit bloom b) b (add_bit-IsByte bloom b h)
        (has_bit-add_bit bloom b inside.0 h))
      (has_bits-add_bits bits (add_bit bloom b) (add_bit-IsByte bloom b h)
        (inside_of bits inside.1))
  where
    inside_of :
        (rest : List ℕ)
        → All (λ bit. bit / 8 < length bloom) rest
        → All (λ bit. bit / 8 < length (add_bit bloom b)) rest
    inside_of [] i = tt
    inside_of (x ∷ rest) i = (rw length-add_bit i.0, inside_of rest i.1)

has_bits_kept :
    (bits bloom added : List ℕ)
    → All IsByte bloom
    → has_bits bloom bits ≡ true
    → has_bits (add_bits bloom added) bits ≡ true
unfolding has_bits
has_bits_kept [] bloom added h set = refl
has_bits_kept (b ∷ bits) bloom added h set =
    ground (arith, has_bit-add_bits added bloom b h, has_bits_kept bits bloom added h)

-- After the keys are added one after the other, as `eblob_index_blocks_fill` adds them.
unfoldable pub add_keys : BloomFilter → List Key → BloomFilter
unfolding bloom_set
add_keys b [] = b
add_keys b (k ∷ ks) = add_keys (bloom_set b k) ks

module _ (b : BloomFilter) {bloom : List ℕ} (a : IsAllocated b bloom) (k : Key) where
  bits_inside : All (λ bit. bit / 8 < length bloom) (key_bits k b.bloom_size b.bloom_func_num)
  bits_inside =
      All-imp _ _ (λ bit (h : bit < b.bloom_size). omega (arith, a.width))
        (key_bits k b.bloom_size b.bloom_func_num)
        (key_bits-lt k b.bloom_size b.bloom_func_num a.positive)

  size_test : (b.bloom_size == 0) ≡ false
  size_test = ground (arith, a.positive)

  abbrev pub added : List ℕ
  added = add_bits bloom (key_bits k b.bloom_size b.bloom_func_num)

  pub bloom_set_lem : bloom_set b k ≡ record b { bloom = some added }
  unfolding bloom_set
  bloom_set_lem = rw (a.array, bloom_set, size_test)

  pub bloom_set-IsAllocated : IsAllocated (record b { bloom = some added }) added
  bloom_set-IsAllocated =
      let (bytes, width) =
        add_bits-IsByte (key_bits k b.bloom_size b.bloom_func_num) bloom a.bytes in
      record { array = refl; bytes = bytes; width = width ∙ a.width; positive = a.positive }

  pub bloom_set-IsAllocated_self : IsAllocated (bloom_set b k) added
  bloom_set-IsAllocated_self = rw bloom_set_lem bloom_set-IsAllocated

  pub bloom_get_lem : bloom_get b k ≡ ok (has_bits bloom (key_bits k b.bloom_size b.bloom_func_num))
  unfolding bloom_get
  bloom_get_lem = rw (a.array, bloom_get, size_test)

-- A key that has been added is found, and stays found whatever is added later.
pub bloom_get-bloom_set :
    (b : BloomFilter) {bloom : List ℕ}
    → IsAllocated b bloom
    → (k : Key) → bloom_get (bloom_set b k) k ≡ ok true
bloom_get-bloom_set b {bloom} a k = rw (bloom_set_lem b a k) (
    bloom_get_lem _ (bloom_set-IsAllocated b a k) k
    ∙ ap ok (
        has_bits-add_bits (key_bits k b.bloom_size b.bloom_func_num) bloom a.bytes
          (bits_inside b a k)))

pub bloom_get-bloom_set_kept :
    (b : BloomFilter) {bloom : List ℕ}
    → IsAllocated b bloom
    → (k q : Key) → bloom_get b q ≡ ok true
    → bloom_get (bloom_set b k) q ≡ ok true
bloom_get-bloom_set_kept b {bloom} a k q h =
    let set : has_bits bloom (key_bits q b.bloom_size b.bloom_func_num) ≡ true =
      ok_inj (sym (bloom_get_lem b a q) ∙ h) in
    rw (bloom_set_lem b a k) (
      bloom_get_lem _ (bloom_set-IsAllocated b a k) q
      ∙ ap ok (
          has_bits_kept (key_bits q b.bloom_size b.bloom_func_num) bloom
            (key_bits k b.bloom_size b.bloom_func_num) a.bytes set))

add_keys_kept :
    (ks : List Key) (b : BloomFilter) {bloom : List ℕ}
    → IsAllocated b bloom
    → (q : Key) → bloom_get b q ≡ ok true
    → bloom_get (add_keys b ks) q ≡ ok true
unfolding add_keys
add_keys_kept [] b a q h = h
add_keys_kept (k ∷ ks) b {bloom} a q h =
    add_keys_kept ks (bloom_set b k) (bloom_set-IsAllocated_self b a k) q
      (bloom_get-bloom_set_kept b a k q h)

-- The filter has no false negatives: after any keys have been added to an allocated filter, in
-- any order, every one of them is reported as present.
pub add_keys-present :
    (ks : List Key) (b : BloomFilter) {bloom : List ℕ}
    → IsAllocated b bloom
    → All (λ k. bloom_get (add_keys b ks) k ≡ ok true) ks
unfolding add_keys
add_keys-present [] b a = tt
add_keys-present (k ∷ ks) b {bloom} a =
    let next = bloom_set-IsAllocated_self b a k in
    (
      add_keys_kept ks (bloom_set b k) next k (bloom_get-bloom_set b a k),
      add_keys-present ks (bloom_set b k) next,
    )
