-- ===== src/L2hash/Murmur.antt =====
-- library/l2hash.c: `eblob_l2hash_data` in its two versions, and `eblob_l2hash_key`.
--
-- Words are loaded in the byte order of a little-endian machine. The functions read `len` bytes;
-- a byte that the list does not have reads as 0.
use eblob.Base.{ℕ, zero, suc, ◌+◌, ◌*◌, ◌/◌, ◌%◌, ◌^◌, bit_xor, List, [], ◌∷◌, leb, if◌then◌else◌}
use eblob.Key.{Key}

abbrev word64 : ℕ → ℕ
word64 x = x % 2 ^ 64

abbrev word32 : ℕ → ℕ
word32 x = x % 2 ^ 32

byte_at : List ℕ → ℕ → ℕ
byte_at [] i = 0
byte_at (b ∷ bs) zero = b
byte_at (b ∷ bs) (suc i) = byte_at bs i

drop : ℕ → List ℕ → List ℕ
drop zero bs = bs
drop (suc n) [] = []
drop (suc n) (b ∷ bs) = drop n bs

-- The little-endian number in the first `n` bytes.
load : ℕ → List ℕ → ℕ
load zero bs = 0
load (suc n) [] = 0
load (suc n) (b ∷ bs) = b + 256 * load n bs

abbrev m64 : ℕ
m64 = 0xc6a4a7935bd1e995

-- One round of the loop over the 64-bit words.
mix64 : ℕ → ℕ → ℕ
mix64 h word =
    let k1 = word64 (word * m64) in
    let k2 = word64 (bit_xor k1 (k1 / 2 ^ 47) * m64) in word64 (bit_xor h k2 * m64)

-- The loop `while (data != end)`, by the words that are left.
rounds64 : ℕ → ℕ → List ℕ → ℕ
unfolding mix64 load drop
rounds64 zero h bs = h
rounds64 (suc n) h bs = rounds64 n (mix64 h (load 8 bs)) (drop 8 bs)

-- The switch on `len & 7`: the cases fall through, and every one but 0 ends in the multiplication.
tail64 : ℕ → ℕ → List ℕ → ℕ
unfolding byte_at
tail64 rest h bs =
    let h6 = if leb 7 rest then bit_xor h (byte_at bs 6 * 2 ^ 48) else h in
    let h5 = if leb 6 rest then bit_xor h6 (byte_at bs 5 * 2 ^ 40) else h6 in
    let h4 = if leb 5 rest then bit_xor h5 (byte_at bs 4 * 2 ^ 32) else h5 in
    let h3 = if leb 4 rest then bit_xor h4 (byte_at bs 3 * 2 ^ 24) else h4 in
    let h2 = if leb 3 rest then bit_xor h3 (byte_at bs 2 * 2 ^ 16) else h3 in
    let h1 = if leb 2 rest then bit_xor h2 (byte_at bs 1 * 2 ^ 8) else h2 in
    if leb 1 rest then word64 (bit_xor h1 (byte_at bs 0) * m64) else h

final64 : ℕ → ℕ
final64 h = let h1 = word64 (bit_xor h (h / 2 ^ 47) * m64) in bit_xor h1 (h1 / 2 ^ 47)

-- The 64-bit `eblob_l2hash_data` (MurmurHash64A).
unfoldable pub l2hash_data : List ℕ → ℕ → ℕ → ℕ
unfolding rounds64 tail64 final64
l2hash_data key len seed =
    let h = rounds64 (len / 8) (bit_xor seed (word64 (len * m64))) key in
    final64 (tail64 (len % 8) h (drop (len / 8 * 8) key))

abbrev m32 : ℕ
m32 = 0x5bd1e995

-- One round of the loop over the 32-bit words.
mix32 : ℕ → ℕ → ℕ
mix32 h word =
    let k1 = word32 (word * m32) in
    let k2 = word32 (bit_xor k1 (k1 / 2 ^ 24) * m32) in bit_xor (word32 (h * m32)) k2

rounds32 : ℕ → ℕ → List ℕ → ℕ
unfolding mix32 load drop
rounds32 zero h bs = h
rounds32 (suc n) h bs = rounds32 n (mix32 h (load 4 bs)) (drop 4 bs)

tail32 : ℕ → ℕ → List ℕ → ℕ
unfolding byte_at
tail32 rest h bs =
    let h2 = if leb 3 rest then bit_xor h (byte_at bs 2 * 2 ^ 16) else h in
    let h1 = if leb 2 rest then bit_xor h2 (byte_at bs 1 * 2 ^ 8) else h2 in
    if leb 1 rest then word32 (bit_xor h1 (byte_at bs 0) * m32) else h

final32 : ℕ → ℕ
final32 h = let h1 = word32 (bit_xor h (h / 2 ^ 13) * m32) in bit_xor h1 (h1 / 2 ^ 15)

-- The `eblob_l2hash_data` of a build with HASH32 (MurmurHash2).
unfoldable pub l2hash_data32 : List ℕ → ℕ → ℕ → ℕ
unfolding rounds32 tail32 final32
l2hash_data32 key len seed =
    let h = rounds32 (len / 4) (bit_xor seed len) key in
    final32 (tail32 (len % 4) h (drop (len / 4 * 4) key))

-- `eblob_l2hash_key`, in a build without HASH32.
unfoldable pub l2hash_key : Key → ℕ
unfolding l2hash_data
l2hash_key key = l2hash_data key.id 64 0
