-- ===== src/Bloom/Bits.antt =====
-- One bit of the filter: reading it after a write.
use Prim.Native.Nat.{ℕ}
use eblob.Base.{
  if◌then◌else◌, zero, suc, ◌/◌, ◌%◌, ◌^◌, ◌<◌, bit_and, bit_or, List, [], ◌∷◌, Bool, true, false,
  ◌&&◌, ltb, ltb→lt, length, All, ◌≡◌, refl, ap, arith, not, ◌||◌,
}
use eblob.Bloom.{byte_at, or_byte, has_bit, add_bit}

-- A test passes for every number under a bound.
passes_under : (ℕ → Bool) → ℕ → Bool
passes_under test zero = true
passes_under test (suc bound) = if test bound then passes_under test bound else false

passes_at :
    (test : ℕ → Bool) (bound : ℕ) {k : ℕ}
    → passes_under test bound ≡ true
    → k < bound
    → test k ≡ true
unfolding passes_under
passes_at test zero ok_so_far inside = elim inside [ ]
passes_at test (suc bound) {k} ok_so_far inside = ground (arith, passes_at test bound {k = k})

-- Every byte, with every bit that may be written and every bit that may be read.
or_table :
    passes_under
      (λ x.
        passes_under
          (λ b.
            ltb (bit_or x (2 ^ b)) 256
            && ltb 0 (bit_and (bit_or x (2 ^ b)) (2 ^ b))
            && passes_under
                (λ c. not (ltb 0 (bit_and x (2 ^ c))) || ltb 0 (bit_and (bit_or x (2 ^ b)) (2 ^ c)))
                8)
          8)
      256
    ≡ true
unfolding passes_under
or_table = refl

both : (a b : Bool) → (a && b) ≡ true → (a ≡ true) × (b ≡ true)
both a b h = ground arith

module _ (x b : ℕ) (hx : x < 256) (hb : b < 8) where
  or_facts :
      (bit_or x (2 ^ b) < 256)
      × (ltb 0 (bit_and (bit_or x (2 ^ b)) (2 ^ b)) ≡ true)
      × ((c : ℕ)
          → c < 8
          → ltb 0 (bit_and x (2 ^ c)) ≡ true
          → ltb 0 (bit_and (bit_or x (2 ^ b)) (2 ^ c)) ≡ true)
  or_facts =
      let row = passes_at _ 256 or_table hx in
      let cell = both _ _ (passes_at _ 8 row hb) in
      let first = both _ _ cell.0 in
      (ltb→lt _ _ first.0, first.1, λ c hc set. implied _ _ (passes_at _ 8 cell.1 hc) set)
    where
      implied : (p q : Bool) → (not p || q) ≡ true → p ≡ true → q ≡ true
      implied p q h k = ground arith

abbrev pub IsByte : ℕ → Type 0
IsByte x = x < 256

byte_at-IsByte : (bs : List ℕ) (i : ℕ) → All IsByte bs → byte_at bs i < 256
byte_at-IsByte [] i h = omega arith
byte_at-IsByte (x ∷ bs) zero h = h.0
byte_at-IsByte (x ∷ bs) (suc i) h = byte_at-IsByte bs i h.1

pub length-or_byte : (bs : List ℕ) (i m : ℕ) → length (or_byte bs i m) ≡ length bs
length-or_byte [] i m = refl
length-or_byte (x ∷ bs) zero m = refl
length-or_byte (x ∷ bs) (suc i) m = ap suc (length-or_byte bs i m)

or_byte-IsByte : (bs : List ℕ) (i b : ℕ) → b < 8 → All IsByte bs → All IsByte (or_byte bs i (2 ^ b))
or_byte-IsByte [] i b hb h = tt
or_byte-IsByte (x ∷ bs) zero b hb h = ((or_facts x b h.0 hb).0, h.1)
or_byte-IsByte (x ∷ bs) (suc i) b hb h = (h.0, or_byte-IsByte bs i b hb h.1)

set_in_byte :
    (bs : List ℕ) (i b : ℕ)
    → i < length bs
    → b < 8
    → All IsByte bs
    → ltb 0 (bit_and (byte_at (or_byte bs i (2 ^ b)) i) (2 ^ b)) ≡ true
set_in_byte [] i b hi hb h = absurd (omega arith)
set_in_byte (x ∷ bs) zero b hi hb h = (or_facts x b h.0 hb).1
set_in_byte (x ∷ bs) (suc i) b hi hb h = set_in_byte bs i b (omega arith) hb h.1

kept_in_byte :
    (bs : List ℕ) (i b j c : ℕ)
    → b < 8
    → c < 8
    → All IsByte bs
    → ltb 0 (bit_and (byte_at bs j) (2 ^ c)) ≡ true
    → ltb 0 (bit_and (byte_at (or_byte bs i (2 ^ b)) j) (2 ^ c)) ≡ true
kept_in_byte [] i b j c hb hc h set = set
kept_in_byte (x ∷ bs) zero b zero c hb hc h set = (or_facts x b h.0 hb).2 c hc set
kept_in_byte (x ∷ bs) zero b (suc j) c hb hc h set = set
kept_in_byte (x ∷ bs) (suc i) b zero c hb hc h set = set
kept_in_byte (x ∷ bs) (suc i) b (suc j) c hb hc h set = kept_in_byte bs i b j c hb hc h.1 set

-- The laws of `has_bit` and `add_bit`.
pub add_bit-IsByte : (bloom : List ℕ) (bit : ℕ) → All IsByte bloom → All IsByte (add_bit bloom bit)
unfolding add_bit
add_bit-IsByte bloom bit h = or_byte-IsByte bloom (bit / 8) (bit % 8) (omega arith) h

pub has_bit-add_bit :
    (bloom : List ℕ) (bit : ℕ)
    → bit / 8 < length bloom
    → All IsByte bloom
    → has_bit (add_bit bloom bit) bit ≡ true
unfolding has_bit add_bit
has_bit-add_bit bloom bit hi h = set_in_byte bloom (bit / 8) (bit % 8) hi (omega arith) h

pub has_bit-add_bit_kept :
    (bloom : List ℕ) (bit other : ℕ)
    → All IsByte bloom
    → has_bit bloom other ≡ true
    → has_bit (add_bit bloom bit) other ≡ true
unfolding has_bit add_bit
has_bit-add_bit_kept bloom bit other h set =
    kept_in_byte bloom (bit / 8) (bit % 8) (other / 8) (other % 8) (omega arith) (omega arith) h set
