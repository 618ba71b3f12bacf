-- ===== src/Key/Order.antt =====
-- Comparisons as total orders, that of ids among them.
use Prim.Native.Nat.Ordering.{lt, eq, gt}
use eblob.Base.{ℕ, compare, Ordering, List, [], ◌∷◌, ◌≡◌, refl, ap, ◌⊎◌, inl, inr, arith}
use eblob.Key.{Key, memcmp, id_cmp}

abbrev pub flip : Ordering → Ordering
flip lt = gt
flip eq = eq
flip gt = lt

-- What the walks of a search tree need of a three-way comparison.
pub record IsOrder {ℓ} {K : Type ℓ} (cmp : K → K → Ordering) : Type ℓ where
  pub same : (a : K) → cmp a a ≡ eq
  pub eq_of_cmp : (a b : K) → cmp a b ≡ eq → a ≡ b
  pub swap : (a b : K) → cmp b a ≡ flip (cmp a b)
  pub lt_trans : (a b c : K) → cmp a b ≡ lt → cmp b c ≡ lt → cmp a c ≡ lt

pub compare-IsOrder : IsOrder compare
compare-IsOrder = ground arith

pub memcmp_same : (a : List ℕ) → memcmp a a ≡ eq
unfolding memcmp
memcmp_same [] = refl
memcmp_same (x ∷ xs) = ground (arith, memcmp_same xs)

eq_of_memcmp : (a b : List ℕ) → memcmp a b ≡ eq → a ≡ b
unfolding memcmp
eq_of_memcmp [] [] h = refl
eq_of_memcmp [] (y ∷ ys) h = cc
eq_of_memcmp (x ∷ xs) [] h = cc
eq_of_memcmp (x ∷ xs) (y ∷ ys) h = ground (arith, eq_of_memcmp xs ys)

memcmp_swap : (a b : List ℕ) → memcmp b a ≡ flip (memcmp a b)
unfolding memcmp
memcmp_swap [] [] = refl
memcmp_swap [] (y ∷ ys) = refl
memcmp_swap (x ∷ xs) [] = refl
memcmp_swap (x ∷ xs) (y ∷ ys) = ground (arith, memcmp_swap xs ys)

memcmp-lt_trans : (a b c : List ℕ) → memcmp a b ≡ lt → memcmp b c ≡ lt → memcmp a c ≡ lt
unfolding memcmp
memcmp-lt_trans [] [] c h k = cc
memcmp-lt_trans [] (y ∷ ys) [] h k = cc
memcmp-lt_trans [] (y ∷ ys) (z ∷ zs) h k = refl
memcmp-lt_trans (x ∷ xs) [] c h k = cc
memcmp-lt_trans (x ∷ xs) (y ∷ ys) [] h k = cc
memcmp-lt_trans (x ∷ xs) (y ∷ ys) (z ∷ zs) h k = ground (arith, memcmp-lt_trans xs ys zs)

-- The comparison of two keys as the walks that descend left for a smaller key make it.
abbrev pub key_cmp : Key → Key → Ordering
key_cmp a b = id_cmp a.id b.id

-- The comparison of ids is a total order in which only equal keys compare as equal.
pub key_cmp-IsOrder : IsOrder key_cmp
unfolding id_cmp
key_cmp-IsOrder = record {
  same = λ a. memcmp_same a.id;
  eq_of_cmp = λ a b h. ap (λ i. record { id = i }) (eq_of_memcmp a.id b.id h);
  swap = λ a b. memcmp_swap a.id b.id;
  lt_trans = λ a b c. memcmp-lt_trans a.id b.id c.id;
}

-- An order read backwards is an order: the walks of hash.c pass the key as the second argument.
pub IsOrder-flip {ℓ} :
    {K : Type ℓ} (cmp : K → K → Ordering) → IsOrder cmp → IsOrder (λ a b. cmp b a)
IsOrder-flip cmp o = record {
  same = o.same;
  eq_of_cmp = λ a b h. ground (arith, o.eq_of_cmp b a);
  swap = λ a b. o.swap b a;
  lt_trans = λ a b c h k. o.lt_trans c b a k h;
}

-- Whether two keys are the same.
pub Key-cases : (a b : Key) → (a ≡ b) ⊎ (a ≡ b → ⊥)
Key-cases a b = go (key_cmp a b) refl
  where
    go : (o : Ordering) → key_cmp a b ≡ o → (a ≡ b) ⊎ (a ≡ b → ⊥)
    go eq h = inl (key_cmp-IsOrder.eq_of_cmp a b h)
    go lt h = inr (λ e. cc (h, ap (key_cmp a) e, key_cmp-IsOrder.same a))
    go gt h = inr (λ e. cc (h, ap (key_cmp a) e, key_cmp-IsOrder.same a))
