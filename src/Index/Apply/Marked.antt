-- ===== src/Index/Apply/Marked.antt =====
-- library/index.c: sorted headers before and after some keys have been marked as removed.
use Prim.Native.Nat.Ordering.{eq}
use Prim.Native.Nat.{digits, bit_and-bitwise, bit_or-bitwise}
use eblob.Base.{
  ℕ, zero, suc, ◌+◌, ◌*◌, ◌/◌, ◌%◌, ◌≤◌, max, min, bit_and, bit_or, true, false, Bool-cases, some,
  List, [], ◌∷◌, All, All-imp, get_elem?, ◌≡◌, ◌≢◌, refl, sym, ap, subst, some_inj, ◌∙◌, arith, ◌⊎◌,
  inl, inr,
}
use eblob.Key.{Key}
use eblob.Key.Order.{key_cmp, key_cmp-IsOrder}
use eblob.Record.{DiskControl}
use eblob.Index.{is_removed, disk_control_sort}
use eblob.Index.Search.{IsPartitioned}
use eblob.Index.Search.Keys.{Le, rank-le, eq_of_between}
use eblob.Index.Lookup.{dc_of}
use eblob.Index.Apply.{set_removed}

-- A flag that is set is read as set.
or_odd : (f : ℕ) → (k : ℕ) × (bit_or f 1 ≡ suc (k * 2))
or_odd zero = (0, bit_or-bitwise 0 1)
or_odd (suc a) =
    let high = digits (λ b. b) max a (suc a / 2) (1 / 2) in
    let e : bit_or (suc a) 1 ≡ high * 2 + max (suc a % 2) (1 % 2) = bit_or-bitwise (suc a) 1 in
    (high, omega (arith, e))

and_odd : (k : ℕ) → bit_and (suc (k * 2)) 1 ≢ 0
and_odd k h =
    let high = digits (λ b. 0) min (k * 2) (suc (k * 2) / 2) (1 / 2) in
    let e : bit_and (suc (k * 2)) 1 ≡ high * 2 + min (suc (k * 2) % 2) (1 % 2) =
      bit_and-bitwise (suc (k * 2)) 1 in
    absurd (omega (arith, e, h))

set_removed-is_removed : (dc : DiskControl) → is_removed (set_removed dc) ≡ true
set_removed-is_removed dc = let odd = or_odd dc.flags in rw odd.1 (ground (arith, and_odd odd.0))

-- The headers in the order of their keys, and of those with one key only the last is not removed.
abbrev pub IsFlagged : List DiskControl → Type 0
IsFlagged [] = Unit
IsFlagged (x ∷ xs) =
    All (λ y. Le x.key y.key × (is_removed x ≡ false → y.key ≢ x.key)) xs × IsFlagged xs

-- A header before and after the keys with `P` have been marked.
pub record IsMarked (P : Key → Type 0) (x y : DiskControl) : Type 0 where
  pub same_key : y.key ≡ x.key
  pub marked : P x.key → is_removed y ≡ true
  pub kept : (P x.key → ⊥) → y ≡ x
  pub still : is_removed x ≡ true → is_removed y ≡ true

-- Two lists, header by header.
abbrev pub Both :
    (DiskControl → DiskControl → Type 0) → List DiskControl → List DiskControl → Type 0
Both R [] [] = Unit
Both R [] (y ∷ ys) = ⊥
Both R (x ∷ xs) [] = ⊥
Both R (x ∷ xs) (y ∷ ys) = R x y × Both R xs ys

pub unmarked :
    (P : Key → Type 0) (x : DiskControl) → (P x.key → is_removed x ≡ true) → IsMarked P x x
unmarked P x h = record { same_key = refl; marked = h; kept = λ n. refl; still = λ r. r }

pub now-IsMarked : (P : Key → Type 0) (x : DiskControl) → P x.key → IsMarked P x (set_removed x)
now-IsMarked P x h = record {
  same_key = refl;
  marked = λ p. set_removed-is_removed x;
  kept = λ n. absurd (n h);
  still = λ r. set_removed-is_removed x;
}

pub none-IsMarked :
    (P : Key → Type 0) (xs : List DiskControl) → All (λ y. P y.key → ⊥) xs → Both (IsMarked P) xs xs
none-IsMarked P [] h = tt
none-IsMarked P (x ∷ xs) h = (unmarked P x (λ p. absurd (h.0 p)), none-IsMarked P xs h.1)

abbrev pub Is : Key → Key → Type 0
Is key k = k ≡ key

-- Behind a header with a larger key there is none with the key.
pub past_key :
    (key : Key) (x : DiskControl) (xs : List DiskControl)
    → Le key x.key
    → (x.key ≡ key → ⊥)
    → All (λ y. Le x.key y.key × (is_removed x ≡ false → y.key ≢ x.key)) xs
    → All (λ y. Is key y.key → ⊥) xs
past_key key x xs le ne =
    All-imp (λ y. Le x.key y.key × (is_removed x ≡ false → y.key ≢ x.key)) (λ y. Is key y.key → ⊥)
      (λ y h is. ne (eq_of_between key x.key key le (subst (Le x.key) is h.0) refl)) xs

module _ (P : DiskControl → Type 0) where
  pub All-get :
      (xs : List DiskControl) (i : ℕ) (z : DiskControl) → All P xs → get_elem? xs i ≡ some z → P z
  All-get [] i z h e = absurd cc
  All-get (x ∷ xs) zero z h e = subst P (some_inj e) h.0
  All-get (x ∷ xs) (suc i) z h e = All-get xs i z h.1 e

  pub All-of_get :
      (xs : List DiskControl)
      → ((i : ℕ) (x : DiskControl) → get_elem? xs i ≡ some x → P x)
      → All P xs
  All-of_get [] f = tt
  All-of_get (x ∷ xs) f = (f 0 x refl, All-of_get xs (λ i y h. f (suc i) y h))

module _ (R S T : DiskControl → DiskControl → Type 0) where
  pub Both-join :
      ((a b c : DiskControl) → R a b → S b c → T a c)
      → (xs ys zs : List DiskControl) → Both R xs ys
      → Both S ys zs
      → Both T xs zs
  Both-join f [] [] [] r s = tt
  Both-join f [] [] (z ∷ zs) r s = absurd s
  Both-join f [] (y ∷ ys) zs r s = absurd r
  Both-join f (x ∷ xs) [] zs r s = absurd r
  Both-join f (x ∷ xs) (y ∷ ys) [] r s = absurd s
  Both-join f (x ∷ xs) (y ∷ ys) (z ∷ zs) r s = (f x y z r.0 s.0, Both-join f xs ys zs r.1 s.1)

All-Both :
    (R : DiskControl → DiskControl → Type 0) (P Q : DiskControl → Type 0)
    → ((a b : DiskControl) → R a b → P a → Q b)
    → (xs ys : List DiskControl) → Both R xs ys
    → All P xs
    → All Q ys
All-Both R P Q f [] [] r h = tt
All-Both R P Q f [] (y ∷ ys) r h = absurd r
All-Both R P Q f (x ∷ xs) [] r h = absurd r
All-Both R P Q f (x ∷ xs) (y ∷ ys) r h = (f x y r.0 h.0, All-Both R P Q f xs ys r.1 h.1)

pub Both-IsFlagged :
    (P : Key → Type 0) (xs ys : List DiskControl)
    → Both (IsMarked P) xs ys
    → IsFlagged xs
    → IsFlagged ys
Both-IsFlagged P [] [] r h = tt
Both-IsFlagged P [] (y ∷ ys) r h = absurd r
Both-IsFlagged P (x ∷ xs) [] r h = absurd r
Both-IsFlagged P (x ∷ xs) (y ∷ ys) r h = (
  All-Both (IsMarked P) (λ a. Le x.key a.key × (is_removed x ≡ false → a.key ≢ x.key))
      (λ b. Le y.key b.key × (is_removed y ≡ false → b.key ≢ y.key)) carried xs ys r.1 h.0,
  Both-IsFlagged P xs ys r.1 h.1,
)
  where
    carried :
        (a b : DiskControl)
        → IsMarked P a b
        → (Le x.key a.key × (is_removed x ≡ false → a.key ≢ x.key))
        → Le y.key b.key × (is_removed y ≡ false → b.key ≢ y.key)
    carried a b m v = (
      subst (λ k. Le y.key k) (sym m.same_key) (subst (λ k. Le k a.key) (sym r.0.same_key) v.0),
      λ live same. elim (Bool-cases (is_removed x)) [
        | inl gone ↦ cc (live, r.0.still gone)
        | inr now ↦ v.1 now (sym m.same_key ∙ same ∙ r.0.same_key)
      ],
    )

get_Le :
    (xs : List DiskControl) (i j : ℕ) (x y : DiskControl)
    → IsFlagged xs
    → i ≤ j
    → get_elem? xs i ≡ some x
    → get_elem? xs j ≡ some y
    → Le x.key y.key
get_Le [] i j x y h le e f = absurd cc
get_Le (a ∷ xs) zero zero x y h le e f = λ g. cc (
  g,
  key_cmp-IsOrder.same x.key,
  ap (key_cmp x.key) (ap (λ d. d.key) (sym (some_inj f) ∙ some_inj e)),
)
get_Le (a ∷ xs) zero (suc j) x y h le e f =
    subst (λ d. Le d.key y.key) (some_inj e) (All-get _ xs j y h.0 f).0
get_Le (a ∷ xs) (suc i) zero x y h le e f = absurd (omega (arith, le))
get_Le (a ∷ xs) (suc i) (suc j) x y h le e f = get_Le xs i j x y h.1 (omega (arith, le)) e f

pub flagged-IsPartitioned :
    (key : Key) (xs : List DiskControl)
    → IsFlagged xs
    → IsPartitioned (disk_control_sort (dc_of key)) xs
unfolding disk_control_sort
flagged-IsPartitioned key xs h i j x y le e f = rank-le key y.key x.key (get_Le xs i j x y h le e f)

pub sort_eq : (key : Key) (y : DiskControl) → y.key ≡ key → disk_control_sort (dc_of key) y ≡ eq
unfolding disk_control_sort
sort_eq key y is = subst (λ k. key_cmp key k ≡ eq) (sym is) (key_cmp-IsOrder.same key)

pub eq_sort : (key : Key) (y : DiskControl) → disk_control_sort (dc_of key) y ≡ eq → y.key ≡ key
unfolding disk_control_sort
eq_sort key y h = sym (key_cmp-IsOrder.eq_of_cmp key y.key h)

-- A key is one of a list.
abbrev pub KeyIn : List Key → Key → Type 0
KeyIn [] k = ⊥
KeyIn (j ∷ js) k = (k ≡ j) ⊎ KeyIn js k

pub both_marks :
    (key : Key) (keys : List Key) (x y z : DiskControl)
    → IsMarked (Is key) x y
    → IsMarked (KeyIn keys) y z
    → IsMarked (KeyIn (key ∷ keys)) x z
both_marks key keys x y z r s = record {
  same_key = s.same_key ∙ r.same_key;
  marked = λ p. elim p [
    | inl is ↦ s.still (r.marked is)
    | inr q ↦ s.marked (subst (KeyIn keys) (sym r.same_key) q)
  ];
  kept = λ n. s.kept (λ q. n (inr (subst (KeyIn keys) r.same_key q))) ∙ r.kept (λ is. n (inl is));
  still = λ h. s.still (r.still h);
}
