-- ===== src/Rbtree/Search.antt =====
-- Lists of entries that are sorted by a key, and looking a key up in one.
use Prim.Native.Nat.Ordering.{lt, eq, gt}
use eblob.Base.{
  Ordering, List, [], ◌∷◌, ◌++◌, All, All-append, All-append_left, All-append_right, All-imp,
  Option, none, some, ◌≡◌, refl, ◌∙◌, arith,
}
use eblob.Key.Order.{IsOrder}

module _ {ℓ κ} {E : Type ℓ} {K : Type κ} (cmp : K → K → Ordering) (key : E → K) where
  abbrev pub IsSorted : List E → Type 0
  IsSorted [] = Unit
  IsSorted (x ∷ xs) = All (λ y. cmp (key x) (key y) ≡ lt) xs × IsSorted xs

  -- The entry of a key.
  unfoldable pub find : K → List E → Option E
  find q [] = none
  find q (e ∷ es) = elim (cmp q (key e)) [ eq ↦ some e | lt ↦ find q es | gt ↦ find q es ]

  pub find-none_of_lt : (q : K) (xs : List E) → All (λ e. cmp q (key e) ≡ lt) xs → find q xs ≡ none
  unfolding find
  find-none_of_lt q [] h = refl
  find-none_of_lt q (x ∷ xs) h = rw (h.0, find) (find-none_of_lt q xs h.1)

  pub find_past_gt :
      (q : K) (xs ys : List E) → All (λ e. cmp q (key e) ≡ gt) xs → find q (xs ++ ys) ≡ find q ys
  unfolding find
  find_past_gt q [] ys h = refl
  find_past_gt q (x ∷ xs) ys h = rw (h.0, find) (find_past_gt q xs ys h.1)

  -- An entry with another key does not matter.
  pub find_drop_ne :
      (q : K) (xs : List E) (e : E) (ys : List E)
      → (cmp q (key e) ≡ eq → ⊥)
      → find q (xs ++ (e ∷ ys)) ≡ find q (xs ++ ys)
  unfolding find
  find_drop_ne q [] e ys h = ground arith
  find_drop_ne q (x ∷ xs) e ys h = ground (arith, find_drop_ne q xs e ys)

  pub key-find : IsOrder cmp → (q : K) (xs : List E) {e : E} → find q xs ≡ some e → key e ≡ q
  unfolding find
  key-find o q [] h = cc
  key-find o q (x ∷ xs) {e} h = ground (arith, key-find o q xs {e = e}, o.eq_of_cmp q (key x))

  pub IsSorted-append :
      (xs : List E) (e : E) (ys : List E)
      → IsSorted (xs ++ ys)
      → All (λ x. cmp (key x) (key e) ≡ lt) xs
      → All (λ y. cmp (key e) (key y) ≡ lt) ys
      → IsSorted (xs ++ (e ∷ ys))
  IsSorted-append [] e ys s a b = (b, s)
  IsSorted-append (x ∷ xs) e ys s a b = (
    All-append _ xs (e ∷ ys) (All-append_left _ xs ys s.0) (a.0, All-append_right _ xs ys s.0),
    IsSorted-append xs e ys s.1 a.1 b,
  )

  -- A sorted list seen from one of its entries, and without it.
  pub IsSorted-split :
      (xs : List E) (e : E) (ys : List E)
      → IsSorted (xs ++ (e ∷ ys))
      → All (λ x. cmp (key x) (key e) ≡ lt) xs
        × All (λ y. cmp (key e) (key y) ≡ lt) ys
        × IsSorted (xs ++ ys)
  IsSorted-split [] e ys s = (tt, s.0, s.1)
  IsSorted-split (x ∷ xs) e ys s =
      let rest = IsSorted-split xs e ys s.1 in
      let past = All-append_right _ xs (e ∷ ys) s.0 in
      (
        (past.0, rest.0),
        rest.1,
        (All-append _ xs ys (All-append_left _ xs (e ∷ ys) s.0) past.1, rest.2),
      )

  pub IsSorted-parts : (xs : List E) (ys : List E) → IsSorted (xs ++ ys) → IsSorted xs × IsSorted ys
  IsSorted-parts [] ys s = (tt, s)
  IsSorted-parts (x ∷ xs) ys s =
      let rest = IsSorted-parts xs ys s.1 in ((All-append_left _ xs ys s.0, rest.0), rest.1)

  module _ (o : IsOrder cmp) where
    pub cmp_gt_below : (q a x : K) → cmp q x ≡ gt → cmp a x ≡ lt → cmp q a ≡ gt
    cmp_gt_below q a x h k = ground (arith, o.swap q x, o.lt_trans a x q, o.swap a q)

    -- In a sorted list an entry is found by its key, whatever stands around it.
    pub find_here :
        (q : K) (xs : List E) (e : E) (ys : List E)
        → All (λ x. cmp (key x) (key e) ≡ lt) xs
        → cmp q (key e) ≡ eq
        → find q (xs ++ (e ∷ ys)) ≡ some e
    unfolding find
    find_here q [] e ys a h = rw (h, find)
    find_here q (x ∷ xs) e ys a h =
        ground (arith, find_here q xs e ys a.1 h, o.eq_of_cmp q (key e), o.swap (key x) (key e))

    -- Without the entry its key is not found.
    pub find_gone :
        (q : K) (xs : List E) (e : E) (ys : List E)
        → All (λ x. cmp (key x) (key e) ≡ lt) xs
        → All (λ y. cmp (key e) (key y) ≡ lt) ys
        → cmp q (key e) ≡ eq
        → find q (xs ++ ys) ≡ none
    find_gone q xs e ys a b h =
        let same : q ≡ key e = o.eq_of_cmp q (key e) h in
        find_past_gt q xs ys (
          All-imp _ _ (λ x (k : cmp (key x) (key e) ≡ lt). ground (arith, o.swap (key x) (key e)))
            xs a)
        ∙ find-none_of_lt q ys (rw same b)
