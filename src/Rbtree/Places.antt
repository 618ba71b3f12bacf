-- ===== src/Rbtree/Places.antt =====
-- A search tree as a map from keys to entries, and what each step of the program does to that map.
use Prim.Native.Nat.Ordering.{lt, eq, gt}
use eblob.Base.{
  Ordering, List, [], All, All-append, All-imp, Option, none, some, ◌≡◌, refl, ap, sym, ◌∙◌, arith,
}
use eblob.Key.Order.{IsOrder}
use eblob.Rbtree.{
  Tree, leaf, node, left, right, Pointer, Walk, found, missing, below, walk, link_node, assign,
  entry_at, inorder, before, after, Rebalance, link_and_color,
}
use eblob.Rbtree.Inorder.{inorder_at, inorder-assign, Lands, walk-Lands}
use eblob.Rbtree.Search.{
  IsSorted, find, find-none_of_lt, find_past_gt, find_drop_ne, IsSorted-append, IsSorted-split,
  IsSorted-parts, cmp_gt_below, find_here, find_gone,
}

module _ {ℓ κ} {E : Type ℓ} {K : Type κ} (cmp : K → K → Ordering) (key : E → K) where
  abbrev pub steer : K → E → Ordering
  steer q e = cmp q (key e)

  abbrev pub IsSearchTree : Tree E → Type 0
  IsSearchTree t = IsSorted cmp key (inorder t)

  -- The map that a tree stands for.
  unfoldable pub get : Tree E → K → Option E
  get t q = find cmp key q (inorder t)

  -- What a walk for `q` leaves in front of its end is smaller than `q`, and what it leaves behind
  -- is larger.
  abbrev Flanks : K → Tree E → Walk E → Type 0
  Flanks q t (found p e) =
      All (λ x. cmp q (key x) ≡ gt) (before p t) × All (λ x. cmp q (key x) ≡ lt) (after p t)
  Flanks q t (missing p) =
      All (λ x. cmp q (key x) ≡ gt) (before p t) × All (λ x. cmp q (key x) ≡ lt) (after p t)

  Flanks-left :
      (q : K) (l r : Tree E) (x : E) (w : Walk E)
      → Flanks q l w
      → cmp q (key x) ≡ lt
      → All (λ y. cmp q (key y) ≡ lt) (inorder r)
      → Flanks q (node l x r) (below left w)
  Flanks-left q l r x (found p e) f h a = (f.0, All-append _ (after p l) _ f.1 (h, a))
  Flanks-left q l r x (missing p) f h a = (f.0, All-append _ (after p l) _ f.1 (h, a))

  Flanks-right :
      (q : K) (l r : Tree E) (x : E) (w : Walk E)
      → Flanks q r w
      → cmp q (key x) ≡ gt
      → All (λ y. cmp q (key y) ≡ gt) (inorder l)
      → Flanks q (node l x r) (below right w)
  Flanks-right q l r x (found p e) f h a = (All-append _ (inorder l) _ a (h, f.0), f.1)
  Flanks-right q l r x (missing p) f h a = (All-append _ (inorder l) _ a (h, f.0), f.1)

  module _ (o : IsOrder cmp) where
    All-gt :
        (q m : K) (xs : List E)
        → cmp q m ≡ gt
        → All (λ x. cmp (key x) m ≡ lt) xs
        → All (λ x. cmp q (key x) ≡ gt) xs
    All-gt q m xs h a = All-imp _ _ (λ x k. cmp_gt_below cmp key o q (key x) m h k) xs a

    All-lt :
        (q m : K) (xs : List E)
        → cmp q m ≡ lt
        → All (λ x. cmp m (key x) ≡ lt) xs
        → All (λ x. cmp q (key x) ≡ lt) xs
    All-lt q m xs h a = All-imp _ _ (λ x k. o.lt_trans q m (key x) h k) xs a

    walk-Flanks : (q : K) (t : Tree E) → IsSearchTree t → Flanks q t (walk (steer q) t)
    unfolding walk
    walk-Flanks q leaf s = (tt, tt)
    walk-Flanks q (node l x r) s =
        let parts = IsSorted-split cmp key (inorder l) x (inorder r) s in
        let sides = IsSorted-parts cmp key (inorder l) (inorder r) parts.2 in
        go (cmp q (key x)) refl parts.0 parts.1 (walk-Flanks q l sides.0) (walk-Flanks q r sides.1)
      where
        go :
            (c : Ordering)
            → cmp q (key x) ≡ c
            → All (λ y. cmp (key y) (key x) ≡ lt) (inorder l)
            → All (λ y. cmp (key x) (key y) ≡ lt) (inorder r)
            → Flanks q l (walk (steer q) l)
            → Flanks q r (walk (steer q) r)
            → Flanks q (node l x r) (elim c [
              | lt ↦ below left (walk (steer q) l)
              | gt ↦ below right (walk (steer q) r)
              | eq ↦ found [] x
            ])
        go lt h a b f g = Flanks-left q l r x _ f h (All-lt q (key x) _ h b)
        go gt h a b f g = Flanks-right q l r x _ g h (All-gt q (key x) _ h a)
        go eq h a b f g =
            let same : q ≡ key x = o.eq_of_cmp q (key x) h in
            (All-imp _ _ (λ y k. ground (arith, o.swap (key y) (key x))) (inorder l) a, rw same b)

    -- The loop of every lookup finds what the tree holds.
    pub walk_found :
        (q : K) (t : Tree E) {p : Pointer} {e : E}
        → IsSearchTree t
        → walk (steer q) t ≡ found p e
        → (entry_at p t ≡ some e) × (get t q ≡ some e) × (key e ≡ q)
    unfolding get
    walk_found q t {p} {e} s h =
        let lands : Lands (steer q) t (found p e) = rw h at (walk-Lands (steer q) t) in
        let parts =
          IsSorted-split cmp key (before p t) e (after p t) (rw (inorder_at p t lands.0) at s) in
        (
          lands.0,
          rw (inorder_at p t lands.0)
              (find_here cmp key o q (before p t) e (after p t) parts.0 lands.1),
          sym (o.eq_of_cmp q (key e) lands.1),
        )

    pub walk_missing :
        (q : K) (t : Tree E) {p : Pointer}
        → IsSearchTree t
        → walk (steer q) t ≡ missing p
        → get t q ≡ none
    unfolding get
    walk_missing q t {p} s h =
        let lands : Lands (steer q) t (missing p) = rw h at (walk-Lands (steer q) t) in
        let flanks : Flanks q t (missing p) = rw h at (walk-Flanks q t s) in
        rw lands.0 (
          find_past_gt cmp key q (before p t) (after p t) flanks.0
          ∙ find-none_of_lt cmp key q (after p t) flanks.1)

    -- A new entry at the end of a walk that missed its key: the tree stays a search tree, and the
    -- map changes at that key alone.
    pub link_lem :
        (r : Rebalance E) (q : K) (t : Tree E) {p : Pointer} (e : E)
        → IsSearchTree t
        → walk (steer q) t ≡ missing p
        → key e ≡ q
        → IsSearchTree (link_and_color r p e t)
          × (get (link_and_color r p e t) q ≡ some e)
          × ((j : K) → (j ≡ q → ⊥) → get (link_and_color r p e t) j ≡ get t j)
    unfolding get link_and_color
    link_lem r q t {p} e s h k =
        let lands : Lands (steer q) t (missing p) = rw h at (walk-Lands (steer q) t) in
        let flanks : Flanks q t (missing p) = rw h at (walk-Flanks q t s) in
        let items = r.inorder-insert_color p (link_node p e t) ∙ lands.1 e in
        let low =
          All-imp _ (λ x. cmp (key x) (key e) ≡ lt)
            (λ x (m : cmp q (key x) ≡ gt). rw k (ground (arith, o.swap q (key x)))) (before p t)
            flanks.0 in
        rw items (
          IsSorted-append cmp key (before p t) e (after p t) (rw lands.0 at s) low (rw k flanks.1),
          find_here cmp key o q (before p t) e (after p t) low (rw k (o.same q)),
          λ j ne.
              find_drop_ne cmp key j (before p t) e (after p t)
                (λ c. ne (o.eq_of_cmp j (key e) c ∙ k))
              ∙ ap (find cmp key j) (sym lands.0),
        )

    -- Erasing the entry that a walk found.
    pub erase_lem :
        (r : Rebalance E) (q : K) (t : Tree E) {p : Pointer} {e : E}
        → IsSearchTree t
        → walk (steer q) t ≡ found p e
        → IsSearchTree (r.erase p t)
          × (get (r.erase p t) q ≡ none)
          × ((j : K) → (j ≡ q → ⊥) → get (r.erase p t) j ≡ get t j)
    unfolding get
    erase_lem r q t {p} {e} s h =
        let lands : Lands (steer q) t (found p e) = rw h at (walk-Lands (steer q) t) in
        let items = inorder_at p t lands.0 in
        let parts = IsSorted-split cmp key (before p t) e (after p t) (rw items at s) in
        rw (r.inorder-erase p t lands.0) (
          parts.2,
          find_gone cmp key o q (before p t) e (after p t) parts.0 parts.1 lands.1,
          λ j ne. sym (
              ap (find cmp key j) items
              ∙ find_drop_ne cmp key j (before p t) e (after p t)
                  (λ c. ne (o.eq_of_cmp j (key e) c ∙ sym (o.eq_of_cmp q (key e) lands.1)))),
        )

    -- Writing the entry that a walk found, with its key kept.
    pub assign_lem :
        (q : K) (t : Tree E) {p : Pointer} {e : E} (e' : E)
        → IsSearchTree t
        → walk (steer q) t ≡ found p e
        → key e' ≡ key e
        → IsSearchTree (assign p e' t)
          × (get (assign p e' t) q ≡ some e')
          × ((j : K) → (j ≡ q → ⊥) → get (assign p e' t) j ≡ get t j)
    unfolding get
    assign_lem q t {p} {e} e' s h k =
        let lands : Lands (steer q) t (found p e) = rw h at (walk-Lands (steer q) t) in
        let items = inorder_at p t lands.0 in
        let parts = IsSorted-split cmp key (before p t) e (after p t) (rw items at s) in
        let low : All (λ x. cmp (key x) (key e') ≡ lt) (before p t) = rw k parts.0 in
        let high : All (λ y. cmp (key e') (key y) ≡ lt) (after p t) = rw k parts.1 in
        let same = o.eq_of_cmp q (key e) lands.1 in
        rw (inorder-assign p t e' lands.0) (
          IsSorted-append cmp key (before p t) e' (after p t) parts.2 low high,
          find_here cmp key o q (before p t) e' (after p t) low (rw k lands.1),
          λ j ne.
              find_drop_ne cmp key j (before p t) e' (after p t)
                (λ c. ne (o.eq_of_cmp j (key e') c ∙ (k ∙ sym same)))
              ∙ sym (
                  ap (find cmp key j) items
                  ∙ find_drop_ne cmp key j (before p t) e (after p t)
                      (λ c. ne (o.eq_of_cmp j (key e) c ∙ sym same))),
        )
