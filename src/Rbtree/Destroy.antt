-- ===== src/Rbtree/Destroy.antt =====
-- The loops that destroy a tree.
use eblob.Base.{
  ℕ, zero, suc, ◌<◌, length, [], ◌∷◌, ◌++◌, Option, none, some, ◌≡◌, refl, ap, ◌∙◌, arith,
}
use eblob.Rbtree.{
  Tree, leaf, node, Pointer, entry_at, inorder, before, after, Rebalance, descend, rb_first,
  destroy_tree,
}
use eblob.Rbtree.Inorder.{inorder_at}

module _ {ℓ} {E : Type ℓ} where
  -- Nothing stands in front of the first node, and only the empty tree has none.
  abbrev pub IsFirst : Tree E → Option (Pointer × E) → Type ℓ
  IsFirst t none = t ≡ leaf
  IsFirst t (some (p, e)) = (entry_at p t ≡ some e) × (before p t ≡ [])

  descend-IsFirst :
      (l r : Tree E) (x : E) (a : Tree E) (y : E) (b : Tree E) (o : Option (Pointer × E))
      → IsFirst (node a y b) o
      → IsFirst (node (node a y b) x r) (descend o)
  descend-IsFirst l r x a y b none h = cc
  descend-IsFirst l r x a y b (some (p, e)) h = h

  rb_first-IsFirst : (t : Tree E) → IsFirst t (rb_first t)
  unfolding rb_first
  rb_first-IsFirst leaf = refl
  rb_first-IsFirst (node leaf x r) = (refl, refl)
  rb_first-IsFirst (node (node a y b) x r) =
      descend-IsFirst a r x a y b _ (rb_first-IsFirst (node a y b))

  -- With as much fuel as there are entries, every entry is freed once, in order, and the tree
  -- that is left is empty.
  pub destroy_tree_lem :
      (r : Rebalance E) (fuel : ℕ) (t : Tree E)
      → length (inorder t) < fuel
      → ((destroy_tree r fuel t).0 ≡ inorder t) × (inorder (destroy_tree r fuel t).1 ≡ [])
  unfolding destroy_tree
  destroy_tree_lem r zero t h = elim h [ ]
  destroy_tree_lem r (suc fuel) t h =
      go (rb_first t) refl (rb_first-IsFirst t) (destroy_tree_lem r fuel)
    where
      go :
          (o : Option (Pointer × E))
          → rb_first t ≡ o
          → IsFirst t o
          → ((u : Tree E)
              → length (inorder u) < fuel
              → ((destroy_tree r fuel u).0 ≡ inorder u) × (inorder (destroy_tree r fuel u).1 ≡ []))
          → ((destroy_tree r (suc fuel) t).0 ≡ inorder t)
            × (inorder (destroy_tree r (suc fuel) t).1 ≡ [])
      go none e f ih = rw (e, destroy_tree) (rw f (refl, refl))
      go (some (p, x)) e f ih =
          let items : inorder t ≡ x ∷ after p t =
            inorder_at p t f.0 ∙ ap (λ l. l ++ (x ∷ after p t)) f.1 in
          let rest : inorder (r.erase p t) ≡ after p t =
            r.inorder-erase p t f.0 ∙ ap (λ l. l ++ after p t) f.1 in
          let done = ih (r.erase p t) (rw rest (omega (arith, ap length items))) in
          rw (e, destroy_tree) (rw items (ap (λ l. x ∷ l) (done.0 ∙ rest)), done.1)
