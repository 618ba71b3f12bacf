-- ===== src/Rbtree/Inorder.antt =====
-- What the steps on a tree do to the list of its entries.
use Prim.Native.Nat.Ordering.{lt, eq, gt}
use eblob.Base.{Ordering, [], ◌∷◌, ◌++◌, append_assoc, some, ◌≡◌, refl, arith}
use eblob.Rbtree.{
  Tree, leaf, node, left, right, Pointer, Walk, found, missing, below, walk, link_node, assign,
  entry_at, inorder, before, after,
}

module _ {ℓ} {E : Type ℓ} where
  -- A tree seen from a pointer to one of its nodes.
  pub inorder_at :
      (p : Pointer) (t : Tree E) {e : E}
      → entry_at p t ≡ some e
      → inorder t ≡ before p t ++ (e ∷ after p t)
  inorder_at p leaf h = cc
  inorder_at [] (node l x r) h = ground arith
  inorder_at (left ∷ p) (node l x r) h = rw (inorder_at p l h, append_assoc)
  inorder_at (right ∷ p) (node l x r) h = rw (inorder_at p r h, append_assoc)

  pub inorder-assign :
      (p : Pointer) (t : Tree E) (e' : E) {e : E}
      → entry_at p t ≡ some e
      → inorder (assign p e' t) ≡ before p t ++ (e' ∷ after p t)
  unfolding assign
  inorder-assign p leaf e' h = cc
  inorder-assign [] (node l x r) e' h = refl
  inorder-assign (left ∷ p) (node l x r) e' h = rw (inorder-assign p l e' h, append_assoc)
  inorder-assign (right ∷ p) (node l x r) e' h = rw (inorder-assign p r e' h, append_assoc)

  -- What a walk tells its caller about the tree, in either outcome.
  abbrev pub Lands : (E → Ordering) → Tree E → Walk E → Type ℓ
  Lands steer t (found p e) = (entry_at p t ≡ some e) × (steer e ≡ eq)
  Lands steer t (missing p) =
      (inorder t ≡ before p t ++ after p t)
      × ((e : E) → inorder (link_node p e t) ≡ before p t ++ (e ∷ after p t))

  Lands-left :
      (steer : E → Ordering) (l r : Tree E) (x : E) (w : Walk E)
      → Lands steer l w
      → Lands steer (node l x r) (below left w)
  unfolding link_node
  Lands-left steer l r x (found p e) h = h
  Lands-left steer l r x (missing p) h = (rw (h.0, append_assoc), λ e. rw (h.1 e, append_assoc))

  Lands-right :
      (steer : E → Ordering) (l r : Tree E) (x : E) (w : Walk E)
      → Lands steer r w
      → Lands steer (node l x r) (below right w)
  unfolding link_node
  Lands-right steer l r x (found p e) h = h
  Lands-right steer l r x (missing p) h = (rw (h.0, append_assoc), λ e. rw (h.1 e, append_assoc))

  pub walk-Lands : (steer : E → Ordering) (t : Tree E) → Lands steer t (walk steer t)
  unfolding walk link_node
  walk-Lands steer leaf = (refl, λ e. refl)
  walk-Lands steer (node l x r) = go (steer x) refl (walk-Lands steer l) (walk-Lands steer r)
    where
      go :
          (o : Ordering)
          → steer x ≡ o
          → Lands steer l (walk steer l)
          → Lands steer r (walk steer r)
          → Lands steer (node l x r) (elim o [
            | lt ↦ below left (walk steer l)
            | gt ↦ below right (walk steer r)
            | eq ↦ found [] x
          ])
      go lt h a b = Lands-left steer l r x (walk steer l) a
      go gt h a b = Lands-right steer l r x (walk steer r) b
      go eq h a b = (refl, h)
