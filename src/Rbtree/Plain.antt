-- ===== src/Rbtree/Plain.antt =====
-- Trees that are never rebalanced: one way to meet the interface to library/rbtree.c.
use eblob.Base.{[], ◌∷◌, ◌++◌, append_assoc, some, ◌≡◌, refl}
use eblob.Rbtree.{
  Tree, leaf, node, left, right, Pointer, entry_at, inorder, before, after, Rebalance,
}

module _ {ℓ} {E : Type ℓ} where
  -- The second tree hung under the last node of the first.
  unfoldable pub graft : Tree E → Tree E → Tree E
  graft leaf t = t
  graft (node a x b) t = node a x (graft b t)

  pub inorder-graft : (s t : Tree E) → inorder (graft s t) ≡ inorder s ++ inorder t
  unfolding graft
  inorder-graft leaf t = refl
  inorder-graft (node a x b) t = rw (inorder-graft b t, append_assoc)

  unfoldable pub unlink : Pointer → Tree E → Tree E
  unfolding graft
  unlink p leaf = leaf
  unlink [] (node a x b) = graft a b
  unlink (left ∷ p) (node a x b) = node (unlink p a) x b
  unlink (right ∷ p) (node a x b) = node a x (unlink p b)

  pub inorder-unlink :
      (p : Pointer) (t : Tree E) {e : E}
      → entry_at p t ≡ some e
      → inorder (unlink p t) ≡ before p t ++ after p t
  unfolding unlink
  inorder-unlink p leaf h = cc
  inorder-unlink [] (node a x b) h = inorder-graft a b
  inorder-unlink (left ∷ p) (node a x b) h = rw (inorder-unlink p a h, append_assoc)
  inorder-unlink (right ∷ p) (node a x b) h = rw (inorder-unlink p b h, append_assoc)

  unfoldable pub plain : Rebalance E
  unfolding unlink
  plain = record {
    insert_color = λ p t. t;
    erase = unlink;
    inorder-insert_color = λ p t. refl;
    inorder-erase = λ p t h. inorder-unlink p t h;
  }
