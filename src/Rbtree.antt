-- ===== src/Rbtree.antt =====
-- The nodes of library/rbtree.h as the program walks and links them. The rebalancing code of
-- library/rbtree.c is the Linux kernel's, and stands behind an interface.
use eblob.Base.{
  ℕ, zero, suc, Ordering, List, [], ◌∷◌, ◌++◌, Option, none, some, ◌≡◌, refl, ◌⊎◌, inl, inr, length,
}
use Prim.Native.Nat.Ordering.{lt, eq, gt}
pub mod Inorder
pub mod Search
pub mod Places
pub mod Destroy
pub mod Plain

-- A subtree: `rb_left`, the entry that holds the node, `rb_right`. A null pointer is `leaf`.
pub data Tree {ℓ} (E : Type ℓ) : Type ℓ where
  leaf : Tree E
  node : Tree E → E → Tree E → Tree E

pub data Side : Type 0 where
  left right : Side

-- A pointer to a node, or to the null child where a node can be linked: the way from the root.
abbrev pub Pointer : Type 0
Pointer = List Side

-- Where a walk ends: at a node, or at the null child that it would have gone on to.
pub data Walk {ℓ} (E : Type ℓ) : Type ℓ where
  found : Pointer → E → Walk E
  missing : Pointer → Walk E

pub Walk-cases {ℓ} :
    {E : Type ℓ} (w : Walk E)
    → ((p : Pointer) × (e : E) × (w ≡ found p e)) ⊎ ((p : Pointer) × (w ≡ missing p))
Walk-cases (found p e) = inl (p, e, refl)
Walk-cases (missing p) = inr (p, refl)

module _ {ℓ} {E : Type ℓ} where
  abbrev pub below : Side → Walk E → Walk E
  below s (found p e) = found (s ∷ p) e
  below s (missing p) = missing (s ∷ p)

  -- The loop `while (*n)`: left where the comparison is negative, right where it is positive.
  unfoldable pub walk : (E → Ordering) → Tree E → Walk E
  walk steer leaf = missing []
  walk steer (node l e r) = elim (steer e) [
    | lt ↦ below left (walk steer l)
    | gt ↦ below right (walk steer r)
    | eq ↦ found [] e
  ]

  -- `rb_link_node`: a node with no children in place of the null child.
  unfoldable pub link_node : Pointer → E → Tree E → Tree E
  link_node [] e leaf = node leaf e leaf
  link_node [] e (node l x r) = node l x r
  link_node (s ∷ p) e leaf = leaf
  link_node (left ∷ p) e (node l x r) = node (link_node p e l) x r
  link_node (right ∷ p) e (node l x r) = node l x (link_node p e r)

  -- A write to the entry at a pointer.
  unfoldable pub assign : Pointer → E → Tree E → Tree E
  assign p e leaf = leaf
  assign [] e (node l x r) = node l e r
  assign (left ∷ p) e (node l x r) = node (assign p e l) x r
  assign (right ∷ p) e (node l x r) = node l x (assign p e r)

  abbrev pub entry_at : Pointer → Tree E → Option E
  entry_at p leaf = none
  entry_at [] (node l x r) = some x
  entry_at (left ∷ p) (node l x r) = entry_at p l
  entry_at (right ∷ p) (node l x r) = entry_at p r

  -- The entries in the order of `rb_first` and `rb_next`.
  abbrev pub inorder : Tree E → List E
  inorder leaf = []
  inorder (node l x r) = inorder l ++ (x ∷ inorder r)

  -- The entries in front of a pointer, and those behind it.
  abbrev pub before : Pointer → Tree E → List E
  before p leaf = []
  before [] (node l x r) = inorder l
  before (left ∷ p) (node l x r) = before p l
  before (right ∷ p) (node l x r) = inorder l ++ (x ∷ before p r)

  abbrev pub after : Pointer → Tree E → List E
  after p leaf = []
  after [] (node l x r) = inorder r
  after (left ∷ p) (node l x r) = after p l ++ (x ∷ inorder r)
  after (right ∷ p) (node l x r) = after p r

-- `rb_insert_color` and `rb_erase` of library/rbtree.c, with what their callers rely on:
-- rebalancing keeps the order of the entries, and an erasure takes out the one node.
pub record Rebalance {ℓ} (E : Type ℓ) : Type ℓ where
  pub insert_color : Pointer → Tree E → Tree E
  pub erase : Pointer → Tree E → Tree E
  pub inorder-insert_color : (p : Pointer) (t : Tree E) → inorder (insert_color p t) ≡ inorder t
  pub inorder-erase :
      (p : Pointer) (t : Tree E) {e : E}
      → entry_at p t ≡ some e
      → inorder (erase p t) ≡ before p t ++ after p t

-- `rb_link_node` and `rb_insert_color`, one after the other as every caller makes them.
unfoldable pub link_and_color {ℓ} : {E : Type ℓ} → Rebalance E → Pointer → E → Tree E → Tree E
link_and_color r p e t = r.insert_color p (link_node p e t)

-- `rb_first`: the pointer to the leftmost node, with its entry.
abbrev descend {ℓ} : {E : Type ℓ} → Option (Pointer × E) → Option (Pointer × E)
descend none = none
descend (some (p, e)) = some (left ∷ p, e)

unfoldable pub rb_first {ℓ} : {E : Type ℓ} → Tree E → Option (Pointer × E)
rb_first leaf = none
rb_first (node leaf x r) = some ([], x)
rb_first (node (node a y b) x r) = descend (rb_first (node a y b))

-- The loops that destroy a tree: take the first node, erase it, free its entry, and go on to the
-- node that was next to it, which is then the first. The result is the entries freed, in order,
-- and the tree that is left; the fuel bounds the rounds.
unfoldable pub destroy_tree {ℓ} : {E : Type ℓ} → Rebalance E → ℕ → Tree E → List E × Tree E
destroy_tree r zero t = ([], t)
destroy_tree r (suc fuel) t = elim (rb_first t) [
  | none ↦ ([], t)
  | some (p, e) ↦ let rest = destroy_tree r fuel (r.erase p t) in (e ∷ rest.0, rest.1)
]
