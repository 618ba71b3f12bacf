-- ===== src/Key.antt =====
-- include/eblob/blob.h: `struct eblob_key` and `eblob_id_cmp`.
pub mod Order
use Prim.Native.Nat.Ordering.{lt, eq, gt}
use eblob.Base.{ℕ, compare, Ordering, List, [], ◌∷◌}

-- The id is the list of its EBLOB_ID_SIZE (64) bytes.
pub record Key : Type 0 where
  pub id : List ℕ

-- The sign of `memcmp` over two arrays of one length: the first bytes that differ decide.
unfoldable pub memcmp : List ℕ → List ℕ → Ordering
memcmp [] [] = eq
memcmp [] (b ∷ bs) = lt
memcmp (a ∷ as_) [] = gt
memcmp (a ∷ as_) (b ∷ bs) = elim (compare a b) [ lt ↦ lt | gt ↦ gt | eq ↦ memcmp as_ bs ]

-- `eblob_id_cmp`: its sign.
unfoldable pub id_cmp : List ℕ → List ℕ → Ordering
unfolding memcmp
id_cmp id1 id2 = memcmp id1 id2
