-- ===== src/Hash.antt =====
-- library/hash.c and library/hash.h: the in-memory cache, a search tree from keys to data.
--
-- The walks compare the id of the node with the id that is looked for, in this order, and go left
-- where it is smaller: a larger key stands to the left. `dsize` bytes are copied whole, so the
-- data of an entry is one value. The read lock of `eblob_hash_lookup` leaves no trace in a
-- sequential model.
use Prim.Native.Nat.Ordering.{lt, eq, gt}
use eblob.Base.{
  ℕ, Ordering, Bool, true, false, if◌then◌else◌, Option, none, some, List, [], ◌∷◌, Outcome, ok,
  err, Errno, enoent, eexist, enomem, errno, suc, length, not, ◌≡◌,
}
use eblob.Key.{Key, id_cmp}
use eblob.Rbtree.{
  Tree, leaf, Walk, found, missing, walk, assign, inorder, Rebalance, link_and_color, rb_first,
  destroy_tree,
}
pub mod Laws

-- `struct eblob_hash_entry`
pub record HashEntry (D : Type 0) : Type 0 where
  pub key : Key
  pub bytes : D

-- `struct eblob_hash`, without its lock
pub record Hash (D : Type 0) : Type 0 where
  pub root : Tree (HashEntry D)
  pub dsize : ℕ

-- The comparison of the walks: the node first.
abbrev pub node_cmp : {D : Type 0} → List ℕ → HashEntry D → Ordering
node_cmp id t = id_cmp t.key.id id

module _ {D : Type 0} where
  -- `eblob_hash_init`; `lock` is what `pthread_rwlock_init` returns.
  unfoldable pub hash_init : ℕ → Outcome (Unit {0}) → Outcome (Unit {0}) × Hash D
  hash_init dsize lock = (lock, record { root = leaf; dsize = dsize })

  -- `eblob_hash_entry_add`; `malloc` tells whether the allocation succeeds, and the value
  -- returned is `*replaced`.
  unfoldable pub hash_entry_add :
      Rebalance (HashEntry D) → Bool → Hash D → Key → D → Bool → Outcome Bool × Hash D
  hash_entry_add r malloc hash key bytes replace = elim (walk (node_cmp key.id) hash.root) [
    | found p t ↦
        if not replace
        then (err eexist, hash)
        else (ok true, record hash { root = assign p (record t { bytes = bytes }) hash.root })
    | missing p ↦ if not malloc then (err enomem, hash) else (
      ok false,
      record hash { root = link_and_color r p (record { key = key; bytes = bytes }) hash.root },
    )
  ]

  -- `eblob_hash_replace_nolock`
  unfoldable pub hash_replace_nolock :
      Rebalance (HashEntry D) → Bool → Hash D → Key → D → Outcome Bool × Hash D
  unfolding hash_entry_add
  hash_replace_nolock r malloc h key bytes = hash_entry_add r malloc h key bytes true

  -- `eblob_hash_search`: the node of a key, with its entry.
  unfoldable pub hash_search : Tree (HashEntry D) → Key → Walk (HashEntry D)
  hash_search root key = walk (node_cmp key.id) root

  -- `eblob_hash_remove_nolock`
  unfoldable pub hash_remove_nolock :
      Rebalance (HashEntry D) → Hash D → Key → Outcome (Unit {0}) × Hash D
  unfolding hash_search
  hash_remove_nolock r h key = elim (hash_search h.root key) [
    | found p e ↦ (ok tt, record h { root = r.erase p h.root })
    | missing p ↦ (err enoent, h)
  ]

  -- `eblob_hash_lookup_nolock`
  unfoldable pub hash_lookup_nolock : Hash D → Key → Outcome D
  unfolding hash_search
  hash_lookup_nolock h key = elim (hash_search h.root key) [
    | found p e ↦ ok e.bytes
    | missing p ↦ err enoent
  ]

  -- `eblob_hash_lookup`: the same under the read lock.
  unfoldable pub hash_lookup : Hash D → Key → Outcome D
  unfolding hash_lookup_nolock
  hash_lookup h key = hash_lookup_nolock h key

  -- `eblob_hash_empty`; a null pointer is `none`.
  unfoldable pub hash_empty : Option (Hash D) → Bool
  unfolding rb_first
  hash_empty none = true
  hash_empty (some h) = elim (rb_first h.root) [ none ↦ true | some e ↦ false ]

  -- `eblob_hash_destroy`: the entries freed, and the tree that is left.
  unfoldable pub hash_destroy :
      Rebalance (HashEntry D) → Hash D → List (HashEntry D) × Tree (HashEntry D)
  hash_destroy r h = destroy_tree r (suc (length (inorder h.root))) h.root
