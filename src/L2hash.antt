-- ===== src/L2hash.antt =====
-- library/l2hash.c and library/l2hash.h: the cache that keeps a short hash in place of each key.
--
-- `root` holds one entry for each hash. As long as its `collision` is 0 its key is not in memory
-- but in the header on disk that its control points to; once a second key of the same hash has
-- come, the entries of both stand in `collisions` under their whole keys. `null` tells whether one
-- of the pointers that a function tests for NULL is null; `calloc` whether an allocation succeeds.
use eblob.Base.{
  ℕ, zero, suc, Ordering, compare, Bool, true, false, if◌then◌else◌, Option, none, some, List, [],
  Outcome, ok, err, Errno, enoent, eexist, enomem, einval, eintr, errno, assertion, leb, ltb, ◌==◌,
  not, length, ◌||◌,
}
use Prim.Native.Nat.Ordering.{lt, eq, gt}
use eblob.Key.{Key, id_cmp}
use eblob.Record.{DiskControl, RamControl, Disk, Pread, full, short, failed, get_index_fd}
use eblob.Rbtree.{
  Pointer, Tree, leaf, Walk, found, missing, walk, assign, inorder, Rebalance, link_and_color,
  rb_first, destroy_tree,
}
use eblob.L2hash.Murmur.{l2hash_key}
pub mod Murmur
pub mod Contents
pub mod Trees
pub mod Updates
pub mod Flavours
pub mod Insert
pub mod Remove
pub mod Runs

-- `struct eblob_l2hash_entry`
pub record L2hashEntry : Type 0 where
  pub rctl : RamControl
  pub collision : Bool
  pub l2key : ℕ

-- `struct eblob_l2hash_collision`
pub record L2hashCollision : Type 0 where
  pub key : Key
  pub rctl : RamControl

-- `struct eblob_l2hash`
pub record L2hash : Type 0 where
  pub root : Tree L2hashEntry
  pub collisions : Tree L2hashCollision

-- The control that `memset` and `calloc` leave.
abbrev pub zero_rctl : RamControl
zero_rctl = record { data_offset = 0; index_offset = 0; size = 0; bctl = none }

-- `eblob_l2hash_init`
unfoldable pub l2hash_init : L2hash
l2hash_init = record { root = leaf; collisions = leaf }

-- `eblob_l2hash_empty`, which looks at the tree of hashes alone; a null pointer is `none`.
unfoldable pub l2hash_empty : Option L2hash → Bool
l2hash_empty none = true
l2hash_empty (some l2h) = elim (rb_first l2h.root) [ none ↦ true | some e ↦ false ]

-- `eblob_l2hash_destroy` with the loops of `__eblob_l2hash_tree_destroy` and
-- `__eblob_l2hash_collision_tree_destroy`: what is freed of either tree, and what is left.
unfoldable pub l2hash_destroy :
    Rebalance L2hashEntry
    → Rebalance L2hashCollision
    → Option L2hash
    → Outcome (List L2hashEntry × List L2hashCollision × L2hash)
l2hash_destroy r s none = err einval
l2hash_destroy r s (some l2h) =
    let (freed, root) = destroy_tree r (suc (length (inorder l2h.root))) l2h.root in
    let (freed', collisions) =
      destroy_tree s (suc (length (inorder l2h.collisions))) l2h.collisions in
    ok (freed, freed', record { root = root; collisions = collisions })

-- `__eblob_l2hash_index_hdr`
unfoldable pub index_hdr : Disk → RamControl → Outcome DiskControl
index_hdr disk rctl = elim rctl.bctl [
  | none ↦ err assertion
  | some b ↦ elim (disk.pread (get_index_fd (disk.base b)) rctl.index_offset) [
    | full dc ↦ ok dc
    | short got ↦ err eintr
    | failed n ↦ err (errno n)
  ]
]

-- `eblob_l2hash_compare_index`: `ok false` for 0, the key belongs to the control, and `ok true`
-- for 1, it does not.
unfoldable pub compare_index : Disk → Key → RamControl → Outcome Bool
unfolding index_hdr
compare_index disk key rctl = elim (index_hdr disk rctl) [
  | err e ↦ err e
  | ok dc ↦ ok (elim (id_cmp dc.key.id key.id) [ eq ↦ false | lt ↦ true | gt ↦ true ])
]

-- `__eblob_l2hash_collision_walk`
unfoldable pub collision_walk : Tree L2hashCollision → Key → Walk L2hashCollision
collision_walk root key = walk (λ e. id_cmp key.id e.key.id) root

-- `__eblob_l2hash_collision_insert`
unfoldable pub collision_insert :
    Rebalance L2hashCollision
    → Bool
    → Tree L2hashCollision
    → Key
    → RamControl
    → Outcome (Unit {0}) × Tree L2hashCollision
unfolding collision_walk
collision_insert s calloc root key rctl = elim (collision_walk root key) [
  | found p e ↦ (err eexist, root)
  | missing p ↦
      if not calloc
      then (err enomem, root)
      else (ok tt, link_and_color s p (record { key = key; rctl = rctl }) root)
]

-- `__eblob_l2hash_resolve_collision`
unfoldable pub collision_entry : Tree L2hashCollision → Key → Option L2hashCollision
unfolding collision_walk
collision_entry root key = elim (collision_walk root key) [ found p e ↦ some e | missing p ↦ none ]

-- `eblob_l2hash_resolve_collision`
unfoldable pub resolve_collision :
    Disk → Tree L2hashCollision → L2hashEntry → Key → Outcome RamControl
unfolding compare_index collision_entry
resolve_collision disk root e key =
    if not e.collision
    then elim (compare_index disk key e.rctl) [
      | err x ↦ err x
      | ok differs ↦ if differs then err enoent else ok e.rctl
    ]
    else elim (collision_entry root key) [ none ↦ err enoent | some c ↦ ok c.rctl ]

-- `__eblob_l2hash_noncollision_walk`
unfoldable pub noncollision_walk : Tree L2hashEntry → Key → Walk L2hashEntry
noncollision_walk root key = walk (λ e. compare (l2hash_key key) e.l2key) root

-- `__eblob_l2hash_noncollision_insert`
unfoldable pub noncollision_insert :
    Rebalance L2hashEntry
    → Bool
    → Tree L2hashEntry
    → Key
    → RamControl
    → Outcome (Unit {0}) × Tree L2hashEntry
unfolding noncollision_walk
noncollision_insert r calloc root key rctl = elim (noncollision_walk root key) [
  | found p e ↦ (err eexist, root)
  | missing p ↦ if not calloc then (err enomem, root) else (
    ok tt,
    link_and_color r p (record { rctl = rctl; collision = false; l2key = l2hash_key key }) root,
  )
]

-- `eblob_l2hash_lookup`, over `__eblob_l2hash_lookup`
unfoldable pub l2hash_lookup : Disk → Bool → L2hash → Key → Outcome RamControl
unfolding noncollision_walk resolve_collision
l2hash_lookup disk null l2h key =
    if null then err einval else elim (noncollision_walk l2h.root key) [
      | found p e ↦ resolve_collision disk l2h.collisions e key
      | missing p ↦ err enoent
    ]

-- `eblob_l2hash_remove`
unfoldable pub l2hash_remove :
    Disk
    → Rebalance L2hashEntry
    → Rebalance L2hashCollision
    → Bool
    → L2hash
    → Key
    → Outcome (Unit {0}) × L2hash
unfolding noncollision_walk compare_index collision_walk
l2hash_remove disk r s null l2h key =
    if null then (err einval, l2h) else elim (noncollision_walk l2h.root key) [
      | missing p ↦ (err enoent, l2h)
      | found p e ↦
          if not e.collision
          then elim (compare_index disk key e.rctl) [
            | err x ↦ (err x, l2h)
            | ok differs ↦
                if differs
                then (err enoent, l2h)
                else (ok tt, record l2h { root = r.erase p l2h.root })
          ]
          else elim (collision_walk l2h.collisions key) [
            | missing p' ↦ (err enoent, l2h)
            | found p' c ↦ (ok tt, record l2h { collisions = s.erase p' l2h.collisions })
          ]
    ]
