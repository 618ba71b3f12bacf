-- ===== src/L2hash/Trees.antt =====
-- The two insertions into a tree of l2hash.c, by the end of their walk and the allocation.
use eblob.Base.{Bool, true, false, ok, err, enomem, ◌≡◌}
use eblob.Key.{Key}
use eblob.Record.{RamControl}
use eblob.Rbtree.{Pointer, Tree, Rebalance, missing, link_and_color}
use eblob.L2hash.Murmur.{l2hash_key}
use eblob.L2hash.{
  L2hashEntry, L2hashCollision, noncollision_walk, noncollision_insert, collision_walk,
  collision_insert,
}

-- The entry that the first key of a hash gets.
abbrev pub new_entry : Key → RamControl → L2hashEntry
new_entry key rctl = record { rctl = rctl; collision = false; l2key = l2hash_key key }

abbrev pub new_collision : Key → RamControl → L2hashCollision
new_collision key rctl = record { key = key; rctl = rctl }

module _ (r : Rebalance L2hashEntry) (calloc : Bool) (root : Tree L2hashEntry) (key : Key)
    (rctl : RamControl) {p : Pointer} (w : noncollision_walk root key ≡ missing p) where
  pub noncollision_insert_ok :
      calloc ≡ true
      → noncollision_insert r calloc root key rctl
        ≡ (ok tt, link_and_color r p (new_entry key rctl) root)
  unfolding noncollision_insert
  noncollision_insert_ok e = rw (w, noncollision_insert, e)

  pub noncollision_insert_oom :
      calloc ≡ false → noncollision_insert r calloc root key rctl ≡ (err enomem, root)
  unfolding noncollision_insert
  noncollision_insert_oom e = rw (w, noncollision_insert, e)

module _ (s : Rebalance L2hashCollision) (calloc : Bool) (root : Tree L2hashCollision) (key : Key)
    (rctl : RamControl) {p : Pointer} (w : collision_walk root key ≡ missing p) where
  pub collision_insert_ok :
      calloc ≡ true
      → collision_insert s calloc root key rctl
        ≡ (ok tt, link_and_color s p (new_collision key rctl) root)
  unfolding collision_insert
  collision_insert_ok e = rw (w, collision_insert, e)

  pub collision_insert_oom :
      calloc ≡ false → collision_insert s calloc root key rctl ≡ (err enomem, root)
  unfolding collision_insert
  collision_insert_oom e = rw (w, collision_insert, e)
