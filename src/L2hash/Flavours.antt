-- ===== src/L2hash/Flavours.antt =====
-- `_eblob_l2hash_insert` of library/l2hash.c, and the three functions that call it with a flavour.
use eblob.Base.{
  ℕ, Bool, true, false, if◌then◌else◌, Option, none, some, Outcome, ok, err, enoent, eexist, einval,
  leb, ◌==◌, not, ◌||◌,
}
use Prim.Native.Nat.Ordering.{lt, eq, gt}
use eblob.Key.{Key, id_cmp}
use eblob.Record.{RamControl, Disk}
use eblob.Rbtree.{Pointer, found, missing, assign, Rebalance}
use eblob.L2hash.{
  L2hashEntry, L2hashCollision, L2hash, zero_rctl, index_hdr, collision_walk, collision_insert,
  noncollision_walk, noncollision_insert,
}

-- The flavours of `_eblob_l2hash_insert`; a caller may pass any unsigned number.
abbrev pub flavor_first : ℕ
flavor_first = 0

abbrev pub flavor_update : ℕ
flavor_update = 1

abbrev pub flavor_upsert : ℕ
flavor_upsert = 2

abbrev pub flavor_insert : ℕ
flavor_insert = 3

abbrev pub flavor_last : ℕ
flavor_last = 4

-- What `_eblob_l2hash_insert` returns, what it writes to `*replaced` (`none` where it writes
-- nothing), and the tables that it leaves.
pub record Inserted : Type 0 where
  pub status : Outcome (Unit {0})
  pub replaced : Option Bool
  pub l2h : L2hash

-- A write to `*replaced`, if the pointer is not null.
abbrev pub report : Bool → Bool → Option Bool
report want v = if want then some v else none

module _ (disk : Disk) (r : Rebalance L2hashEntry) (s : Rebalance L2hashCollision) where
  -- "This is a collision": the old entry moves to the tree of collisions, then the new one joins
  -- it. `m1` and `m2` are the outcomes of the two allocations.
  unfoldable pub insert_collides :
      Bool → Bool → L2hash → Pointer → L2hashEntry → Key → Key → RamControl → ℕ → Bool → Inserted
  unfolding collision_insert
  insert_collides m1 m2 l2h p e old key rctl flavor want =
      if flavor == flavor_update
      then record { status = err enoent; replaced = report want false; l2h = l2h }
      else let (moved, first) = collision_insert s m1 l2h.collisions old e.rctl in
        elim moved [
          | err x ↦ record {
            status = err x;
            replaced = report want false;
            l2h = record l2h { collisions = first };
          }
          | ok _ ↦
              let (status, second) = collision_insert s m2 first key rctl in
              record {
                status = status;
                replaced = report want false;
                l2h = record {
                  root = assign p (record e { collision = true; rctl = zero_rctl }) l2h.root;
                  collisions = second;
                };
              }
        ]

  -- There is an entry with the hash, and no collision yet.
  unfoldable pub insert_resident :
      Bool → Bool → L2hash → Pointer → L2hashEntry → Key → RamControl → ℕ → Bool → Inserted
  unfolding index_hdr insert_collides
  insert_resident m1 m2 l2h p e key rctl flavor want = elim (index_hdr disk e.rctl) [
    | err x ↦ record { status = err x; replaced = report want false; l2h = l2h }
    | ok dc ↦
        let same : Inserted =
          if flavor == flavor_insert
          then record { status = err eexist; replaced = report want false; l2h = l2h }
          else record {
            status = ok tt;
            replaced = report want true;
            l2h = record l2h { root = assign p (record e { rctl = rctl }) l2h.root };
          } in
        elim (id_cmp key.id dc.key.id) [
          | eq ↦ same
          | lt ↦ insert_collides m1 m2 l2h p e dc.key key rctl flavor want
          | gt ↦ insert_collides m1 m2 l2h p e dc.key key rctl flavor want
        ]
  ]

  -- The entries of the hash stand in the tree of collisions.
  unfoldable pub insert_collided : Bool → L2hash → Key → RamControl → ℕ → Bool → Inserted
  unfolding collision_walk collision_insert
  insert_collided m1 l2h key rctl flavor want = elim (collision_walk l2h.collisions key) [
    | missing p ↦
        if flavor == flavor_update
        then record { status = err enoent; replaced = report want false; l2h = l2h }
        else let (status, collisions) = collision_insert s m1 l2h.collisions key rctl in
          record {
            status = status;
            replaced = report want false;
            l2h = record l2h { collisions = collisions };
          }
    | found p c ↦
        if flavor == flavor_insert
        then record { status = err eexist; replaced = report want false; l2h = l2h }
        else record {
          status = ok tt;
          replaced = report want true;
          l2h = record l2h { collisions = assign p (record c { rctl = rctl }) l2h.collisions };
        }
  ]

  -- `_eblob_l2hash_insert`; `want` tells whether the pointer `replaced` is not null.
  unfoldable pub l2hash_insert_flavor :
      Bool → Bool → Bool → L2hash → Key → RamControl → ℕ → Bool → Inserted
  unfolding noncollision_walk noncollision_insert insert_resident insert_collided
  l2hash_insert_flavor null m1 m2 l2h key rctl flavor want =
      if null || leb flavor flavor_first || leb flavor_last flavor
      then record { status = err einval; replaced = none; l2h = l2h }
      else elim (noncollision_walk l2h.root key) [
        | missing p ↦
            if flavor == flavor_update
            then record { status = err enoent; replaced = report want false; l2h = l2h }
            else let (status, root) = noncollision_insert r m1 l2h.root key rctl in
              record {
                status = status;
                replaced = report want false;
                l2h = record l2h { root = root };
              }
        | found p e ↦
            if not e.collision
            then insert_resident m1 m2 l2h p e key rctl flavor want
            else insert_collided m1 l2h key rctl flavor want
      ]

  -- `eblob_l2hash_insert`, `eblob_l2hash_update` and `eblob_l2hash_upsert`
  unfoldable pub l2hash_insert : Bool → Bool → Bool → L2hash → Key → RamControl → Inserted
  unfolding l2hash_insert_flavor
  l2hash_insert null m1 m2 l2h key rctl =
      l2hash_insert_flavor null m1 m2 l2h key rctl flavor_insert false

  unfoldable pub l2hash_update : Bool → Bool → Bool → L2hash → Key → RamControl → Inserted
  unfolding l2hash_insert_flavor
  l2hash_update null m1 m2 l2h key rctl =
      l2hash_insert_flavor null m1 m2 l2h key rctl flavor_update false

  unfoldable pub l2hash_upsert : Bool → Bool → Bool → L2hash → Key → RamControl → Bool → Inserted
  unfolding l2hash_insert_flavor
  l2hash_upsert null m1 m2 l2h key rctl want =
      l2hash_insert_flavor null m1 m2 l2h key rctl flavor_upsert want
