-- ===== src/L2hash/Contents.antt =====
-- What the two tables of l2hash.c hold, and when they fit together.
use Prim.Native.Nat.Ordering.{lt, eq, gt}
use eblob.Base.{
  ℕ, compare, true, false, if◌then◌else◌, Option, none, some, Outcome, ok, err, enoent, ◌≡◌, sym,
  arith, inl, inr,
}
use eblob.Key.{Key, id_cmp}
use eblob.Key.Order.{compare-IsOrder, key_cmp, key_cmp-IsOrder}
use eblob.Record.{DiskControl, RamControl, Disk}
use eblob.Rbtree.{Walk-cases}
use eblob.Rbtree.Places.{IsSearchTree, get, walk_found, walk_missing}
use eblob.L2hash.Murmur.{l2hash_key}
use eblob.L2hash.{
  L2hash, L2hashEntry, L2hashCollision, index_hdr, collision_walk, collision_entry,
  noncollision_walk, resolve_collision, l2hash_lookup,
}

abbrev pub entry_hash : L2hashEntry → ℕ
entry_hash e = e.l2key

abbrev pub collision_key : L2hashCollision → Key
collision_key c = c.key

-- The entry of a hash, and the collision entry of a key.
abbrev pub entry_of : L2hash → ℕ → Option L2hashEntry
entry_of l2h n = get compare entry_hash l2h.root n

abbrev pub collision_of : L2hash → Key → Option L2hashCollision
collision_of l2h k = get key_cmp collision_key l2h.collisions k

-- The header on disk that a control points to is that of the key.
abbrev pub BelongsTo : Disk → Key → RamControl → Type 0
BelongsTo disk key rctl = (dc : DiskControl) × (index_hdr disk rctl ≡ ok dc) × (dc.key ≡ key)

-- The invariant: both tables are search trees; the header of an entry without a collision can be
-- read, and its key has the hash of the entry; and a key of the tree of collisions has an entry
-- whose collision is set.
pub record IsSound (disk : Disk) (l2h : L2hash) : Type 0 where
  pub entries : IsSearchTree compare entry_hash l2h.root
  pub collided : IsSearchTree key_cmp collision_key l2h.collisions
  pub resident :
      (n : ℕ) (e : L2hashEntry)
      → entry_of l2h n ≡ some e
      → e.collision ≡ false
      → (dc : DiskControl) × (index_hdr disk e.rctl ≡ ok dc) × (l2hash_key dc.key ≡ n)
  pub marked :
      (k : Key) (c : L2hashCollision)
      → collision_of l2h k ≡ some c
      → (e : L2hashEntry) × (entry_of l2h (l2hash_key k) ≡ some e) × (e.collision ≡ true)

-- What a lookup of `key` answers from the two entries that it may come to.
abbrev pub of_index : Key → RamControl → Outcome DiskControl → Outcome RamControl
of_index key rctl (err x) = err x
of_index key rctl (ok dc) = elim (id_cmp dc.key.id key.id) [
  | eq ↦ ok rctl
  | lt ↦ err enoent
  | gt ↦ err enoent
]

abbrev pub of_collision : Option L2hashCollision → Outcome RamControl
of_collision none = err enoent
of_collision (some c) = ok c.rctl

abbrev pub answer : Disk → Key → Option L2hashEntry → Option L2hashCollision → Outcome RamControl
answer disk key none c = err enoent
answer disk key (some e) c =
    if e.collision then of_collision c else of_index key e.rctl (index_hdr disk e.rctl)

module _ (disk : Disk) (l2h : L2hash) (key : Key) where
  collision_entry_lem :
      IsSearchTree key_cmp collision_key l2h.collisions
      → collision_entry l2h.collisions key ≡ collision_of l2h key
  unfolding collision_entry
  collision_entry_lem h = elim (Walk-cases (collision_walk l2h.collisions key)) [
    | inl (p, c, w) ↦
        rw (w, collision_entry)
          (sym (walk_found key_cmp collision_key key_cmp-IsOrder key l2h.collisions h w).1)
    | inr (p, w) ↦
        rw (w, collision_entry)
          (sym (walk_missing key_cmp collision_key key_cmp-IsOrder key l2h.collisions h w))
  ]

  resolve_lem :
      (e : L2hashEntry)
      → IsSearchTree key_cmp collision_key l2h.collisions
      → resolve_collision disk l2h.collisions e key
        ≡ answer disk key (some e) (collision_of l2h key)
  unfolding resolve_collision
  resolve_lem e h = ground (arith, collision_entry_lem h)

  -- A lookup by what the two tables hold.
  pub lookup-answer :
      IsSound disk l2h
      → l2hash_lookup disk false l2h key
        ≡ answer disk key (entry_of l2h (l2hash_key key)) (collision_of l2h key)
  unfolding l2hash_lookup
  lookup-answer v = elim (Walk-cases (noncollision_walk l2h.root key)) [
    | inl (p, e, w) ↦
        rw (w, l2hash_lookup)
          (rw
            (walk_found compare entry_hash compare-IsOrder (l2hash_key key) l2h.root v.entries w).1
            (resolve_lem e v.collided))
    | inr (p, w) ↦
        rw (w, l2hash_lookup)
          (rw
            (walk_missing compare entry_hash compare-IsOrder (l2hash_key key) l2h.root v.entries w))
  ]
