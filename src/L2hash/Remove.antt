-- ===== src/L2hash/Remove.antt =====
-- `eblob_l2hash_remove`: what every branch leaves.
use Prim.Native.Nat.Ordering.{eq}
use eblob.Base.{
  compare, true, false, Option, none, some, Outcome, ok, err, removed_reply, Errno, enoent, ◌≡◌,
  refl, sym, ap, subst, ◌∙◌, arith, inl, inr, some_inj, Bool-cases,
}
use eblob.Key.{Key, id_cmp}
use eblob.Key.Order.{compare-IsOrder, key_cmp, key_cmp-IsOrder, Key-cases}
use eblob.Record.{RamControl, Disk}
use eblob.Rbtree.{Pointer, Rebalance, found, Walk-cases}
use eblob.Rbtree.Places.{walk_found, walk_missing, erase_lem}
use eblob.L2hash.Murmur.{l2hash_key}
use eblob.L2hash.{
  L2hash, L2hashEntry, L2hashCollision, compare_index, l2hash_lookup, noncollision_walk,
  collision_walk, l2hash_remove,
}
use eblob.L2hash.Contents.{
  IsSound, BelongsTo, entry_hash, collision_key, entry_of, collision_of, answer, of_collision,
  lookup-answer,
}
use eblob.L2hash.Updates.{
  of_index_same, of_index_other, entry_change-IsSound, entry_change_others, entry_change_gone,
  collision_change-IsSound, collision_change_others, collision_change_own,
}

-- What a removal that returned `res` and left `l2h'` did.
pub record Removed (disk : Disk) (l2h : L2hash) (key : Key) (out : Outcome (Unit {0}) × L2hash)
    : Type 0 where
  pub sound : IsSound disk out.1
  pub gone : l2hash_lookup disk false out.1 key ≡ err enoent
  pub others :
      (j : Key) → (j ≡ key → ⊥) → l2hash_lookup disk false out.1 j ≡ l2hash_lookup disk false l2h j
  pub status : out.0 ≡ removed_reply (l2hash_lookup disk false l2h key)
  pub kept : (e : Errno) → out.0 ≡ err e → out.1 ≡ l2h

-- The two results of the comparison with the index.
compare_same :
    (disk : Disk) (key : Key) (rctl : RamControl)
    → BelongsTo disk key rctl
    → compare_index disk key rctl ≡ ok false
unfolding compare_index
compare_same disk key rctl (dc, read, same) =
    let h : id_cmp dc.key.id key.id ≡ eq =
      ap (λ k. key_cmp k key) same ∙ key_cmp-IsOrder.same key in
    rw (read, compare_index, h)

compare_other :
    (disk : Disk) (j key : Key) (rctl : RamControl)
    → BelongsTo disk key rctl
    → (j ≡ key → ⊥)
    → compare_index disk j rctl ≡ ok true
unfolding compare_index
compare_other disk j key rctl (dc, read, same) ne =
    let other : dc.key ≡ j → ⊥ = λ q. ne (sym q ∙ same) in
    rw (read, compare_index) (ground (arith, other, key_cmp-IsOrder.eq_of_cmp dc.key j))

module _ (disk : Disk) (r : Rebalance L2hashEntry) (s : Rebalance L2hashCollision) (l2h : L2hash)
    (key : Key) (v : IsSound disk l2h) where
  -- Nothing was there to remove.
  kept-Removed :
      l2hash_lookup disk false l2h key ≡ err enoent → Removed disk l2h key (err enoent, l2h)
  kept-Removed old = record {
    sound = v;
    gone = old;
    others = λ j ne. refl;
    status = rw old;
    kept = λ e q. refl;
  }

  seen :
      (o : Option L2hashEntry)
      → entry_of l2h (l2hash_key key) ≡ o
      → l2hash_lookup disk false l2h key ≡ answer disk key o (collision_of l2h key)
  seen o h = lookup-answer disk l2h key v ∙ ap (λ x. answer disk key x (collision_of l2h key)) h

  -- The entry has no collision.
  resident-Removed :
      (p : Pointer) (e : L2hashEntry)
      → noncollision_walk l2h.root key ≡ found p e
      → e.collision ≡ false
      → Removed disk l2h key (l2hash_remove disk r s false l2h key)
  unfolding l2hash_remove noncollision_walk
  resident-Removed p e w plain =
      let at =
        walk_found compare entry_hash compare-IsOrder (l2hash_key key) l2h.root v.entries w in
      let (dc, read, hash) = v.resident (l2hash_key key) e at.1 plain in
      elim (Key-cases key dc.key) [
        | inl same ↦
            let owned : BelongsTo disk key e.rctl = (dc, read, sym same) in
            let done =
              erase_lem compare entry_hash compare-IsOrder r (l2hash_key key) l2h.root v.entries
                w in
            let l2h' : L2hash = record l2h { root = r.erase p l2h.root } in
            let it : (x : L2hashEntry) → entry_of l2h (l2hash_key key) ≡ some x → e ≡ x =
              λ x q. some_inj (sym at.1 ∙ q) in
            let unmarked = λ (x : L2hashEntry) (q : entry_of l2h (l2hash_key key) ≡ some x).
              subst (λ y. y.collision ≡ false) (it x q) plain in
            let alone = λ (x : L2hashEntry) (q : entry_of l2h (l2hash_key key) ≡ some x).
              subst (λ y. BelongsTo disk key y.rctl) (it x q) owned in
            let fits = λ (x : L2hashEntry) (q : entry_of l2h' (l2hash_key key) ≡ some x).
              none_fits x done.1 q in
            let old : l2hash_lookup disk false l2h key ≡ ok e.rctl =
              seen (some e) at.1 ∙ rw plain (of_index_same disk key e.rctl owned) in
            rw (w, l2hash_remove, plain, compare_same disk key e.rctl owned)
              (record {
                sound =
                    entry_change-IsSound disk l2h l2h' key v done.0 refl done.2 unmarked fits alone;
                gone =
                    entry_change_gone disk l2h l2h' key v done.0 refl done.2 unmarked fits alone
                      done.1;
                others =
                    entry_change_others disk l2h l2h' key v done.0 refl done.2 unmarked fits alone;
                status = rw old;
                kept = λ e q. cc q;
              })
        | inr differ ↦
            let owned : BelongsTo disk dc.key e.rctl = (dc, read, refl) in
            let old : l2hash_lookup disk false l2h key ≡ err enoent =
              seen (some e) at.1 ∙ rw plain (of_index_other disk key dc.key e.rctl owned differ) in
            rw (w, l2hash_remove, plain, compare_other disk key dc.key e.rctl owned differ)
              (kept-Removed old)
      ]
    where
      none_fits :
          (x : L2hashEntry) {o : Option L2hashEntry}
          → o ≡ none
          → o ≡ some x
          → (x.collision ≡ false) × BelongsTo disk key x.rctl
      none_fits x h q = absurd (cc (h, q))

  -- The entries of the hash stand in the tree of collisions.
  collided-Removed :
      (p : Pointer) (e : L2hashEntry)
      → noncollision_walk l2h.root key ≡ found p e
      → e.collision ≡ true
      → Removed disk l2h key (l2hash_remove disk r s false l2h key)
  unfolding l2hash_remove noncollision_walk collision_walk
  collided-Removed p e w set =
      let at =
        walk_found compare entry_hash compare-IsOrder (l2hash_key key) l2h.root v.entries w in
      let old : l2hash_lookup disk false l2h key ≡ of_collision (collision_of l2h key) =
        seen (some e) at.1 ∙ rw set in
      elim (Walk-cases (collision_walk l2h.collisions key)) [
        | inl (q, c, x) ↦
            let there =
              walk_found key_cmp collision_key key_cmp-IsOrder key l2h.collisions v.collided x in
            let done =
              erase_lem key_cmp collision_key key_cmp-IsOrder s key l2h.collisions v.collided x in
            let l2h' : L2hash = record l2h { collisions = s.erase q l2h.collisions } in
            let own = collision_change_own disk l2h l2h' key v done.0 refl done.2 e at.1 set in
            rw (w, l2hash_remove, set, x)
              (record {
                sound = collision_change-IsSound disk l2h l2h' key v done.0 refl done.2 e at.1 set;
                gone = own ∙ ap of_collision done.1;
                others = collision_change_others disk l2h l2h' key v done.0 refl done.2 e at.1 set;
                status = rw (old, there.1);
                kept = λ e q. cc q;
              })
        | inr (q, x) ↦
            let none_there =
              walk_missing key_cmp collision_key key_cmp-IsOrder key l2h.collisions v.collided x in
            rw (w, l2hash_remove, set, x) (kept-Removed (old ∙ ap of_collision none_there))
      ]

  -- `eblob_l2hash_remove`, on every branch. The tables stay sound, a lookup of the key then returns
  -- -ENOENT and every other lookup what it returned before; the call returns 0 if the key was
  -- there, and -ENOENT if it was not; a call that returns an error leaves the tables as they were.
  pub l2hash_remove-Removed : Removed disk l2h key (l2hash_remove disk r s false l2h key)
  unfolding l2hash_remove noncollision_walk
  l2hash_remove-Removed = elim (Walk-cases (noncollision_walk l2h.root key)) [
    | inl (p, e, w) ↦ elim (Bool-cases e.collision) [
      | inl set ↦ collided-Removed p e w set
      | inr plain ↦ resident-Removed p e w plain
    ]
    | inr (p, w) ↦
        let gone =
          walk_missing compare entry_hash compare-IsOrder (l2hash_key key) l2h.root v.entries w in
        rw (w, l2hash_remove) (kept-Removed (seen none gone))
  ]
