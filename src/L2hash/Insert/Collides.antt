-- ===== src/L2hash/Insert/Collides.antt =====
-- `_eblob_l2hash_insert` of a key whose hash belongs to another so far: `insert_collides`, which
-- moves the old entry to the tree of collisions.
use eblob.Base.{
  ℕ, ◌==◌, ◌&&◌, compare, Bool, true, false, none, some, ok, err, enoent, enomem, ◌≡◌, refl, sym,
  ap, ◌∙◌, arith, inl, inr, Option-cases, Bool-cases,
}
use eblob.Key.{Key}
use eblob.Key.Order.{compare-IsOrder, key_cmp, key_cmp-IsOrder}
use eblob.Record.{DiskControl, RamControl, Disk}
use eblob.Rbtree.{Tree, Pointer, Rebalance, found, Walk-cases, assign}
use eblob.Rbtree.Places.{IsSearchTree, get, walk_found, link_lem, assign_lem}
use eblob.L2hash.Murmur.{l2hash_key}
use eblob.L2hash.{
  L2hash, L2hashEntry, L2hashCollision, zero_rctl, index_hdr, l2hash_lookup, noncollision_walk,
  collision_walk, collision_insert,
}
use eblob.L2hash.Flavours.{Inserted, report, flavor_update, insert_collides}
use eblob.L2hash.Trees.{new_collision, collision_insert_ok, collision_insert_oom}
use eblob.L2hash.Contents.{
  IsSound, BelongsTo, entry_hash, collision_key, entry_of, collision_of, answer, of_collision,
  lookup-answer,
}
use eblob.L2hash.Updates.{
  of_index_other, collision_change-IsSound, collision_change_others, collision_change_own,
  move-IsSound, move_lookup,
}
use eblob.L2hash.Insert.Effects.{Effect, unchanged_absent, stored_absent}

-- The entry has no collision, and its header is that of another key with the same hash.
module _ (disk : Disk) (r : Rebalance L2hashEntry) (s : Rebalance L2hashCollision) (m1 m2 : Bool)
    (l2h : L2hash) (key : Key) (rctl : RamControl) (flavor : ℕ) (want : Bool) (v : IsSound disk l2h)
    (own : BelongsTo disk key rctl) (p : Pointer) (e : L2hashEntry)
    (w : noncollision_walk l2h.root key ≡ found p e) (plain : e.collision ≡ false)
    (dc : DiskControl) (read : index_hdr disk e.rctl ≡ ok dc)
    (hash : l2hash_key dc.key ≡ l2hash_key key) (differ : key ≡ dc.key → ⊥) where
  abbrev Result : Inserted → Type 0
  Result = Effect disk l2h key rctl flavor (m1 && m2) want

  at_root : entry_of l2h (l2hash_key key) ≡ some e
  unfolding noncollision_walk
  at_root = (walk_found compare entry_hash compare-IsOrder (l2hash_key key) l2h.root v.entries w).1

  seen_other : l2hash_lookup disk false l2h key ≡ err enoent
  seen_other =
      lookup-answer disk l2h key v
      ∙ (ap (λ o. answer disk key o (collision_of l2h key)) at_root
          ∙ rw plain (of_index_other disk key dc.key e.rctl (dc, read, refl) differ))

  -- No key of the hash stands in the tree of collisions.
  none_collided : (k : Key) → l2hash_key k ≡ l2hash_key key → collision_of l2h k ≡ none
  none_collided k same = elim (Option-cases (collision_of l2h k)) [
    | inl h ↦ h
    | inr (c, h) ↦
        let (x, at, m) = v.marked k c h in cc (at, ap (entry_of l2h) same, at_root, m, plain)
  ]

  abbrev marked_entry : L2hashEntry
  marked_entry = record e { collision = true; rctl = zero_rctl }

  -- The tables when the old entry has moved, over the tree of collisions `first`.
  abbrev moved_to : Tree L2hashCollision → L2hash
  moved_to first = record { root = assign p marked_entry l2h.root; collisions = first }

  moved-IsSound :
      (first : Tree L2hashCollision)
      → IsSearchTree key_cmp collision_key first
      → get key_cmp collision_key first dc.key ≡ some (new_collision dc.key e.rctl)
      → ((j : Key) → (j ≡ dc.key → ⊥) → get key_cmp collision_key first j ≡ collision_of l2h j)
      → IsSound disk (moved_to first)
        × ((j : Key) → l2hash_lookup disk false (moved_to first) j ≡ l2hash_lookup disk false l2h j)
        × (entry_of (moved_to first) (l2hash_key key) ≡ some marked_entry)
  unfolding noncollision_walk
  moved-IsSound first sorted at kept =
      let done =
        assign_lem compare entry_hash compare-IsOrder (l2hash_key key) l2h.root marked_entry
          v.entries w refl in
      let at_old : entry_of l2h (l2hash_key dc.key) ≡ some e = ap (entry_of l2h) hash ∙ at_root in
      let at_new : entry_of (moved_to first) (l2hash_key dc.key) ≡ some marked_entry =
        ap (entry_of (moved_to first)) hash ∙ done.1 in
      let others = λ (n : ℕ) (ne : n ≡ l2hash_key dc.key → ⊥). done.2 n (λ q. ne (q ∙ sym hash)) in
      (
        move-IsSound disk l2h (moved_to first) dc.key v done.0 sorted e marked_entry
            (new_collision dc.key e.rctl) at_old plain (dc, read, refl) at_new refl others at refl
            kept,
        move_lookup disk l2h (moved_to first) dc.key v done.0 sorted e marked_entry
            (new_collision dc.key e.rctl) at_old plain (dc, read, refl) at_new refl others at refl
            kept,
        done.1,
      )

  -- The second insertion, into the tables in which the old entry has moved.
  second_step :
      (first : Tree L2hashCollision)
      → (flavor == flavor_update) ≡ false
      → IsSearchTree key_cmp collision_key first
      → get key_cmp collision_key first dc.key ≡ some (new_collision dc.key e.rctl)
      → ((j : Key) → (j ≡ dc.key → ⊥) → get key_cmp collision_key first j ≡ collision_of l2h j)
      → Result (
          let (status, second) = collision_insert s m2 first key rctl in
          record { status = status; replaced = report want false; l2h = moved_to second })
  unfolding collision_walk
  second_step first f sorted at kept =
      let mid = moved-IsSound first sorted at kept in
      let gone : get key_cmp collision_key first key ≡ none =
        kept key differ ∙ none_collided key refl in
      elim (Walk-cases (collision_walk first key)) [
        | inl (q, c, x) ↦
            cc (gone, (walk_found key_cmp collision_key key_cmp-IsOrder key first sorted x).1)
        | inr (q, x) ↦ elim (Bool-cases m2) [
          | inr h ↦ rw (collision_insert_oom s m2 first key rctl x h) (record {
            sound = mid.0;
            status = rw (seen_other, f) (inr (refl, ground arith, refl));
            reported = rw seen_other;
            reads = mid.1;
          })
          | inl h ↦
              let done =
                link_lem key_cmp collision_key key_cmp-IsOrder s key first (new_collision key rctl)
                  sorted x refl in
              let now =
                collision_change-IsSound disk (moved_to first) (moved_to _) key mid.0 done.0 refl
                  done.2 marked_entry mid.2 refl in
              let own' =
                collision_change_own disk (moved_to first) (moved_to _) key mid.0 done.0 refl done.2
                  marked_entry mid.2 refl in
              let others =
                collision_change_others disk (moved_to first) (moved_to _) key mid.0 done.0 refl
                  done.2 marked_entry mid.2 refl in
              rw (collision_insert_ok s m2 first key rctl x h) (
                stored_absent _ seen_other f now
                  (own' ∙ ap of_collision done.1, λ j ne. others j ne ∙ mid.1 j))
        ]
      ]

  pub insert_collides-Effect :
      Result (insert_collides disk r s m1 m2 l2h p e dc.key key rctl flavor want)
  unfolding insert_collides collision_walk
  insert_collides-Effect = elim (Bool-cases (flavor == flavor_update)) [
    | inl f ↦ rw f (unchanged_absent v enoent seen_other (inl (rw f)))
    | inr f ↦ elim (Walk-cases (collision_walk l2h.collisions dc.key)) [
      | inl (q, c, x) ↦ cc (
        none_collided dc.key hash,
        (walk_found key_cmp collision_key key_cmp-IsOrder dc.key l2h.collisions v.collided x).1,
      )
      | inr (q, x) ↦ elim (Bool-cases m1) [
        | inr h ↦
            let full = collision_insert_oom s m1 l2h.collisions dc.key e.rctl x h in
            rw (f, full)
              (rw full (unchanged_absent v enomem seen_other (inr (refl, ground arith, f))))
        | inl h ↦
            let done =
              link_lem key_cmp collision_key key_cmp-IsOrder s dc.key l2h.collisions
                (new_collision dc.key e.rctl) v.collided x refl in
            let stored = collision_insert_ok s m1 l2h.collisions dc.key e.rctl x h in
            rw (f, stored) (rw stored (second_step _ f done.0 done.1 done.2))
      ]
    ]
  ]
