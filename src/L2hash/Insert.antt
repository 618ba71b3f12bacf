-- ===== src/L2hash/Insert.antt =====
-- `_eblob_l2hash_insert`: what every branch leaves.
use Prim.Native.Nat.Ordering.{eq}
use eblob.Base.{
  ℕ, ◌<◌, leb, ◌==◌, ◌||◌, ◌&&◌, not, compare, Bool, true, false, if◌then◌else◌, none, some,
  Outcome, ok, err, Errno, enoent, eexist, enomem, ◌≡◌, refl, sym, ap, subst, ◌∙◌, arith, ◌⊎◌, inl,
  inr, Option-cases, Bool-cases, Ordering-cases, some_inj, if_elim,
}
use eblob.Key.{Key, id_cmp}
use eblob.Key.Order.{compare-IsOrder, key_cmp, key_cmp-IsOrder, Key-cases}
use eblob.Record.{DiskControl, RamControl, Disk}
use eblob.Rbtree.{Tree, Pointer, Rebalance, found, missing, Walk-cases, link_and_color, assign}
use eblob.Rbtree.Places.{IsSearchTree, get, walk_found, walk_missing, link_lem, assign_lem}
use eblob.L2hash.Murmur.{l2hash_key}
use eblob.L2hash.{
  L2hash, L2hashEntry, L2hashCollision, zero_rctl, index_hdr, l2hash_lookup, noncollision_walk,
  noncollision_insert, collision_walk, collision_insert,
}
use eblob.L2hash.Flavours.{
  Inserted, report, flavor_update, flavor_insert, flavor_last, flavor_first, insert_collides,
  insert_resident, insert_collided, l2hash_insert_flavor,
}
use eblob.L2hash.Trees.{
  new_entry, new_collision, noncollision_insert_ok, noncollision_insert_oom, collision_insert_ok,
  collision_insert_oom,
}
use eblob.L2hash.Contents.{
  IsSound, BelongsTo, entry_hash, collision_key, entry_of, collision_of, answer, of_collision,
  lookup-answer,
}
use eblob.L2hash.Updates.{
  of_index_same, of_index_other, entry_store, collision_change-IsSound, collision_change_others,
  collision_change_own, move-IsSound, move_lookup,
}
use eblob.L2hash.Insert.Effects.{
  StatusFits, replaces, Wrote, Effect, unchanged_absent, unchanged_present, stored_absent,
  stored_present,
}
use eblob.L2hash.Insert.Collided.{insert_collided-Effect}
use eblob.L2hash.Insert.Collides.{insert_collides-Effect}
mod Collided
mod Collides
pub mod Effects

module _ (disk : Disk) (r : Rebalance L2hashEntry) (s : Rebalance L2hashCollision) (m1 m2 : Bool)
    (l2h : L2hash) (key : Key) (rctl : RamControl) (flavor : ℕ) (want : Bool) (v : IsSound disk l2h)
    (own : BelongsTo disk key rctl) where
  abbrev Result : Inserted → Type 0
  Result = Effect disk l2h key rctl flavor (m1 && m2) want

  seen_resident :
      (p : Pointer) (e : L2hashEntry)
      → noncollision_walk l2h.root key ≡ found p e
      → e.collision ≡ false
      → BelongsTo disk key e.rctl
      → l2hash_lookup disk false l2h key ≡ ok e.rctl
  unfolding noncollision_walk
  seen_resident p e w plain owned =
      let there =
        walk_found compare entry_hash compare-IsOrder (l2hash_key key) l2h.root v.entries w in
      lookup-answer disk l2h key v
      ∙ (ap (λ o. answer disk key o (collision_of l2h key)) there.1
          ∙ rw plain (of_index_same disk key e.rctl owned))

  absent_lookup :
      (p : Pointer)
      → noncollision_walk l2h.root key ≡ missing p
      → l2hash_lookup disk false l2h key ≡ err enoent
  unfolding noncollision_walk
  absent_lookup p w =
      lookup-answer disk l2h key v
      ∙ ap (λ o. answer disk key o (collision_of l2h key))
          (walk_missing compare entry_hash compare-IsOrder (l2hash_key key) l2h.root v.entries w)

  found_entry :
      (p : Pointer) (e : L2hashEntry)
      → noncollision_walk l2h.root key ≡ found p e
      → entry_of l2h (l2hash_key key) ≡ some e
  unfolding noncollision_walk
  found_entry p e w =
      (walk_found compare entry_hash compare-IsOrder (l2hash_key key) l2h.root v.entries w).1

  absent_hash :
      (p : Pointer)
      → noncollision_walk l2h.root key ≡ missing p
      → (flavor == flavor_update) ≡ false
      → Result (
          let (status, root) = noncollision_insert r m1 l2h.root key rctl in
          record {
            status = status;
            replaced = report want false;
            l2h = record l2h { root = root };
          })
  unfolding noncollision_walk
  absent_hash p w h =
      let gone =
        walk_missing compare entry_hash compare-IsOrder (l2hash_key key) l2h.root v.entries w in
      let old =
        lookup-answer disk l2h key v ∙ ap (λ o. answer disk key o (collision_of l2h key)) gone in
      elim (Bool-cases m1) [
        | inr e ↦
            rw (noncollision_insert_oom r m1 l2h.root key rctl w e)
              (unchanged_absent v enomem old (inr (refl, ground arith, h)))
        | inl e ↦
            let done =
              link_lem compare entry_hash compare-IsOrder r (l2hash_key key) l2h.root
                (new_entry key rctl) v.entries w refl in
            let l2h' : L2hash = record l2h {
              root = link_and_color r p (new_entry key rctl) l2h.root;
            } in
            let now =
              entry_store disk l2h l2h' key v done.0 refl done.2 (λ x q. cc (gone, q))
                (λ x q. absurd (cc (gone, q))) (new_entry key rctl) done.1 refl own in
            rw (noncollision_insert_ok r m1 l2h.root key rctl w e)
              (stored_absent l2h' old h now.0 (now.1, now.2))
      ]

  -- The entry has no collision, and its header on disk is that of the key.
  same_key :
      (p : Pointer) (e : L2hashEntry)
      → noncollision_walk l2h.root key ≡ found p e
      → e.collision ≡ false
      → BelongsTo disk key e.rctl
      → (flavor == flavor_insert) ≡ false
      → Result (record {
        status = ok tt;
        replaced = report want true;
        l2h = record l2h { root = assign p (record e { rctl = rctl }) l2h.root };
      })
  unfolding noncollision_walk
  same_key p e w plain owned h =
      let there =
        walk_found compare entry_hash compare-IsOrder (l2hash_key key) l2h.root v.entries w in
      let done =
        assign_lem compare entry_hash compare-IsOrder (l2hash_key key) l2h.root
          (record e { rctl = rctl }) v.entries w refl in
      let l2h' : L2hash = record l2h { root = assign p (record e { rctl = rctl }) l2h.root } in
      let it : (x : L2hashEntry) → entry_of l2h (l2hash_key key) ≡ some x → e ≡ x =
        λ x q. some_inj (sym there.1 ∙ q) in
      let now =
        entry_store disk l2h l2h' key v done.0 refl done.2
          (λ x q. subst (λ y. y.collision ≡ false) (it x q) plain)
          (λ x q. subst (λ y. BelongsTo disk key y.rctl) (it x q) owned) (record e { rctl = rctl })
          done.1 plain own in
      stored_present l2h' e.rctl (seen_resident p e w plain owned) h now.0 (now.1, now.2)

  -- The entry has no collision: `insert_resident`.
  insert_resident-Effect :
      (p : Pointer) (e : L2hashEntry)
      → noncollision_walk l2h.root key ≡ found p e
      → e.collision ≡ false
      → Result (insert_resident disk r s m1 m2 l2h p e key rctl flavor want)
  unfolding insert_resident noncollision_walk
  insert_resident-Effect p e w plain =
      let there =
        (walk_found compare entry_hash compare-IsOrder (l2hash_key key) l2h.root v.entries w).1 in
      let (dc, read, hash) = v.resident (l2hash_key key) e there plain in
      elim (Key-cases key dc.key) [
        | inl same ↦
            let owned : BelongsTo disk key e.rctl = (dc, read, sym same) in
            let is_same : id_cmp key.id dc.key.id ≡ eq =
              ap (key_cmp key) (sym same) ∙ key_cmp-IsOrder.same key in
            elim (Bool-cases (flavor == flavor_insert)) [
              | inl f ↦
                  rw (read, insert_resident, is_same, f)
                    (unchanged_present v e.rctl (seen_resident p e w plain owned) f)
              | inr f ↦ rw (read, insert_resident, is_same, f) (same_key p e w plain owned f)
            ]
        | inr differ ↦
            let effect =
              insert_collides-Effect disk r s m1 m2 l2h key rctl flavor want v own p e w plain dc
                read hash differ in
            elim (Ordering-cases (id_cmp key.id dc.key.id)) [
              | inl h ↦ rw (read, insert_resident, h) effect
              | inr (inl h) ↦ absurd (differ (key_cmp-IsOrder.eq_of_cmp key dc.key h))
              | inr (inr h) ↦ rw (read, insert_resident, h) effect
            ]
      ]

  -- `_eblob_l2hash_insert`, on every branch, for each of its three flavours. The tables stay sound.
  -- The status is determined by the flavour and by what a lookup of the key returned before, but
  -- for -ENOMEM, which comes only where the key is not there, the flavour may add it, and an
  -- allocation fails. `*replaced` is 1 exactly where a control was replaced. After a success a
  -- lookup of the key returns the new control and every other lookup what it returned before;
  -- after an error every lookup returns what it returned before, also where the old entry of the
  -- hash has already moved to the tree of collisions.
  pub l2hash_insert-Effect :
      0 < flavor
      → flavor < flavor_last
      → Result (l2hash_insert_flavor disk r s false m1 m2 l2h key rctl flavor want)
  unfolding l2hash_insert_flavor
  l2hash_insert-Effect lo hi =
      let guard : (leb flavor flavor_first || leb flavor_last flavor) ≡ false = ground arith in
      rw guard (elim (Walk-cases (noncollision_walk l2h.root key)) [
        | inl (p, e, w) ↦
            rw (w, l2hash_insert_flavor)
              (if_elim Result (not e.collision) _ _
                (λ h. insert_resident-Effect p e w (ground arith))
                (λ h.
                  insert_collided-Effect disk r s m1 m2 l2h key rctl flavor want v own e
                    (found_entry p e w) (ground arith)))
        | inr (p, w) ↦ elim (Bool-cases (flavor == flavor_update)) [
          | inl f ↦
              rw (w, l2hash_insert_flavor, f)
                (unchanged_absent v enoent (absent_lookup p w) (inl (rw f)))
          | inr f ↦ rw (w, l2hash_insert_flavor, f) (absent_hash p w f)
        ]
      ])
