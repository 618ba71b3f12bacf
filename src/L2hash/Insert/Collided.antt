-- ===== src/L2hash/Insert/Collided.antt =====
-- `_eblob_l2hash_insert` of a key whose hash is marked as one of several: `insert_collided`.
use eblob.Base.{
  ℕ, ◌==◌, ◌&&◌, Bool, true, false, some, ok, err, enoent, enomem, ◌≡◌, refl, ap, ◌∙◌, arith, inl,
  inr, Bool-cases,
}
use eblob.Key.{Key}
use eblob.Key.Order.{key_cmp, key_cmp-IsOrder}
use eblob.Record.{RamControl, Disk}
use eblob.Rbtree.{Tree, Pointer, Rebalance, missing, Walk-cases}
use eblob.Rbtree.Places.{IsSearchTree, get, walk_found, walk_missing, link_lem, assign_lem}
use eblob.L2hash.Murmur.{l2hash_key}
use eblob.L2hash.{
  L2hash, L2hashEntry, L2hashCollision, l2hash_lookup, collision_walk, collision_insert,
}
use eblob.L2hash.Flavours.{Inserted, report, flavor_update, flavor_insert, insert_collided}
use eblob.L2hash.Trees.{new_collision, collision_insert_ok, collision_insert_oom}
use eblob.L2hash.Contents.{
  IsSound, BelongsTo, collision_key, entry_of, collision_of, answer, of_collision, lookup-answer,
}
use eblob.L2hash.Updates.{collision_change-IsSound, collision_change_others, collision_change_own}
use eblob.L2hash.Insert.Effects.{
  Wrote, Effect, unchanged_absent, unchanged_present, stored_absent, stored_present,
}

-- The entry is marked: `insert_collided`.
module _ (disk : Disk) (r : Rebalance L2hashEntry) (s : Rebalance L2hashCollision) (m1 m2 : Bool)
    (l2h : L2hash) (key : Key) (rctl : RamControl) (flavor : ℕ) (want : Bool) (v : IsSound disk l2h)
    (own : BelongsTo disk key rctl) (e : L2hashEntry)
    (there : entry_of l2h (l2hash_key key) ≡ some e) (set : e.collision ≡ true) where
  abbrev Result : Inserted → Type 0
  Result = Effect disk l2h key rctl flavor (m1 && m2) want

  seen_collided : l2hash_lookup disk false l2h key ≡ of_collision (collision_of l2h key)
  seen_collided =
      lookup-answer disk l2h key v
      ∙ (ap (λ o. answer disk key o (collision_of l2h key)) there ∙ rw set)

  -- A new tree of collisions in which the key has an entry with the new control.
  collided_store :
      (t : Tree L2hashCollision) (c : L2hashCollision)
      → IsSearchTree key_cmp collision_key t
      → get key_cmp collision_key t key ≡ some c
      → ((j : Key) → (j ≡ key → ⊥) → get key_cmp collision_key t j ≡ collision_of l2h j)
      → c.rctl ≡ rctl
      → IsSound disk (record l2h { collisions = t })
        × Wrote disk l2h key rctl (ok tt) (record l2h { collisions = t })
  collided_store t c sorted at kept same =
      let l2h' : L2hash = record l2h { collisions = t } in
      (
        collision_change-IsSound disk l2h l2h' key v sorted refl kept e there set,
        (
          collision_change_own disk l2h l2h' key v sorted refl kept e there set
              ∙ (ap of_collision at ∙ ap ok same),
          collision_change_others disk l2h l2h' key v sorted refl kept e there set,
        ),
      )

  pub insert_collided-Effect : Result (insert_collided disk r s m1 l2h key rctl flavor want)
  unfolding insert_collided
  insert_collided-Effect = elim (Walk-cases (collision_walk l2h.collisions key)) [
    | inl (p, c, w) ↦
        let at = walk_found key_cmp collision_key key_cmp-IsOrder key l2h.collisions v.collided w in
        let seen = seen_collided ∙ ap of_collision at.1 in
        elim (Bool-cases (flavor == flavor_insert)) [
          | inl f ↦ rw (w, insert_collided, f) (unchanged_present v c.rctl seen f)
          | inr f ↦
              let done =
                assign_lem key_cmp collision_key key_cmp-IsOrder key l2h.collisions
                  (record c { rctl = rctl }) v.collided w refl in
              let now = collided_store _ (record c { rctl = rctl }) done.0 done.1 done.2 refl in
              rw (w, insert_collided, f) (stored_present _ c.rctl seen f now.0 now.1)
        ]
    | inr (p, w) ↦
        let gone =
          walk_missing key_cmp collision_key key_cmp-IsOrder key l2h.collisions v.collided w in
        let old = seen_collided ∙ ap of_collision gone in
        elim (Bool-cases (flavor == flavor_update)) [
          | inl f ↦ rw (w, insert_collided, f) (unchanged_absent v enoent old (inl (rw f)))
          | inr f ↦ rw (w, insert_collided, f) (join p w old f)
        ]
  ]
    where
      join :
          (p : Pointer)
          → collision_walk l2h.collisions key ≡ missing p
          → l2hash_lookup disk false l2h key ≡ err enoent
          → (flavor == flavor_update) ≡ false
          → Result (
              let (status, t) = collision_insert s m1 l2h.collisions key rctl in
              record {
                status = status;
                replaced = report want false;
                l2h = record l2h { collisions = t };
              })
      join p w old f = elim (Bool-cases m1) [
        | inr e' ↦
            rw (collision_insert_oom s m1 l2h.collisions key rctl w e')
              (unchanged_absent v enomem old (inr (refl, ground arith, f)))
        | inl e' ↦
            let done =
              link_lem key_cmp collision_key key_cmp-IsOrder s key l2h.collisions
                (new_collision key rctl) v.collided w refl in
            let now = collided_store _ (new_collision key rctl) done.0 done.1 done.2 refl in
            rw (collision_insert_ok s m1 l2h.collisions key rctl w e')
              (stored_absent _ old f now.0 now.1)
      ]
