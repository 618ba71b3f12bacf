-- ===== src/History.antt =====
-- What a cache promises its callers, as a function of the calls that succeeded: a lookup returns
-- what was last stored under the key, unless the key has been removed since. Both caches, that of
-- hash.c and that of l2hash.c, are held to it.
use Prim.Native.Nat.Ordering.{lt, eq, gt}
use eblob.Base.{List, [], ◌∷◌, Outcome, ok, err, enoent, ◌≡◌, sym, ◌∙◌, inl, inr, arith}
use eblob.Key.{Key}
use eblob.Key.Order.{key_cmp, key_cmp-IsOrder, Key-cases}

-- What a call did, as its status tells.
pub data Event (D : Type 0) : Type 0 where
  stored : Key → D → Event D
  removed : Key → Event D
  failed : Event D

module _ {D : Type 0} where
  -- The event of a call that stores, and of one that removes.
  abbrev pub store_event : {A : Type 0} → Key → D → Outcome A → Event D
  store_event key d (ok a) = stored key d
  store_event key d (err e) = failed

  abbrev pub remove_event : {A : Type 0} → Key → Outcome A → Event D
  remove_event key (ok a) = removed key
  remove_event key (err e) = failed

  -- What a lookup owes its caller after the events, the latest first.
  unfoldable pub latest : List (Event D) → Key → Outcome D
  latest [] q = err enoent
  latest (stored k d ∷ es) q = elim (key_cmp q k) [
    | eq ↦ ok d
    | lt ↦ latest es q
    | gt ↦ latest es q
  ]
  latest (removed k ∷ es) q = elim (key_cmp q k) [
    | eq ↦ err enoent
    | lt ↦ latest es q
    | gt ↦ latest es q
  ]
  latest (failed ∷ es) q = latest es q

  latest-stored_self : (k : Key) (d : D) (es : List (Event D)) → latest (stored k d ∷ es) k ≡ ok d
  unfolding latest
  latest-stored_self k d es = rw (key_cmp-IsOrder.same k, latest)

  latest-removed_self : (k : Key) (es : List (Event D)) → latest (removed k ∷ es) k ≡ err enoent
  unfolding latest
  latest-removed_self k es = rw (key_cmp-IsOrder.same k, latest)

  latest-stored_ne :
      (k q : Key) (d : D) (es : List (Event D))
      → (q ≡ k → ⊥)
      → latest (stored k d ∷ es) q ≡ latest es q
  unfolding latest
  latest-stored_ne k q d es ne = ground (arith, key_cmp-IsOrder.eq_of_cmp q k)

  latest-removed_ne :
      (k q : Key) (es : List (Event D)) → (q ≡ k → ⊥) → latest (removed k ∷ es) q ≡ latest es q
  unfolding latest
  latest-removed_ne k q es ne = ground (arith, key_cmp-IsOrder.eq_of_cmp q k)

  module _ (look look' : Key → Outcome D) (es : List (Event D))
      (before : (q : Key) → look q ≡ latest es q) (key : Key) where
    -- A store or a removal that changed the lookups of its key alone keeps the promise.
    pub after_store :
        (d : D)
        → look' key ≡ ok d
        → ((j : Key) → (j ≡ key → ⊥) → look' j ≡ look j)
        → (q : Key) → look' q ≡ latest (stored key d ∷ es) q
    after_store d own others q = elim (Key-cases q key) [
      | inl h ↦ rw h (own ∙ sym (latest-stored_self key d es))
      | inr ne ↦ others q ne ∙ (before q ∙ sym (latest-stored_ne key q d es ne))
    ]

    pub after_remove :
        look' key ≡ err enoent
        → ((j : Key) → (j ≡ key → ⊥) → look' j ≡ look j)
        → (q : Key) → look' q ≡ latest (removed key ∷ es) q
    after_remove own others q = elim (Key-cases q key) [
      | inl h ↦ rw h (own ∙ sym (latest-removed_self key es))
      | inr ne ↦ others q ne ∙ (before q ∙ sym (latest-removed_ne key q es ne))
    ]

    pub after_failure :
        ((j : Key) → look' j ≡ look j) → (q : Key) → look' q ≡ latest (failed ∷ es) q
    unfolding latest
    after_failure same q = same q ∙ before q
