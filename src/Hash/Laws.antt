-- ===== src/Hash/Laws.antt =====
-- The cache of hash.c as a map from keys to data: each operation by what later lookups see.
use eblob.Base.{
  ℕ, Bool-cases, Ordering, Bool, true, false, if◌then◌else◌, Option, none, some, [], Outcome, ok,
  err, removed_reply, enoent, eexist, enomem, ◌≡◌, refl, ap, sym, ◌∙◌, arith, length, suc, inl, inr,
}
use eblob.Key.{Key}
use eblob.Key.Order.{IsOrder, key_cmp, key_cmp-IsOrder, IsOrder-flip}
use eblob.Rbtree.{Walk-cases, walk, inorder, Rebalance}
use eblob.Rbtree.Destroy.{destroy_tree_lem}
use eblob.Rbtree.Places.{
  IsSearchTree, get, walk_found, walk_missing, link_lem, erase_lem, assign_lem,
}
use eblob.Hash.{
  Hash, HashEntry, node_cmp, hash_init, hash_entry_add, hash_search, hash_remove_nolock,
  hash_lookup_nolock, hash_lookup, hash_destroy,
}

-- The order in which the tree holds its keys: the larger first.
abbrev pub larger_first : Key → Key → Ordering
larger_first a b = key_cmp b a

larger_first-IsOrder : IsOrder larger_first
larger_first-IsOrder = IsOrder-flip key_cmp key_cmp-IsOrder

-- What a call that asks for `key` returns: its data, or -ENOENT.
abbrev pub reply : {D : Type 0} → Option (HashEntry D) → Outcome D
reply none = err enoent
reply (some e) = ok e.bytes

-- What `eblob_hash_entry_add` returns, by what a lookup of the key returned before.
abbrev pub add_reply : {D : Type 0} → Bool → Bool → Outcome D → Outcome Bool
add_reply malloc replace (ok d) = if replace then ok true else err eexist
add_reply malloc replace (err e) = if malloc then ok false else err enomem

module _ {D : Type 0} where
  abbrev pub IsValid : Hash D → Type 0
  IsValid h = IsSearchTree larger_first (λ (e : HashEntry D). e.key) h.root

  abbrev entry : Hash D → Key → Option (HashEntry D)
  entry h q = get larger_first (λ (e : HashEntry D). e.key) h.root q

  lookup-entry : (h : Hash D) (q : Key) → IsValid h → hash_lookup_nolock h q ≡ reply (entry h q)
  unfolding hash_lookup_nolock
  lookup-entry h q v = elim (Walk-cases (walk (node_cmp q.id) h.root)) [
    | inl (p, e, w) ↦
        rw (w, hash_search, hash_lookup_nolock)
          (rw (walk_found larger_first _ larger_first-IsOrder q h.root v w).1)
    | inr (p, w) ↦
        rw (w, hash_search, hash_lookup_nolock)
          (rw (walk_missing larger_first _ larger_first-IsOrder q h.root v w))
  ]

  -- The change of the cache that a call which returned `r` made: on success `key` reads as
  -- `bytes` and every other key as before, and on an error nothing has changed.
  abbrev pub Stored : Hash D → Key → D → Outcome Bool → Hash D → Type 0
  Stored h key bytes (ok replaced) h' =
      (hash_lookup_nolock h' key ≡ ok bytes)
      × ((j : Key) → (j ≡ key → ⊥) → hash_lookup_nolock h' j ≡ hash_lookup_nolock h j)
  Stored h key bytes (err e) h' = h' ≡ h

  -- A tree whose map has changed at one key alone reads so.
  reads :
      (h h' : Hash D) (key : Key) (o : Option (HashEntry D))
      → IsValid h
      → IsValid h'
      → entry h' key ≡ o
      → ((j : Key) → (j ≡ key → ⊥) → entry h' j ≡ entry h j)
      → (hash_lookup_nolock h' key ≡ reply o)
        × ((j : Key) → (j ≡ key → ⊥) → hash_lookup_nolock h' j ≡ hash_lookup_nolock h j)
  reads h h' key o v v' e f = (
    lookup-entry h' key v' ∙ ap reply e,
    λ j ne. lookup-entry h' j v' ∙ (ap reply (f j ne) ∙ sym (lookup-entry h j v)),
  )

  -- `eblob_hash_entry_add`, on every branch. What it returns is determined by whether the key is
  -- there, whether it may replace and whether memory can be had. The tree stays a search tree.
  -- After a success a lookup of the key returns the new data and any other lookup what it
  -- returned before; after an error the cache is what it was.
  pub hash_entry_add_lem :
      (r : Rebalance (HashEntry D)) (malloc : Bool) (h : Hash D) (key : Key) (bytes : D)
      (replace : Bool)
      → IsValid h
      → let (res, h') = hash_entry_add r malloc h key bytes replace in
        (res ≡ add_reply malloc replace (hash_lookup_nolock h key))
        × IsValid h'
        × Stored h key bytes res h'
  unfolding hash_entry_add
  hash_entry_add_lem r malloc h key bytes replace v =
      elim (Walk-cases (walk (node_cmp key.id) h.root)) [
        | inl (p, t, w) ↦
            let there = walk_found larger_first _ larger_first-IsOrder key h.root v w in
            let seen = lookup-entry h key v ∙ ap reply there.1 in
            elim (Bool-cases replace) [
              | inl e ↦
                  let done =
                    assign_lem larger_first _ larger_first-IsOrder key h.root
                      (record t { bytes = bytes }) v w refl in
                  rw (w, hash_entry_add, e, seen)
                    (refl, done.0, reads h (record h { root = _ }) key _ v done.0 done.1 done.2)
              | inr e ↦ rw (w, hash_entry_add, e, seen) (refl, v, refl)
            ]
        | inr (p, w) ↦
            let seen =
              lookup-entry h key v
              ∙ ap reply (walk_missing larger_first _ larger_first-IsOrder key h.root v w) in
            elim (Bool-cases malloc) [
              | inl e ↦
                  let done =
                    link_lem larger_first _ larger_first-IsOrder r key h.root
                      (record { key = key; bytes = bytes }) v w refl in
                  rw (w, hash_entry_add, e, seen)
                    (refl, done.0, reads h (record h { root = _ }) key _ v done.0 done.1 done.2)
              | inr e ↦ rw (w, hash_entry_add, e, seen) (refl, v, refl)
            ]
      ]

  -- `eblob_hash_remove_nolock`, on both branches. A key that is there is taken out: a lookup of it
  -- then returns -ENOENT, and every other lookup what it returned before. For a key that is not
  -- there the call returns -ENOENT and changes nothing.
  pub hash_remove_lem :
      (r : Rebalance (HashEntry D)) (h : Hash D) (key : Key)
      → IsValid h
      → let (res, h') = hash_remove_nolock r h key in
        IsValid h'
        × (hash_lookup_nolock h' key ≡ err enoent)
        × ((j : Key) → (j ≡ key → ⊥) → hash_lookup_nolock h' j ≡ hash_lookup_nolock h j)
        × (res ≡ removed_reply (hash_lookup_nolock h key))
        × (hash_lookup_nolock h key ≡ err enoent → h' ≡ h)
  unfolding hash_remove_nolock
  hash_remove_lem r h key v = elim (Walk-cases (walk (node_cmp key.id) h.root)) [
    | inl (p, t, w) ↦
        let there = walk_found larger_first _ larger_first-IsOrder key h.root v w in
        let seen = lookup-entry h key v ∙ ap reply there.1 in
        let done = erase_lem larger_first _ larger_first-IsOrder r key h.root v w in
        let after = reads h (record h { root = _ }) key _ v done.0 done.1 done.2 in
        rw (w, hash_search, hash_remove_nolock) (done.0, after.0, after.1, rw seen, λ gone. cc seen)
    | inr (p, w) ↦
        let seen =
          lookup-entry h key v
          ∙ ap reply (walk_missing larger_first _ larger_first-IsOrder key h.root v w) in
        rw (w, hash_search, hash_remove_nolock) (v, seen, λ j ne. refl, rw seen, λ gone. refl)
  ]

  -- `eblob_hash_init` gives a cache in which no key is found, whatever the lock's initialisation
  -- returns, and returns what that does.
  pub hash_init_lem :
      (dsize : ℕ) (lock : Outcome (Unit {0}))
      → let (res, h) = hash_init {D = D} dsize lock in
        (res ≡ lock) × IsValid h × ((q : Key) → hash_lookup h q ≡ err enoent)
  unfolding hash_init hash_lookup walk
  hash_init_lem dsize lock = (refl, tt, λ q. refl)

  -- `eblob_hash_destroy` frees every entry of the tree once, the largest key first, and leaves it
  -- empty.
  pub hash_destroy_lem :
      (r : Rebalance (HashEntry D)) (h : Hash D)
      → let (freed, root) = hash_destroy r h in (freed ≡ inorder h.root) × (inorder root ≡ [])
  unfolding hash_destroy
  hash_destroy_lem r h = destroy_tree_lem r (suc (length (inorder h.root))) h.root (omega arith)
