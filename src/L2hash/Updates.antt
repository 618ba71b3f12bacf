-- ===== src/L2hash/Updates.antt =====
-- The three ways in which the operations of l2hash.c change the tables, and what each does to the
-- invariant and to lookups.
use Prim.Native.Nat.Ordering.{lt, eq, gt}
use native.Mathlib.Decide.{ℕ_discrete}
use eblob.Base.{
  ℕ, compare, Ordering, true, false, Option, none, some, Outcome, ok, err, enoent, ◌≡◌, refl, sym,
  ap, subst, ◌∙◌, arith, inl, inr, Option-cases, some_inj,
}
use eblob.Key.{Key, id_cmp}
use eblob.Key.Order.{key_cmp, key_cmp-IsOrder, Key-cases}
use eblob.Record.{RamControl, Disk}
use eblob.Rbtree.Places.{IsSearchTree, get}
use eblob.L2hash.Murmur.{l2hash_key}
use eblob.L2hash.{L2hash, L2hashEntry, L2hashCollision, index_hdr, l2hash_lookup}
use eblob.L2hash.Contents.{
  IsSound, BelongsTo, entry_hash, collision_key, entry_of, collision_of, answer, of_index,
  of_collision, lookup-answer,
}

-- A lookup of `key` through an entry whose header on disk is that of `other`.
pub of_index_same :
    (disk : Disk) (key : Key) (rctl : RamControl)
    → BelongsTo disk key rctl
    → of_index key rctl (index_hdr disk rctl) ≡ ok rctl
of_index_same disk key rctl (dc, read, same) =
    rw (read, of_index, same, key_cmp-IsOrder.same key) refl

pub of_index_other :
    (disk : Disk) (j key : Key) (rctl : RamControl)
    → BelongsTo disk key rctl
    → (j ≡ key → ⊥)
    → of_index j rctl (index_hdr disk rctl) ≡ err enoent
of_index_other disk j key rctl (dc, read, same) ne = rw (read, same) (go (id_cmp key.id j.id) refl)
  where
    go :
        (o : Ordering)
        → id_cmp key.id j.id ≡ o
        → ◌≡◌ {A = Outcome RamControl}
            (elim o [ eq ↦ ok rctl | lt ↦ err enoent | gt ↦ err enoent ])
            (err enoent)
    go lt h = refl
    go gt h = refl
    go eq h = absurd (ne (sym (key_cmp-IsOrder.eq_of_cmp key j h)))

module _ (disk : Disk) (l2h l2h' : L2hash) (key : Key) (v : IsSound disk l2h) where
  -- Every other key reads as before.
  abbrev pub OthersKept : Type 0
  OthersKept =
      (j : Key) → (j ≡ key → ⊥) → l2hash_lookup disk false l2h' j ≡ l2hash_lookup disk false l2h j

  -- The entry of the hash of `key` changes, and neither the old nor the new one has a collision.
  module _ (entries : IsSearchTree compare entry_hash l2h'.root)
      (same : l2h'.collisions ≡ l2h.collisions)
      (kept : (n : ℕ) → (n ≡ l2hash_key key → ⊥) → entry_of l2h' n ≡ entry_of l2h n)
      (unmarked : (e : L2hashEntry) → entry_of l2h (l2hash_key key) ≡ some e → e.collision ≡ false)
      (fits : (e : L2hashEntry)
        → entry_of l2h' (l2hash_key key) ≡ some e
        → (e.collision ≡ false) × BelongsTo disk key e.rctl)
      (alone : (e : L2hashEntry)
        → entry_of l2h (l2hash_key key) ≡ some e
        → BelongsTo disk key e.rctl) where
    pub entry_change-IsSound : IsSound disk l2h'
    entry_change-IsSound = record {
      entries = entries;
      collided = rw same v.collided;
      resident = λ n e h c. elim (ℕ_discrete n (l2hash_key key)) [
        | yes here ↦
            let (plain, (dc, read, own)) = fits e (rw here at h) in
            (dc, read, ap l2hash_key own ∙ sym here)
        | no there ↦ v.resident n e (sym (kept n there) ∙ h) c
      ];
      marked = λ k c h.
          let (e, found, set) = v.marked k c (rw same at h) in
          elim (ℕ_discrete (l2hash_key k) (l2hash_key key)) [
            | yes here ↦ ground (arith, unmarked e (ap (entry_of l2h) (sym here) ∙ found))
            | no there ↦ (e, kept _ there ∙ found, set)
          ];
    }

    old_other :
        (j : Key) (o : Option L2hashEntry)
        → (j ≡ key → ⊥)
        → entry_of l2h (l2hash_key key) ≡ o
        → answer disk j o (collision_of l2h j) ≡ err enoent
    old_other j none ne h = refl
    old_other j (some e) ne h = rw (unmarked e h) (of_index_other disk j key e.rctl (alone e h) ne)

    new_other :
        (j : Key) (o : Option L2hashEntry)
        → (j ≡ key → ⊥)
        → entry_of l2h' (l2hash_key key) ≡ o
        → answer disk j o (collision_of l2h' j) ≡ err enoent
    new_other j none ne h = refl
    new_other j (some e) ne h = rw (fits e h).0 (of_index_other disk j key e.rctl (fits e h).1 ne)

    pub entry_change_others : OthersKept
    entry_change_others j ne =
        let now = lookup-answer disk l2h' j entry_change-IsSound in
        let before = lookup-answer disk l2h j v in
        elim (ℕ_discrete (l2hash_key j) (l2hash_key key)) [
          | yes here ↦
              now
              ∙ (ap (λ n. answer disk j (entry_of l2h' n) (collision_of l2h' j)) here
                  ∙ (new_other j _ ne refl
                      ∙ (sym (old_other j _ ne refl)
                          ∙ (ap (λ n. answer disk j (entry_of l2h n) (collision_of l2h j))
                                (sym here)
                              ∙ sym before))))
          | no there ↦
              now
              ∙ (ap (λ o. answer disk j o (collision_of l2h' j)) (kept _ there)
                  ∙ (ap
                        (λ t.
                          answer disk j (entry_of l2h (l2hash_key j))
                            (get key_cmp collision_key t j))
                        same
                      ∙ sym before))
        ]

    pub entry_change_own :
        (e : L2hashEntry)
        → entry_of l2h' (l2hash_key key) ≡ some e
        → l2hash_lookup disk false l2h' key ≡ ok e.rctl
    entry_change_own e h =
        lookup-answer disk l2h' key entry_change-IsSound
        ∙ rw (h, (fits e h).0) (of_index_same disk key e.rctl (fits e h).1)

    pub entry_change_gone :
        entry_of l2h' (l2hash_key key) ≡ none → l2hash_lookup disk false l2h' key ≡ err enoent
    entry_change_gone h = lookup-answer disk l2h' key entry_change-IsSound ∙ rw h

  -- The same where the new entry is `e`.
  pub entry_store :
      IsSearchTree compare entry_hash l2h'.root
      → l2h'.collisions ≡ l2h.collisions
      → ((n : ℕ) → (n ≡ l2hash_key key → ⊥) → entry_of l2h' n ≡ entry_of l2h n)
      → ((x : L2hashEntry) → entry_of l2h (l2hash_key key) ≡ some x → x.collision ≡ false)
      → ((x : L2hashEntry) → entry_of l2h (l2hash_key key) ≡ some x → BelongsTo disk key x.rctl)
      → (e : L2hashEntry) → entry_of l2h' (l2hash_key key) ≡ some e
      → e.collision ≡ false
      → BelongsTo disk key e.rctl
      → IsSound disk l2h' × (l2hash_lookup disk false l2h' key ≡ ok e.rctl) × OthersKept
  entry_store entries same kept unmarked alone e at plain own =
      let fits = λ (x : L2hashEntry) (q : entry_of l2h' (l2hash_key key) ≡ some x). fits_of x q in
      (
        entry_change-IsSound entries same kept unmarked fits alone,
        entry_change_own entries same kept unmarked fits alone e at,
        entry_change_others entries same kept unmarked fits alone,
      )
    where
      fits_of :
          (x : L2hashEntry)
          → entry_of l2h' (l2hash_key key) ≡ some x
          → (x.collision ≡ false) × BelongsTo disk key x.rctl
      fits_of x q =
          subst (λ y. (y.collision ≡ false) × BelongsTo disk key y.rctl) (some_inj (sym at ∙ q))
            (plain, own)

  -- The tree of collisions changes at `key`, whose hash has an entry that is marked.
  module _ (collided : IsSearchTree key_cmp collision_key l2h'.collisions)
      (same : l2h'.root ≡ l2h.root)
      (kept : (k : Key) → (k ≡ key → ⊥) → collision_of l2h' k ≡ collision_of l2h k)
      (e : L2hashEntry) (found : entry_of l2h (l2hash_key key) ≡ some e)
      (set : e.collision ≡ true) where
    entry_same : (n : ℕ) → entry_of l2h' n ≡ entry_of l2h n
    entry_same n = ap (λ t. get compare entry_hash t n) same

    pub collision_change-IsSound : IsSound disk l2h'
    collision_change-IsSound = record {
      entries = rw same v.entries;
      collided = collided;
      resident = λ n x h c. v.resident n x (sym (entry_same n) ∙ h) c;
      marked = λ k c h. elim (Key-cases k key) [
        | inl here ↦ (e, entry_same _ ∙ (ap (λ q. entry_of l2h (l2hash_key q)) here ∙ found), set)
        | inr there ↦
            let (x, at, m) = v.marked k c (sym (kept k there) ∙ h) in (x, entry_same _ ∙ at, m)
      ];
    }

    pub collision_change_others : OthersKept
    collision_change_others j ne =
        lookup-answer disk l2h' j collision_change-IsSound
        ∙ (ap (λ o. answer disk j o (collision_of l2h' j)) (entry_same (l2hash_key j))
            ∙ (ap (answer disk j (entry_of l2h (l2hash_key j))) (kept j ne)
                ∙ sym (lookup-answer disk l2h j v)))

    pub collision_change_own :
        l2hash_lookup disk false l2h' key ≡ of_collision (collision_of l2h' key)
    collision_change_own =
        lookup-answer disk l2h' key collision_change-IsSound
        ∙ rw (entry_same (l2hash_key key), found, set)

  -- The entry `e` of the hash of `key` has no collision; it is marked, and what it held moves to
  -- the tree of collisions under its own key, which here is `key`.
  module _ (entries : IsSearchTree compare entry_hash l2h'.root)
      (collided : IsSearchTree key_cmp collision_key l2h'.collisions) (e e' : L2hashEntry)
      (c : L2hashCollision) (found : entry_of l2h (l2hash_key key) ≡ some e)
      (plain : e.collision ≡ false) (own : BelongsTo disk key e.rctl)
      (found' : entry_of l2h' (l2hash_key key) ≡ some e') (set : e'.collision ≡ true)
      (kept : (n : ℕ) → (n ≡ l2hash_key key → ⊥) → entry_of l2h' n ≡ entry_of l2h n)
      (moved : collision_of l2h' key ≡ some c) (same : c.rctl ≡ e.rctl)
      (others : (k : Key) → (k ≡ key → ⊥) → collision_of l2h' k ≡ collision_of l2h k) where
    pub move-IsSound : IsSound disk l2h'
    move-IsSound = record {
      entries = entries;
      collided = collided;
      resident = λ n x h p. elim (ℕ_discrete n (l2hash_key key)) [
        | yes here ↦ cc (h, ap (entry_of l2h') here, found', set, p)
        | no there ↦ v.resident n x (sym (kept n there) ∙ h) p
      ];
      marked = λ k x h. elim (ℕ_discrete (l2hash_key k) (l2hash_key key)) [
        | yes here ↦ (e', ap (entry_of l2h') here ∙ found', set)
        | no there ↦
            let other : k ≡ key → ⊥ = λ q. there (ap l2hash_key q) in
            let (y, at, m) = v.marked k x (sym (others k other) ∙ h) in (y, kept _ there ∙ at, m)
      ];
    }

    -- No key of this hash stood in the tree of collisions before.
    absent : (j : Key) → l2hash_key j ≡ l2hash_key key → collision_of l2h j ≡ none
    absent j here = elim (Option-cases (collision_of l2h j)) [
      | inl h ↦ h
      | inr (x, h) ↦
          let (y, at, m) = v.marked j x h in cc (at, ap (entry_of l2h) here, found, m, plain)
    ]

    move_same_hash :
        (j : Key)
        → l2hash_key j ≡ l2hash_key key
        → of_collision (collision_of l2h' j) ≡ of_index j e.rctl (index_hdr disk e.rctl)
    move_same_hash j here = elim (Key-cases j key) [
      | inl q ↦
          rw q (ap of_collision moved ∙ (ap ok same ∙ sym (of_index_same disk key e.rctl own)))
      | inr ne ↦
          ap of_collision (others j ne ∙ absent j here)
          ∙ sym (of_index_other disk j key e.rctl own ne)
    ]

    pub move_lookup : (j : Key) → l2hash_lookup disk false l2h' j ≡ l2hash_lookup disk false l2h j
    move_lookup j =
        let now = lookup-answer disk l2h' j move-IsSound in
        let before = lookup-answer disk l2h j v in
        elim (ℕ_discrete (l2hash_key j) (l2hash_key key)) [
          | yes here ↦
              let new : entry_of l2h' (l2hash_key j) ≡ some e' = ap (entry_of l2h') here ∙ found' in
              let old : entry_of l2h (l2hash_key j) ≡ some e = ap (entry_of l2h) here ∙ found in
              rw (new, set) at now ∙ (move_same_hash j here ∙ sym (rw (old, plain) at before))
          | no there ↦
              let other : j ≡ key → ⊥ = λ q. there (ap l2hash_key q) in
              now
              ∙ (ap (λ o. answer disk j o (collision_of l2h' j)) (kept _ there)
                  ∙ (ap (answer disk j (entry_of l2h (l2hash_key j))) (others j other)
                      ∙ sym before))
        ]
