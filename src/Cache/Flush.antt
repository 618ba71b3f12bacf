-- ===== src/Cache/Flush.antt =====
-- library/index.c: `indexsort_flush_cache`, which takes the keys of a sorted index out of the cache.
use eblob.Base.{
  ℕ, Bool, true, false, if◌then◌else◌, none, some, Option-cases, List, [], ◌∷◌, All, Outcome, err,
  enoent, ◌≡◌, refl, ap, ◌∙◌, ◌⊎◌, inl, inr, Bool-cases,
}
use eblob.Key.{Key}
use eblob.Key.Order.{Key-cases}
use eblob.Record.{DiskControl, RamControl, Disk}
use eblob.Rbtree.{Tree, leaf, node, Rebalance, rb_first, walk}
use eblob.Hash.{Hash, HashEntry, hash_empty, hash_lookup_nolock, hash_search}
use eblob.L2hash.{
  L2hash, L2hashEntry, L2hashCollision, l2hash_empty, l2hash_lookup, noncollision_walk,
}
use eblob.Index.{is_removed}
use eblob.Cache.{Backend, memory_lookup, cache_remove_nolock, cache_remove}
use eblob.Cache.Counted.{IsReady, cache_remove-Uncached}

-- Whether the cache in use has no entry.
abbrev pub is_empty : Backend → Bool
is_empty b = if b.use_l2hash then l2hash_empty (some b.l2hash) else hash_empty (some b.hash)

some-none {ℓ} : {A : Type ℓ} {z : A} → some z ≡ none → ⊥
some-none h = cc

first_some {ℓ} : {E : Type ℓ} (a b : Tree E) (y : E) → rb_first (node a y b) ≡ none → ⊥
unfolding rb_first
first_some leaf b y h = some-none h
first_some (node a' y' b') b y h = elim (Option-cases (rb_first (node a' y' b'))) [
  | inl e ↦ first_some a' b' y' e
  | inr (q, e) ↦ some-none (rw (rb_first, e) at h)
]

All-any :
    (P : DiskControl → Type 0) → ((dc : DiskControl) → P dc) → (dcs : List DiskControl) → All P dcs
All-any P f [] = tt
All-any P f (dc ∷ dcs) = (f dc, All-any P f dcs)

emptiness {ℓ} :
    {E : Type ℓ} (t : Tree E)
    → (elim (rb_first t) as (λ _. Bool) [ none ↦ true | some e ↦ false ]) ≡ true
    → t ≡ leaf
emptiness leaf h = refl
emptiness (node a y b) h = elim (Option-cases (rb_first (node a y b))) [
  | inl e ↦ absurd (first_some a b y e)
  | inr (q, e) ↦ absurd (false_true (rw e at h))
]
  where
    false_true : false ≡ true → ⊥
    false_true k = cc

module _ (disk : Disk) (h : Rebalance (HashEntry RamControl)) (r : Rebalance L2hashEntry)
    (s : Rebalance L2hashCollision) where
  -- The loop over the headers of the index; an error of a removal is only logged.
  unfoldable pub flush_loop : List DiskControl → Backend → Backend
  unfolding cache_remove_nolock
  flush_loop [] b = b
  flush_loop (dc ∷ dcs) b =
      flush_loop dcs (if is_removed dc then b else (cache_remove_nolock disk h r s b dc.key).1)

  -- `indexsort_flush_cache`, which returns 0; an empty cache is left alone.
  unfoldable pub indexsort_flush_cache : List DiskControl → Backend → Backend
  unfolding flush_loop hash_empty l2hash_empty
  indexsort_flush_cache dcs b = if is_empty b then b else flush_loop dcs b

  abbrev look : Backend → Key → Outcome RamControl
  look b key = memory_lookup disk b key

  -- What a flush of some headers leaves.
  pub record Flushed (dcs : List DiskControl) (b b' : Backend) : Type 0 where
    pub ready : IsReady disk b'
    pub gone : All (λ dc. is_removed dc ≡ false → look b' dc.key ≡ err enoent) dcs
    pub kept :
        (key : Key)
        → All (λ dc. (is_removed dc ≡ true) ⊎ (key ≡ dc.key → ⊥)) dcs
        → look b' key ≡ look b key
    pub absent : (key : Key) → look b key ≡ err enoent → look b' key ≡ err enoent

  Flushed-removed :
      (dc : DiskControl) (dcs : List DiskControl) (b b' : Backend)
      → is_removed dc ≡ true
      → Flushed dcs b b'
      → Flushed (dc ∷ dcs) b b'
  Flushed-removed dc dcs b b' e f = record {
    ready = f.ready;
    gone = (λ k. absurd (cc (e, k)), f.gone);
    kept = λ key k. f.kept key k.1;
    absent = f.absent;
  }

  Flushed-taken :
      (dc : DiskControl) (dcs : List DiskControl) (b b' : Backend)
      → IsReady disk b
      → is_removed dc ≡ false
      → Flushed dcs (cache_remove_nolock disk h r s b dc.key).1 b'
      → Flushed (dc ∷ dcs) b b'
  unfolding cache_remove
  Flushed-taken dc dcs b b' ready e f =
      let done = cache_remove-Uncached disk h r s dc.key b ready in
      let b1 = (cache_remove disk h r s b dc.key).1 in
      record {
        ready = f.ready;
        gone = (λ k. f.absent dc.key done.1.0, f.gone);
        kept = λ key k. f.kept key k.1 ∙ done.1.1 key (other k.0);
        absent = λ key k. f.absent key (still key k (Key-cases key dc.key));
      }
    where
      other : {key : Key} → (is_removed dc ≡ true) ⊎ (key ≡ dc.key → ⊥) → key ≡ dc.key → ⊥
      other (inl k) = absurd (cc (e, k))
      other (inr ne) = ne

      still :
          (key : Key)
          → look b key ≡ err enoent
          → (key ≡ dc.key) ⊎ (key ≡ dc.key → ⊥)
          → look (cache_remove disk h r s b dc.key).1 key ≡ err enoent
      still key k (inl same) =
          ap (look (cache_remove disk h r s b dc.key).1) same
          ∙ (cache_remove-Uncached disk h r s dc.key b ready).1.0
      still key k (inr ne) = (cache_remove-Uncached disk h r s dc.key b ready).1.1 key ne ∙ k

  flush_loop-Flushed :
      (dcs : List DiskControl) (b : Backend) → IsReady disk b → Flushed dcs b (flush_loop dcs b)
  unfolding flush_loop cache_remove
  flush_loop-Flushed [] b ready = record {
    ready = ready;
    gone = tt;
    kept = λ key k. refl;
    absent = λ key k. k;
  }
  flush_loop-Flushed (dc ∷ dcs) b ready = elim (Bool-cases (is_removed dc)) [
    | inl e ↦
        rw (flush_loop, e)
          (Flushed-removed dc dcs b (flush_loop dcs b) e (flush_loop-Flushed dcs b ready))
    | inr e ↦
        rw (flush_loop, e)
          (Flushed-taken dc dcs b (flush_loop dcs (cache_remove_nolock disk h r s b dc.key).1) ready
            e
            (flush_loop-Flushed dcs (cache_remove_nolock disk h r s b dc.key).1
              (removed_ready dc b ready)))
  ]
    where
      removed_ready :
          (d : DiskControl) (c : Backend)
          → IsReady disk c
          → IsReady disk (cache_remove_nolock disk h r s c d.key).1
      removed_ready d c k = (cache_remove-Uncached disk h r s d.key c k).0

  empty_look :
      (use_l2hash : Bool) (hash : Hash RamControl) (l2h : L2hash) (cached : ℕ)
      → let b : Backend = record {
        use_l2hash = use_l2hash;
        hash = hash;
        l2hash = l2h;
        cached = cached;
      } in
        is_empty b ≡ true → (key : Key) → look b key ≡ err enoent
  unfolding hash_empty l2hash_empty memory_lookup walk
  empty_look false hash l2h cached e key =
      let bare : hash.root ≡ leaf = emptiness hash.root e in
      rw (memory_lookup, hash_lookup_nolock, hash_search, bare) refl
  empty_look true hash l2h cached e key =
      let bare : l2h.root ≡ leaf = emptiness l2h.root e in
      rw (memory_lookup, l2hash_lookup, noncollision_walk, bare) refl

  -- After a flush, of a cache that is sound, no key of a header that is not removed is found in the
  -- cache; every lookup of a key that no such header has is as before; no key is found that was not
  -- found before; and the cache is sound.
  pub indexsort_flush_cache-Flushed :
      (dcs : List DiskControl) (b : Backend)
      → IsReady disk b
      → Flushed dcs b (indexsort_flush_cache dcs b)
  unfolding indexsort_flush_cache
  indexsort_flush_cache-Flushed dcs b ready = elim (Bool-cases (is_empty b)) [
    | inr e ↦ rw (indexsort_flush_cache, e) (flush_loop-Flushed dcs b ready)
    | inl e ↦
        let nothing = empty_look b.use_l2hash b.hash b.l2hash b.cached e in
        rw (indexsort_flush_cache, e)
          (record {
            ready = ready;
            gone =
                All-any (λ dc. is_removed dc ≡ false → look b dc.key ≡ err enoent)
                  (λ dc k. nothing dc.key) dcs;
            kept = λ key k. refl;
            absent = λ key k. k;
          })
  ]
