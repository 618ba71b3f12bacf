-- ===== src/Cache/Counted.antt =====
-- `eblob_cache_insert` and `eblob_cache_remove` over either cache.
use eblob.Base.{
  ℕ, Bool, true, false, if◌then◌else◌, Option, some, Outcome, ok, err, enoent, enomem, ◌&&◌,
  removed_reply, ◌≡◌, refl, ap, subst, inl, inr, arith, Bool-cases,
}
use eblob.Key.{Key}
use eblob.Record.{RamControl, Disk}
use eblob.Rbtree.{Rebalance}
use eblob.Hash.{Hash, HashEntry, hash_replace_nolock, hash_remove_nolock, hash_lookup_nolock}
use eblob.Hash.Laws.{IsValid, Stored, add_reply, hash_entry_add_lem, hash_remove_lem}
use eblob.L2hash.{L2hash, L2hashEntry, L2hashCollision, l2hash_remove, l2hash_lookup, zero_rctl}
use eblob.L2hash.Flavours.{Inserted, l2hash_upsert, flavor_upsert}
use eblob.L2hash.Contents.{IsSound, BelongsTo}
use eblob.L2hash.Insert.{l2hash_insert-Effect}
use eblob.L2hash.Insert.Effects.{Effect, Wrote, StatusFits, replaces}
use eblob.L2hash.Remove.{l2hash_remove-Removed}
use eblob.Cache.{
  Backend, hash_entry_size, l2hash_entry_size, stat_add, stat_sub, entry_size, bump, unbump, forget,
  replaced_of, upsert_or_replace, cache_insert, cache_remove_nolock, cache_remove, memory_lookup,
}

-- The cache that is in use is a search tree, or a pair of sound tables.
abbrev pub IsReady : Disk → Backend → Type 0
IsReady disk b = if b.use_l2hash then IsSound disk b.l2hash else IsValid b.hash

-- The counter after a successful insertion, by what a lookup returned before.
abbrev pub counted_add : ℕ → Outcome RamControl → ℕ → ℕ
counted_add size (ok old) cached = cached
counted_add size (err e) cached = stat_add cached size

abbrev pub counted_remove : ℕ → Outcome RamControl → ℕ → ℕ
counted_remove size (ok old) cached = stat_sub cached size
counted_remove size (err e) cached = cached

abbrev pub IsMissing : Outcome RamControl → Type 0
IsMissing (ok old) = ⊥
IsMissing (err e) = Unit

module _ (disk : Disk) where
  abbrev look : Backend → Key → Outcome RamControl
  look b key = memory_lookup disk b key

  -- What an insertion that returned `res` did: a success stores the control under the key alone
  -- and counts an entry if the key was not there; the one error is a lack of memory, for a key
  -- that is not there, and it changes neither a lookup nor the counter.
  abbrev pub Cached : Backend → Key → RamControl → Outcome (Unit {0}) → Backend → Type 0
  Cached b key ctl (ok u) b' =
      (look b' key ≡ ok ctl)
      × ((j : Key) → (j ≡ key → ⊥) → look b' j ≡ look b j)
      × (b'.cached ≡ counted_add (entry_size b) (look b key) b.cached)
  Cached b key ctl (err e) b' =
      (e ≡ enomem)
      × IsMissing (look b key)
      × ((j : Key) → look b' j ≡ look b j)
      × (b'.cached ≡ b.cached)

  -- The same of a removal that returned `res`.
  abbrev pub Uncached : Backend → Key → Outcome (Unit {0}) × Backend → Type 0
  Uncached b key (res, b') =
      (look b' key ≡ err enoent)
      × ((j : Key) → (j ≡ key → ⊥) → look b' j ≡ look b j)
      × (res ≡ removed_reply (look b key))
      × (b'.cached ≡ counted_remove (entry_size b) (look b key) b.cached)

-- The counter by the reply of the removal.
counted :
    (size cached : ℕ) (res : Outcome (Unit {0})) (old : Outcome RamControl)
    → res ≡ removed_reply old
    → unbump size res cached ≡ counted_remove size old cached
counted size cached res (ok x) h = rw h refl
counted size cached res (err e) h = rw h refl

module _ (disk : Disk) (h : Rebalance (HashEntry RamControl)) (r : Rebalance L2hashEntry)
    (s : Rebalance L2hashCollision) (m1 m2 : Bool) (key : Key) (ctl : RamControl) where
  -- The two caches, each by the effect of its own operation.
  hash_Cached :
      (hash hash' : Hash RamControl) (l2h : L2hash) (cached : ℕ) (res : Outcome Bool)
      (old : Outcome RamControl)
      → hash_lookup_nolock hash key ≡ old
      → res ≡ add_reply m1 true old
      → Stored hash key ctl res hash'
      → Cached disk
          (record { use_l2hash = false; hash = hash; l2hash = l2h; cached = cached })
          key
          ctl
          (forget res)
          (record {
            use_l2hash = false;
            hash = hash';
            l2hash = l2h;
            cached = bump hash_entry_size res cached;
          })
  unfolding memory_lookup
  hash_Cached hash hash' l2h cached res (ok old) seen reply stored =
      let now = subst (λ x. Stored hash key ctl x hash') reply stored in
      rw (reply, seen) (now.0, now.1, refl)
  hash_Cached hash hash' l2h cached res (err e) seen reply stored = elim (Bool-cases m1) [
    | inl got ↦
        let said : res ≡ ok false = rw (reply, got) refl in
        let now = subst (λ x. Stored hash key ctl x hash') said stored in
        rw (said, seen) (now.0, now.1, refl)
    | inr oom ↦
        let said : res ≡ err enomem = rw (reply, oom) refl in
        let now : hash' ≡ hash = subst (λ x. Stored hash key ctl x hash') said stored in
        rw (said, seen) (refl, tt, (λ j. ap (λ t. hash_lookup_nolock t j) now), refl)
  ]

  l2hash_Cached :
      (hash : Hash RamControl) (l2h : L2hash) (cached : ℕ) (out : Inserted)
      → Effect disk l2h key ctl flavor_upsert (m1 && m2) true out
      → let res = replaced_of out.status out.replaced in
        Cached disk
          (record { use_l2hash = true; hash = hash; l2hash = l2h; cached = cached })
          key
          ctl
          (forget res)
          (record {
            use_l2hash = true;
            hash = hash;
            l2hash = out.l2h;
            cached = bump l2hash_entry_size res cached;
          })
  unfolding memory_lookup
  l2hash_Cached hash l2h cached out effect =
      go (l2hash_lookup disk false l2h key) refl out.status out.replaced effect.status
        effect.reported effect.reads
    where
      go :
          (old : Outcome RamControl)
          → l2hash_lookup disk false l2h key ≡ old
          → (status : Outcome (Unit {0})) (replaced : Option Bool)
          → StatusFits flavor_upsert (m1 && m2) old status
          → replaced ≡ some (replaces flavor_upsert old)
          → Wrote disk l2h key ctl status out.l2h
          → let res = replaced_of status replaced in
            Cached disk
              (record { use_l2hash = true; hash = hash; l2hash = l2h; cached = cached })
              key
              ctl
              (forget res)
              (record {
                use_l2hash = true;
                hash = hash;
                l2hash = out.l2h;
                cached = bump l2hash_entry_size res cached;
              })
      go (ok old) seen status replaced fits says wrote =
          let now = subst (λ x. Wrote disk l2h key ctl x out.l2h) fits wrote in
          rw (fits, says, seen) (now.0, now.1, refl)
      go (err e) seen status replaced (inl fits) says wrote =
          let now = subst (λ x. Wrote disk l2h key ctl x out.l2h) fits wrote in
          rw (fits, says, seen) (now.0, now.1, refl)
      go (err e) seen status replaced (inr fits) says wrote =
          let now = subst (λ x. Wrote disk l2h key ctl x out.l2h) fits.0 wrote in
          rw (fits.0, seen) (refl, tt, now, refl)

  added :
      (use_l2hash : Bool) (hash : Hash RamControl) (l2h : L2hash) (cached : ℕ)
      → let b : Backend = record {
        use_l2hash = use_l2hash;
        hash = hash;
        l2hash = l2h;
        cached = cached;
      } in
        IsReady disk b
        → BelongsTo disk key ctl
        → let (res, b') = upsert_or_replace disk h r s m1 m2 b key ctl in
          let after = record b' { cached = bump (entry_size b) res b'.cached } in
          IsReady disk after × Cached disk b key ctl (forget res) after
  unfolding upsert_or_replace l2hash_upsert hash_replace_nolock
  added true hash l2h cached ready own =
      let effect =
        l2hash_insert-Effect disk r s m1 m2 l2h key ctl flavor_upsert true ready own (omega arith)
          (omega arith) in
      (effect.sound, l2hash_Cached hash l2h cached _ effect)
  added false hash l2h cached ready own =
      let done = hash_entry_add_lem h m1 hash key ctl true ready in
      (done.1, hash_Cached hash _ l2h cached _ _ refl done.0 done.2)

  removed :
      (use_l2hash : Bool) (hash : Hash RamControl) (l2h : L2hash) (cached : ℕ)
      → let b : Backend = record {
        use_l2hash = use_l2hash;
        hash = hash;
        l2hash = l2h;
        cached = cached;
      } in
        IsReady disk b
        → let out = cache_remove disk h r s b key in IsReady disk out.1 × Uncached disk b key out
  unfolding cache_remove cache_remove_nolock memory_lookup
  removed true hash l2h cached ready =
      let done = l2hash_remove-Removed disk r s l2h key ready in
      let out = l2hash_remove disk r s false l2h key in
      (
        done.sound,
        (done.gone, done.others, done.status, counted l2hash_entry_size cached out.0 _ done.status),
      )
  removed false hash l2h cached ready =
      let done = hash_remove_lem h hash key ready in
      let out = hash_remove_nolock h hash key in
      (done.0, (done.1, done.2, done.3, counted hash_entry_size cached out.0 _ done.3))

module _ (disk : Disk) (h : Rebalance (HashEntry RamControl)) (r : Rebalance L2hashEntry)
    (s : Rebalance L2hashCollision) (key : Key) where
  -- `eblob_cache_insert` over either cache, for a control of a base whose index is open, and whose
  -- header on disk, which the short-hash cache reads, is that of the key. The cache stays ready. A
  -- success stores the control under the key and changes no other lookup, and it moves the
  -- counter by the size of one entry if the key was not there, and not at all if it was. The one
  -- error is -ENOMEM, for a key that was not there, and it changes neither lookups nor counter.
  pub cache_insert-Cached :
      (m1 m2 : Bool) (b : Backend) (data_offset index_offset size c fd : ℕ)
      → (disk.base c).index_fd ≡ some fd
      → let ctl : RamControl = record {
        data_offset = data_offset;
        index_offset = index_offset;
        size = size;
        bctl = some c;
      } in
        IsReady disk b
        → BelongsTo disk key ctl
        → let (res, b') = cache_insert disk h r s false m1 m2 b key ctl in
          IsReady disk b' × Cached disk b key ctl res b'
  unfolding cache_insert
  cache_insert-Cached m1 m2 b data_offset index_offset size c fd open_ ready own =
      rw (open_) (added disk h r s m1 m2 key _ b.use_l2hash b.hash b.l2hash b.cached ready own)

  -- `eblob_cache_remove` over either cache. The cache stays ready, the key is no longer found,
  -- every other lookup is as before, the result tells whether the key was there, and if it was, the
  -- counter goes down by the size of one entry.
  pub cache_remove-Uncached :
      (b : Backend)
      → IsReady disk b
      → let out = cache_remove disk h r s b key in IsReady disk out.1 × Uncached disk b key out
  unfolding cache_remove cache_remove_nolock
  cache_remove-Uncached b ready =
      removed disk h r s true true key zero_rctl b.use_l2hash b.hash b.l2hash b.cached ready
