-- ===== src/L2hash/Runs.antt =====
-- Whole runs of the cache of l2hash.c, from its initialisation on.
use eblob.Base.{
  ℕ, ◌<◌, Bool, true, false, List, [], ◌∷◌, Outcome, ok, err, Errno, enoent, ◌≡◌, refl, ap, All,
}
use eblob.Key.{Key}
use eblob.Record.{RamControl, Disk}
use eblob.Rbtree.{Rebalance, walk}
use eblob.Rbtree.Places.{get}
use eblob.Rbtree.Search.{find}
use eblob.History.{
  Event, store_event, remove_event, latest, after_store, after_remove, after_failure,
}
use eblob.L2hash.{L2hash, L2hashEntry, L2hashCollision, l2hash_init, l2hash_lookup, l2hash_remove}
use eblob.L2hash.Flavours.{l2hash_insert_flavor, flavor_last}
use eblob.L2hash.Contents.{IsSound, BelongsTo}
use eblob.L2hash.Insert.{l2hash_insert-Effect}
use eblob.L2hash.Insert.Effects.{Wrote}
use eblob.L2hash.Remove.{l2hash_remove-Removed}

-- A call of the cache: an insertion of some flavour, with the outcomes of its two allocations, or
-- a removal.
pub data Call : Type 0 where
  insert : Key → RamControl → ℕ → Bool → Bool → Call
  remove : Key → Call

-- What the callers guarantee: one of the three flavours, and a control whose header on disk is
-- that of the key.
abbrev pub IsProper : Disk → Call → Type 0
IsProper disk (insert key rctl flavor m1 m2) =
    (0 < flavor) × (flavor < flavor_last) × BelongsTo disk key rctl
IsProper disk (remove key) = Unit

module _ (disk : Disk) (r : Rebalance L2hashEntry) (s : Rebalance L2hashCollision) where
  unfoldable pub call : Call → L2hash → L2hash × Event RamControl
  unfolding l2hash_insert_flavor l2hash_remove
  call (insert key rctl flavor m1 m2) l2h =
      let out = l2hash_insert_flavor disk r s false m1 m2 l2h key rctl flavor true in
      (out.l2h, store_event key rctl out.status)
  call (remove key) l2h =
      let (status, l2h') = l2hash_remove disk r s false l2h key in (l2h', remove_event key status)

  -- The tables and the events, the latest first, after some calls.
  unfoldable pub run : List Call → L2hash × List (Event RamControl)
  unfolding call l2hash_init
  run [] = (l2hash_init, [])
  run (c ∷ cs) = let (l2h, es) = run cs in let (l2h', e) = call c l2h in (l2h', e ∷ es)

  abbrev Keeps : L2hash × List (Event RamControl) → Type 0
  Keeps t = IsSound disk t.0 × ((q : Key) → l2hash_lookup disk false t.0 q ≡ latest t.1 q)

  -- `eblob_l2hash_init` gives sound tables.
  init-IsSound : IsSound disk l2hash_init
  unfolding l2hash_init get find
  init-IsSound = record {
    entries = tt;
    collided = tt;
    resident = λ n e h c. absurd (cc h);
    marked = λ k c h. absurd (cc h);
  }

  insert-Keeps :
      (l2h : L2hash) (es : List (Event RamControl)) (key : Key) (rctl : RamControl) (flavor : ℕ)
      (m1 m2 : Bool)
      → Keeps (l2h, es)
      → IsProper disk (insert key rctl flavor m1 m2)
      → let out = l2hash_insert_flavor disk r s false m1 m2 l2h key rctl flavor true in
        Keeps (out.l2h, store_event key rctl out.status ∷ es)
  insert-Keeps l2h es key rctl flavor m1 m2 h p =
      let out = l2hash_insert_flavor disk r s false m1 m2 l2h key rctl flavor true in
      let effect = l2hash_insert-Effect disk r s m1 m2 l2h key rctl flavor true h.0 p.2 p.0 p.1 in
      (effect.sound, go out.l2h out.status effect.reads)
    where
      go :
          (l2h' : L2hash) (status : Outcome (Unit {0}))
          → Wrote disk l2h key rctl status l2h'
          → (q : Key)
          → l2hash_lookup disk false l2h' q ≡ latest (store_event key rctl status ∷ es) q
      go l2h' (ok u) w =
          after_store (l2hash_lookup disk false l2h) (l2hash_lookup disk false l2h') es h.1 key rctl
            w.0 w.1
      go l2h' (err e) w =
          after_failure (l2hash_lookup disk false l2h) (l2hash_lookup disk false l2h') es h.1 key w

  remove-Keeps :
      (l2h : L2hash) (es : List (Event RamControl)) (key : Key)
      → Keeps (l2h, es)
      → let (status, l2h') = l2hash_remove disk r s false l2h key in
        Keeps (l2h', remove_event key status ∷ es)
  remove-Keeps l2h es key h =
      let done = l2hash_remove-Removed disk r s l2h key h.0 in
      let out = l2hash_remove disk r s false l2h key in
      (done.sound, go out.1 out.0 done.gone done.others done.kept)
    where
      go :
          (l2h' : L2hash) (status : Outcome (Unit {0}))
          → l2hash_lookup disk false l2h' key ≡ err enoent
          → ((j : Key)
              → (j ≡ key → ⊥)
              → l2hash_lookup disk false l2h' j ≡ l2hash_lookup disk false l2h j)
          → ((e : Errno) → status ≡ err e → l2h' ≡ l2h)
          → (q : Key) → l2hash_lookup disk false l2h' q ≡ latest (remove_event key status ∷ es) q
      go l2h' (ok u) gone others kept =
          after_remove (l2hash_lookup disk false l2h) (l2hash_lookup disk false l2h') es h.1 key
            gone others
      go l2h' (err e) gone others kept =
          after_failure (l2hash_lookup disk false l2h) (l2hash_lookup disk false l2h') es h.1 key
            (λ j. ap (λ t. l2hash_lookup disk false t j) (kept e refl))

  -- The promise of the cache. After any calls, whatever allocations fail in them, the tables are
  -- sound, and a lookup of any key returns the control that the last successful insertion of the
  -- key gave it, or -ENOENT if there was none or a removal has succeeded since.
  pub run_refines :
      (cs : List Call)
      → All (IsProper disk) cs
      → let (l2h, es) = run cs in
        IsSound disk l2h × ((q : Key) → l2hash_lookup disk false l2h q ≡ latest es q)
  unfolding run call latest l2hash_lookup l2hash_init walk
  run_refines [] h = (init-IsSound, λ q. refl)
  run_refines (insert key rctl flavor m1 m2 ∷ cs) h =
      insert-Keeps (run cs).0 (run cs).1 key rctl flavor m1 m2 (run_refines cs h.1) h.0
  run_refines (remove key ∷ cs) h = remove-Keeps (run cs).0 (run cs).1 key (run_refines cs h.1)
