-- ===== src/L2hash/Insert/Effects.antt =====
-- What a call of `_eblob_l2hash_insert` may leave, and how its branches come to it.
use eblob.Base.{
  ℕ, ◌==◌, not, Bool, true, false, if◌then◌else◌, Outcome, ok, err, Errno, enoent, eexist, enomem,
  ◌≡◌, refl, ◌⊎◌, inl,
}
use eblob.Key.{Key}
use eblob.Record.{RamControl, Disk}
use eblob.L2hash.{L2hash, l2hash_lookup}
use eblob.L2hash.Flavours.{Inserted, report, flavor_update, flavor_insert}
use eblob.L2hash.Contents.{IsSound}

-- What the call returns, by its flavour and by what a lookup of the key returned before; `mem`
-- tells whether both allocations would succeed.
abbrev pub StatusFits : ℕ → Bool → Outcome RamControl → Outcome (Unit {0}) → Type 0
StatusFits flavor mem (ok old) status =
    status ≡ (if flavor == flavor_insert then err eexist else ok tt)
StatusFits flavor mem (err e) status =
    (status ≡ (if flavor == flavor_update then err enoent else ok tt))
    ⊎ ((status ≡ err enomem) × (mem ≡ false) × ((flavor == flavor_update) ≡ false))

-- What it writes to `*replaced`.
abbrev pub replaces : ℕ → Outcome RamControl → Bool
replaces flavor (ok old) = not (flavor == flavor_insert)
replaces flavor (err e) = false

-- What later lookups see of it: the new control under the key after a success, and no change at
-- all after an error.
abbrev pub Wrote : Disk → L2hash → Key → RamControl → Outcome (Unit {0}) → L2hash → Type 0
Wrote disk l2h key rctl (ok _) l2h' =
    (l2hash_lookup disk false l2h' key ≡ ok rctl)
    × ((j : Key) → (j ≡ key → ⊥) → l2hash_lookup disk false l2h' j ≡ l2hash_lookup disk false l2h j)
Wrote disk l2h key rctl (err e) l2h' =
    (j : Key) → l2hash_lookup disk false l2h' j ≡ l2hash_lookup disk false l2h j

pub record Effect (disk : Disk) (l2h : L2hash) (key : Key) (rctl : RamControl) (flavor : ℕ)
    (mem want : Bool) (out : Inserted) : Type 0 where
  pub sound : IsSound disk out.l2h
  pub status : StatusFits flavor mem (l2hash_lookup disk false l2h key) out.status
  pub reported : out.replaced ≡ report want (replaces flavor (l2hash_lookup disk false l2h key))
  pub reads : Wrote disk l2h key rctl out.status out.l2h

module _ {disk : Disk} {l2h : L2hash} {key : Key} {rctl : RamControl} {flavor : ℕ}
    {mem want : Bool} where
  -- The branches that return an error at once.
  pub unchanged_absent :
      IsSound disk l2h
      → (e : Errno) → l2hash_lookup disk false l2h key ≡ err enoent
      → StatusFits flavor (mem) (err enoent) (err e)
      → Effect disk l2h key rctl flavor mem want
          (record { status = err e; replaced = report want false; l2h = l2h })
  unchanged_absent v e old fits = record {
    sound = v;
    status = rw old fits;
    reported = rw old;
    reads = λ j. refl;
  }

  pub unchanged_present :
      IsSound disk l2h
      → (old : RamControl) → l2hash_lookup disk false l2h key ≡ ok old
      → (flavor == flavor_insert) ≡ true
      → Effect disk l2h key rctl flavor mem want
          (record { status = err eexist; replaced = report want false; l2h = l2h })
  unchanged_present v old seen h = record {
    sound = v;
    status = rw (seen, h);
    reported = rw (seen, h);
    reads = λ j. refl;
  }

  -- The branches that end in an insertion of the key into a tree.
  pub stored_absent :
      (l2h' : L2hash)
      → l2hash_lookup disk false l2h key ≡ err enoent
      → (flavor == flavor_update) ≡ false
      → IsSound disk l2h'
      → Wrote disk l2h key rctl (ok tt) l2h'
      → Effect disk l2h key rctl flavor mem want
          (record { status = ok tt; replaced = report want false; l2h = l2h' })
  stored_absent l2h' old h sound reads = record {
    sound = sound;
    status = rw (old, h) (inl refl);
    reported = rw old;
    reads = reads;
  }

  pub stored_present :
      (l2h' : L2hash) (old : RamControl)
      → l2hash_lookup disk false l2h key ≡ ok old
      → (flavor == flavor_insert) ≡ false
      → IsSound disk l2h'
      → Wrote disk l2h key rctl (ok tt) l2h'
      → Effect disk l2h key rctl flavor mem want
          (record { status = ok tt; replaced = report want true; l2h = l2h' })
  stored_present l2h' old seen h sound reads = record {
    sound = sound;
    status = rw (seen, h);
    reported = rw (seen, h);
    reads = reads;
  }
