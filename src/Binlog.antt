-- ===== src/Binlog.antt =====
-- library/datasort.h: the binlog of a base, the list of the keys removed while it is sorted.
--
-- An entry is named by its place in the list. The assertions against null pointers are not
-- modelled; `malloc` tells whether an allocation succeeds.
use eblob.Base.{
  ℕ, zero, suc, ◌+◌, Bool, true, false, if◌then◌else◌, ◌==◌, Option, none, some, List, [], ◌∷◌,
  ◌++◌, length, get_elem?, Outcome, ok, err, Errno, ebusy, enoexec,
}
use eblob.Key.{Key}
pub mod Replay

-- `struct eblob_binlog_cfg`
pub record BinlogCfg : Type 0 where
  pub enabled : Bool
  pub removed_keys : List Key

-- `eblob_binlog_entry_new`: the key of the entry.
unfoldable pub binlog_entry_new : Bool → Key → Option Key
binlog_entry_new malloc key = if malloc then some key else none

-- `eblob_binlog_iterate`: the entry after `it`, or the first one; `none` is a null pointer.
unfoldable pub binlog_iterate : BinlogCfg → Option ℕ → Option ℕ
binlog_iterate bcfg none = elim bcfg.removed_keys [ [] ↦ none | key ∷ keys ↦ some 0 ]
binlog_iterate bcfg (some it) = if suc it == length bcfg.removed_keys then none else some (suc it)

-- `eblob_binlog_enabled`
unfoldable pub binlog_enabled : BinlogCfg → Bool
binlog_enabled bcfg = bcfg.enabled

-- `eblob_binlog_start`
unfoldable pub binlog_start : BinlogCfg → Outcome (Unit {0}) × BinlogCfg
unfolding binlog_enabled
binlog_start bcfg =
    if binlog_enabled bcfg
    then (err ebusy, bcfg)
    else (ok tt, record { enabled = true; removed_keys = [] })

-- `eblob_binlog_stop`, with `eblob_binlog_entry_free` for each entry.
unfoldable pub binlog_stop : BinlogCfg → Outcome (Unit {0}) × BinlogCfg
unfolding binlog_enabled
binlog_stop bcfg =
    if binlog_enabled bcfg
    then (ok tt, record { enabled = false; removed_keys = [] })
    else (err enoexec, bcfg)

-- `eblob_binlog_append`
unfoldable pub binlog_append : BinlogCfg → Key → Outcome (Unit {0}) × BinlogCfg
binlog_append bcfg entry = (ok tt, record bcfg { removed_keys = bcfg.removed_keys ++ (entry ∷ []) })
