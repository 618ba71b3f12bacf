-- ===== src/Defrag.antt =====
-- library/defrag.c: which bases are defragmented, in which groups, and the requests that start and
-- stop it; `datasort_force_sort` of library/datasort.c.
--
-- The sorts themselves (`eblob_generate_sorted_index`, `eblob_generate_sorted_data`) are seen by
-- what they return: `reply` gives it for each call. Timestamps and log lines are not modelled.
use eblob.Base.{
  ℕ, ◌+◌, ◌-◌, ◌*◌, ◌/◌, ◌%◌, ◌^◌, zero, suc, Bool, true, false, if◌then◌else◌, not, ◌&&◌, ◌||◌,
  ltb, leb, ◌==◌, Option, none, some, List, [], ◌∷◌, ◌++◌, length, Outcome, ok, err, Errno, enoent,
  einval, ealready, errno,
}
pub mod Signed
use eblob.Defrag.Signed.{ℤ, pos, negsuc, ltℤ, eqℤ, u64}
pub mod Wants
pub mod Groups
pub mod Requests

-- `enum eblob_defrag_state`
pub data DefragState : Type 0 where
  not_started data_sort index_sort data_compact : DefragState

-- `enum eblob_defrag_type`
pub data Want : Type 0 where
  not_needed defrag_needed remove_needed merge_needed : Want

-- What the code reads of a `struct eblob_base_ctl`: four counters, of 64 bits and signed, the
-- offset and the size of its files, whether it has a sorted index (`sort.fd >= 0`), and whether
-- `datasort_base_is_sorted` returns 1 for it.
pub record BaseCtl : Type 0 where
  pub index : ℕ
  pub total : ℤ
  pub removed : ℤ
  pub removed_size : ℤ
  pub size : ℤ
  pub data_offset : ℕ
  pub index_size : ℕ
  pub sort_fd : Bool
  pub data_sorted : Bool

-- The limits of `struct eblob_config`.
pub record Limits : Type 0 where
  pub defrag_percentage : ℕ
  pub blob_size : ℕ
  pub records_in_blob : ℕ

-- The two numbers that the threshold is computed from, once `size` is known not to be negative. A
-- product beyond 63 bits, which C leaves undefined, is not cut off.
abbrev threshold : Limits → ℤ → ℤ
threshold cfg (pos n) = pos (n * cfg.defrag_percentage / 100)
threshold cfg (negsuc n) = negsuc n

-- `eblob_want_defrag`; `is_last` is `list_is_last` for the base.
unfoldable pub want_defrag : Limits → Bool → BaseCtl → Outcome Want
want_defrag cfg is_last bctl =
    if is_last
    then ok not_needed
    else if eqℤ bctl.removed (pos 0)
        && eqℤ bctl.total (pos 0)
        && (not (bctl.data_offset == 0) || not (bctl.index_size == 0))
    then err einval
    else if ltℤ bctl.total bctl.removed || ltℤ bctl.size bctl.removed_size || ltℤ bctl.size (pos 0)
    then err einval
    else if eqℤ bctl.total bctl.removed
    then (if bctl.index_size == u64 bctl.removed * 96 % 2 ^ 64
        then ok remove_needed
        else ok defrag_needed)
    else if not (ltℤ bctl.removed_size (threshold cfg bctl.size))
    then ok defrag_needed
    else if ltb ((u64 bctl.size + (2 ^ 64 - u64 bctl.removed_size)) % 2 ^ 64) (cfg.blob_size / 10)
    then ok merge_needed
    else ok not_needed

-- What the first loop of `eblob_defrag` does with one base.
pub data Choice : Type 0 where
  drop skip take : Choice

-- `want` is what `eblob_want_defrag` returned.
unfoldable pub choice : DefragState → BaseCtl → Outcome Want → Choice
choice mode bctl (ok remove_needed) = drop
choice data_compact bctl (ok not_needed) = skip
choice index_sort bctl (ok not_needed) = if bctl.data_sorted || bctl.sort_fd then skip else take
choice data_sort bctl (ok not_needed) = if bctl.data_sorted then skip else take
choice not_started bctl (ok not_needed) = if bctl.data_sorted then skip else take
choice index_sort bctl _ = if bctl.sort_fd then skip else take
choice _ bctl _ = take

unfoldable pub choose : Limits → DefragState → BaseCtl → Choice
unfolding want_defrag choice
choose cfg mode bctl = choice mode bctl (want_defrag cfg false bctl)

-- The loop: the bases that stay in the list of the backend, those whose files are removed, and
-- those put into `bctls`, for which `room` places are left.
unfoldable pub select :
    Limits → DefragState → ℕ → List BaseCtl → List BaseCtl × List BaseCtl × List BaseCtl
unfolding choose
select cfg mode room [] = ([], [], [])
select cfg mode room (b ∷ []) = (b ∷ [], [], [])
select cfg mode room (b ∷ c ∷ bs) =
    let (kept, dropped, taken) = select cfg mode room (c ∷ bs) in
    let (kept', dropped', taken') = select cfg mode (room - 1) (c ∷ bs) in
    elim (choose cfg mode b) [
      | drop ↦ (kept, b ∷ dropped, taken)
      | skip ↦ (b ∷ kept, dropped, taken)
      | take ↦ if room == 0 then (b ∷ c ∷ bs, [], []) else (b ∷ kept', dropped', b ∷ taken')
    ]

-- A sort that the second loop calls.
pub data Sort : Type 0 where
  sort_index : BaseCtl → Sort
  sort_data : BaseCtl → List BaseCtl → Sort

-- Number of records and size of a base, as `uint64_t`.
unfoldable pub records_of : BaseCtl → ℕ
records_of bctl = (u64 bctl.total + (2 ^ 64 - u64 bctl.removed)) % 2 ^ 64

unfoldable pub size_of : BaseCtl → ℕ
size_of bctl = u64 bctl.size

-- "Do not sort one base if its deframentation is not required."
unfoldable pub needs_sort : Limits → BaseCtl → List BaseCtl → Bool
unfolding want_defrag
needs_sort cfg first [] = elim (want_defrag cfg false first) [
  | ok defrag_needed ↦ true
  | _ ↦ not first.data_sorted
]
needs_sort cfg first (b ∷ bs) = true

-- The `switch`, for the bases from `previous` up to `current`.
unfoldable pub sort_of : Limits → DefragState → BaseCtl → List BaseCtl → Option Sort
unfolding needs_sort
sort_of cfg not_started first more = none
sort_of cfg index_sort first more = if first.sort_fd then none else some (sort_index first)
sort_of cfg data_sort first more =
    if needs_sort cfg first more then some (sort_data first more) else none
sort_of cfg data_compact first more =
    if needs_sort cfg first more then some (sort_data first more) else none

-- Whether a base joins the group whose sums are `total_records` and `total_size`: "we always merge
-- empty bases".
unfoldable pub joins : Limits → DefragState → ℕ → ℕ → BaseCtl → Bool
unfolding records_of size_of
joins cfg not_started total_records total_size b = false
joins cfg index_sort total_records total_size b = false
joins cfg data_sort total_records total_size b =
    leb ((total_records + records_of b) % 2 ^ 64) cfg.records_in_blob
      && leb ((total_size + size_of b) % 2 ^ 64) cfg.blob_size
    || (records_of b == 0)
joins cfg data_compact total_records total_size b =
    leb ((total_records + records_of b) % 2 ^ 64) cfg.records_in_blob
      && leb ((total_size + size_of b) % 2 ^ 64) cfg.blob_size
    || (records_of b == 0)
