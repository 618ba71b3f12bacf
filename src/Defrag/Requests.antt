-- ===== src/Defrag/Requests.antt =====
-- library/defrag.c: the requests (`eblob_start_defrag_level`, `eblob_start_defrag`,
-- `eblob_start_index_sort`, `eblob_defrag_status`, `eblob_stop_defrag`) and the rounds of
-- `eblob_defrag_thread` that serve them; `datasort_force_sort` of library/datasort.c.
use eblob.Base.{
  ℕ, ◌-◌, Bool, true, false, if◌then◌else◌, not, ◌&&◌, ◌==◌, Option, none, some, Outcome, ok, err,
  einval, ealready,
}
use eblob.Defrag.{DefragState, not_started, data_sort, index_sort, data_compact}

-- The flags of `cfg.blob_flags` that the requests test, and `want_defrag`.
pub record Scheduler : Type 0 where
  pub disable_threads : Bool
  pub auto_datasort : Bool
  pub auto_indexsort : Bool
  pub want_defrag : DefragState

abbrev pub is_started : DefragState → Bool
is_started not_started = false
is_started _ = true

-- `eblob_start_defrag_level`
unfoldable pub start_defrag_level : Scheduler → DefragState → Outcome (Unit {0}) × Scheduler
start_defrag_level b level =
    if b.disable_threads
    then (err einval, b)
    else if is_started b.want_defrag
    then (err ealready, b)
    else (ok tt, record b { want_defrag = level })

-- `eblob_start_defrag` and `eblob_start_index_sort`
unfoldable pub start_defrag : Scheduler → Outcome (Unit {0}) × Scheduler
unfolding start_defrag_level
start_defrag b = start_defrag_level b data_sort

unfoldable pub start_index_sort : Scheduler → Outcome (Unit {0}) × Scheduler
unfolding start_defrag_level
start_index_sort b = start_defrag_level b index_sort

-- `eblob_defrag_status`
unfoldable pub defrag_status : Scheduler → Outcome DefragState
defrag_status b = if b.disable_threads then err einval else ok b.want_defrag

-- `eblob_stop_defrag`
unfoldable pub stop_defrag : Scheduler → Outcome (Unit {0}) × Scheduler
stop_defrag b =
    if b.disable_threads
    then (err einval, b)
    else if not (is_started b.want_defrag)
    then (err ealready, b)
    else (ok tt, record b { want_defrag = not_started })

-- `datasort_force_sort`; a null pointer is `none`.
unfoldable pub force_sort : Option Scheduler → Outcome (Unit {0}) × Option Scheduler
unfolding start_defrag start_index_sort
force_sort none = (err einval, none)
force_sort (some b) =
    let requested =
      if b.auto_datasort
      then start_defrag b
      else if b.auto_indexsort
      then start_index_sort b
      else (ok tt, b) in
    (requested.0, some requested.1)

-- One round of `eblob_defrag_thread`: it waits for a second (`timed_out` tells whether that was
-- all, and no exit event), or it runs `eblob_defrag` in the mode it gives, sets `want_defrag` back,
-- and sleeps for `next` seconds, what `datasort_next_defrag` returns.
pub data ThreadStep : Type 0 where
  leave : ThreadStep
  wait : ℕ → ThreadStep
  defragmented : DefragState → ℕ → Scheduler → ThreadStep

unfoldable pub thread_round : ℕ → Bool → ℕ → Scheduler → ThreadStep
thread_round sleep_time timed_out next b =
    if not (sleep_time == 0) && not (is_started b.want_defrag)
    then if timed_out then wait (sleep_time - 1) else leave
    else (if is_started b.want_defrag
        then defragmented b.want_defrag next (record b { want_defrag = not_started })
        else defragmented data_compact next (record b { want_defrag = not_started }))

-- A request of a caller, or what the thread does of its own.
pub data Request : Type 0 where
  start : DefragState → Request
  stop : Request
  round_of : ℕ → Bool → ℕ → Request

-- The scheduler after a request, and the defragmentation that a round of the thread ran.
unfoldable pub serve : Scheduler → Request → Scheduler × Option DefragState
unfolding start_defrag_level stop_defrag thread_round
serve b (start level) = ((start_defrag_level b level).1, none)
serve b stop = ((stop_defrag b).1, none)
serve b (round_of sleep_time timed_out next) = elim (thread_round sleep_time timed_out next b) [
  | leave ↦ (b, none)
  | wait left ↦ (b, none)
  | defragmented level sleep b' ↦ (b', some level)
]
