-- ===== src/Range.antt =====
-- library/range.c: requests for the records of a range of keys.
--
-- `eblob_read_range` is modelled up to its call of `eblob_read_range_on_disk`, and of that the search
-- for a first header, `eblob_bsearch_fuzzy`: the loops around it read headers by
-- `eblob_disk_control_in_range`, which writes a header over a pointer on the stack and has no defined
-- behaviour. The callback of a request is a parameter; it may change the request, and returns 0,
-- `ok false`, or a positive number, `ok true`, or a negative one. Log lines are not modelled.
use Prim.Native.Nat.Ordering.{lt, eq, gt}
use eblob.Base.{
  ℕ, zero, suc, ◌+◌, ◌-◌, ◌*◌, ◌/◌, ◌%◌, ◌^◌, Ordering, Bool, true, false, if◌then◌else◌, not, ◌&&◌,
  ◌||◌, ltb, leb, ◌==◌, Option, none, some, List, [], ◌∷◌, map, Outcome, ok, err, Errno, enotsup,
}
use mathlib.Core.List.{reverse}
use eblob.Key.{Key, id_cmp}
use eblob.Record.{DiskControl, RamControl, hdr_size}
use eblob.Rbtree.{Tree, leaf, node, Pointer, left, right, entry_at, before}
use eblob.Hash.{Hash, HashEntry}
pub mod Fuzzy

-- `eblob_id_in_range`
unfoldable pub id_in_range : List ℕ → List ℕ → List ℕ → Bool
id_in_range id start end = elim (id_cmp id start) [
  | eq ↦ true
  | lt ↦ elim (id_cmp id end) [ eq ↦ true | lt ↦ false | gt ↦ false ]
  | gt ↦ elim (id_cmp id end) [ eq ↦ true | lt ↦ true | gt ↦ false ]
]

-- The loop of `eblob_bsearch_fuzzy`, on fuel. `low` is one more than that of the source, which starts
-- at -1. `read_hdr` is what `__eblob_read_ll` gives for the header at an offset; -1 is `none`.
unfoldable pub fuzzy_loop :
    (ℕ → Outcome DiskControl) → Key → Key → ℕ → ℕ → ℕ → Option ℕ → Option (Option ℕ)
unfolding id_cmp
fuzzy_loop read_hdr start end zero low high found = none
fuzzy_loop read_hdr start end (suc fuel) low high found = elim (ltb low high) [
  | false ↦ some found
  | true ↦
      let i = low + (high + 1 - low) / 2 - 1 in
      elim (read_hdr (i * hdr_size)) [
        | err e ↦ some found
        | ok dc ↦ elim (id_cmp dc.key.id start.id) [
          | lt ↦ fuzzy_loop read_hdr start end fuel (i + 1) high found
          | eq ↦ some (some i)
          | gt ↦ elim (id_cmp dc.key.id end.id) [
            | gt ↦ fuzzy_loop read_hdr start end fuel low i found
            | lt ↦ fuzzy_loop read_hdr start end fuel low i (some i)
            | eq ↦ fuzzy_loop read_hdr start end fuel low i (some i)
          ]
        ]
      ]
]

-- `eblob_bsearch_fuzzy`; the fuel is a round for each header and one more.
unfoldable pub bsearch_fuzzy : (ℕ → Outcome DiskControl) → ℕ → Key → Key → Option (Option ℕ)
unfolding fuzzy_loop
bsearch_fuzzy read_hdr sort_size start end =
    let num = sort_size / hdr_size in fuzzy_loop read_hdr start end (suc num) 0 num none

-- The fields of `struct eblob_range_request` that the code uses.
pub record RangeRequest : Type 0 where
  pub start : List ℕ
  pub end : List ℕ
  pub requested_limit_start : ℕ
  pub requested_limit_num : ℕ
  pub current_pos : ℕ
  pub record_key : List ℕ
  pub record_fd : ℕ
  pub record_offset : ℕ
  pub record_size : ℕ

-- The fields of a base that a request uses.
pub record RangeBase : Type 0 where
  pub index : ℕ
  pub data_fd : ℕ
  pub has_sort : Bool

-- `req->current_pos - req->requested_limit_start >= req->requested_limit_num`, on 64-bit words.
abbrev pub is_over : RangeRequest → Bool
is_over req =
    leb req.requested_limit_num
      ((req.current_pos + 2 ^ 64 - req.requested_limit_start % 2 ^ 64) % 2 ^ 64)

module _ (callback : RangeRequest → Outcome Bool × RangeRequest) where
  -- The end of `eblob_range_callback`, by what the callback returned.
  abbrev pub after_callback : Outcome Bool × RangeRequest → Outcome Bool × RangeRequest
  after_callback (ok false, req) = (ok (is_over req), req)
  after_callback (ok true, req) = (ok true, req)
  after_callback (err e, req) = (err e, req)

  -- `eblob_range_callback`
  unfoldable pub range_callback : RangeRequest → Key → ℕ → ℕ → ℕ → Outcome Bool × RangeRequest
  range_callback req key data_fd offset size =
      if ltb req.current_pos req.requested_limit_start
      then (ok false, record req { current_pos = req.current_pos + 1 })
      else if is_over req
      then (ok true, req)
      else after_callback (
          callback (record req {
            record_key = key.id;
            record_fd = data_fd;
            record_size = size;
            record_offset = offset;
          }))

  -- The first walk of `eblob_read_range`: the node to start from.
  unfoldable pub range_start : List ℕ → List ℕ → Tree (HashEntry RamControl) → Option Pointer
  unfolding id_in_range
  range_start start end leaf = none
  range_start start end (node l t r) = elim (id_cmp t.key.id start) [
    | lt ↦ elim (range_start start end l) [ none ↦ none | some p ↦ some (left ∷ p) ]
    | eq ↦ some []
    | gt ↦ elim (range_start start end r) [
      | some p ↦ some (right ∷ p)
      | none ↦ if id_in_range t.key.id start end then some [] else none
    ]
  ]

  -- Whether a base of this index has a sorted index.
  unfoldable pub have_sorted_fd : ℕ → List RangeBase → Bool
  have_sorted_fd index [] = false
  have_sorted_fd index (b ∷ bases) = (b.index == index && b.has_sort) || have_sorted_fd index bases

  module _ (base : Option ℕ → RangeBase) (max_index : ℕ) (bases : List RangeBase) where
    -- A control of the cache is left to the search on disk where its base is sorted.
    abbrev pub on_sorted : RamControl → Bool
    on_sorted ctl =
        not ((base ctl.bctl).index == max_index) && have_sorted_fd (base ctl.bctl).index bases

    -- The second walk, over the nodes that `rb_prev` goes through. An error of the callback does not
    -- end it.
    unfoldable pub range_walk : List (HashEntry RamControl) → RangeRequest → RangeRequest
    unfolding range_callback id_in_range have_sorted_fd
    range_walk [] req = req
    range_walk (e ∷ entries) req = elim (id_in_range e.key.id req.start req.end) [
      | false ↦ req
      | true ↦ elim (on_sorted e.bytes) [
        | true ↦ range_walk entries req
        | false ↦
            let out =
              range_callback req e.key (base e.bytes.bctl).data_fd (e.bytes.data_offset + hdr_size)
                e.bytes.size in
            elim out.0 [
              | ok more ↦ elim more [ true ↦ out.1 | false ↦ range_walk entries out.1 ]
              | err n ↦ range_walk entries out.1
            ]
      ]
    ]

    -- The entry at a pointer, and those that `rb_prev` leads to from there.
    abbrev pub backwards_from : Pointer → Tree (HashEntry RamControl) → List (HashEntry RamControl)
    backwards_from p t = elim (entry_at p t) [ none ↦ [] | some e ↦ e ∷ reverse (before p t) ]

    -- `eblob_read_range` up to the call of `eblob_read_range_on_disk`: the request as it is given
    -- to that. With the short-hash cache there are no range requests.
    unfoldable pub read_range_in_memory :
        Bool → Hash RamControl → RangeRequest → Outcome RangeRequest
    unfolding range_start range_walk
    read_range_in_memory use_l2hash h req =
        if use_l2hash then err enotsup else elim (range_start req.start req.end h.root) [
          | none ↦ ok req
          | some p ↦ ok (range_walk (backwards_from p h.root) req)
        ]
