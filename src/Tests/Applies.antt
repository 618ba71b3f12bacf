-- ===== src/Tests/Applies.antt =====
-- The binlog applied to a sorted index of four headers.
use Prim.Native.Nat.Ordering.{lt}
use eblob.Base.{ℕ, true, List, [], ◌∷◌, ◌++◌, Outcome, ok, ◌≡◌, refl, ap}
use eblob.Key.{Key, id_cmp, memcmp}
use eblob.Key.Order.{key_cmp, key_cmp-IsOrder}
use eblob.Record.{DiskControl}
use eblob.Index.{disk_control_sort}
use eblob.Index.Apply.{indexsort_binlog_apply, set_removed}
use eblob.Index.Apply.Marked.{IsFlagged}
use eblob.Tests.Samples.{key_of, header_of}
use eblob.Tests.Searches.{linear, removed_seven}

-- Of the two headers of the key 7 the first is removed.
abbrev pub four_headers : List DiskControl
four_headers = removed_seven ∷ header_of 7 ∷ header_of 8 ∷ header_of 9 ∷ []

-- The positions that have been marked.
abbrev pub note_mark : ℕ → List ℕ → Outcome (Unit {0}) × List ℕ
note_mark position seen = (ok tt, seen ++ (position ∷ []))

-- A larger key is another key.
larger-ne : (a b : Key) → key_cmp a b ≡ lt → b ≡ a → ⊥
larger-ne a b h e = cc (h, key_cmp-IsOrder.same a, ap (key_cmp a) e)

pub four_headers-IsFlagged : IsFlagged four_headers
unfolding id_cmp memcmp
four_headers-IsFlagged = (
  (
    (λ e. cc, λ live. absurd (cc (live))),
    ((λ e. cc, λ live. absurd (cc (live))), ((λ e. cc, λ live. absurd (cc (live))), tt)),
  ),
  (
    (
      (λ e. cc, λ live. larger-ne (key_of 7) (key_of 8) refl),
      ((λ e. cc, λ live. larger-ne (key_of 7) (key_of 9) refl), tt),
    ),
    (((λ e. cc, λ live. larger-ne (key_of 8) (key_of 9) refl), tt), (tt, tt)),
  ),
)

seven_marked :
    indexsort_binlog_apply note_mark linear
      (record { enabled = true; removed_keys = key_of 7 ∷ key_of 5 ∷ [] })
      four_headers
      []
    ≡ (
      ok tt,
      removed_seven ∷ set_removed (header_of 7) ∷ header_of 8 ∷ header_of 9 ∷ [],
      0 ∷ 0 ∷ [],
    )
unfolding indexsort_binlog_apply id_cmp memcmp disk_control_sort
seven_marked = refl
