-- ===== src/Index/Search/Block.antt =====
-- `search_block`: the search of a key in one block of a sorted index and around it.
use Prim.Native.Nat.Ordering.{eq}
use eblob.Base.{
  ℕ, ◌+◌, ◌-◌, ◌*◌, ◌/◌, ◌%◌, ◌==◌, ◌<◌, true, false, not, ◌||◌, min, Option, none, some,
  Option-cases, List, [], ◌∷◌, Outcome, ok, err, enoent, ◌≡◌, refl, sym, ap, subst, ◌∙◌, arith, inl,
  inr,
}
use eblob.Record.{DiskControl}
use eblob.Index.{disk_control_sort}
use eblob.Index.Search.{
  Bsearch, Search, search_around, search_block, find_non_removed, rounds_for, refill,
}
use eblob.Index.Search.Windows.{IsSame, IsRead, window, window-inside, get_elem?-window}
use eblob.Index.Search.Keys.{same_key, key_same}
use eblob.Index.Search.Ordered.{IsOrdered, window-IsPartitioned}
use eblob.Index.Search.Ahead.{IsShortRun}
use eblob.Index.Search.Around.{Finds, search_around-Finds}

module _ (at : ℕ → DiskControl) (size : ℕ) (dc : DiskControl)
    (read : ℕ → ℕ → Outcome (List DiskControl)) (per_block : ℕ) (reads : IsRead at read size)
    (ordered : IsOrdered at size) (short_run : IsShortRun at read size per_block dc reads)
    (some_ : 0 < per_block) where
  refill-nil : (xs : List DiskControl) → refill xs [] ≡ xs
  refill-nil [] = refl
  refill-nil (x ∷ xs) = refl

  -- The variables after the first read, with the header that `bsearch` gives.
  abbrev state : ℕ → List DiskControl → ℕ → ℕ → Search
  state p0 buf n orig = record {
    hdr_block = buf;
    hdr_block_offset = p0 * 96;
    hdr_block_size = n * 96;
    num = n;
    sorted = orig;
    error = enoent;
  }

  abbrev after_read : Bsearch → ℕ → List DiskControl → ℕ → Option (Outcome (DiskControl × ℕ))
  after_read bs p0 buf n = elim (bs.search_in DiskControl (disk_control_sort dc) buf) [
    | none ↦ some (err enoent)
    | some orig ↦
        search_around read (size * 96) per_block find_non_removed dc (p0 * 96) orig
          (rounds_for (size * 96)) (state p0 buf n orig)
  ]

  search_block-read :
      (bs : Bsearch) (p0 : ℕ)
      → p0 < size
      → search_block bs read per_block true (size * 96) dc find_non_removed (p0 * 96)
        ≡ after_read bs p0 (window at p0 (min (size - p0) per_block)) (min (size - p0) per_block)
  unfolding search_block
  search_block-read bs p0 inside =
      let n0 = min (size - p0) per_block in
      let test : ((size * 96 - p0 * 96) / 96 == 0) || not ((size * 96 - p0 * 96) % 96 == 0)
          ≡ false =
        ground (arith, inside) in
      let count : min ((size * 96 - p0 * 96) / 96) per_block ≡ n0 =
        ap (λ k. min k per_block) (omega (arith, inside)) in
      let got : read (p0 * 96) (min ((size * 96 - p0 * 96) / 96) per_block * 96)
          ≡ ok (window at p0 n0) =
        ap (λ k. read (p0 * 96) (k * 96)) count ∙ reads p0 n0 (omega (arith, inside)) in
      rw (search_block, test, got)
        (ap (λ b. after_read bs p0 b (min ((size * 96 - p0 * 96) / 96) per_block))
            (refill-nil (window at p0 n0))
          ∙ ap (after_read bs p0 (window at p0 n0)) count)

  -- The search in the block of the headers from `p0` on.
  pub search_block-Finds :
      (bs : Bsearch) (p0 : ℕ)
      → p0 < size
      → ((t : ℕ)
          → t < size
          → IsSame at dc t
          → (u : ℕ) × (u < min (size - p0) per_block) × IsSame at dc (p0 + u))
      → Finds at size dc
          (search_block bs read per_block true (size * 96) dc find_non_removed (p0 * 96))
  search_block-Finds bs p0 inside covers =
      let n0 = min (size - p0) per_block in
      let cmp = disk_control_sort dc in
      let buf = window at p0 n0 in
      let parts = window-IsPartitioned at size ordered dc p0 n0 (omega (arith, inside)) in
      subst (Finds at size dc) (sym (search_block-read bs p0 inside))
        (elim (Option-cases (bs.search_in DiskControl cmp buf)) [
          | inl e ↦ inr (
            rw (after_read, e) refl,
            λ t below same.
                let v = covers t below same in
                absurd (
                  bs.search_in-none DiskControl cmp buf parts e v.0 (at (p0 + v.0))
                    (get_elem?-window at p0 n0 v.0 v.1)
                    (key_same dc (at (p0 + v.0)) (sym (same_key (at (p0 + v.0)) dc v.2)))),
          )
          | inr (orig, e) ↦
              let v = bs.search_in-eq DiskControl cmp buf parts orig e in
              let w = window-inside at p0 n0 orig v.0 v.1 in
              let here : IsSame at dc (p0 + orig) =
                key_same (at (p0 + orig)) dc
                  (sym (same_key dc (at (p0 + orig)) (subst (λ x. cmp x ≡ eq) (sym w.1) v.2))) in
              rw (after_read, e)
                (search_around-Finds at size dc read per_block reads ordered short_run some_
                  (rounds_for (size * 96)) p0 n0 (state p0 buf n0 orig) (omega (arith, inside))
                  (ground arith) w.0 refl refl refl refl (λ i lo hi. get_elem?-window at p0 n0 i hi)
                  (omega arith) here)
        ])
