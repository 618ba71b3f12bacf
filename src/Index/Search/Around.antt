-- ===== src/Index/Search/Around.antt =====
-- What the two loops of `eblob_find_on_disk` find around the header that `bsearch` gives.
use eblob.Base.{
  ℕ, zero, suc, ◌+◌, ◌*◌, ◌≤◌, ◌<◌, false, Option, some, List, get_elem?, Outcome, ok, err, enoent,
  ◌≡◌, refl, arith, ◌⊎◌, inl, inr,
}
use eblob.Record.{DiskControl}
use eblob.Index.Search.{Search, miss, forward, search_around, find_non_removed, report}
use eblob.Index.Search.Windows.{Shows, IsSame, IsHit, AllDead, AllDead-join, IsRead}
use eblob.Index.Search.Ordered.{IsOrdered, between-IsSame}
use eblob.Index.Search.Ahead.{IsShortRun, ahead_hit, ahead_miss, forward-Ahead}
use eblob.Index.Search.Behind.{behind_hit, behind_miss, backward-Behind}

module _ (at : ℕ → DiskControl) (size : ℕ) (dc : DiskControl) where
  -- The search finds a header with the key that is not removed, and its offset, or there is none and
  -- it returns -ENOENT.
  abbrev pub Finds : Option (Outcome (DiskControl × ℕ)) → Type 0
  Finds r =
      ((q : ℕ) × (q < size) × (r ≡ some (ok (at q, q * 96))) × IsHit at dc q)
      ⊎ ((r ≡ some (err enoent))
          × ((t : ℕ) → t < size → IsSame at dc t → find_non_removed (at t) ≡ false))

module _ (at : ℕ → DiskControl) (size : ℕ) (dc : DiskControl)
    (read : ℕ → ℕ → Outcome (List DiskControl)) (per_block : ℕ) (reads : IsRead at read size)
    (ordered : IsOrdered at size) (short_run : IsShortRun at read size per_block dc reads)
    (some_ : 0 < per_block) where
  report-Finds :
      (s : Search) (p q : ℕ)
      → s.hdr_block_offset ≡ p * 96
      → get_elem? s.hdr_block s.sorted ≡ some (at q)
      → q ≡ p + s.sorted
      → report read (size * 96) per_block find_non_removed dc s ≡ some (ok (at q, q * 96))
  report-Finds s p q offset shown is =
      let e : s.hdr_block_offset + s.sorted * 96 ≡ q * 96 = omega (arith, offset, is) in
      rw (report, shown, e) refl

  -- Between the two ends that the loops come to there are all headers with the key.
  none_live :
      (a lo hi : ℕ)
      → IsSame at dc a
      → a < size
      → AllDead at dc lo a
      → AllDead at dc a hi
      → lo ≤ a
      → hi ≤ size
      → ((t : ℕ) → lo ≡ suc t → IsSame at dc t → ⊥)
      → ((hi ≡ size) ⊎ (IsSame at dc hi → ⊥))
      → a ≤ hi
      → (t : ℕ) → t < size
      → IsSame at dc t
      → find_non_removed (at t) ≡ false
  none_live a lo hi here inside behind ahead le within first last ge t below same =
      elim (place t lo hi) [
        | inl (u, is, front) ↦ absurd (
            first u is (
              between-IsSame at size ordered dc t u a front (omega (arith, is, le)) inside same
                here))
        | inr (inl (l, h)) ↦ (AllDead-join at dc lo a hi behind ahead t l h).1
        | inr (inr over) ↦ elim last [
          | inl at_end ↦ absurd (omega (arith, over, at_end, below))
          | inr other ↦
              absurd (other (between-IsSame at size ordered dc a hi t ge over below here same))
        ]
      ]
    where
      place :
          (t' lo' hi' : ℕ)
          → ((u : ℕ) × (lo' ≡ suc u) × (t' ≤ u)) ⊎ (((lo' ≤ t') × (t' < hi')) ⊎ (hi' ≤ t'))
      place t' zero hi' = ground arith
      place t' (suc l) hi' = elim (order t' l hi') [ inl h ↦ inl (l, refl, h) | inr h ↦ inr h ]
        where
          order : (x y z : ℕ) → (x ≤ y) ⊎ (((suc y ≤ x) × (x < z)) ⊎ (z ≤ x))
          order x y z = ground arith

  pub search_around-Finds :
      (fuel p0 n0 : ℕ) (s : Search)
      → p0 + n0 ≤ size
      → (n0 ≡ per_block) ⊎ (p0 + n0 ≡ size)
      → s.sorted < n0
      → s.hdr_block_offset ≡ p0 * 96
      → s.hdr_block_size ≡ n0 * 96
      → s.num ≡ n0
      → s.error ≡ enoent
      → Shows at s.hdr_block p0 0 n0
      → 2 * size + 2 ≤ fuel
      → IsSame at dc (p0 + s.sorted)
      → Finds at size dc
          (search_around read (size * 96) per_block find_non_removed dc (p0 * 96) s.sorted fuel s)
  unfolding search_around
  search_around-Finds fuel p0 n0 s within filled inside offset width num error shows enough here =
      elim (forward-Ahead at read size per_block dc reads short_run p0 n0 within filled enoent fuel
        (p0 + s.sorted) s inside offset width num error shows (omega (arith, enough)) some_ refl) [
          | ahead_hit s' p out off shown below found ↦ inl (
            p + s'.sorted,
            below,
            rw (search_around, out) (report-Finds s' p (p + s'.sorted) off shown refl),
            found,
          )
          | ahead_miss s' c hi out dead below last error' num' width' room small kept ge ↦
              back s' c hi out dead below last error' num' width' room small kept ge
        ]
    where
      back :
          (s' : Search) (c hi : ℕ)
          → forward read (size * 96) per_block find_non_removed dc fuel s ≡ miss s'
          → AllDead at dc (p0 + s.sorted) hi
          → hi ≤ size
          → (hi ≡ size) ⊎ (IsSame at dc hi → ⊥)
          → s'.error ≡ enoent
          → s'.num ≡ c
          → s'.hdr_block_size ≡ c * 96
          → 0 < c
          → c ≤ n0
          → Shows at s'.hdr_block p0 c n0
          → p0 + s.sorted ≤ hi
          → Finds at size dc (
              search_around read
                (size * 96)
                per_block
                find_non_removed
                dc
                (p0 * 96)
                s.sorted
                fuel
                s)
      back s' c hi out dead below last error' num' width' room small kept ge =
          elim (backward-Behind at read size per_block dc reads p0 s.sorted enoent fuel n0 c
            (record s' { hdr_block_offset = p0 * 96 + s'.hdr_block_size }) (omega (arith, width'))
            width' num' error' room (omega (arith, small, within)) inside kept enough
            (omega (arith, inside, within))) [
              | behind_hit s'' p out' off shown before found ↦ inl (
                p + s''.sorted,
                omega (arith, before, inside, within),
                rw (search_around, out, out') (report-Finds s'' p (p + s''.sorted) off shown refl),
                found,
              )
              | behind_miss s'' lo out' dead' le first error'' ↦ inr (
                rw (search_around, out, out', error'') refl,
                none_live (p0 + s.sorted) lo hi here (omega (arith, inside, within)) dead' dead le
                    below first last ge,
              )
            ]
