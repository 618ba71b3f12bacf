-- ===== src/Index/Search/Ahead.antt =====
-- The forward loop of `eblob_find_on_disk` over the blocks of an index in which the headers of one
-- key do not reach over more than a block.
use eblob.Base.{
  ℕ, ◌+◌, ◌-◌, ◌*◌, ◌/◌, ◌≤◌, ◌<◌, true, false, leb, min, some, List, get_elem?, Outcome, Errno,
  ◌≡◌, ◌≢◌, refl, sym, ap, subst, ◌∙◌, arith, ◌⊎◌, inl, inr,
}
use eblob.Record.{DiskControl}
use eblob.Index.Search.{
  Search, Scan, hit, miss, moved, ended, next_block, forward, find_non_removed, refill,
}
use eblob.Index.Search.Windows.{
  Shows, IsSame, IsHit, AllDead, AllDead-join, IsRead, read_block-moved, window, window-Shows,
  kept-Shows,
}
use eblob.Index.Search.Forward.{finds, stops, passes, forward-Walked}

module _ (at : ℕ → DiskControl) (read : ℕ → ℕ → Outcome (List DiskControl)) (size per_block : ℕ)
    (dc : DiskControl) (reads : IsRead at read size) where
  abbrev pub IsShortRun : Type 0
  IsShortRun = (i j : ℕ) → i ≤ j → j < size → IsSame at dc i → IsSame at dc j → j < i + per_block

  -- The block behind the headers up to `q`, if there is one.
  abbrev after_block : Search → ℕ → Search
  after_block s q =
      let c = min (size - q) per_block in
      record s {
        hdr_block = refill (window at q c) s.hdr_block;
        hdr_block_offset = s.hdr_block_offset + s.hdr_block_size;
        hdr_block_size = c * 96;
        num = c;
        sorted = 0;
      }

  next_block-moved :
      (s : Search) (q : ℕ)
      → s.hdr_block_offset + s.hdr_block_size ≡ q * 96
      → q < size
      → next_block read (size * 96) per_block s ≡ moved (after_block s q)
  unfolding next_block
  next_block-moved s q at_q inside =
      let test : leb (size * 96) (s.hdr_block_offset + s.hdr_block_size) ≡ false =
        ground (arith, at_q) in
      let count : min ((size * 96 - (s.hdr_block_offset + s.hdr_block_size)) / 96) per_block
          ≡ min (size - q) per_block =
        ap (λ k. min k per_block) (omega (arith, at_q, inside)) in
      rw (next_block, test)
        (read_block-moved at read size (size * 96) per_block reads _ q (min (size - q) per_block)
            at_q (ap (λ k. k * 96) count) (omega (arith, inside))
          ∙ ap
              (λ k. moved (record s {
                hdr_block = refill (window at q (min (size - q) per_block)) s.hdr_block;
                hdr_block_offset = s.hdr_block_offset + s.hdr_block_size;
                hdr_block_size = k * 96;
                num = k;
                sorted = 0;
              }))
              count)

  next_block-ended :
      (s : Search)
      → s.hdr_block_offset + s.hdr_block_size ≡ size * 96
      → next_block read (size * 96) per_block s
        ≡ ended (record s { hdr_block_offset = s.hdr_block_offset + s.hdr_block_size })
  unfolding next_block
  next_block-ended s at_end =
      let test : leb (size * 96) (s.hdr_block_offset + s.hdr_block_size) ≡ true =
        ground (arith, at_end) in
      rw (next_block, test) refl

  -- What the loop comes to from the header `from` on: a header that is found, or the end `hi` of the
  -- headers with the key, all of them removed. Then the buffer still has the headers of the block
  -- `p0` behind the `c` that a read of it will bring.
  pub data Ahead (p0 n0 from : ℕ) (e : Errno) (out : Scan) : Type 0 where
    ahead_hit :
        (s : Search) (p : ℕ)
        → out ≡ hit s
        → s.hdr_block_offset ≡ p * 96
        → get_elem? s.hdr_block s.sorted ≡ some (at (p + s.sorted))
        → p + s.sorted < size
        → IsHit at dc (p + s.sorted)
        → Ahead p0 n0 from e out
    ahead_miss :
        (s : Search) (c hi : ℕ)
        → out ≡ miss s
        → AllDead at dc from hi
        → hi ≤ size
        → (hi ≡ size) ⊎ (IsSame at dc hi → ⊥)
        → s.error ≡ e
        → s.num ≡ c
        → s.hdr_block_size ≡ c * 96
        → 0 < c
        → c ≤ n0
        → Shows at s.hdr_block p0 c n0
        → from ≤ hi
        → Ahead p0 n0 from e out

  module _ (short_run : IsShortRun) (p0 n0 : ℕ) (block_inside : p0 + n0 ≤ size)
      (block_filled : (n0 ≡ per_block) ⊎ (p0 + n0 ≡ size)) (e : Errno) where
    -- The second block, if the loop gets to it.
    second :
        (fuel from c : ℕ) (s : Search)
        → from < p0 + n0
        → n0 ≡ per_block
        → AllDead at dc from (p0 + n0)
        → c ≡ min (size - (p0 + n0)) per_block
        → p0 + n0 < size
        → 0 < per_block
        → s.hdr_block_offset ≡ (p0 + n0) * 96
        → s.hdr_block_size ≡ c * 96
        → s.num ≡ c
        → s.error ≡ e
        → Shows at s.hdr_block (p0 + n0) 0 c
        → Shows at s.hdr_block p0 c n0
        → c ≤ fuel
        → Ahead p0 n0 from e
            (forward read (size * 96) per_block find_non_removed dc fuel (record s { sorted = 0 }))
    second fuel from c s before full dead count more some_ offset width num error shows kept
          enough =
        elim (forward-Walked at read (size * 96) per_block dc fuel (p0 + n0) c 0 s num shows
          (omega (arith, count, more, some_)) (omega (arith, enough))) [
            | finds i lo h found out ↦
                ahead_hit (record s { sorted = i }) (p0 + n0) out offset (shows i lo h)
                  (omega (arith, h, count)) found
            | stops i lo h all other out ↦
                ahead_miss (record s { sorted = i }) c (p0 + n0 + i) out
                  (AllDead-join at dc from (p0 + n0) (p0 + n0 + i) dead
                    (λ t k l. all t (omega (arith, k)) l))
                  (omega (arith, h, count)) (inr other) error num width
                  (omega (arith, count, more, some_)) (omega (arith, count, full)) kept
                  (omega (arith, before))
            | passes rest left all stop go ↦ elim (end_or_more (p0 + n0 + c)) [
              | inl at_end ↦
                  ahead_miss _ c (p0 + n0 + c)
                    (stop _ (
                      next_block-ended (record s { sorted = c - 1 })
                        (omega (arith, at_end, offset, width))))
                    (AllDead-join at dc from (p0 + n0) (p0 + n0 + c) dead
                      (λ t k l. all t (omega (arith, k)) l))
                    (omega (arith, at_end)) (inl at_end) error num width
                    (omega (arith, count, more, some_)) (omega (arith, count, full)) kept
                    (omega (arith, before))
              | inr further ↦
                  let same = dead from (omega arith) before in
                  let same' =
                    all (p0 + n0 + c - 1) (omega (arith, count, more, some_))
                      (omega (arith, count, more, some_)) in
                  absurd (
                    omega (
                      arith,
                      short_run from (p0 + n0 + c - 1) (omega (arith, before, count, more, some_))
                          (omega (arith, count, more, some_)) same.0 same'.0,
                      count,
                      further,
                      before,
                      more,
                      some_,
                    ))
            ]
          ]
      where
        end_or_more : (q : ℕ) → (q ≡ size) ⊎ (q ≢ size)
        end_or_more q = ground arith

    pub forward-Ahead :
        (fuel from : ℕ) (s : Search)
        → s.sorted < n0
        → s.hdr_block_offset ≡ p0 * 96
        → s.hdr_block_size ≡ n0 * 96
        → s.num ≡ n0
        → s.error ≡ e
        → Shows at s.hdr_block p0 0 n0
        → size ≤ fuel
        → 0 < per_block
        → from ≡ p0 + s.sorted
        → Ahead p0 n0 from e (forward read (size * 96) per_block find_non_removed dc fuel s)
    forward-Ahead fuel from s inside offset width num error shows enough some_ start =
        elim (forward-Walked at read (size * 96) per_block dc fuel p0 n0 s.sorted s num
          (λ i lo hi. shows i (omega arith) hi) inside (omega (arith, enough, block_inside))) [
            | finds i lo h found out ↦
                ahead_hit (record s { sorted = i }) p0 out offset (shows i (omega arith) h)
                  (omega (arith, h, block_inside)) found
            | stops i lo h all other out ↦
                ahead_miss (record s { sorted = i }) n0 (p0 + i) out
                  (λ t k l. all t (omega (arith, k, start)) l) (omega (arith, h, block_inside))
                  (inr other) error num width (omega (arith, h)) (omega arith)
                  (λ t k l. absurd (omega (arith, k, l))) (omega (arith, start, lo))
            | passes rest left all stop go ↦ elim (end_or_more (p0 + n0)) [
              | inl at_end ↦
                  ahead_miss _ n0 (p0 + n0)
                    (stop _ (
                      next_block-ended (record s { sorted = n0 - 1 })
                        (omega (arith, at_end, offset, width))))
                    (λ t k l. all t (omega (arith, k, start)) l) (omega (arith, at_end))
                    (inl at_end) error num width (omega (arith, inside)) (omega arith)
                    (λ t k l. absurd (omega (arith, k, l))) (omega (arith, start, inside))
              | inr further ↦ beyond rest left all go further
            ]
          ]
      where
        end_or_more : (q : ℕ) → (q ≡ size) ⊎ (q ≢ size)
        end_or_more q = ground arith

        beyond :
            (rest : ℕ)
            → rest + (n0 - s.sorted) ≡ fuel
            → AllDead at dc (p0 + s.sorted) (p0 + n0)
            → ((s' : Search)
                → next_block read (size * 96) per_block (record s { sorted = n0 - 1 }) ≡ moved s'
                → forward read (size * 96) per_block find_non_removed dc fuel s
                  ≡ forward read (size * 96) per_block find_non_removed dc rest s')
            → p0 + n0 ≢ size
            → Ahead p0 n0 from e (forward read (size * 96) per_block find_non_removed dc fuel s)
        beyond rest left all go further =
            let c = min (size - (p0 + n0)) per_block in
            let inside' : p0 + n0 < size = ground (arith, further, block_inside) in
            let full : n0 ≡ per_block = ground (arith, block_filled, further) in
            let s' : Search = after_block (record s { sorted = n0 - 1 }) (p0 + n0) in
            subst (Ahead p0 n0 from e)
              (sym (
                go s' (
                  next_block-moved (record s { sorted = n0 - 1 }) (p0 + n0)
                    (omega (arith, offset, width)) inside')))
              (second rest from c s' (omega (arith, start, inside)) full
                (λ t k l. all t (omega (arith, k, start)) l) refl inside' some_
                (omega (arith, offset, width)) refl refl error
                (window-Shows at (p0 + n0) c s.hdr_block)
                (λ i lo hi.
                  kept-Shows at (p0 + n0) c s.hdr_block p0 n0 (λ j l h. shows j (omega arith) h) i
                    lo hi)
                (omega (arith, left, inside, enough)))
