-- ===== src/Index/Search/Behind.antt =====
-- The backward loop of `eblob_find_on_disk` over the blocks of an index.
use eblob.Base.{
  ℕ, zero, suc, ◌+◌, ◌-◌, ◌*◌, ◌/◌, ◌≤◌, ◌<◌, ◌==◌, ltb, true, false, Bool-cases, some, List,
  get_elem?, Outcome, Errno, ◌≡◌, refl, sym, ap, subst, ◌∙◌, arith, ◌⊎◌, inl, inr,
}
use eblob.Record.{DiskControl}
use eblob.Index.Search.{
  Search, Scan, hit, miss, moved, previous_block, backward, find_non_removed, refill,
}
use eblob.Index.Search.Windows.{
  Shows, IsSame, IsHit, AllDead, AllDead-join, IsRead, read_block-moved, window, window-Shows,
  kept-Shows,
}
use eblob.Index.Search.Backward.{finds, stops, passes, backward-Returned}

module _ (at : ℕ → DiskControl) (read : ℕ → ℕ → Outcome (List DiskControl)) (size per_block : ℕ)
    (dc : DiskControl) (reads : IsRead at read size) where
  -- The block of `n` headers, the first of them `p`, is in the buffer.
  record FrontBlock (s : Search) (q c : ℕ) : Type 0 where
    p : ℕ
    n : ℕ
    s' : Search
    joins : p + n ≡ q
    some_ : 0 < n
    small : n ≤ c
    whole : c ≤ q → n ≡ c
    goes : previous_block read (size * 96) per_block s ≡ moved s'
    offset : s'.hdr_block_offset ≡ p * 96
    width : s'.hdr_block_size ≡ n * 96
    num : s'.num ≡ n
    error : s'.error ≡ s.error
    shows : Shows at s'.hdr_block p 0 n
    kept : (r hi : ℕ) → Shows at s.hdr_block r n hi → Shows at s'.hdr_block r n hi

  previous_block-FrontBlock :
      (s : Search) (q c : ℕ)
      → s.hdr_block_offset ≡ q * 96
      → s.hdr_block_size ≡ c * 96
      → s.num ≡ c
      → 0 < q
      → 0 < c
      → q ≤ size
      → FrontBlock s q c
  unfolding previous_block
  previous_block-FrontBlock s q c offset width num some_ room inside =
      let test : (s.hdr_block_offset == 0) ≡ false = ground (arith, offset, some_) in
      elim (Bool-cases (ltb s.hdr_block_offset s.hdr_block_size)) [
        | inl short ↦
            let less : q < c = ground (arith, offset, width) in
            record {
              p = 0;
              n = q;
              s' = record s {
                hdr_block = refill (window at 0 q) s.hdr_block;
                hdr_block_size = s.hdr_block_offset;
                num = s.hdr_block_offset / 96;
                hdr_block_offset = 0;
              };
              joins = omega arith;
              some_ = some_;
              small = omega (arith, less);
              whole = λ h. absurd (omega (arith, h, less));
              goes =
                  rw (previous_block, test, short)
                    (read_block-moved at read size (size * 96) per_block reads
                      (record s {
                        hdr_block_size = s.hdr_block_offset;
                        num = s.hdr_block_offset / 96;
                        hdr_block_offset = 0;
                      })
                      0 q (omega arith) offset (omega (arith, inside)));
              offset = omega arith;
              width = offset;
              num = omega (arith, offset);
              error = refl;
              shows = window-Shows at 0 q s.hdr_block;
              kept = λ r hi. kept-Shows at 0 q s.hdr_block r hi;
            }
        | inr long ↦
            let more : c ≤ q = ground (arith, offset, width) in
            record {
              p = q - c;
              n = c;
              s' = record s {
                hdr_block = refill (window at (q - c) c) s.hdr_block;
                hdr_block_offset = s.hdr_block_offset - s.hdr_block_size;
              };
              joins = omega (arith, more);
              some_ = room;
              small = omega arith;
              whole = λ h. refl;
              goes =
                  rw (previous_block, test, long)
                    (read_block-moved at read size (size * 96) per_block reads
                      (record s { hdr_block_offset = s.hdr_block_offset - s.hdr_block_size })
                      (q - c) c (omega (arith, offset, width)) width (omega (arith, inside, more)));
              offset = omega (arith, offset, width);
              width = width;
              num = num;
              error = refl;
              shows = window-Shows at (q - c) c s.hdr_block;
              kept = λ r hi. kept-Shows at (q - c) c s.hdr_block r hi;
            }
      ]

  -- What the loop comes to in front of the header `to`: a header that is found, or the start `lo` of
  -- the headers with the key, all of them removed.
  pub data Behind (to : ℕ) (e : Errno) (out : Scan) : Type 0 where
    behind_hit :
        (s : Search) (p : ℕ)
        → out ≡ hit s
        → s.hdr_block_offset ≡ p * 96
        → get_elem? s.hdr_block s.sorted ≡ some (at (p + s.sorted))
        → p + s.sorted < to
        → IsHit at dc (p + s.sorted)
        → Behind to e out
    behind_miss :
        (s : Search) (lo : ℕ)
        → out ≡ miss s
        → AllDead at dc lo to
        → lo ≤ to
        → ((t : ℕ) → lo ≡ suc t → IsSame at dc t → ⊥)
        → s.error ≡ e
        → Behind to e out

  farther :
      (mid to : ℕ) (e : Errno) (out : Scan)
      → mid ≤ to
      → AllDead at dc mid to
      → Behind mid e out
      → Behind to e out
  farther mid to e out h dead (behind_hit s p is offset shown before found) =
      behind_hit s p is offset shown (omega (arith, before, h)) found
  farther mid to e out h dead (behind_miss s lo is all before other error) =
      behind_miss s lo is (AllDead-join at dc lo mid to all dead) (omega (arith, before, h)) other
        error

  module _ (p0 orig : ℕ) (e : Errno) where
    abbrev run : ℕ → Search → ℕ → Scan
    run = backward read (size * 96) per_block find_non_removed dc (p0 * 96) orig

    -- A block in the buffer, by what comes in front of it.
    walk_block :
        (fuel p n : ℕ) (s : Search)
        → Shows at s.hdr_block p 0 n
        → s.hdr_block_offset ≡ p * 96
        → s.error ≡ e
        → n ≤ fuel
        → ((rest : ℕ) → rest + n ≡ fuel → Behind p e (run rest s 0))
        → Behind (p + n) e (run fuel s n)
    walk_block fuel p n s shows offset error enough front =
        elim (backward-Returned at read (size * 96) per_block dc (p0 * 96) orig n fuel p s shows
          enough) [
            | finds i h found out ↦
                behind_hit (record s { sorted = i }) p out offset (shows i (omega arith) h)
                  (omega (arith, h)) found
            | stops i h all other out ↦
                behind_miss s (p + suc i) out all (omega (arith, h))
                  (λ t is same. other (subst (IsSame at dc) (omega (arith, is)) same)) error
            | passes rest left all out ↦
                farther p (p + n) e (run fuel s n) (omega arith) all
                  (subst (Behind p e) (sym out) (front rest left))
          ]

    -- The blocks in front of the first one.
    front-Behind :
        (bound fuel q c : ℕ) (s : Search)
        → q ≤ bound
        → q ≤ p0
        → q ≤ size
        → s.hdr_block_offset ≡ q * 96
        → s.hdr_block_size ≡ c * 96
        → s.num ≡ c
        → s.error ≡ e
        → 0 < c
        → 2 * q < fuel
        → Behind q e (run fuel s 0)
    unfolding backward previous_block
    front-Behind bound zero q c s below le inside offset width num error room enough =
        absurd (omega (arith, enough))
    front-Behind bound (suc fuel) zero c s below le inside offset width num error room enough =
        let test : (s.hdr_block_offset == 0) ≡ true = ground (arith, offset) in
        behind_miss s 0 (rw (backward, test) refl) (λ t lo hi. absurd (omega (arith, hi)))
          (omega arith) (λ t is. absurd (omega (arith, is))) error
    front-Behind zero (suc fuel) (suc q) c s below le inside offset width num error room enough =
        absurd (omega (arith, below))
    front-Behind (suc bound) (suc fuel) (suc q) c s below le inside offset width num error room
          enough =
        let v = previous_block-FrontBlock s (suc q) c offset width num (omega arith) room inside in
        let test : (v.s'.hdr_block_offset == p0 * 96) ≡ false =
          ground (arith, v.offset, v.joins, v.some_, le) in
        subst (λ k. Behind k e (run (suc fuel) s 0)) v.joins
          (subst (Behind (v.p + v.n) e) (sym (step v.s' v.n v.goes test v.num)) (
            walk_block fuel v.p v.n v.s' v.shows v.offset (v.error ∙ error)
              (omega (arith, v.joins, enough))
              (λ rest left.
                front-Behind bound rest v.p v.n v.s' (omega (arith, v.joins, v.some_, below))
                  (omega (arith, v.joins, le)) (omega (arith, v.joins, inside)) v.offset v.width
                  v.num (v.error ∙ error) v.some_ (omega (arith, v.joins, v.some_, enough, left)))))
      where
        step :
            (s' : Search) (n : ℕ)
            → previous_block read (size * 96) per_block s ≡ moved s'
            → (s'.hdr_block_offset == p0 * 96) ≡ false
            → s'.num ≡ n
            → run (suc fuel) s 0 ≡ run fuel s' n
        step s' n goes test is = rw (backward, goes, test) (ap (run fuel s') is)

    -- The whole loop, which reads the first block once more: `c` headers of it.
    pub backward-Behind :
        (fuel n0 c : ℕ) (s : Search)
        → s.hdr_block_offset ≡ (p0 + c) * 96
        → s.hdr_block_size ≡ c * 96
        → s.num ≡ c
        → s.error ≡ e
        → 0 < c
        → p0 + c ≤ size
        → orig < n0
        → Shows at s.hdr_block p0 c n0
        → 2 * size + 2 ≤ fuel
        → p0 + orig < size
        → Behind (p0 + orig) e (run fuel s 0)
    unfolding backward
    backward-Behind zero n0 c s offset width num error room inside within kept enough start =
        absurd (omega (arith, enough))
    backward-Behind (suc fuel) n0 c s offset width num error room inside within kept enough start =
        let v =
          previous_block-FrontBlock s (p0 + c) c offset width num (omega (arith, room)) room
            inside in
        let n_is : v.n ≡ c = v.whole (omega arith) in
        let p_is : v.p ≡ p0 = omega (arith, v.joins, n_is) in
        let test : (v.s'.hdr_block_offset == p0 * 96) ≡ true = ground (arith, v.offset, p_is) in
        subst (Behind (p0 + orig) e) (sym (step v.s' v.goes test)) (
          walk_block fuel p0 orig v.s' (shown v n_is p_is) (v.offset ∙ ap (λ k. k * 96) p_is)
            (v.error ∙ error) (omega (arith, enough, start))
            (λ rest left.
              front-Behind p0 rest p0 v.n v.s' (omega arith) (omega arith) (omega (arith, inside))
                (v.offset ∙ ap (λ k. k * 96) p_is) v.width v.num (v.error ∙ error) v.some_
                (omega (arith, left, enough, start))))
      where
        step :
            (s' : Search)
            → previous_block read (size * 96) per_block s ≡ moved s'
            → (s'.hdr_block_offset == p0 * 96) ≡ true
            → run (suc fuel) s 0 ≡ run fuel s' orig
        step s' goes test = rw (backward, goes, test) refl

        shown :
            (v : FrontBlock s (p0 + c) c) → v.n ≡ c → v.p ≡ p0 → Shows at v.s'.hdr_block p0 0 orig
        shown v n_is p_is i lo hi = elim (side i v.n) [
          | inl b ↦ v.shows i lo b ∙ ap (λ k. some (at (k + i))) p_is
          | inr b ↦
              v.kept p0 n0 (λ j l h. kept j (omega (arith, l, n_is)) h) i b
                (omega (arith, hi, within))
        ]
          where
            side : (a b : ℕ) → (a < b) ⊎ (b ≤ a)
            side a b = ground arith
