-- ===== src/Index/Search/Ordered.antt =====
-- A sorted index as the search needs it: the order of its headers, and the arrays that `bsearch` is
-- given.
use Prim.Native.Nat.Ordering.{lt, eq, gt}
use eblob.Base.{
  ℕ, ◌+◌, ◌-◌, ◌*◌, ◌≤◌, ◌<◌, Ordering-cases, min, some, List, get_elem?, ◌≡◌, refl, sym, ap, subst,
  ◌∙◌, arith, ◌⊎◌, inl, inr,
}
use eblob.Key.{Key}
use eblob.Key.Order.{key_cmp, key_cmp-IsOrder, flip}
use eblob.Record.{DiskControl}
use eblob.Index.{IndexBlock, disk_control_sort, key_range_cmp}
use eblob.Index.Search.{IsPartitioned}
use eblob.Index.Search.Windows.{window, window-inside, IsSame}
use eblob.Index.Search.Keys.{
  Le, rank-le, eq_of_between, same_key, key_same, range-lt_iff, range-gt_iff, range-rank,
}

module _ (at : ℕ → DiskControl) (size : ℕ) where
  -- The headers are in the order of their keys.
  abbrev pub IsOrdered : Type 0
  IsOrdered = (i j : ℕ) → i ≤ j → j < size → Le (at i).key (at j).key

  pub window-IsPartitioned :
      IsOrdered
      → (dc : DiskControl) (p n : ℕ) → p + n ≤ size
      → IsPartitioned (disk_control_sort dc) (window at p n)
  unfolding disk_control_sort
  window-IsPartitioned ordered dc p n inside i j x y le hx hy =
      let vx = window-inside at p n i x hx in
      let vy = window-inside at p n j y hy in
      rank-le dc.key y.key x.key (
        subst (λ z. Le x.key z.key) vy.1
          (subst (λ z. Le z.key (at (p + j)).key) vx.1
            (ordered (p + i) (p + j) (omega (arith, le)) (omega (arith, vy.0, inside)))))

  -- The headers of one key stand together.
  pub between-IsSame :
      IsOrdered
      → (dc : DiskControl) (i j k : ℕ) → i ≤ j
      → j ≤ k
      → k < size
      → IsSame at dc i
      → IsSame at dc k
      → IsSame at dc j
  between-IsSame ordered dc i j k h l inside same same' =
      let e = same_key (at i) dc same in
      let e' = same_key (at k) dc same' in
      key_same (at j) dc (
        eq_of_between (at i).key (at j).key dc.key (ordered i j h (omega (arith, l, inside)))
          (subst (λ z. Le (at j).key z) e' (ordered j k l inside)) e)

  -- The table of blocks as `eblob_index_blocks_fill` makes it of valid headers: the block `i` is of
  -- `per_block` headers, or of those that are left, and has the keys of the first and of the last.
  pub record IsTable (per_block : ℕ) (blocks : List IndexBlock) : Type 0 where
    pub entry :
        (i : ℕ) (b : IndexBlock)
        → get_elem? blocks i ≡ some b
        → (i * per_block < size)
          × (b.start_offset ≡ i * per_block * 96)
          × (b.start_key ≡ (at (i * per_block)).key)
          × (b.end_key ≡ (at (i * per_block + min (size - i * per_block) per_block - 1)).key)
    pub entry_of :
        (t : ℕ)
        → t < size
        → (i : ℕ) × (b : IndexBlock) × (get_elem? blocks i ≡ some b)
          × (i * per_block ≤ t)
          × (t < i * per_block + per_block)

  module _ (ordered : IsOrdered) (per_block : ℕ) (some_ : 0 < per_block) (blocks : List IndexBlock)
      (table : IsTable per_block blocks) where
    -- The last header of a block.
    abbrev pub last_of : ℕ → ℕ
    last_of i = i * per_block + min (size - i * per_block) per_block - 1

    block_keys :
        (i j : ℕ) (b c : IndexBlock)
        → i ≤ j
        → get_elem? blocks i ≡ some b
        → get_elem? blocks j ≡ some c
        → Le b.start_key c.start_key × Le b.end_key c.end_key × Le b.start_key b.end_key
    block_keys i j b c le hb hc =
        let vb = table.entry i b hb in
        let vc = table.entry j c hc in
        let grows : i * per_block ≤ j * per_block = grind (arith, le) in
        let keys : Le (at (i * per_block)).key (at (j * per_block)).key
            × Le (at (last_of i)).key (at (last_of j)).key
            × Le (at (i * per_block)).key (at (last_of i)).key =
          (
            ordered (i * per_block) (j * per_block) grows vc.0,
            ordered (last_of i) (last_of j) (omega (arith, grows, vb.0, vc.0, some_))
                (omega (arith, vc.0, some_)),
            ordered (i * per_block) (last_of i) (omega (arith, vb.0, some_))
                (omega (arith, vb.0, some_)),
          ) in
        rw (vb.2, vb.3, vc.2, vc.3) keys

    pub blocks-IsPartitioned : (k : Key) → IsPartitioned (key_range_cmp k) blocks
    blocks-IsPartitioned k i j b c le hb hc =
        let v = block_keys i j b c le hb hc in
        let w = block_keys j j c c (omega arith) hc hc in range-rank k b c v.0 v.1 v.2 w.2

    -- A header stands in a block that its key is equal to.
    pub key_in_range :
        (t i : ℕ) (b : IndexBlock)
        → t < size
        → get_elem? blocks i ≡ some b
        → i * per_block ≤ t
        → t < i * per_block + per_block
        → key_range_cmp (at t).key b ≡ eq
    key_in_range t i b inside hb lo hi =
        let v = table.entry i b hb in
        let le = (block_keys i i b b (omega arith) hb hb).2 in
        elim (Ordering-cases (key_range_cmp (at t).key b)) [
          | inl e ↦ absurd (
              ordered (i * per_block) t lo inside (
                key_cmp-IsOrder.swap (at t).key (at (i * per_block)).key
                ∙ ap flip
                    (subst (λ z. key_cmp (at t).key z ≡ lt) v.2 ((range-lt_iff (at t).key b).0 e))))
          | inr (inl e) ↦ e
          | inr (inr e) ↦ absurd (
              ordered t (last_of i) (omega (arith, hi, inside, some_)) (omega (arith, v.0, some_))
                (subst (λ z. key_cmp (at t).key z ≡ gt) v.3 ((range-gt_iff (at t).key b le).0 e)))
        ]

    -- Where a block is equal to a key that a header has, one of the block's headers has it.
    pub key_in_block :
        (dc : DiskControl) (t i : ℕ) (b : IndexBlock)
        → t < size
        → IsSame at dc t
        → get_elem? blocks i ≡ some b
        → key_range_cmp dc.key b ≡ eq
        → (u : ℕ) × (u < min (size - i * per_block) per_block) × IsSame at dc (i * per_block + u)
    key_in_block dc t i b inside same hb e =
        let v = table.entry i b hb in
        let le = (block_keys i i b b (omega arith) hb hb).2 in
        let p = i * per_block in
        let n = min (size - p) per_block in
        let is : (at t).key ≡ dc.key = same_key (at t) dc same in
        let above : Le (at p).key dc.key = λ h. absurd (
          cc (
            (range-lt_iff dc.key b).1 (
                subst (λ z. key_cmp dc.key z ≡ lt) (sym v.2)
                  (key_cmp-IsOrder.swap (at p).key dc.key ∙ ap flip h)),
            e,
          )) in
        let below : Le dc.key (at (last_of i)).key = λ h.
          absurd (
            cc
              ((range-gt_iff dc.key b le).1 (subst (λ z. key_cmp dc.key z ≡ gt) (sym v.3) h), e)) in
        elim (place p n t) [
          | inl front ↦ (
            0,
            omega (arith, v.0, some_),
            subst (IsSame at dc) (omega arith) (
                key_same (at p) dc (
                  eq_of_between (at t).key (at p).key dc.key
                    (ordered t p (omega (arith, front)) v.0) above is)),
          )
          | inr (inl within) ↦
              (t - p, omega (arith, within), subst (IsSame at dc) (omega (arith, within)) same)
          | inr (inr behind) ↦ (
            n - 1,
            omega (arith, v.0, some_),
            subst (IsSame at dc) (omega (arith, v.0, some_)) (
                key_same (at (last_of i)) dc (
                  eq_of_between dc.key (at (last_of i)).key dc.key below
                    (subst (Le (at (last_of i)).key) is
                      (ordered (last_of i) t (omega (arith, behind, v.0, some_)) inside))
                    refl)),
          )
        ]
      where
        place : (p n u : ℕ) → (u < p) ⊎ (((p ≤ u) × (u < p + n)) ⊎ (p + n ≤ u))
        place p n u = ground arith
