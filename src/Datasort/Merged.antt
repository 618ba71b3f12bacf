-- ===== src/Datasort/Merged.antt =====
-- What the merge of sorted chunks gives.
use eblob.Base.{
  ℕ, zero, suc, ◌+◌, ◌≤◌, ◌==◌, not, none, some, Option-cases, List, [], ◌∷◌, ◌++◌, append_assoc,
  append-nil, length, length-append, All, All-append, All-imp, Outcome, ok, err, Errno, ok_inj,
  Outcome-cases, Bool-cases, ◌≡◌, refl, sym, ap, subst, ◌∙◌, ◌⊎◌, inl, inr, arith,
}
use mathlib.Core.List.Permᴰ
use mathlib.Core.List.Permᴰ.{Permᴰ}
use eblob.Record.{DiskControl}
use eblob.Store.{next_alloc, Store, ◌>>=◌, w64}
use eblob.Datasort.{
  Chunk, current, smallest_loop, bump, fd_of, merge_get_smallest, copy_record, merge_index_size,
  append_to, merge_loop, merge,
}
use eblob.Datasort.Smallest.{
  Le, Le_trans, IsSorted, left, entries, At, Above, Is, nth-skip, nth-none, length-skip,
  smallest_loop-some, smallest_loop-none,
}

All-perm : (P : DiskControl → Type 0) {ds es : List DiskControl} → Permᴰ ds es → All P ds → All P es
All-perm P Permᴰ.nil h = tt
All-perm P (Permᴰ.cons e q) h = (subst P e h.0, All-perm P q h.1)
All-perm P (Permᴰ.swap e f) h = (subst P f h.1.0, (subst P e h.0, h.1.1))
All-perm P (Permᴰ.trans q r) h = All-perm P r (All-perm P q h)

length-perm : {ds es : List DiskControl} → Permᴰ ds es → length ds ≡ length es
length-perm Permᴰ.nil = refl
length-perm (Permᴰ.cons e q) = ap suc (length-perm q)
length-perm (Permᴰ.swap e f) = refl
length-perm (Permᴰ.trans q r) = length-perm q ∙ length-perm r

-- The entry taken and those that are left are those that were left before.
bump-Perm :
    (k : ℕ) (dc : DiskControl) (cs : List Chunk)
    → At k dc cs
    → Permᴰ (dc ∷ entries (bump k cs)) (entries cs)
unfolding bump
bump-Perm k dc [] h = absurd h
bump-Perm zero dc (c ∷ cs) h =
    let same : dc ∷ entries (bump zero (c ∷ cs)) ≡ entries (c ∷ cs) =
      ap (λ l. l ++ entries cs) (sym (nth-skip c.merge_count c.index dc h)) in
    subst (Permᴰ (dc ∷ entries (bump zero (c ∷ cs)))) same
      (Permᴰ.refl (dc ∷ entries (bump zero (c ∷ cs))))
bump-Perm (suc k) dc (c ∷ cs) h =
    Permᴰ.trans (Permᴰ.symm (Permᴰ.middle dc (left c) (entries (bump k cs))))
      (Permᴰ.append_left (left c) (bump-Perm k dc cs h))

abbrev pub AllSorted : List Chunk → Type 0
AllSorted cs = All (λ c. IsSorted (left c)) cs

bump-AllSorted :
    (k : ℕ) (dc : DiskControl) (cs : List Chunk) → At k dc cs → AllSorted cs → AllSorted (bump k cs)
unfolding bump
bump-AllSorted k dc [] at h = absurd at
bump-AllSorted zero dc (c ∷ cs) at h =
    ((subst IsSorted (nth-skip c.merge_count c.index dc at) h.0).1, h.1)
bump-AllSorted (suc k) dc (c ∷ cs) at h = (h.0, bump-AllSorted k dc cs at h.1)

left-Above :
    (dc : DiskControl) (c : Chunk) → IsSorted (left c) → Above dc (current c) → All (Le dc) (left c)
left-Above dc c sorted above = elim (Option-cases (current c)) [
  | inl e ↦ subst (All (Le dc)) (sym (nth-none c.merge_count c.index e)) tt
  | inr (d, e) ↦
      let shape = nth-skip c.merge_count c.index d e in
      let later = subst IsSorted shape sorted in
      let first = above d e in
      subst (All (Le dc)) (sym shape)
        (first, All-imp (Le d) (Le dc) (λ x below. Le_trans dc d x first below) _ later.0)
]

entries-Above :
    (dc : DiskControl) (cs : List Chunk)
    → AllSorted cs
    → All (λ c. Above dc (current c)) cs
    → All (Le dc) (entries cs)
entries-Above dc [] sorted above = tt
entries-Above dc (c ∷ cs) sorted above =
    All-append (Le dc) (left c) (entries cs) (left-Above dc c sorted.0 above.0)
      (entries-Above dc cs sorted.1 above.1)

-- What `datasort_merge_get_smallest` finds.
record Smallest (chunks : List Chunk) : Type 0 where
  place : ℕ
  dc : DiskControl
  found : merge_get_smallest chunks ≡ some (fd_of place chunks, dc, bump place chunks)
  at : At place dc chunks
  above : All (λ c. Above dc (current c)) chunks

merge_get_smallest-cases :
    (chunks : List Chunk)
    → ((merge_get_smallest chunks ≡ none) × (entries chunks ≡ [])) ⊎ Smallest chunks
unfolding merge_get_smallest
merge_get_smallest-cases chunks = elim (Option-cases (smallest_loop 0 none chunks)) [
  | inl e ↦ inl (rw (merge_get_smallest, e) refl, (smallest_loop-none chunks 0 none e).1)
  | inr (q, e) ↦
      let (from, best, above) = smallest_loop-some chunks 0 q.0 none q.1 e in
      inr (chosen q e from above)
]
  where
    chosen :
        (q : ℕ × DiskControl)
        → smallest_loop 0 none chunks ≡ some q
        → Is none q.0 q.1 ⊎ ((k : ℕ) × (q.0 ≡ 0 + k) × At k q.1 chunks)
        → All (λ c. Above q.1 (current c)) chunks
        → Smallest chunks
    chosen q e (inl n) above = absurd (cc n)
    chosen q e (inr (k, p, at)) above =
        let same : q.0 ≡ k = omega (arith, p) in
        record {
          place = q.0;
          dc = q.1;
          found = rw (merge_get_smallest, e) refl;
          at = subst (λ i. At i q.1 chunks) (sym same) at;
          above = above;
        }

-- Entries with their positions written anew, from an offset on.
abbrev pub placed : ℕ → List DiskControl → List DiskControl
placed offset [] = []
placed offset (d ∷ ds) = record d { position = offset } ∷ placed (w64 (offset + d.disk_size)) ds

-- What the loop appends: the entries that were left, in order, one behind another.
abbrev pub Merged : List Chunk → Chunk → Chunk → Type 0
Merged chunks merged r =
    (taken : List DiskControl) × (r.index ≡ merged.index ++ placed merged.offset taken)
    × Permᴰ taken (entries chunks)
    × IsSorted taken

no_entries : (ds : List DiskControl) → length ds ≤ 0 → ds ≡ []
no_entries [] h = refl
no_entries (d ∷ ds) h = absurd (omega (arith, h))

none_left :
    (chunks : List Chunk) (merged r : Chunk)
    → entries chunks ≡ []
    → merged ≡ r
    → Merged chunks merged r
none_left chunks merged r e same = (
  [],
  ap (λ c. c.index) (sym same) ∙ sym (append-nil merged.index),
  subst (Permᴰ []) (sym e) Permᴰ.nil,
  tt,
)

one_more :
    (chunks : List Chunk) (merged r : Chunk) (m : Smallest chunks)
    → Permᴰ (m.dc ∷ entries (bump m.place chunks)) (entries chunks)
    → All (Le m.dc) (entries chunks)
    → Merged (bump m.place chunks) (append_to merged m.dc) r
    → Merged chunks merged r
one_more chunks merged r m perm above (taken, index, rest, sorted) = (
  m.dc ∷ taken,
  index ∙ append_assoc merged.index _ _,
  Permᴰ.trans (Permᴰ.cons refl rest) perm,
  (All-perm (Le m.dc) (Permᴰ.symm rest) (All-perm (Le m.dc) (Permᴰ.symm perm) above).1, sorted),
)

merge_loop-Merged :
    (fuel : ℕ) (chunks : List Chunk) (merged r : Chunk) (s : Store)
    → length (entries chunks) ≤ fuel
    → AllSorted chunks
    → (merge_loop fuel chunks merged s).0 ≡ ok r
    → Merged chunks merged r
unfolding merge_loop
merge_loop-Merged zero chunks merged r s enough sorted h =
    none_left chunks merged r (no_entries (entries chunks) enough) (ok_inj h)
merge_loop-Merged (suc fuel) chunks merged r s enough sorted h =
    elim (merge_get_smallest-cases chunks) [
      | inl e ↦ none_left chunks merged r e.1 (ok_inj (rw (merge_loop, e.0) at h))
      | inr m ↦
          elim (Outcome-cases
            (copy_record (fd_of m.place chunks) merged.fd m.dc merged.offset s).0) [
              | inl (x, e) ↦ absurd (failed (rw (merge_loop, m.found, ◌>>=◌, e) at h))
              | inr (u, e) ↦
                  let s' = (copy_record (fd_of m.place chunks) merged.fd m.dc merged.offset s).1 in
                  let perm = bump-Perm m.place m.dc chunks m.at in
                  let fewer : length (entries (bump m.place chunks)) ≤ fuel =
                    omega (arith, length-perm perm, enough) in
                  let rest =
                    merge_loop-Merged fuel (bump m.place chunks) (append_to merged m.dc) r s' fewer
                      (bump-AllSorted m.place m.dc chunks m.at sorted)
                      (rw (merge_loop, m.found, ◌>>=◌, e) at h) in
                  one_more chunks merged r m perm (entries-Above m.dc chunks sorted m.above) rest
            ]
    ]
  where
    failed : {x : Errno} → Path (Outcome Chunk) (err x) (ok r) → ⊥
    failed q = cc

size_of_entries : (chunks : List Chunk) → length (entries chunks) ≤ merge_index_size chunks
unfolding merge_index_size
size_of_entries [] = omega arith
size_of_entries (c ∷ cs) = omega (
  arith,
  length-append (left c) (entries cs),
  length-skip c.merge_count c.index,
  size_of_entries cs,
)

-- A merge of sorted chunks that succeeds gives an index of the entries that were left in the chunks,
-- every one of them as often as it was there and no other, in the order of their keys, each with the
-- position at which the entries before it end.
pub merge-Merged :
    (fd : ℕ) (chunks : List Chunk) (s : Store) (r : Chunk)
    → AllSorted chunks
    → (merge fd chunks s).0 ≡ ok r
    → (taken : List DiskControl) × (r.index ≡ placed 0 taken)
      × Permᴰ taken (entries chunks)
      × IsSorted taken
unfolding merge
merge-Merged fd chunks s r sorted h = elim (Bool-cases (merge_index_size chunks == 0)) [
  | inl e ↦ absurd (failed (rw (◌>>=◌, e) at h))
  | inr e ↦ elim (Bool-cases (not (next_alloc s.allocs).0)) [
    | inl short ↦ absurd (failed (rw (◌>>=◌, e, short) at h))
    | inr enough ↦
        merge_loop-Merged (merge_index_size chunks) chunks
          (record { fd = fd; offset = 0; index = []; merge_count = 0 }) r
          (record s { allocs = (next_alloc s.allocs).1 }) (size_of_entries chunks) sorted
          (rw (◌>>=◌, e, enough) at h)
  ]
]
  where
    failed : {x : Errno} → Path (Outcome Chunk) (err x) (ok r) → ⊥
    failed q = cc
