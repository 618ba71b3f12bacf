-- ===== src/Defrag/Groups.antt =====
-- library/defrag.c: the second loop of `eblob_defrag`, which merges neighbouring bases within the
-- limits of one blob, and `eblob_defrag` around both loops.
--
-- `mode` and `stop` give `b->want_defrag` and the exit event as each round of the loop reads them.
-- The bases from `previous` up to `current` are `first` and `more`; those from `current` on are the
-- list that is left.
use eblob.Base.{
  ℕ, ◌+◌, ◌%◌, ◌^◌, ◌≤◌, Bool, true, false, if◌then◌else◌, ◌||◌, ◌==◌, Option, none, some, List, [],
  ◌∷◌, ◌++◌, Outcome, ok, err, enoent, All, All-append, ◌≡◌, refl, sym, ap, ◌∙◌, ◌⊎◌, inl, inr,
  arith, append_assoc, Bool-cases,
}
use eblob.Defrag.{
  DefragState, not_started, data_sort, index_sort, data_compact, BaseCtl, Limits, Sort, records_of,
  size_of, sort_of, joins, select,
}

-- One round that ended in the `switch`: the group it was for, and what was called.
pub record Round : Type 0 where
  pub first : BaseCtl
  pub more : List BaseCtl
  pub called : Option Sort

module _ (cfg : Limits) (mode : ℕ → DefragState) (stop : ℕ → Bool)
    (reply : Sort → Outcome (Unit {0})) where
  -- The condition of the loop.
  abbrev pub ended : ℕ → Bool
  ended n = stop n || elim (mode n) [ not_started ↦ true | _ ↦ false ]

  -- `err` after the `switch`.
  abbrev result : Option Sort → Outcome (Unit {0}) → Outcome (Unit {0})
  result none status = status
  result (some s) status = reply s

  abbrev merges : DefragState → Bool
  merges data_sort = true
  merges data_compact = true
  merges _ = false

  -- The loop, from its round `n` on: `total_records` and `total_size` are the sums of the group,
  -- `records` and `size` those of the base looked at last.
  unfoldable pub rounds :
      ℕ
      → BaseCtl
      → List BaseCtl
      → List BaseCtl
      → ℕ
      → ℕ
      → ℕ
      → ℕ
      → Outcome (Unit {0})
      → Outcome (Unit {0}) × List Round
  unfolding sort_of joins records_of size_of
  rounds n first more [] total_records total_size records size status =
      if ended n
      then (status, [])
      else let called = sort_of cfg (mode n) first more in
        (result called status, record { first = first; more = more; called = called } ∷ [])
  rounds n first more (b ∷ bs) total_records total_size records size status =
      let records' = if merges (mode n) then records_of b else records in
      let size' = if merges (mode n) then size_of b else size in
      let called = sort_of cfg (mode n) first more in
      let joined =
        rounds (n + 1) first (more ++ (b ∷ [])) bs ((total_records + records') % 2 ^ 64)
          ((total_size + size') % 2 ^ 64) records' size' status in
      let (status', later) =
        rounds (n + 1) b [] bs records' size' records' size' (result called status) in
      if ended n
      then (status, [])
      else if joins cfg (mode n) total_records total_size b
      then joined
      else (status', record { first = first; more = more; called = called } ∷ later)

  -- What `eblob_defrag` returns, the bases left in the list, those removed, and the rounds;
  -- `bctl_num` is the number of bases counted before, and `calloc` tells whether its allocation
  -- succeeds, with the error number if it does not.
  pub record Defragmented : Type 0 where
    pub status : Outcome (Unit {0})
    pub bases : List BaseCtl
    pub dropped : List BaseCtl
    pub rounds : List Round

  unfoldable pub defrag : ℕ → Outcome (Unit {0}) → List BaseCtl → Defragmented
  unfolding select rounds records_of size_of
  defrag bctl_num calloc bases =
      if bctl_num == 0
      then record { status = err enoent; bases = bases; dropped = []; rounds = [] }
      else elim calloc [
        | err e ↦ record { status = err e; bases = bases; dropped = []; rounds = [] }
        | ok u ↦
            let (kept, dropped, taken) = select cfg (mode 0) bctl_num bases in
            elim taken [
              | [] ↦ record { status = ok tt; bases = kept; dropped = dropped; rounds = [] }
              | b ∷ bs ↦
                  let (status, made) = rounds 0 b [] bs (records_of b) (size_of b) 0 0 (ok tt) in
                  record { status = status; bases = kept; dropped = dropped; rounds = made }
            ]
      ]

  -- All bases of the rounds, in order.
  abbrev pub bases_of : List Round → List BaseCtl
  bases_of [] = []
  bases_of (r ∷ rs) = (r.first ∷ r.more) ++ bases_of rs

  -- The loop, when nothing ends it early, puts every selected base into exactly one group, in
  -- the order of the bases: the groups are a division of the list into runs of neighbours.
  pub rounds-cover :
      (n : ℕ) (first : BaseCtl) (more rest : List BaseCtl)
      (total_records total_size records size : ℕ) (status : Outcome (Unit {0}))
      → ((k : ℕ) → ended k ≡ false)
      → bases_of (rounds n first more rest total_records total_size records size status).1
        ≡ (first ∷ more) ++ rest
  unfolding rounds
  rounds-cover n first more [] tr ts re si status running = rw (running n) refl
  rounds-cover n first more (b ∷ bs) tr ts re si status running =
      elim (Bool-cases (joins cfg (mode n) tr ts b)) [
        | inl h ↦
            rw (running n, rounds, h)
              (rounds-cover (n + 1) first (more ++ (b ∷ [])) bs _ _ _ _ status running
                ∙ ap (λ x. first ∷ x) (append_assoc more (b ∷ []) bs))
        | inr h ↦
            rw (running n, rounds, h)
              (ap (λ x. (first ∷ more) ++ x) (rounds-cover (n + 1) b [] bs _ _ _ _ _ running))
      ]

  -- Number of records of a group, as the loop adds them.
  abbrev pub sum_from : ℕ → List BaseCtl → ℕ
  sum_from total [] = total
  sum_from total (b ∷ bs) = sum_from ((total + records_of b) % 2 ^ 64) bs

  sum_from-snoc :
      (more : List BaseCtl) (total : ℕ) (b : BaseCtl)
      → sum_from total (more ++ (b ∷ [])) ≡ (sum_from total more + records_of b) % 2 ^ 64
  sum_from-snoc [] total b = refl
  sum_from-snoc (x ∷ xs) total b = sum_from-snoc xs ((total + records_of x) % 2 ^ 64) b

  -- The records of the group fit in one blob, or all its bases but the first are empty.
  abbrev pub Fits : BaseCtl → List BaseCtl → Type 0
  Fits first more =
      (sum_from (records_of first) more ≤ cfg.records_in_blob) ⊎ All (λ b. records_of b ≡ 0) more

  joins_lem :
      (m : DefragState) (total size : ℕ) (b : BaseCtl)
      → joins cfg m total size b ≡ true
      → ((total + records_of b) % 2 ^ 64 ≤ cfg.records_in_blob) ⊎ (records_of b ≡ 0)
  unfolding joins
  joins_lem not_started total size b h = absurd cc
  joins_lem index_sort total size b h = absurd cc
  joins_lem data_sort total size b h = ground arith
  joins_lem data_compact total size b h = ground arith

  -- A base that joins leaves the group one that fits.
  joins-Fits :
      (m : DefragState) (size : ℕ) (first b : BaseCtl) (more : List BaseCtl)
      → joins cfg m (sum_from (records_of first) more) size b ≡ true
      → Fits first more
      → Fits first (more ++ (b ∷ []))
  joins-Fits m size first b more h fits =
      let total = sum_from (records_of first) more in
      let grown = sum_from-snoc more (records_of first) b in
      elim (joins_lem m total size b h) [
        | inl small ↦ inl (omega (arith, grown))
        | inr empty ↦ elim fits [
          | inl small ↦ inl (omega (arith, grown))
          | inr all ↦ inr (All-append (λ b. records_of b ≡ 0) more (b ∷ []) all (empty, tt))
        ]
      ]

  -- While the loop sorts data, each group it sorts fits in one blob by its number of records, but
  -- for a group in which only the first base has any.
  pub rounds-Fits :
      (n : ℕ) (first : BaseCtl) (more rest : List BaseCtl) (total_size records size : ℕ)
      (status : Outcome (Unit {0}))
      → ((k : ℕ) → merges (mode k) ≡ true)
      → Fits first more
      → All
          (λ r. Fits r.first r.more)
          (rounds n first more rest
            (sum_from (records_of first) more)
            total_size
            records
            size
            status).1
  unfolding rounds
  rounds-Fits n first more [] ts re si status sorts fits = elim (Bool-cases (ended n)) [
    | inl h ↦ rw h tt
    | inr h ↦ rw h (fits, tt)
  ]
  rounds-Fits n first more (b ∷ bs) ts re si status sorts fits =
      let total = sum_from (records_of first) more in
      elim (Bool-cases (ended n)) [
        | inl h ↦ rw (h, rounds) tt
        | inr h ↦ elim (Bool-cases (joins cfg (mode n) total ts b)) [
          | inl j ↦
              rw (sorts n, h, rounds, j, sym (sum_from-snoc more (records_of first) b))
                (rounds-Fits (n + 1) first (more ++ (b ∷ [])) bs _ _ _ status sorts
                  (joins-Fits (mode n) ts first b more j fits))
          | inr j ↦
              rw (sorts n, h, rounds, j) (fits, rounds-Fits (n + 1) b [] bs _ _ _ _ sorts (inr tt))
        ]
      ]
