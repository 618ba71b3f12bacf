-- ===== src/Tests/Defrags.antt =====
-- The loops of `eblob_defrag` and the requests at concrete inputs.
use eblob.Base.{ℕ, true, false, List, [], ◌∷◌, ◌++◌, some, All, ok, ◌≡◌, refl, inr}
use eblob.Defrag.Signed.{pos}
use eblob.Defrag.{BaseCtl, Limits, data_sort, not_started, select, records_of, sort_data}
use eblob.Defrag.Groups.{rounds, Fits, bases_of, rounds-Fits, rounds-cover, defrag}
use eblob.Defrag.Requests.{Scheduler}

-- A base of ten records, of which some are removed.
abbrev base_of : ℕ → ℕ → BaseCtl
base_of index removed = record {
  index = index;
  total = pos 10;
  removed = pos removed;
  removed_size = pos removed;
  size = pos 10;
  data_offset = 10;
  index_size = 960;
  sort_fd = false;
  data_sorted = false;
}

abbrev sample_limits : Limits
sample_limits = record { defrag_percentage = 25; blob_size = 100; records_in_blob = 15 }

abbrev sample_bases : List BaseCtl
sample_bases = base_of 0 10 ∷ base_of 1 4 ∷ base_of 2 3 ∷ base_of 3 0 ∷ []

-- The first base is removed, the last one left, the other two are sorted.
sample_selection : select sample_limits data_sort 4 sample_bases ≡ (
  base_of 1 4 ∷ base_of 2 3 ∷ base_of 3 0 ∷ [],
  base_of 0 10 ∷ [],
  base_of 1 4 ∷ base_of 2 3 ∷ [],
)
unfolding select
sample_selection = refl

rounds-cover_example :
    bases_of sample_limits
      (λ n. data_sort)
      (λ n. false)
      (λ s. ok tt)
      (rounds sample_limits
        (λ n. data_sort)
        (λ n. false)
        (λ s. ok tt)
        0
        (base_of 1 4)
        []
        (base_of 2 3 ∷ base_of 4 0 ∷ [])
        6
        10
        0
        0
        (ok tt)).1
    ≡ (base_of 1 4 ∷ []) ++ (base_of 2 3 ∷ base_of 4 0 ∷ [])
rounds-cover_example =
    rounds-cover sample_limits (λ n. data_sort) (λ n. false) (λ s. ok tt) 0 (base_of 1 4) []
      (base_of 2 3 ∷ base_of 4 0 ∷ []) 6 10 0 0 (ok tt) (λ k. refl)

rounds-Fits_example :
    All
      (λ r. Fits sample_limits (λ n. data_sort) (λ n. false) (λ s. ok tt) r.first r.more)
      (rounds sample_limits
        (λ n. data_sort)
        (λ n. false)
        (λ s. ok tt)
        0
        (base_of 1 4)
        []
        (base_of 2 3 ∷ base_of 4 0 ∷ [])
        6
        10
        0
        0
        (ok tt)).1
unfolding records_of
rounds-Fits_example =
    rounds-Fits sample_limits (λ n. data_sort) (λ n. false) (λ s. ok tt) 0 (base_of 1 4) []
      (base_of 2 3 ∷ base_of 4 0 ∷ []) 10 0 0 (ok tt) (λ k. refl) (inr tt)

-- The bases of six and seven live records are merged, and the third stands alone.
sample_groups :
    (defrag sample_limits
      (λ n. data_sort)
      (λ n. false)
      (λ s. ok tt)
      5
      (ok tt)
      (base_of 1 4 ∷ base_of 2 3 ∷ base_of 4 0 ∷ base_of 5 0 ∷ [])).rounds
    ≡ record {
      first = base_of 1 4;
      more = base_of 2 3 ∷ [];
      called = some (sort_data (base_of 1 4) (base_of 2 3 ∷ []));
    }
      ∷ record { first = base_of 4 0; more = []; called = some (sort_data (base_of 4 0) []) }
      ∷ []
unfolding defrag records_of
sample_groups = refl

abbrev idle : Scheduler
idle = record {
  disable_threads = false;
  auto_datasort = true;
  auto_indexsort = false;
  want_defrag = not_started;
}
