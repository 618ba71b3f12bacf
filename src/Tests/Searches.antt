-- ===== src/Tests/Searches.antt =====
-- The search in a sorted index at an index of three headers in blocks of two.
use Prim.Native.Nat.Ordering.{lt, eq, gt}
use eblob.Base.{
  ℕ, zero, suc, ◌+◌, ◌-◌, ◌*◌, ◌/◌, ◌<◌, ◌≤◌, Ordering, Ordering-cases, true, false, Option, none,
  some, List, [], ◌∷◌, get_elem?, Outcome, ok, err, subst, some_inj, min, enoent, ◌≡◌, refl, sym,
  ap, ◌∙◌, arith, inl, inr,
}
use eblob.Key.{id_cmp, memcmp}
use eblob.Record.{DiskControl, RamControl}
use eblob.Bloom.{BloomFilter, bloom_get, has_bits, has_bit, key_bits, bloom_calc, loop_bits}
use eblob.Index.{IndexBlock, disk_control_sort, key_range_cmp}
use eblob.Index.Search.{Bsearch, Sorted, search_around, find_on_disk, find_non_removed}
use eblob.Index.Search.Windows.{window, IsRead}
use eblob.Index.Search.Ordered.{IsOrdered, IsTable}
use eblob.Index.Search.Ahead.{IsShortRun}
use eblob.Index.Search.Around.{Finds}
use eblob.Index.Search.Found.{find_on_disk-Finds}
use eblob.Index.Lookup.{BaseCtl, IsSearchable, Looked, dc_of}
use eblob.Cache.{Backend, memory_lookup}
use eblob.Cache.Lookup.{cache_lookup, cache_lookup-Looked, is_ok}
use eblob.Rbtree.{leaf, walk}
use eblob.Tests.Samples.{key_of, header_of, sample_disk}

-- A linear search: the first element that is equal to the key.
abbrev pub later : Option ℕ → Option ℕ
later none = none
later (some i) = some (suc i)

abbrev pub step_on : Ordering → Option ℕ → Option ℕ
step_on eq rest = some 0
step_on lt rest = later rest
step_on gt rest = later rest

abbrev pub first_eq : (E : Type 0) → (E → Ordering) → List E → Option ℕ
first_eq E cmp [] = none
first_eq E cmp (x ∷ xs) = step_on (cmp x) (first_eq E cmp xs)

-- What a search gives: an element that is equal, or none is.
Gives : (E : Type 0) → (E → Ordering) → List E → Option ℕ → Type 0
Gives E cmp xs none = (i : ℕ) (x : E) → get_elem? xs i ≡ some x → cmp x ≡ eq → ⊥
Gives E cmp xs (some i) = (x : E) × (get_elem? xs i ≡ some x) × (cmp x ≡ eq)

later-Gives :
    (E : Type 0) (cmp : E → Ordering) (x : E) (xs : List E) (r : Option ℕ)
    → (cmp x ≡ eq → ⊥)
    → Gives E cmp xs r
    → Gives E cmp (x ∷ xs) (later r)
unfolding Gives
later-Gives E cmp x xs none ne g = none_of
  where
    none_of : (i : ℕ) (y : E) → get_elem? (x ∷ xs) i ≡ some y → cmp y ≡ eq → ⊥
    none_of zero y e k = ne (ap cmp (some_inj e) ∙ k)
    none_of (suc j) y e k = g j y e k
later-Gives E cmp x xs (some i) ne g = g

first_eq-Gives :
    (E : Type 0) (cmp : E → Ordering) (xs : List E) → Gives E cmp xs (first_eq E cmp xs)
unfolding Gives
first_eq-Gives E cmp [] = λ i x e k. cc
first_eq-Gives E cmp (x ∷ xs) = elim (Ordering-cases (cmp x)) [
  | inl e ↦ rw e (later-Gives E cmp x xs (first_eq E cmp xs) (λ k. cc) (first_eq-Gives E cmp xs))
  | inr (inl e) ↦ rw e (x, refl, e)
  | inr (inr e) ↦
      rw e (later-Gives E cmp x xs (first_eq E cmp xs) (λ k. cc) (first_eq-Gives E cmp xs))
]

pub first_eq-eq :
    (E : Type 0) (cmp : E → Ordering) (xs : List E) (i : ℕ)
    → first_eq E cmp xs ≡ some i
    → (x : E) × (get_elem? xs i ≡ some x) × (cmp x ≡ eq)
unfolding Gives
first_eq-eq E cmp xs i h = subst (Gives E cmp xs) h (first_eq-Gives E cmp xs)

pub first_eq-none :
    (E : Type 0) (cmp : E → Ordering) (xs : List E)
    → first_eq E cmp xs ≡ none
    → (i : ℕ) (x : E) → get_elem? xs i ≡ some x
    → cmp x ≡ eq
    → ⊥
unfolding Gives
first_eq-none E cmp xs h = subst (Gives E cmp xs) h (first_eq-Gives E cmp xs)

abbrev pub linear : Bsearch
linear = record {
  search_in = first_eq;
  search_in-eq = λ E cmp xs p i h. first_eq-eq E cmp xs i h;
  search_in-none = λ E cmp xs p h. first_eq-none E cmp xs h;
}

abbrev pub removed_seven : DiskControl
removed_seven = record (header_of 7) { flags = 1 }

abbrev pub headers : ℕ → DiskControl
headers zero = removed_seven
headers (suc zero) = header_of 7
headers (suc (suc i)) = header_of 9

abbrev read_headers : ℕ → ℕ → Outcome (List DiskControl)
read_headers off bytes = ok (window headers (off / 96) (bytes / 96))

reads_headers : IsRead headers read_headers 3
reads_headers p n inside =
    let e : p * 96 / 96 ≡ p = omega arith in
    let f : n * 96 / 96 ≡ n = omega arith in
    ap (λ k. ok (window headers k (n * 96 / 96))) e ∙ ap (λ k. ok (window headers p k)) f

pub headers-IsOrdered : IsOrdered headers 3
unfolding id_cmp memcmp
headers-IsOrdered zero zero h inside = λ e. cc
headers-IsOrdered zero (suc zero) h inside = λ e. cc
headers-IsOrdered zero (suc (suc j)) h inside = λ e. cc
headers-IsOrdered (suc i) zero h inside = absurd (omega (arith, h))
headers-IsOrdered (suc zero) (suc zero) h inside = λ e. cc
headers-IsOrdered (suc zero) (suc (suc j)) h inside = λ e. cc
headers-IsOrdered (suc (suc i)) (suc zero) h inside = absurd (omega (arith, h))
headers-IsOrdered (suc (suc i)) (suc (suc j)) h inside = λ e. cc

headers-IsShortRun : IsShortRun headers read_headers 3 2 (dc_of (key_of 7)) reads_headers
unfolding disk_control_sort id_cmp memcmp
headers-IsShortRun zero zero h inside same same' = omega arith
headers-IsShortRun zero (suc zero) h inside same same' = omega arith
headers-IsShortRun zero (suc (suc j)) h inside same same' = absurd cc
headers-IsShortRun (suc i) j h inside same same' = omega (arith, h, inside)

abbrev block_of : ℕ → ℕ → ℕ → ℕ → IndexBlock
block_of first last lo hi = record {
  start_key = key_of first;
  end_key = key_of last;
  start_offset = lo;
  end_offset = hi;
}

abbrev last_block : IndexBlock
last_block = block_of 9 9 192 288

abbrev two_blocks : List IndexBlock
two_blocks = block_of 7 7 0 192 ∷ last_block ∷ []

two_blocks-IsTable : IsTable headers 3 2 two_blocks
two_blocks-IsTable = record { entry = entry'; entry_of = entry_of' }
  where
    entry' :
        (i : ℕ) (b : IndexBlock)
        → get_elem? two_blocks i ≡ some b
        → (i * 2 < 3)
          × (b.start_offset ≡ i * 2 * 96)
          × (b.start_key ≡ (headers (i * 2)).key)
          × (b.end_key ≡ (headers (i * 2 + min (3 - i * 2) 2 - 1)).key)
    entry' zero b h =
        let e = sym (some_inj h) in
        (omega arith, ap (λ z. z.start_offset) e, ap (λ z. z.start_key) e, ap (λ z. z.end_key) e)
    entry' (suc zero) b h =
        let e = sym (some_inj h) in
        (omega arith, ap (λ z. z.start_offset) e, ap (λ z. z.start_key) e, ap (λ z. z.end_key) e)
    entry' (suc (suc i)) b h = absurd cc

    entry_of' :
        (t : ℕ)
        → t < 3
        → (i : ℕ) × (b : IndexBlock) × (get_elem? two_blocks i ≡ some b)
          × (i * 2 ≤ t)
          × (t < i * 2 + 2)
    entry_of' zero h = (0, block_of 7 7 0 192, refl, omega arith, omega arith)
    entry_of' (suc zero) h = (0, block_of 7 7 0 192, refl, omega arith, omega arith)
    entry_of' (suc (suc t)) h = (1, block_of 9 9 192 288, refl, omega arith, omega (arith, h))

-- A filter in which every bit is set.
abbrev full_filter : BloomFilter
full_filter = record { bloom = some (255 ∷ []); bloom_size = 1; bloom_func_num = 1 }

present_headers :
    (t : ℕ)
    → t < 3
    → find_non_removed (headers t) ≡ true
    → bloom_get full_filter (headers t).key ≡ ok true
unfolding bloom_get has_bits has_bit key_bits bloom_calc loop_bits
present_headers zero h live = cc
present_headers (suc zero) h live = refl
present_headers (suc (suc t)) h live = refl

abbrev sorted_headers : Sorted
sorted_headers = record { sort_size = 288; filter = full_filter; index_blocks = two_blocks }

find_on_disk-Finds_example :
    Finds headers 3
      (dc_of (key_of 7))
      (find_on_disk linear read_headers 2 true sorted_headers (dc_of (key_of 7)) find_non_removed)
find_on_disk-Finds_example =
    find_on_disk-Finds headers 3 (dc_of (key_of 7)) read_headers 2 reads_headers headers-IsOrdered
      headers-IsShortRun (omega arith) linear sorted_headers refl two_blocks-IsTable present_headers

-- The header found is the second one, since the first is removed.
found_second :
    find_on_disk linear read_headers 2 true sorted_headers (dc_of (key_of 7)) find_non_removed
    ≡ some (ok (header_of 7, 96))
unfolding find_on_disk bloom_get has_bits has_bit key_bits bloom_calc loop_bits id_cmp memcmp
    key_range_cmp
found_second = refl

abbrev unsorted_base : BaseCtl
unsorted_base = record { bctl = 2; index_fd = some 8; sorted = none }

abbrev sorted_base : BaseCtl
sorted_base = record { bctl = 1; index_fd = some 7; sorted = some sorted_headers }

sorted_base-IsSearchable :
    (s : Sorted)
    → some sorted_headers ≡ some s
    → IsSearchable linear
        (λ b. read_headers)
        (λ b. true)
        2
        (key_of 7)
        (λ b. headers)
        (λ b. 3)
        sorted_base
        s
sorted_base-IsSearchable s h =
    subst
      (λ z.
        IsSearchable linear (λ b. read_headers) (λ b. true) 2 (key_of 7) (λ b. headers) (λ b. 3)
          sorted_base z)
      (some_inj h)
      (record {
        reads = reads_headers;
        ordered = headers-IsOrdered;
        short_run = headers-IsShortRun;
        sized = refl;
        table = two_blocks-IsTable;
        present = present_headers;
        allocates = refl;
      })

abbrev pub no_cache : Backend
no_cache = record {
  use_l2hash = false;
  hash = record { root = leaf; dsize = 32 };
  l2hash = record { root = leaf; collisions = leaf };
  cached = 0;
}

not_in_memory : memory_lookup sample_disk no_cache (key_of 7) ≡ err enoent
unfolding memory_lookup walk
not_in_memory = refl

cache_lookup-Looked_example :
    (r : Outcome RamControl) × (cache_lookup sample_disk linear
        (λ b. read_headers)
        (λ b. true)
        2
        no_cache
        ((unsorted_base ∷ sorted_base ∷ []) ∷ [])
        (key_of 7)
      ≡ some (r, is_ok r))
    × Looked linear
        (λ b. read_headers)
        (λ b. true)
        2
        (key_of 7)
        (λ b. headers)
        (λ b. 3)
        (unsorted_base ∷ sorted_base ∷ [])
        r
cache_lookup-Looked_example =
    cache_lookup-Looked sample_disk linear (λ b. read_headers) (λ b. true) 2 (λ b. headers) (λ b. 3)
      (omega arith) (key_of 7) no_cache (unsorted_base ∷ sorted_base ∷ []) [] not_in_memory
      (((8, refl), λ s h. absurd cc), (((7, refl), sorted_base-IsSearchable), tt))

abbrev stale_base : BaseCtl
stale_base = record { bctl = 1; index_fd = none; sorted = none }

abbrev same_views : ℕ → List (List BaseCtl)
same_views zero = []
same_views (suc n) = (stale_base ∷ []) ∷ same_views n

-- Headers of one key over three blocks, of which the second one alone is not removed: where
-- `bsearch` has given the third one, the search misses it.
abbrev one_live : ℕ → DiskControl
one_live zero = removed_seven
one_live (suc zero) = header_of 7
one_live (suc (suc i)) = removed_seven

long_run_missed :
    search_around
      (λ off bytes. ok (window one_live (off / 96) (bytes / 96)))
      672
      3
      find_non_removed
      (dc_of (key_of 7))
      0
      2
      20
      (record {
        hdr_block = window one_live 0 3;
        hdr_block_offset = 0;
        hdr_block_size = 288;
        num = 3;
        sorted = 2;
        error = enoent;
      })
    ≡ some (err enoent)
unfolding search_around id_cmp memcmp
long_run_missed = refl
