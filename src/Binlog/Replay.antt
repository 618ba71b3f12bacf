-- ===== src/Binlog/Replay.antt =====
-- The loop `while ((it = eblob_binlog_iterate(bcfg, it)) != NULL)` over a binlog, by which the sorts
-- of library/index.c and library/datasort.c apply it.
use eblob.Base.{
  ℕ, zero, suc, ◌+◌, ◌<◌, ◌≤◌, Bool, true, false, ◌==◌, Option, none, some, List, [], ◌∷◌, ◌++◌,
  length, get_elem?, ok, err, ebusy, enoexec, ◌≡◌, refl, sym, ap, ◌∙◌, arith, Bool-cases, inl, inr,
  append_assoc, append-nil,
}
use eblob.Key.{Key}
use eblob.Binlog.{
  BinlogCfg, binlog_iterate, binlog_start, binlog_append, binlog_stop, binlog_enabled,
}

-- The keys that the loop sees, on fuel.
unfoldable pub replay : ℕ → BinlogCfg → Option ℕ → List Key
unfolding binlog_iterate
replay zero bcfg it = []
replay (suc fuel) bcfg it = elim (binlog_iterate bcfg it) [
  | none ↦ []
  | some next ↦ elim (get_elem? bcfg.removed_keys next) [
    | none ↦ []
    | some key ↦ key ∷ replay fuel bcfg (some next)
  ]
]

-- The entries after the first `n`.
abbrev after : ℕ → List Key → List Key
after zero keys = keys
after (suc n) [] = []
after (suc n) (k ∷ ks) = after n ks

get_elem?-after :
    (n : ℕ) (keys : List Key)
    → n < length keys
    → (k : Key) × (get_elem? keys n ≡ some k) × (after n keys ≡ k ∷ after (suc n) keys)
get_elem?-after n [] h = absurd (omega (arith, h))
get_elem?-after zero (k ∷ ks) h = (k, refl, refl)
get_elem?-after (suc n) (k ∷ ks) h = get_elem?-after n ks (omega (arith, h))

after_all : (keys : List Key) → after (length keys) keys ≡ []
after_all [] = refl
after_all (k ∷ ks) = after_all ks

replay-after :
    (fuel : ℕ) (bcfg : BinlogCfg) (it : ℕ)
    → it < length bcfg.removed_keys
    → length bcfg.removed_keys ≤ it + fuel
    → replay fuel bcfg (some it) ≡ after (suc it) bcfg.removed_keys
unfolding replay
replay-after zero bcfg it inside enough = absurd (omega (arith, inside, enough))
replay-after (suc fuel) bcfg it inside enough =
    elim (Bool-cases (suc it == length bcfg.removed_keys)) [
      | inl e ↦
          let same : suc it ≡ length bcfg.removed_keys = ground arith in
          rw (replay, e)
            (sym (ap (λ n. after n bcfg.removed_keys) same ∙ after_all bcfg.removed_keys))
      | inr e ↦
          let next : suc it < length bcfg.removed_keys = ground arith in
          let (k, at, rest) = get_elem?-after (suc it) bcfg.removed_keys next in
          rw (replay, e, at)
            (ap (λ ks. k ∷ ks) (replay-after fuel bcfg (suc it) next (omega (arith, enough)))
              ∙ sym rest)
    ]

pub replay_whole :
    (enabled : Bool) (keys : List Key)
    → replay (suc (length keys)) (record { enabled = enabled; removed_keys = keys }) none ≡ keys
unfolding replay
replay_whole enabled [] = refl
replay_whole enabled (k ∷ ks) =
    ap (λ xs. k ∷ xs)
      (replay-after (suc (length ks)) (record { enabled = enabled; removed_keys = k ∷ ks }) 0
        (omega arith) (omega arith))

-- Keys appended one after another.
unfoldable pub append_all : BinlogCfg → List Key → BinlogCfg
unfolding binlog_append
append_all bcfg [] = bcfg
append_all bcfg (k ∷ ks) = append_all (binlog_append bcfg k).1 ks

append_all_lem :
    (keys seen : List Key)
    → append_all (record { enabled = true; removed_keys = seen }) keys
      ≡ record { enabled = true; removed_keys = seen ++ keys }
unfolding append_all
append_all_lem [] seen =
    ap (λ ks. record { enabled = true; removed_keys = ks }) (sym (append-nil seen))
append_all_lem (k ∷ ks) seen =
    append_all_lem ks (seen ++ (k ∷ []))
    ∙ ap (λ xs. record { enabled = true; removed_keys = xs }) (append_assoc seen (k ∷ []) ks)

-- A session of a binlog that is not enabled. A start succeeds and forgets earlier keys; after any
-- keys have been appended, the loop ends within one round more than there are keys and sees every
-- one of them, in the order in which they were appended; a second start is refused with -EBUSY;
-- and a stop succeeds and leaves the binlog disabled, so that one more stop is refused with
-- -ENOEXEC.
pub session_lem :
    (bcfg : BinlogCfg) (keys : List Key)
    → bcfg.enabled ≡ false
    → let (started, opened) = binlog_start bcfg in
      let logged = append_all opened keys in
      let (stopped, closed) = binlog_stop logged in
      (started ≡ ok tt)
      × (replay (suc (length keys)) logged none ≡ keys)
      × ((binlog_start logged).0 ≡ err ebusy)
      × (stopped ≡ ok tt)
      × ((binlog_stop closed).0 ≡ err enoexec)
unfolding binlog_start binlog_stop binlog_enabled
session_lem bcfg keys off =
    rw (off, append_all_lem keys []) (refl, replay_whole true keys, refl, refl, refl)
