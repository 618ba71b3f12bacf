-- ===== src/Tests/Caches.antt =====
-- The caches of library/hash.c and library/l2hash.c at concrete inputs.
use eblob.Base.{ℕ, true, false, List, [], ◌∷◌, ok, err, enoent, ◌≡◌, refl, arith, All}
use eblob.Key.{Key, id_cmp}
use eblob.Rbtree.{Tree, leaf, walk, link_and_color, assign, link_node, inorder}
use eblob.Rbtree.Plain.{plain}
use eblob.History.{latest}
use eblob.Hash.{Hash, hash_entry_add, hash_remove_nolock, hash_lookup_nolock, hash_destroy}
use eblob.Hash.Laws.{
  IsValid, add_reply, Stored, hash_entry_add_lem, hash_remove_lem, hash_destroy_lem,
}
use eblob.L2hash.{L2hash, l2hash_lookup, l2hash_remove}
use eblob.L2hash.Flavours.{l2hash_insert_flavor, flavor_upsert, flavor_insert}
use eblob.L2hash.Murmur.{l2hash_key}
use eblob.L2hash.Contents.{IsSound}
use eblob.L2hash.Insert.{l2hash_insert-Effect}
use eblob.L2hash.Insert.Effects.{Effect}
use eblob.L2hash.Remove.{Removed, l2hash_remove-Removed}
use eblob.L2hash.Runs.{Call, insert, remove, run, IsProper, run_refines}
use eblob.Base.{removed_reply}
use eblob.Tests.Samples.{key_of, sample_disk, rctl_at, seven-BelongsTo, nine-BelongsTo}

abbrev two_keys : Hash ℕ
two_keys = record {
  root =
      Tree.node (Tree.node leaf (record { key = key_of 9; bytes = 90 }) leaf)
        (record { key = key_of 7; bytes = 70 }) leaf;
  dsize = 32;
}

two_keys-IsValid : IsValid two_keys
unfolding id_cmp
two_keys-IsValid = ((refl, tt), (tt, tt))

two_keys_reads :
    (hash_lookup_nolock two_keys (key_of 9) ≡ ok 90)
    × (hash_lookup_nolock two_keys (key_of 8) ≡ err enoent)
unfolding hash_lookup_nolock walk id_cmp
two_keys_reads = (refl, refl)

hash_entry_add_lem_example :
    let (res, h') = hash_entry_add plain true two_keys (key_of 9) 91 true in
    (res ≡ add_reply true true (hash_lookup_nolock two_keys (key_of 9)))
    × IsValid h'
    × Stored two_keys (key_of 9) 91 res h'
hash_entry_add_lem_example =
    hash_entry_add_lem plain true two_keys (key_of 9) 91 true two_keys-IsValid

hash_remove_lem_example :
    let (res, h') = hash_remove_nolock plain two_keys (key_of 7) in
    IsValid h'
    × (hash_lookup_nolock h' (key_of 7) ≡ err enoent)
    × ((j : Key) → (j ≡ key_of 7 → ⊥) → hash_lookup_nolock h' j ≡ hash_lookup_nolock two_keys j)
    × (res ≡ removed_reply (hash_lookup_nolock two_keys (key_of 7)))
    × (hash_lookup_nolock two_keys (key_of 7) ≡ err enoent → h' ≡ two_keys)
hash_remove_lem_example = hash_remove_lem plain two_keys (key_of 7) two_keys-IsValid

hash_destroy_lem_example :
    let (freed, root) = hash_destroy plain two_keys in
    (freed ≡ inorder two_keys.root) × (inorder root ≡ [])
hash_destroy_lem_example = hash_destroy_lem plain two_keys

abbrev sample_calls : List Call
sample_calls =
    remove (key_of 9)
    ∷ insert (key_of 7) (rctl_at 0 20) flavor_upsert true true
    ∷ insert (key_of 9) (rctl_at 96 10) flavor_insert true true
    ∷ insert (key_of 7) (rctl_at 0 10) flavor_insert true true
    ∷ []

sample_calls-IsProper : All (IsProper sample_disk) sample_calls
sample_calls-IsProper = (
  tt,
  (
    (omega arith, omega arith, seven-BelongsTo 20),
    (
      (omega arith, omega arith, nine-BelongsTo 10),
      ((omega arith, omega arith, seven-BelongsTo 10), tt),
    ),
  ),
)

abbrev pub sample_tables : L2hash
sample_tables = (run sample_disk plain plain sample_calls).0

run_refines_example :
    IsSound sample_disk sample_tables
    × ((q : Key)
        → l2hash_lookup sample_disk false sample_tables q
          ≡ latest (run sample_disk plain plain sample_calls).1 q)
run_refines_example = run_refines sample_disk plain plain sample_calls sample_calls-IsProper

-- The run ends with the new control under one key, and without the other.
sample_reads :
    (l2hash_lookup sample_disk false sample_tables (key_of 7) ≡ ok (rctl_at 0 20))
    × (l2hash_lookup sample_disk false sample_tables (key_of 9) ≡ err enoent)
unfolding run l2hash_lookup walk assign link_and_color link_node plain l2hash_key id_cmp
sample_reads = (refl, refl)

pub sample-IsSound : IsSound sample_disk sample_tables
sample-IsSound = run_refines_example.0

l2hash_insert-Effect_example :
    Effect sample_disk sample_tables (key_of 9) (rctl_at 96 40) flavor_insert true true (
      l2hash_insert_flavor sample_disk plain plain false true true sample_tables
        (key_of 9)
        (rctl_at 96 40)
        flavor_insert
        true)
l2hash_insert-Effect_example =
    l2hash_insert-Effect sample_disk plain plain true true sample_tables (key_of 9) (rctl_at 96 40)
      flavor_insert true sample-IsSound (nine-BelongsTo 40) (omega arith) (omega arith)

l2hash_remove-Removed_example :
    Removed sample_disk sample_tables
      (key_of 7)
      (l2hash_remove sample_disk plain plain false sample_tables (key_of 7))
l2hash_remove-Removed_example =
    l2hash_remove-Removed sample_disk plain plain sample_tables (key_of 7) sample-IsSound
