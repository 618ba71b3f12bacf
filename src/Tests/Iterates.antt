-- ===== src/Tests/Iterates.antt =====
-- `eblob_check_disk` of library/blob.c at a concrete input.
use eblob.Base.{◌+◌, true, false, if◌then◌else◌, List, [], ◌∷◌, ok, err, assertion, ◌≡◌, refl}
use eblob.Record.{DiskControl}
use eblob.Index.{is_removed}
use eblob.Store.{Store}
use eblob.Store.Iterate.{Callback, IterateFlags, IterateLocal, check_disk}
use eblob.Tests.Samples.{header_of}
use eblob.Tests.Stores.{empty_store}

-- A callback that counts, and one that refuses removed records.
abbrev counting : Callback
counting dc rc fd offset s = (ok tt, record s { summary_size = s.summary_size + 1 })

abbrev refusing : Callback
refusing dc rc fd offset s =
    if is_removed dc then (err assertion, s) else counting dc rc fd offset s

abbrev first_load : IterateFlags
first_load = record { all = false; initial_load = true; readonly = true }

abbrev three_headers : List DiskControl
three_headers = header_of 7 ∷ record (header_of 8) { flags = 1 } ∷ header_of 9 ∷ []

abbrev at_start : IterateLocal
at_start = record { index_offset = 0; last_valid_offset = 0 }

counts_two :
    (check_disk counting first_load 1 1000 at_start three_headers empty_store).1.summary_size ≡ 2
unfolding check_disk
counts_two = refl
