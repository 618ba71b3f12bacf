-- ===== src/Tests/Binlogs.antt =====
-- The binlog of library/datasort.h at concrete inputs.
use eblob.Base.{ok, err, ebusy, enoexec, false, none, List, [], ◌∷◌, ◌≡◌, refl, suc, length}
use eblob.Binlog.{BinlogCfg, binlog_start, binlog_stop}
use eblob.Binlog.Replay.{replay, append_all, session_lem}
use eblob.Key.{Key}
use eblob.Tests.Samples.{key_of}

abbrev disabled : BinlogCfg
disabled = record { enabled = false; removed_keys = [] }

abbrev three_keys : List Key
three_keys = key_of 7 ∷ key_of 9 ∷ key_of 7 ∷ []

session_lem_example :
    let (started, opened) = binlog_start disabled in
    let logged = append_all opened three_keys in
    let (stopped, closed) = binlog_stop logged in
    (started ≡ ok tt)
    × (replay (suc (length three_keys)) logged none ≡ three_keys)
    × ((binlog_start logged).0 ≡ err ebusy)
    × (stopped ≡ ok tt)
    × ((binlog_stop closed).0 ≡ err enoexec)
session_lem_example = session_lem disabled three_keys refl
