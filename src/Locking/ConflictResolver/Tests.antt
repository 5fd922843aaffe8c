-- ===== src/Locking/ConflictResolver/Tests.antt =====
-- Runs of the conflict resolver, and its theorems at inputs where their hypotheses hold.
use cnc_network_bridge.Base.{◌≡◌, refl, none, some, List, [], ◌∷◌}
use cnc_network_bridge.Sync.Diff.Types.{FileSide, last_write_wins, Place}
use cnc_network_bridge.Sync.Diff.Resolve.{choose}
use cnc_network_bridge.Locking.ConflictResolver.{
  ResolveConflictInput, Tables, decide_winner, capture_version, resolve,
}
use cnc_network_bridge.Locking.ConflictResolver.Links.{
  Call, resolves, acknowledges, run, AllLinked, AllRecorded, resolved, run-AllLinked,
}
use cnc_network_bridge.Locking.ConflictResolver.Agreement.{
  fingerprint, is_local, decide_winner-choose,
}

abbrev older : FileSide
older = record { size = 10; mtime = 5000; hash = some "a" }

abbrev newer : FileSide
newer = record { size = 12; mtime = 9000; hash = some "b" }

abbrev input : ResolveConflictInput
input = record {
  share_id = 1;
  rel_path = "A.H";
  mode = last_write_wins;
  local = fingerprint (some older);
  remote = fingerprint (some newer);
  detail = none;
}

abbrev deleted : ResolveConflictInput
deleted = record input { local = none }

abbrev empty : Tables
empty = record { versions = []; conflicts = [] }

abbrev calls : List Call
calls = resolves input 100 ∷ resolves deleted 200 ∷ acknowledges 1 ∷ []

server_wins_here : (resolve input 100 empty).1.winner ≡ Place.remote
unfolding resolve decide_winner capture_version
server_wins_here = refl

run-AllLinked_example :
    let t = run calls empty in
    AllLinked t.versions t.conflicts × AllRecorded (resolved calls []) t.conflicts
run-AllLinked_example = run-AllLinked calls

-- Four seconds apart the two agree.
decide_winner-choose_example :
    is_local (decide_winner last_write_wins (fingerprint (some older)) (fingerprint (some newer)))
    ≡ is_local (choose last_write_wins 2000 (some older) (some newer)).winner
decide_winner-choose_example =
    (decide_winner-choose last_write_wins 2000 (some older) (some newer)).1 refl
