-- ===== src/Locking/ConflictResolver.antt =====
-- backend/locking/conflict-resolver.ts: the decision between two sides, and its record. The two tables
-- are lists of rows, newest first; an id is the number of rows so far and one, as the column counts them.
-- No row is deleted here. A call in a transaction is one step.
pub mod Links
pub mod Agreement
mod Tests
use cnc_network_bridge.Base.{
  ℕ, suc, ◌+◌, String, Bool, true, false, Option, none, some, List, [], ◌∷◌, length, ltb, ◌==◌,
  if◌then◌else◌, map, or_else, ◌<>◌, and_then,
}
use cnc_network_bridge.Sync.Diff.Types.{
  ConflictMode, machine_wins, server_wins, last_write_wins, Place,
}

pub record FileFingerprint : Type 0 where
  pub hash : String
  pub size : ℕ
  pub mtime : ℕ

pub record ResolveConflictInput : Type 0 where
  pub share_id : ℕ
  pub rel_path : String
  pub mode : ConflictMode
  pub local : Option FileFingerprint
  pub remote : Option FileFingerprint
  pub detail : Option String

pub record VersionRow : Type 0 where
  pub id : ℕ
  pub share_id : ℕ
  pub rel_path : String
  pub hash : String
  pub size : ℕ
  pub mtime : ℕ
  pub reason : Option String
  pub created_at : ℕ

pub record ConflictRow : Type 0 where
  pub id : ℕ
  pub ts : ℕ
  pub share_id : ℕ
  pub rel_path : String
  pub mode_applied : ConflictMode
  pub winner : Place
  pub loser_version_id : Option ℕ
  pub winner_hash : Option String
  pub loser_hash : Option String
  pub local_mtime : Option ℕ
  pub remote_mtime : Option ℕ
  pub acknowledged : Bool
  pub detail : Option String

pub record Tables : Type 0 where
  pub versions : List VersionRow
  pub conflicts : List ConflictRow

unfoldable pub decide_winner :
    ConflictMode → Option FileFingerprint → Option FileFingerprint → Place
decide_winner mode none remote = Place.remote
decide_winner mode (some l) none = Place.local
decide_winner machine_wins (some l) (some r) = Place.local
decide_winner server_wins (some l) (some r) = Place.remote
decide_winner last_write_wins (some l) (some r) =
    if ltb r.mtime l.mtime then Place.local else Place.remote

abbrev pub loser_of :
    Place → Option FileFingerprint → Option FileFingerprint → Option FileFingerprint
loser_of Place.local local remote = remote
loser_of Place.remote local remote = local

abbrev pub winner_of :
    Place → Option FileFingerprint → Option FileFingerprint → Option FileFingerprint
winner_of Place.local local remote = local
winner_of Place.remote local remote = remote

abbrev place_text : Place → String
place_text Place.local = "local"
place_text Place.remote = "remote"

abbrev mode_text : ConflictMode → String
mode_text machine_wins = "machine_wins"
mode_text server_wins = "server_wins"
mode_text last_write_wins = "last_write_wins"

abbrev version_of : ℕ → String → FileFingerprint → Option String → ℕ → List VersionRow → VersionRow
version_of share_id rel_path side reason now rows = record {
  id = suc (length rows);
  share_id = share_id;
  rel_path = rel_path;
  hash = side.hash;
  size = side.size;
  mtime = side.mtime;
  reason = reason;
  created_at = now;
}

-- The tables with the version of the loser, if there is one.
unfoldable pub capture_version :
    ℕ → String → Option FileFingerprint → Option String → ℕ → Tables → Tables × Option ℕ
capture_version share_id rel_path none reason now t = (t, none)
capture_version share_id rel_path (some side) reason now t = (
  record t { versions = version_of share_id rel_path side reason now t.versions ∷ t.versions },
  some (suc (length t.versions)),
)

abbrev pub hash_of : Option FileFingerprint → Option String
hash_of none = none
hash_of (some f) = some f.hash

abbrev mtime_of : Option FileFingerprint → Option ℕ
mtime_of none = none
mtime_of (some f) = some f.mtime

unfoldable pub resolve : ResolveConflictInput → ℕ → Tables → Tables × ConflictRow
unfolding decide_winner capture_version
resolve input now t =
    let winner = decide_winner input.mode input.local input.remote in
    let loser_side = loser_of winner input.local input.remote in
    let reason = "superseded by " <> place_text winner <> " under " <> mode_text input.mode in
    let (captured, version_id) =
      capture_version input.share_id input.rel_path loser_side (some reason) now t in
    let row : ConflictRow = record {
      id = suc (length t.conflicts);
      ts = now;
      share_id = input.share_id;
      rel_path = input.rel_path;
      mode_applied = input.mode;
      winner = winner;
      loser_version_id = version_id;
      winner_hash = hash_of (winner_of winner input.local input.remote);
      loser_hash = hash_of loser_side;
      local_mtime = mtime_of input.local;
      remote_mtime = mtime_of input.remote;
      acknowledged = false;
      detail = input.detail;
    } in
    (record captured { conflicts = row ∷ captured.conflicts }, row)

unfoldable pub find_conflict : ℕ → List ConflictRow → Option ConflictRow
find_conflict id [] = none
find_conflict id (r ∷ rs) = let rest = find_conflict id rs in if r.id == id then some r else rest

abbrev pub set_acknowledged : ℕ → ConflictRow → ConflictRow
set_acknowledged id r = if r.id == id then record r { acknowledged = true } else r

-- `none` is the error that there is no such conflict.
unfoldable pub acknowledge : ℕ → Tables → Tables × Option ConflictRow
unfolding find_conflict
acknowledge id t =
    let rows = map (set_acknowledged id) t.conflicts in
    (record t { conflicts = rows }, find_conflict id rows)
