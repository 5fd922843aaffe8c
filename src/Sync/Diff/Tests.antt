-- ===== src/Sync/Diff/Tests.antt =====
-- Runs of the diff engine, and its theorems at inputs where their hypotheses hold.
use cnc_network_bridge.Base.{String, ◌≡◌, refl, true, false, none, some, [], ◌∷◌}
use cnc_network_bridge.Sync.Diff.Types.{
  FileSide, DiffConfig, DiffInput, VerdictAction, Place, last_write_wins,
}
use cnc_network_bridge.Sync.Diff.{decide}
use cnc_network_bridge.Sync.Diff.Compare.{destroys_data, same_content}
use cnc_network_bridge.Sync.Diff.Resolve.{choose, winning_action}
use cnc_network_bridge.Sync.Diff.Names.{validate_heidenhain_name}
use cnc_network_bridge.Sync.Diff.Capture.{captured_side, decide_captures}
use cnc_network_bridge.Sync.Diff.Availability.{is_forbidden, decide-is_forbidden}
use cnc_network_bridge.Sync.Diff.Conflict.{
  decide_conflict, decide-deletes, IsPlainDeletion, winner_of,
}
use cnc_network_bridge.Sync.Diff.Settle.{decide_settles, settled}

abbrev keep_case : String → String
keep_case s = s

abbrev config : DiffConfig
config = record {
  conflict_mode = last_write_wins;
  mtime_tolerance_ms = 2000;
  protect_deletes = false;
  max_file_size_bytes = 1000;
  excluded = false;
  locked = false;
  server_offline = false;
  read_only = false;
  case_collision = false;
  rel_path = "parts/A.H";
}

abbrev older : FileSide
older = record { size = 10; mtime = 5000; hash = some "a" }

abbrev newer : FileSide
newer = record { size = 12; mtime = 9000; hash = some "b" }

-- Both sides changed since the base was recorded.
abbrev both_edited : DiffInput
both_edited = record {
  local = some older;
  remote = some newer;
  base = some (record { size = 9; mtime = 1000; hash = none });
  config = config;
}

-- The server's copy is gone, the cached one is the base.
abbrev gone_there : DiffInput
gone_there = record { local = some older; remote = none; base = some older; config = config }

abbrev gone_offline : DiffInput
gone_offline = record gone_there { config = record config { server_offline = true } }

names_pass : validate_heidenhain_name keep_case "a.b/PART 1.H" ≡ []
unfolding validate_heidenhain_name
names_pass = refl

names_warn :
    validate_heidenhain_name keep_case "a/P?.TXT"
    ≡ "\"P?.TXT\" contains a character HEIDENHAIN controls cannot use in a filename"
      ∷ "\"P?.TXT\" has extension .TXT, which controls do not open directly" ∷ []
unfolding validate_heidenhain_name
names_warn = refl

newer_wins :
    (decide keep_case both_edited).detail
    ≡ "parts/A.H changed on both sides; last_write_wins: the remote copy is newer, so the remote copy wins"
unfolding decide same_content choose
newer_wins = refl

decide_captures_example : captured_side (decide keep_case both_edited) ≡ some Place.local
unfolding decide same_content choose winning_action destroys_data
decide_captures_example = decide_captures keep_case both_edited

decide-is_forbidden_example :
    is_forbidden gone_offline.config (decide keep_case gone_offline).action ≡ false
decide-is_forbidden_example = decide-is_forbidden keep_case gone_offline

decide_conflict_example : winner_of (decide keep_case both_edited) ≡ some Place.remote
unfolding decide same_content
decide_conflict_example = decide_conflict keep_case both_edited

decide-deletes_example : IsPlainDeletion Place.local gone_there
unfolding decide same_content
decide-deletes_example = decide-deletes keep_case Place.local gone_there refl refl

decide_settles_example :
    (decide keep_case (settled (decide keep_case gone_there).action gone_there)).action
    ≡ VerdictAction.noop
unfolding decide same_content
decide_settles_example = decide_settles keep_case gone_there refl
