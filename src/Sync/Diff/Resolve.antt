-- ===== src/Sync/Diff/Resolve.antt =====
-- backend/sync/diff-engine.ts: `verdict` and `resolveConflict`.
use cnc_network_bridge.Base.{
  ℕ, String, Bool, true, false, Option, none, some, [], ltb, leb, if◌then◌else◌, ◌<>◌, decimal,
  is_some, abs_diff,
}
use mathlib.Core.Option
use cnc_network_bridge.Sync.Diff.Names.{validate_heidenhain_name}
use cnc_network_bridge.Sync.Diff.Types.{
  FileSide, Side, ConflictMode, machine_wins, server_wins, last_write_wins, FileState, DiffConfig,
  VerdictAction, VerdictReason, Place, CaptureReason, VersionCapture, Verdict,
}
use cnc_network_bridge.Sync.Diff.Compare.{other_place, place_name, side_at}

-- `verdict(...)` with no extras.
abbrev pub plain : VerdictAction → VerdictReason → String → FileState → Verdict
plain action reason detail next_state = record {
  action = action;
  reason = reason;
  detail = detail;
  capture_version = none;
  conflict = none;
  next_state = next_state;
  warnings = [];
}

abbrev pub capture : Place → CaptureReason → Option VersionCapture
capture side reason = some (record { side = side; reason = reason })

-- The winner, whether the tie-break decided, and the rationale.
pub record Choice : Type 0 where
  pub winner : Place
  pub tie_broken : Bool
  pub rationale : String

-- Both sides exist and the mode is last_write_wins. `difference > 0` is `remote < local`.
by_time : ℕ → ℕ → ℕ → Choice
by_time tolerance local remote =
    let winner = if ltb remote local then Place.local else Place.remote in
    if leb (abs_diff local remote) tolerance
    then record {
      winner = Place.local;
      tie_broken = true;
      rationale =
          "mtimes are within the "
          <> decimal tolerance
          <> " ms tolerance, so the tie breaks to the TNC side";
    }
    else record {
      winner = winner;
      tie_broken = false;
      rationale = "last_write_wins: the " <> place_name winner <> " copy is newer";
    }

abbrev pub surviving : Place → Choice
surviving winner = record {
  winner = winner;
  tie_broken = true;
  rationale =
      "last_write_wins cannot compare a deletion against an edit, so the surviving content wins — a delete never silently wins";
}

unfoldable pub choose : ConflictMode → ℕ → Side → Side → Choice
unfolding by_time
choose machine_wins tolerance local remote = record {
  winner = Place.local;
  tie_broken = false;
  rationale = "conflict mode is machine_wins";
}
choose server_wins tolerance local remote = record {
  winner = Place.remote;
  tie_broken = false;
  rationale = "conflict mode is server_wins";
}
choose last_write_wins tolerance none remote = surviving Place.remote
choose last_write_wins tolerance (some l) none = surviving Place.local
choose last_write_wins tolerance (some l) (some r) = by_time tolerance l.mtime r.mtime

-- The action that makes the winner's state, a deletion included, that of both sides.
unfoldable pub winning_action : Place → Side → Side → VerdictAction
winning_action Place.local none remote = VerdictAction.delete_remote
winning_action Place.local (some l) remote = VerdictAction.push
winning_action Place.remote local none = VerdictAction.delete_local
winning_action Place.remote local (some r) = VerdictAction.pull

abbrev pub is_pull : VerdictAction → Bool
is_pull VerdictAction.pull = true
is_pull _ = false

module _ (upper_case : String → String) where
  unfoldable pub resolve_conflict : Side → Side → DiffConfig → String → Verdict
  resolve_conflict local remote config context =
      let choice = choose config.conflict_mode config.mtime_tolerance_ms local remote in
      let loser = other_place choice.winner in
      let action = winning_action choice.winner local remote in
      record {
        action = action;
        reason = VerdictReason.conflict_resolved;
        detail =
            context
            <> "; "
            <> choice.rationale
            <> ", so the "
            <> place_name choice.winner
            <> " copy wins";
        next_state = FileState.conflict;
        capture_version =
            if is_some (side_at loser local remote)
            then capture loser CaptureReason.conflict_loser
            else none;
        conflict = some (record {
          mode_applied = config.conflict_mode;
          winner = choice.winner;
          tie_broken = choice.tie_broken;
          local_mtime = Option.map (λ (s : FileSide). s.mtime) local;
          remote_mtime = Option.map (λ (s : FileSide). s.mtime) remote;
        });
        warnings =
            if is_pull action then validate_heidenhain_name upper_case config.rel_path else [];
      }
