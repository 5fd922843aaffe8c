-- ===== src/Sync/Diff/Conflict.antt =====
-- Conflicts of backend/sync/diff-engine.ts: when there is one, and who wins it.
use mathlib.Core.Option
use cnc_network_bridge.Base.{
  ℕ, ◌+◌, String, ◌≡◌, refl, Bool, true, false, not, ◌&&◌, Option, none, some, leb, if◌then◌else◌,
  arith, is_some,
}
use cnc_network_bridge.Sync.Diff.Types.{
  Side, DiffConfig, DiffInput, Place, Verdict, ConflictMode, ConflictOutcome, machine_wins,
  server_wins, last_write_wins,
}
use cnc_network_bridge.Sync.Diff.{decide_core, core_verdict, decide, apply_availability_overrides}
use cnc_network_bridge.Sync.Diff.Compare.{same_content, classify_side, other_place, side_at}
use cnc_network_bridge.Sync.Diff.Resolve.{choose, winning_action}
use cnc_network_bridge.Sync.Diff.Availability.{is_eligible, deletes, decide_eligible}

-- Whether two sides hold different things; absence counts as one.
abbrev pub differ : Side → Side → Bool
differ none none = false
differ none (some b) = true
differ (some a) none = true
differ (some a) (some b) = not (same_content a b)

-- Who is to win: under last_write_wins the machine unless the server's copy is newer by more than
-- the tolerance, and what exists against a deletion.
abbrev pub expected_winner : ConflictMode → ℕ → Side → Side → Place
expected_winner machine_wins tolerance l r = Place.local
expected_winner server_wins tolerance l r = Place.remote
expected_winner last_write_wins tolerance none r = Place.remote
expected_winner last_write_wins tolerance (some l) none = Place.local
expected_winner last_write_wins tolerance (some l) (some r) =
    if leb r.mtime (l.mtime + tolerance) then Place.local else Place.remote

abbrev pub winner_of : Verdict → Option Place
winner_of v = Option.map (λ (o : ConflictOutcome). o.winner) v.conflict

choose_lem :
    (m : ConflictMode) (t : ℕ) (l r : Side) → (choose m t l r).winner ≡ expected_winner m t l r
unfolding choose
choose_lem machine_wins t l r = refl
choose_lem server_wins t l r = refl
choose_lem last_write_wins t none r = refl
choose_lem last_write_wins t (some l) none = refl
choose_lem last_write_wins t (some l) (some r) = ground arith

abbrev pub expected_conflict : DiffInput → Option Place
expected_conflict i =
    if differ i.local i.base && (differ i.remote i.base && differ i.local i.remote)
    then some (expected_winner i.config.conflict_mode i.config.mtime_tolerance_ms i.local i.remote)
    else none

abbrev pub IsPlainDeletion : Place → DiffInput → Type 0
IsPlainDeletion p i =
    (side_at (other_place p) i.local i.remote ≡ none)
    × (differ (side_at p i.local i.remote) i.base ≡ false)
    × (is_some i.base ≡ true)
    × (i.config.protect_deletes ≡ false)

module _ (upper_case : String → String) where
  core_conflict :
      (l r b : Side) (c : DiffConfig)
      → let i : DiffInput = record { local = l; remote = r; base = b; config = c } in
        winner_of (core_verdict upper_case i) ≡ expected_conflict i
  unfolding decide_core classify_side
  core_conflict none none none c = refl
  core_conflict none none (some b) c = refl
  core_conflict none (some r) none c = refl
  core_conflict none (some r) (some b) c =
      ground (arith, choose_lem c.conflict_mode c.mtime_tolerance_ms none (some r))
  core_conflict (some l) none none c = refl
  core_conflict (some l) none (some b) c =
      ground (arith, choose_lem c.conflict_mode c.mtime_tolerance_ms (some l) none)
  core_conflict (some l) (some r) none c =
      ground (arith, choose_lem c.conflict_mode c.mtime_tolerance_ms (some l) (some r))
  core_conflict (some l) (some r) (some b) c =
      ground (arith, choose_lem c.conflict_mode c.mtime_tolerance_ms (some l) (some r))

  -- A conflict is recorded exactly if the path reaches the table and the two sides differ from the
  -- base and from one another, and the recorded winner is the one that the mode calls for.
  pub decide_conflict :
      (i : DiffInput)
      → winner_of (decide upper_case i) ≡ (if is_eligible i then expected_conflict i else none)
  unfolding decide
  decide_conflict i =
      ground (arith, decide_eligible upper_case i, core_conflict i.local i.remote i.base i.config)

  core-deletes :
      (p : Place) (l r b : Side) (c : DiffConfig)
      → c.conflict_mode ≡ last_write_wins
      → let i : DiffInput = record { local = l; remote = r; base = b; config = c } in
        deletes p (core_verdict upper_case i).action ≡ true → IsPlainDeletion p i
  unfolding decide_core classify_side choose winning_action
  core-deletes Place.local none none none c m h = cc
  core-deletes Place.local none none (some b) c m h = cc
  core-deletes Place.local none (some r) none c m h = cc
  core-deletes Place.local none (some r) (some b) c m h = ground arith
  core-deletes Place.local (some l) none none c m h = cc
  core-deletes Place.local (some l) none (some b) c m h = ground arith
  core-deletes Place.local (some l) (some r) none c m h = ground arith
  core-deletes Place.local (some l) (some r) (some b) c m h = ground arith
  core-deletes Place.remote none none none c m h = cc
  core-deletes Place.remote none none (some b) c m h = cc
  core-deletes Place.remote none (some r) none c m h = cc
  core-deletes Place.remote none (some r) (some b) c m h = ground arith
  core-deletes Place.remote (some l) none none c m h = cc
  core-deletes Place.remote (some l) none (some b) c m h = ground arith
  core-deletes Place.remote (some l) (some r) none c m h = ground arith
  core-deletes Place.remote (some l) (some r) (some b) c m h = ground arith

  -- Under last_write_wins a deletion never beats an edit: where the verdict deletes a file, the
  -- other side has no file, the deleted one still is what both sides agreed on last, and deletions
  -- are not protected.
  pub decide-deletes :
      (p : Place) (i : DiffInput)
      → i.config.conflict_mode ≡ last_write_wins
      → deletes p (decide upper_case i).action ≡ true
      → IsPlainDeletion p i
  unfolding decide apply_availability_overrides
  decide-deletes p i m h = core-deletes p i.local i.remote i.base i.config m (ground arith)
