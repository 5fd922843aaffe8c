-- ===== src/Sync/Diff/Settle.antt =====
-- What follows a verdict of backend/sync/diff-engine.ts: once the action has been carried out, the
-- next look at the path finds nothing to do.
use text.Mathlib.TextPositions.{eq_refl}
use cnc_network_bridge.Base.{String, ◌≡◌, refl, Bool, true, false, Option, none, some, arith}
use cnc_network_bridge.Sync.Diff.Types.{FileSide, Side, DiffConfig, DiffInput, VerdictAction}
use cnc_network_bridge.Sync.Diff.{decide_core, core_verdict, decide, apply_availability_overrides}
use cnc_network_bridge.Sync.Diff.Compare.{same_content, classify_side, equal_hash_or}
use cnc_network_bridge.Sync.Diff.Resolve.{winning_action, choose}
use cnc_network_bridge.Sync.Diff.Availability.{is_eligible}
use cnc_network_bridge.Sync.Diff.Capture.{same_content_comm}

-- The two sides and the base after an action: a copy or a deletion makes all three agree, and
-- CONVERGE records the content that both sides have. Every other action moves nothing.
abbrev pub settled : VerdictAction → DiffInput → DiffInput
settled VerdictAction.push i = record i { remote = i.local; base = i.local }
settled VerdictAction.pull i = record i { local = i.remote; base = i.remote }
settled VerdictAction.delete_remote i = record i { remote = none; base = none }
settled VerdictAction.delete_local i = record i { local = none; base = none }
settled VerdictAction.converge i = record i { base = i.local }
settled _ i = i

-- An action that was carried out, or that needs no carrying out.
abbrev pub is_done : VerdictAction → Bool
is_done VerdictAction.defer = false
is_done VerdictAction.exclude = false
is_done VerdictAction.skip = false
is_done VerdictAction.error = false
is_done _ = true

equal_hash_or_refl : (x : Option String) → equal_hash_or x x true ≡ true
equal_hash_or_refl none = refl
equal_hash_or_refl (some x) = eq_refl x

same_content_refl : (a : FileSide) → same_content a a ≡ true
unfolding same_content
same_content_refl a = ground (arith, equal_hash_or_refl a.hash)

settled-is_eligible :
    (a : VerdictAction) (i : DiffInput) → is_eligible i ≡ true → is_eligible (settled a i) ≡ true
settled-is_eligible VerdictAction.push i h = ground arith
settled-is_eligible VerdictAction.pull i h = ground arith
settled-is_eligible VerdictAction.delete_remote i h = ground arith
settled-is_eligible VerdictAction.delete_local i h = ground arith
settled-is_eligible VerdictAction.converge i h = h
settled-is_eligible _ i h = h

module _ (upper_case : String → String) where
  core_settles :
      (l r b : Side) (c : DiffConfig)
      → let i : DiffInput = record { local = l; remote = r; base = b; config = c } in
        let a = (core_verdict upper_case i).action in
        is_done a ≡ true → (core_verdict upper_case (settled a i)).action ≡ VerdictAction.noop
  unfolding decide_core classify_side winning_action choose
  core_settles none none none c h = refl
  core_settles none none (some b) c h = refl
  core_settles none (some r) none c h = ground (arith, same_content_refl r)
  core_settles none (some r) (some b) c h = ground (arith, same_content_refl r)
  core_settles (some l) none none c h = ground (arith, same_content_refl l)
  core_settles (some l) none (some b) c h = ground (arith, same_content_refl l)
  core_settles (some l) (some r) none c h =
      ground (arith, same_content_refl l, same_content_refl r, same_content_comm l r)
  core_settles (some l) (some r) (some b) c h =
      ground (arith, same_content_refl l, same_content_refl r, same_content_comm l r)

  decide_done :
      (i : DiffInput)
      → is_done (decide upper_case i).action ≡ true
      → (is_eligible i ≡ true) × ((decide upper_case i).action ≡ (core_verdict upper_case i).action)
  unfolding decide apply_availability_overrides
  decide_done i h = ground arith

  decide_noop :
      (i : DiffInput)
      → is_eligible i ≡ true
      → (core_verdict upper_case i).action ≡ VerdictAction.noop
      → (decide upper_case i).action ≡ VerdictAction.noop
  unfolding decide apply_availability_overrides
  decide_noop i e h = ground arith

  -- Once a verdict that asks for something now has been carried out, the next decision on the path,
  -- under the same configuration, is to do nothing.
  pub decide_settles :
      (i : DiffInput)
      → is_done (decide upper_case i).action ≡ true
      → (decide upper_case (settled (decide upper_case i).action i)).action ≡ VerdictAction.noop
  decide_settles i h =
      let (eligible, same) = decide_done i h in
      decide_noop _ (settled-is_eligible (decide upper_case i).action i eligible)
        (rw same (core_settles i.local i.remote i.base i.config (rw (← same) h)))
