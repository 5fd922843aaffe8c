-- ===== src/Sync/Diff/Capture.antt =====
-- Version captures of backend/sync/diff-engine.ts: what a verdict destroys, it captures first.
use mathlib.Core.Option
use text.Mathlib.TextEquality.{eq_iff}
use cnc_network_bridge.Base.{
  String, ◌≡◌, refl, Bool, Option, none, some, if◌then◌else◌, arith, str_eq,
}
use cnc_network_bridge.Sync.Diff.Types.{
  FileSide, Side, DiffConfig, DiffInput, VerdictAction, Place, VersionCapture, Verdict,
}
use cnc_network_bridge.Sync.Diff.{decide_core, core_verdict, decide, apply_availability_overrides}
use cnc_network_bridge.Sync.Diff.Compare.{same_content, classify_side, destroys_data, equal_hash_or}
use cnc_network_bridge.Sync.Diff.Resolve.{choose, winning_action}

str_eq_comm : (s t : String) → str_eq s t ≡ str_eq t s
str_eq_comm s t = ground (arith, eq_iff s t, eq_iff t s)

equal_hash_or_comm :
    (x y : Option String) (p q : Bool) → p ≡ q → equal_hash_or x y p ≡ equal_hash_or y x q
equal_hash_or_comm none none p q e = e
equal_hash_or_comm none (some y) p q e = e
equal_hash_or_comm (some x) none p q e = e
equal_hash_or_comm (some x) (some y) p q e = str_eq_comm x y

pub same_content_comm : (a b : FileSide) → same_content a b ≡ same_content b a
unfolding same_content
same_content_comm a b = equal_hash_or_comm a.hash b.hash _ _ (ground arith)

-- The side that an action writes over or deletes from.
abbrev pub written_side : VerdictAction → Option Place
written_side VerdictAction.pull = some Place.local
written_side VerdictAction.delete_local = some Place.local
written_side VerdictAction.push = some Place.remote
written_side VerdictAction.delete_remote = some Place.remote
written_side _ = none

abbrev pub captured_side : Verdict → Option Place
captured_side v = Option.map (λ (c : VersionCapture). c.side) v.capture_version

abbrev pub CapturesWhatItDestroys : DiffInput → Verdict → Type 0
CapturesWhatItDestroys i v =
    captured_side v ≡ (if destroys_data i v then written_side v.action else none)

module _ (upper_case : String → String) where
  core_captures :
      (l r b : Side) (c : DiffConfig)
      → CapturesWhatItDestroys
          (record { local = l; remote = r; base = b; config = c })
          (decide_core upper_case l r (classify_side l b) (classify_side r b) c)
  unfolding decide_core classify_side destroys_data choose winning_action
  core_captures none none none c = refl
  core_captures none none (some b) c = refl
  core_captures none (some r) none c = refl
  core_captures none (some r) (some b) c = ground arith
  core_captures (some l) none none c = refl
  core_captures (some l) none (some b) c = ground arith
  core_captures (some l) (some r) none c = ground (arith, same_content_comm l r)
  core_captures (some l) (some r) (some b) c = ground (arith, same_content_comm l r)

  overrides_capture :
      (i : DiffInput) (v : Verdict)
      → CapturesWhatItDestroys i v
      → CapturesWhatItDestroys i (apply_availability_overrides v i.config)
  unfolding apply_availability_overrides destroys_data
  overrides_capture i v h = ground arith

  -- For every input the verdict captures the side that it writes over or deletes from exactly if
  -- content would be destroyed there, and captures nothing otherwise.
  pub decide_captures : (i : DiffInput) → CapturesWhatItDestroys i (decide upper_case i)
  unfolding decide destroys_data
  decide_captures i = ground (
    arith,
    overrides_capture i (core_verdict upper_case i)
        (core_captures i.local i.remote i.base i.config),
  )
