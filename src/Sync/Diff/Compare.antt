-- ===== src/Sync/Diff/Compare.antt =====
-- backend/sync/diff-engine.ts: comparing two sides, and the sets of actions that the overrides test.
use cnc_network_bridge.Base.{
  String, Bool, true, false, ◌&&◌, Option, none, some, ◌==◌, if◌then◌else◌, str_eq, is_some,
}
use cnc_network_bridge.Sync.Diff.Types.{
  FileSide, Side, DiffInput, VerdictAction, Place, Verdict, SideChange, absent, created, unchanged,
  changed, deleted,
}

-- Hashes decide where both are known, else size and time do.
abbrev pub equal_hash_or : Option String → Option String → Bool → Bool
equal_hash_or (some x) (some y) other = str_eq x y
equal_hash_or (some x) none other = other
equal_hash_or none y other = other

unfoldable pub same_content : FileSide → FileSide → Bool
same_content a b = equal_hash_or a.hash b.hash (a.size == b.size && a.mtime == b.mtime)

unfoldable pub classify_side : Side → Side → SideChange
classify_side none none = absent
classify_side (some side) none = created
classify_side none (some base) = deleted
classify_side (some side) (some base) = if same_content side base then unchanged else changed

unfoldable pub needs_capture : Side → Side → Bool
needs_capture none survivor = false
needs_capture (some victim) none = true
needs_capture (some victim) (some survivor) = if same_content victim survivor then false else true

abbrev pub both_same : Side → Side → Bool
both_same (some l) (some r) = same_content l r
both_same (some l) none = false
both_same none r = false

abbrev pub place_name : Place → String
place_name Place.local = "local"
place_name Place.remote = "remote"

abbrev pub other_place : Place → Place
other_place Place.local = Place.remote
other_place Place.remote = Place.local

abbrev pub side_at : Place → Side → Side → Side
side_at Place.local local remote = local
side_at Place.remote local remote = remote

unfoldable pub is_server_mutating : VerdictAction → Bool
is_server_mutating VerdictAction.push = true
is_server_mutating VerdictAction.delete_remote = true
is_server_mutating _ = false

unfoldable pub is_local_mutating : VerdictAction → Bool
is_local_mutating VerdictAction.pull = true
is_local_mutating VerdictAction.delete_local = true
is_local_mutating _ = false

unfoldable pub needs_a_reachable_server : VerdictAction → Bool
needs_a_reachable_server VerdictAction.push = true
needs_a_reachable_server VerdictAction.delete_remote = true
needs_a_reachable_server VerdictAction.delete_local = true
needs_a_reachable_server _ = false

destroys_by : DiffInput → VerdictAction → Bool
unfolding needs_capture
destroys_by input VerdictAction.pull = needs_capture input.local input.remote
destroys_by input VerdictAction.push = needs_capture input.remote input.local
destroys_by input VerdictAction.delete_local = is_some input.local
destroys_by input VerdictAction.delete_remote = is_some input.remote
destroys_by input _ = false

-- Whether a verdict will destroy content.
unfoldable pub destroys_data : DiffInput → Verdict → Bool
unfolding destroys_by
destroys_data input v = destroys_by input v.action
