-- ===== src/Sync/Diff/Availability.antt =====
-- The availability overrides of backend/sync/diff-engine.ts, against the sides that an action
-- touches.
use cnc_network_bridge.Base.{
  String, ◌≡◌, Bool, true, false, not, ◌&&◌, ◌||◌, ltb, max, if◌then◌else◌, arith,
}
use cnc_network_bridge.Sync.Diff.Types.{
  Side, DiffConfig, DiffInput, VerdictAction, Place, Verdict, SideChange,
}
use cnc_network_bridge.Sync.Diff.{
  decide_core, core_verdict, decide, size_of, apply_availability_overrides,
}
use cnc_network_bridge.Sync.Diff.Compare.{classify_side}
use cnc_network_bridge.Sync.Diff.Resolve.{winning_action}

-- Whether an action writes to a side, or deletes from it.
abbrev pub touches : Place → VerdictAction → Bool
touches Place.local VerdictAction.pull = true
touches Place.local VerdictAction.delete_local = true
touches Place.remote VerdictAction.push = true
touches Place.remote VerdictAction.delete_remote = true
touches Place.local _ = false
touches Place.remote _ = false

abbrev pub deletes : Place → VerdictAction → Bool
deletes Place.local VerdictAction.delete_local = true
deletes Place.remote VerdictAction.delete_remote = true
deletes Place.local _ = false
deletes Place.remote _ = false

-- Not excluded, no collision, not oversized: the path reaches the table.
abbrev pub is_eligible : DiffInput → Bool
is_eligible i =
    not i.config.excluded
    && (not i.config.case_collision
        && not (ltb i.config.max_file_size_bytes (max (size_of i.local) (size_of i.remote))))

-- Whether the configuration forbids an action now.
abbrev pub is_forbidden : DiffConfig → VerdictAction → Bool
is_forbidden c a =
    (c.server_offline || c.read_only) && touches Place.remote a
    || c.server_offline && deletes Place.local a
    || c.locked && touches Place.local a

overrides-is_forbidden :
    (c : DiffConfig) (v : Verdict)
    → is_forbidden c (apply_availability_overrides v c).action ≡ false
unfolding apply_availability_overrides
overrides-is_forbidden c v = ground arith

abbrev pub is_defer : VerdictAction → Bool
is_defer VerdictAction.defer = true
is_defer _ = false

module _ (upper_case : String → String) where
  core-ne-defer :
      (l r : Side) (x y : SideChange) (c : DiffConfig)
      → is_defer (decide_core upper_case l r x y c).action ≡ false
  unfolding decide_core winning_action
  core-ne-defer l r x y c = ground arith

  -- A machine's open file is never written over or deleted in the cache, a server that is away or
  -- read-only is never written to, and while it is away nothing is deleted from the cache either.
  pub decide-is_forbidden :
      (i : DiffInput) → is_forbidden i.config (decide upper_case i).action ≡ false
  unfolding decide
  decide-is_forbidden i =
      ground (arith, overrides-is_forbidden i.config (core_verdict upper_case i))

  -- The verdict is deferred exactly if the path reaches the table and the configuration forbids the
  -- action that the table gives.
  decide_defers :
      (i : DiffInput)
      → is_defer (decide upper_case i).action
        ≡ (is_eligible i && is_forbidden i.config (core_verdict upper_case i).action)
  unfolding decide apply_availability_overrides
  decide_defers i = ground (
    arith,
    core-ne-defer i.local i.remote (classify_side i.local i.base) (classify_side i.remote i.base)
        i.config,
  )

  -- A path that reaches the table keeps the table's conflict record and warnings, deferred or not,
  -- and where the configuration allows the action it keeps the whole verdict.
  pub decide_eligible :
      (i : DiffInput)
      → is_eligible i ≡ true
      → ((decide upper_case i).conflict ≡ (core_verdict upper_case i).conflict)
        × ((decide upper_case i).warnings ≡ (core_verdict upper_case i).warnings)
        × (decide upper_case i ≡ (
            if is_forbidden i.config (core_verdict upper_case i).action
            then decide upper_case i
            else core_verdict upper_case i))
  unfolding decide apply_availability_overrides
  decide_eligible i h = ground arith
