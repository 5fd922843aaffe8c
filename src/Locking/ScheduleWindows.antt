-- ===== src/Locking/ScheduleWindows.antt =====
-- backend/locking/schedule-windows.ts: the jobs that lock and unlock paths by a schedule. The compiler of glob
-- patterns is a parameter. The clock is read anew for each lock, so that the times are functions of the path
-- and of the lock's id. What is wrong with a single lock is only logged.
pub mod Lock
pub mod Unlock
mod Tests
use cnc_network_bridge.Base.{
  ℕ, suc, ◌+◌, ◌*◌, String, Bool, true, false, not, ◌&&◌, Option, none, some, List, [], ◌∷◌, ltb,
  ◌==◌, if◌then◌else◌, ◌<>◌, decimal, str_eq, filter_by, any_of,
}
use cnc_network_bridge.Scheduling.Jobs.{ScheduleTarget, JobContext, JobOutcome}
use cnc_network_bridge.Locking.LockManager.Rows.{LockRow, LockOrigin, schedule, is_active, is_on}
use cnc_network_bridge.Locking.LockManager.Projection.{
  LockingConfig, Outside, Store, Result, ok, err, AcquireLockInput,
}
use cnc_network_bridge.Locking.LockManager.{acquire, release, get_active}

-- The tables that the jobs read beside the locks: the ids of the shares, and the paths of the index by share.
pub record Tables : Type 0 where
  pub shares : List ℕ
  pub file_index : List (ℕ × String)

abbrev pub has_share : ℕ → Tables → Bool
has_share id tables = any_of (λ k. k == id) tables.shares

abbrev pub skip : String → JobOutcome
skip detail = record { detail = some detail; skipped = true }

abbrev pub report : String → JobOutcome
report detail = record { detail = some detail; skipped = false }

-- `SELECT DISTINCT`
abbrev pub distinct : List String → List String
distinct [] = []
distinct (p ∷ ps) = p ∷ filter_by (λ q. not (str_eq q p)) (distinct ps)

abbrev pub is_locked : ℕ → List LockRow → String → Bool
is_locked share_id rows path = any_of (λ r. is_on share_id path r && is_active r) rows

-- The paths of a share that have no lock which is not released.
abbrev pub unlocked_from : ℕ → List (ℕ × String) → List LockRow → List String
unlocked_from share_id [] rows = []
unlocked_from share_id ((k, path) ∷ files) rows =
    let rest = unlocked_from share_id files rows in
    if k == share_id && not (is_locked share_id rows path) then path ∷ rest else rest

unfoldable pub unlocked_paths : ℕ → Tables → List LockRow → List String
unlocked_paths share_id tables rows = distinct (unlocked_from share_id tables.file_index rows)

-- The store, and the counters `locked` and `skipped`.
pub record Tally : Type 0 where
  pub store : Store
  pub locked : ℕ
  pub skipped : ℕ

-- `durationMinutes ? durationMinutes * 60 : null`
abbrev ttl_of : Option ℕ → Option ℕ
ttl_of none = none
ttl_of (some minutes) = if minutes == 0 then none else some (minutes * 60)

abbrev pub window_input : JobContext → ScheduleTarget → ℕ → String → AcquireLockInput
window_input ctx target share_id path = record {
  share_id = share_id;
  rel_path = path;
  origin = schedule;
  owner_label = some ("Schedule " <> decimal ctx.schedule_id);
  machine_ip = none;
  smb_pid = none;
  smb_session_id = none;
  ttl_seconds = some (ttl_of target.duration_minutes);
  note = some ("Locked by schedule window \"" <> ctx.schedule_name <> "\"");
}

abbrev pub acquired_or_logged : Tally → Result → Tally
acquired_or_logged t (ok s row) = record t { store = s; locked = suc t.locked }
acquired_or_logged t (err e) = t

abbrev pub held_text : ℕ → String
held_text n = if ltb 0 n then ", " <> (decimal n <> " already held") else ""

abbrev pub scheduled_on : ℕ → LockRow → Bool
scheduled_on share_id r = elim r.origin [ LockOrigin.schedule ↦ r.share_id == share_id | _ ↦ false ]

-- `SELECT … WHERE share_id = @shareId AND origin = 'schedule' AND released_at IS NULL`
abbrev pub is_scheduled : ℕ → LockRow → Bool
is_scheduled share_id r = is_active r && scheduled_on share_id r

unfoldable pub scheduled : ℕ → List LockRow → List LockRow
scheduled share_id rows = filter_by (is_scheduled share_id) rows

module _ (matcher : String → String → Bool) (config : LockingConfig) (out : Outside) where
  -- A path with an active lock is skipped, whoever holds it.
  abbrev pub lock_found :
      Option LockRow → JobContext → ScheduleTarget → ℕ → String → ℕ → Tally → Tally
  lock_found (some existing) ctx target share_id path now t = record t { skipped = suc t.skipped }
  lock_found none ctx target share_id path now t =
      acquired_or_logged t (acquire config out (window_input ctx target share_id path) now t.store)

  pub lock_path : JobContext → ScheduleTarget → ℕ → String → ℕ → Tally → Tally
  unfolding get_active
  lock_path ctx target share_id path now t =
      lock_found (get_active share_id path t.store) ctx target share_id path now t

  pub lock_paths :
      JobContext → ScheduleTarget → ℕ → String → (String → ℕ) → List String → Tally → Tally
  unfolding lock_path
  lock_paths ctx target share_id glob at [] t = t
  lock_paths ctx target share_id glob at (path ∷ paths) t =
      lock_paths ctx target share_id glob at paths
        (if matcher glob path then lock_path ctx target share_id path (at path) t else t)

  abbrev pub lock_all :
      Tables → JobContext → ScheduleTarget → ℕ → String → (String → ℕ) → Store → Tally
  lock_all tables ctx target share_id glob at s =
      lock_paths ctx target share_id glob at (unlocked_paths share_id tables s.rows)
        (record { store = s; locked = 0; skipped = 0 })

  abbrev pub lock_share :
      Tables → JobContext → ScheduleTarget → ℕ → String → (String → ℕ) → Store → Store × JobOutcome
  lock_share tables ctx target share_id glob at s =
      let t = lock_all tables ctx target share_id glob at s in
      if has_share share_id tables
      then (t.store, report ("locked " <> (decimal t.locked <> (" paths" <> held_text t.skipped))))
      else (s, skip ("share " <> (decimal share_id <> " not found")))

  abbrev pub lock_target :
      Option ℕ
      → Option String
      → Tables
      → JobContext
      → ScheduleTarget
      → (String → ℕ)
      → Store
      → Store × JobOutcome
  lock_target (some share_id) (some glob) tables ctx target at s =
      lock_share tables ctx target share_id glob at s
  lock_target _ _ tables ctx target at s = (s, skip "no target or path glob specified")

  abbrev pub lock_window :
      Option ScheduleTarget → Tables → JobContext → (String → ℕ) → Store → Store × JobOutcome
  lock_window none tables ctx at s = (s, skip "no target or path glob specified")
  lock_window (some target) tables ctx at s =
      lock_target target.share_id target.path_glob tables ctx target at s

  unfoldable pub handle_lock_window :
      Tables → JobContext → (String → ℕ) → Store → Store × JobOutcome
  unfolding lock_paths unlocked_paths
  handle_lock_window tables ctx at s = lock_window ctx.target tables ctx at s

module _ (out : Outside) where
  abbrev pub released_or_logged : Store × ℕ → Result → Store × ℕ
  released_or_logged (s, released) (ok s' row) = (s', suc released)
  released_or_logged (s, released) (err e) = (s, released)

  abbrev pub unlock_reason : JobContext → Option String
  unlock_reason ctx = some ("Released by unlock schedule window \"" <> (ctx.schedule_name <> "\""))

  pub release_all : JobContext → (ℕ → ℕ) → List LockRow → Store × ℕ → Store × ℕ
  release_all ctx at [] t = t
  release_all ctx at (lock ∷ locks) t =
      release_all ctx at locks
        (released_or_logged t (release out lock.id (unlock_reason ctx) false (at lock.id) t.0))

  abbrev pub released_text : ℕ → String
  released_text n =
      if ltb 0 n then "released " <> (decimal n <> " locks") else "no scheduled locks to release"

  abbrev pub unlock_share : Tables → JobContext → ℕ → (ℕ → ℕ) → Store → Store × JobOutcome
  unlock_share tables ctx share_id at s =
      let t = release_all ctx at (scheduled share_id s.rows) (s, 0) in
      if has_share share_id tables
      then (t.0, report (released_text t.1))
      else (s, skip ("share " <> (decimal share_id <> " not found")))

  abbrev pub unlock_target : Option ℕ → Tables → JobContext → (ℕ → ℕ) → Store → Store × JobOutcome
  unlock_target none tables ctx at s = (s, skip "no target share specified")
  unlock_target (some share_id) tables ctx at s = unlock_share tables ctx share_id at s

  abbrev pub unlock_window :
      Option ScheduleTarget → Tables → JobContext → (ℕ → ℕ) → Store → Store × JobOutcome
  unlock_window none tables ctx at s = (s, skip "no target share specified")
  unlock_window (some target) tables ctx at s = unlock_target target.share_id tables ctx at s

  unfoldable pub handle_unlock_window : Tables → JobContext → (ℕ → ℕ) → Store → Store × JobOutcome
  unfolding release_all scheduled
  handle_unlock_window tables ctx at s = unlock_window ctx.target tables ctx at s
