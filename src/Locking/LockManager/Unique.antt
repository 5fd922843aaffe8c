-- ===== src/Locking/LockManager/Unique.antt =====
-- At most one active lock for a file, through every operation of backend/locking/lock-manager.ts.
use cnc_network_bridge.Base.{
  ℕ, any_of, ◌==◌, String, ◌≡◌, refl, Bool, false, ◌&&◌, ◌||◌, Option, some, List, [], ◌∷◌, ◌++◌,
  if◌then◌else◌, eq_iff, is_some, arith, inl, inr, Bool-cases, Option-cases,
}
use cnc_network_bridge.Locking.LockManager.Rows.{
  LockRow, Update, set_released, set_projected, set_read_only, set_lost, set_row, is_active, is_on,
  find_active, find_active_id,
}
use cnc_network_bridge.Locking.LockManager.Keeps.{project-keeps, finish-keeps, finish_all-keeps}
use cnc_network_bridge.Locking.LockManager.Restart.{
  sweep_read_only_leftovers, lose_holder, restore_server_locks, shutdown, leftovers, projected,
  record_projection_loss,
}
use cnc_network_bridge.Locking.LockManager.RestartKeeps.{sweep_all-keeps, restore_all-keeps}
use cnc_network_bridge.Locking.LockManager.Projection.{
  let_go, LockingConfig, Outside, Store, Result, ok, err, AcquireLockInput, force_released,
  released,
}
use cnc_network_bridge.Locking.LockManager.{
  acquire, insert_lock, row_of, release, expire_stale, stale,
}

-- No later row is an active lock on the file of an earlier active one.
abbrev pub OneActive : List LockRow → Type 0
OneActive [] = Unit
OneActive (r ∷ rs) =
    ((is_active r && is_some (find_active r.share_id r.rel_path rs)) ≡ false) × OneActive rs

find_active-set_row :
    (id : ℕ) (u : Update) (k : ℕ) (p : String) (rs : List LockRow)
    → is_some (find_active k p rs) ≡ false
    → is_some (find_active k p (set_row id u rs)) ≡ false
unfolding find_active set_row
find_active-set_row id u k p [] h = refl
find_active-set_row id (set_released n o) k p (r ∷ rs) h =
    ground (arith, find_active-set_row id (set_released n o) k p rs)
find_active-set_row id (set_projected b o) k p (r ∷ rs) h =
    ground (arith, find_active-set_row id (set_projected b o) k p rs)
find_active-set_row id (set_read_only b) k p (r ∷ rs) h =
    ground (arith, find_active-set_row id (set_read_only b) k p rs)
find_active-set_row id (set_lost e) k p (r ∷ rs) h =
    ground (arith, find_active-set_row id (set_lost e) k p rs)

pub set_row-OneActive :
    (id : ℕ) (u : Update) (rs : List LockRow) → OneActive rs → OneActive (set_row id u rs)
unfolding set_row
set_row-OneActive id u [] h = tt
set_row-OneActive id (set_released n o) (r ∷ rs) (a, h) = (
  ground (arith, find_active-set_row id (set_released n o) r.share_id r.rel_path rs),
  set_row-OneActive id (set_released n o) rs h,
)
set_row-OneActive id (set_projected b o) (r ∷ rs) (a, h) = (
  ground (arith, find_active-set_row id (set_projected b o) r.share_id r.rel_path rs),
  set_row-OneActive id (set_projected b o) rs h,
)
set_row-OneActive id (set_read_only b) (r ∷ rs) (a, h) = (
  ground (arith, find_active-set_row id (set_read_only b) r.share_id r.rel_path rs),
  set_row-OneActive id (set_read_only b) rs h,
)
set_row-OneActive id (set_lost e) (r ∷ rs) (a, h) = (
  ground (arith, find_active-set_row id (set_lost e) r.share_id r.rel_path rs),
  set_row-OneActive id (set_lost e) rs h,
)

pub find_active-push :
    (k : ℕ) (p : String) (r : LockRow) (rs : List LockRow)
    → is_some (find_active k p (rs ++ r ∷ []))
      ≡ (is_some (find_active k p rs) || is_on k p r && is_active r)
unfolding find_active
find_active-push k p r [] = ground arith
find_active-push k p r (q ∷ rs) = ground (arith, find_active-push k p r rs)

pub push-OneActive :
    (r : LockRow) (rs : List LockRow)
    → OneActive rs
    → is_some (find_active r.share_id r.rel_path rs) ≡ false
    → OneActive (rs ++ r ∷ [])
unfolding find_active
push-OneActive r [] h f = (ground arith, tt)
push-OneActive r (q ∷ rs) (a, h) f = (
  ground (
    arith,
    find_active-push q.share_id q.rel_path r rs,
    eq_iff q.rel_path r.rel_path,
    eq_iff r.rel_path q.rel_path,
  ),
  push-OneActive r rs h (ground arith),
)

-- The calls that a manager receives, with their configuration, what they meet outside and their time.
pub data Call : Type 0 where
  acquires : LockingConfig → Outside → AcquireLockInput → ℕ → Call
  releases : Outside → ℕ → Option String → Bool → ℕ → Call
  expires : Outside → ℕ → Call
  sweeps : Outside → Call
  loses : ℕ → String → Call
  restarts : Outside → Call
  shuts_down : Call

-- The store after a call; one that fails leaves it as it was.
abbrev pub after : Store → Result → Store
after s (ok s' r) = s'
after s (err e) = s

unfoldable pub step : Call → Store → Store
step (acquires config out input now) s = after s (acquire config out input now s)
step (releases out id why forced now) s = after s (release out id why forced now s)
step (expires out now) s = expire_stale out now s
step (sweeps out) s = (sweep_read_only_leftovers out s).0
step (loses id why) s = lose_holder id why s
step (restarts out) s = (restore_server_locks out s).0
step shuts_down s = shutdown s

unfoldable pub run : List Call → Store → Store
run [] s = s
run (c ∷ cs) s = run cs (step c s)

insert-OneActive :
    (out : Outside) (r : LockRow) (s : Store)
    → OneActive s.rows
    → is_some (find_active r.share_id r.rel_path s.rows) ≡ false
    → OneActive (insert_lock out r s).rows
unfolding insert_lock
insert-OneActive out r s h f =
    project-keeps OneActive (λ id u rs e. set_row-OneActive id u rs) out r r.server_lock_kind _
      (push-OneActive r s.rows h f)

acquire-OneActive :
    (config : LockingConfig) (out : Outside) (input : AcquireLockInput) (now : ℕ) (s : Store)
    → OneActive s.rows
    → OneActive (after s (acquire config out input now s)).rows
unfolding acquire
acquire-OneActive config out input now s h = elim (Bool-cases config.enabled) [
  | inr off ↦ rw off h
  | inl on ↦ elim (Option-cases (find_active input.share_id input.rel_path s.rows)) [
    | inr (r, taken) ↦ rw (on, taken, acquire) h
    | inl free ↦
        rw (on, free, acquire)
          (insert-OneActive out (row_of config input now s.rows) s h (rw free refl))
  ]
]

release-OneActive :
    (out : Outside) (id : ℕ) (why : Option String) (forced : Bool) (now : ℕ) (s : Store)
    → OneActive s.rows
    → OneActive (after s (release out id why forced now s)).rows
unfolding release
release-OneActive out id why forced now s h = elim (Option-cases (find_active_id id s.rows)) [
  | inl gone ↦ rw (gone, release) h
  | inr (r, there) ↦
      rw (there, release)
        (finish-keeps OneActive (λ id u rs e. set_row-OneActive id u rs) out r
          (if forced then force_released else released) why now s
          (set_row-OneActive r.id (set_released now why) s.rows h))
]

step-OneActive : (c : Call) (s : Store) → OneActive s.rows → OneActive (step c s).rows
unfolding step expire_stale sweep_read_only_leftovers restore_server_locks lose_holder
    record_projection_loss let_go set_row
step-OneActive (acquires config out input now) s h = acquire-OneActive config out input now s h
step-OneActive (releases out id why forced now) s h = release-OneActive out id why forced now s h
step-OneActive (expires out now) s h =
    finish_all-keeps OneActive set_row-OneActive out now (stale now s.rows) s h
step-OneActive (sweeps out) s h =
    sweep_all-keeps OneActive (λ id u rs e. set_row-OneActive id u rs) out (leftovers s.rows) s h
step-OneActive (loses id why) s h = elim (Bool-cases (any_of (λ k. k == id) s.holders)) [
  | inl held ↦ rw held (set_row-OneActive id (set_lost (some why)) s.rows h)
  | inr gone ↦ rw gone h
]
step-OneActive (restarts out) s h =
    restore_all-keeps OneActive (λ id u rs e. set_row-OneActive id u rs) out (projected s.rows) s h
step-OneActive shuts_down s h = h

-- Whatever is asked of the manager, and whatever fails on the server meanwhile, a file never has two
-- active locks, if it did not at the start.
pub run-OneActive : (cs : List Call) (s : Store) → OneActive s.rows → OneActive (run cs s).rows
unfolding run
run-OneActive [] s h = h
run-OneActive (c ∷ cs) s h = run-OneActive cs (step c s) (step-OneActive c s h)
