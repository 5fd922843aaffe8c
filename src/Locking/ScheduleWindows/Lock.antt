-- ===== src/Locking/ScheduleWindows/Lock.antt =====
-- What a lock window of backend/locking/schedule-windows.ts leaves.
use cnc_network_bridge.Base.{
  ℕ, ◌≡◌, refl, sym, ap, subst, ◌∙◌, String, Bool, true, false, not, ◌&&◌, Option, none, some, List,
  [], ◌∷◌, ◌++◌, ◌==◌, str_eq, eq_iff, any_of, filter_by, is_some, arith, if_branches, Bool-cases,
  Option-cases, inl, inr,
}
use cnc_network_bridge.Scheduling.Jobs.{ScheduleTarget, JobContext, JobOutcome}
use cnc_network_bridge.Locking.LockManager.Rows.{LockRow, Update, set_row, find_active}
use cnc_network_bridge.Locking.LockManager.Projection.{
  LockingConfig, Outside, Store, Result, ok, err,
}
use cnc_network_bridge.Locking.LockManager.Keeps.{is_release}
use cnc_network_bridge.Locking.LockManager.{acquire, get_active}
use cnc_network_bridge.Locking.LockManager.Unique.{after, find_active-push}
use cnc_network_bridge.Locking.LockManager.Grants.{held-set_row, acquire_grants, IsGranted}
use cnc_network_bridge.Locking.LockManager.CallKeeps.{acquire-keeps}
use cnc_network_bridge.Locking.LockManager.Still.{Still, Still-set_row, Still-append}
use cnc_network_bridge.Locking.ScheduleWindows.{
  Tables, Tally, has_share, distinct, is_locked, unlocked_from, unlocked_paths, window_input,
  acquired_or_logged, lock_found, lock_path, lock_paths, lock_all, lock_target, lock_window,
  handle_lock_window,
}

-- The file has an active lock.
abbrev pub IsHeld : ℕ → String → List LockRow → Type 0
IsHeld k p rs = is_some (find_active k p rs) ≡ true

IsHeld-append :
    (k : ℕ) (p : String) (r : LockRow) (rs : List LockRow)
    → IsHeld k p rs
    → IsHeld k p (rs ++ r ∷ [])
IsHeld-append k p r rs h = find_active-push k p r rs ∙ rw h refl

is_locked-IsHeld :
    (k : ℕ) (p : String) (rs : List LockRow) → is_locked k rs p ≡ true → IsHeld k p rs
unfolding find_active
is_locked-IsHeld k p [] h = absurd (cc)
is_locked-IsHeld k p (r ∷ rs) h = ground (arith, is_locked-IsHeld k p rs)

abbrev has_path : String → List String → Bool
has_path p ps = any_of (λ q. str_eq q p) ps

filter_path :
    (p q : String) (ps : List String)
    → str_eq q p ≡ false
    → has_path p (filter_by (λ x. not (str_eq x q)) ps) ≡ has_path p ps
filter_path p q [] e = refl
filter_path p q (x ∷ xs) e =
    ground (arith, filter_path p q xs e, eq_iff x q, eq_iff x p, eq_iff q p)

has_path-distinct : (p : String) (ps : List String) → has_path p (distinct ps) ≡ has_path p ps
has_path-distinct p [] = refl
has_path-distinct p (q ∷ ps) = elim (Bool-cases (str_eq q p)) [
  | inl here ↦ rw here refl
  | inr other ↦ rw other (filter_path p q (distinct ps) other ∙ has_path-distinct p ps)
]

-- The index has the path for the share.
abbrev pub in_index : ℕ → String → List (ℕ × String) → Bool
in_index k p files = any_of (λ (f : ℕ × String). f.0 == k && str_eq f.1 p) files

has_path-unlocked :
    (k : ℕ) (p : String) (files : List (ℕ × String)) (rows : List LockRow)
    → in_index k p files ≡ true
    → is_locked k rows p ≡ false
    → has_path p (unlocked_from k files rows) ≡ true
has_path-unlocked k p [] rows e free = absurd (cc)
has_path-unlocked k p ((j, q) ∷ files) rows e free =
    let rest = λ (x : in_index k p files ≡ true). has_path-unlocked k p files rows x free in
    let same : str_eq q p ≡ true → is_locked k rows q ≡ false =
      λ x. ap (is_locked k rows) ((eq_iff q p).0 x) ∙ free in
    if_branches (λ (ps : List String). has_path p ps ≡ true) ((j == k) && not (is_locked k rows q))
      _ _ (λ taken. ground (arith, rest, e, taken)) (λ left. ground (arith, rest, e, left, same))

module _ (matcher : String → String → Bool) (config : LockingConfig) (out : Outside) where
  module _ (P : List LockRow → Type 0)
      (kept : (id : ℕ) (u : Update) (rs : List LockRow)
        → is_release u ≡ false
        → P rs
        → P (set_row id u rs))
      (pushed : (r : LockRow) (rs : List LockRow) → P rs → P (rs ++ r ∷ [])) (ctx : JobContext)
      (target : ScheduleTarget) (k : ℕ) (glob : String) (at : String → ℕ) where
    logged-keeps :
        (t : Tally) (r : Result)
        → P t.store.rows
        → P (after t.store r).rows
        → P (acquired_or_logged t r).store.rows
    logged-keeps t (ok s row) h a = a
    logged-keeps t (err e) h a = h

    lock_found-keeps :
        (found : Option LockRow) (path : String) (now : ℕ) (t : Tally)
        → P t.store.rows
        → P (lock_found matcher config out found ctx target k path now t).store.rows
    lock_found-keeps (some r) path now t h = h
    lock_found-keeps none path now t h =
        let input = window_input ctx target k path in
        logged-keeps t (acquire config out input now t.store) h
          (acquire-keeps P kept pushed config out input now t.store h)

    lock_path-keeps :
        (path : String) (now : ℕ) (t : Tally)
        → P t.store.rows
        → P (lock_path matcher config out ctx target k path now t).store.rows
    unfolding lock_path
    lock_path-keeps path now t h = lock_found-keeps (get_active k path t.store) path now t h

    lock_paths-keeps :
        (paths : List String) (t : Tally)
        → P t.store.rows
        → P (lock_paths matcher config out ctx target k glob at paths t).store.rows
    unfolding lock_paths
    lock_paths-keeps [] t h = h
    lock_paths-keeps (path ∷ paths) t h = lock_paths-keeps paths _ (
        if_branches (λ (u : Tally). P u.store.rows) (matcher glob path) _ t
          (λ _. lock_path-keeps path (at path) t h) (λ _. h))

  module _ (ctx : JobContext) (target : ScheduleTarget) (k : ℕ) (glob : String) (at : String → ℕ)
      (on : config.enabled ≡ true) where
    granted :
        (p : String) (t : Tally) (r : Result)
        → IsGranted k p r
        → IsHeld k p (acquired_or_logged t r).store.rows
    granted p t (ok s row) g = g.0
    granted p t (err e) g = absurd g

    lock_path_holds :
        (p : String) (now : ℕ) (t : Tally)
        → IsHeld k p (lock_path matcher config out ctx target k p now t).store.rows
    unfolding lock_path get_active
    lock_path_holds p now t = elim (Option-cases (find_active k p t.store.rows)) [
      | inr (r, taken) ↦
          subst (λ f. IsHeld k p (lock_found matcher config out f ctx target k p now t).store.rows)
            (sym taken) (ap is_some taken)
      | inl free ↦
          subst (λ f. IsHeld k p (lock_found matcher config out f ctx target k p now t).store.rows)
            (sym free)
            (granted p t _
              (acquire_grants config out (window_input ctx target k p) now t.store on free))
    ]

    lock_paths_hold :
        (p : String) (paths : List String) (t : Tally)
        → matcher glob p ≡ true
        → has_path p paths ≡ true
        → IsHeld k p (lock_paths matcher config out ctx target k glob at paths t).store.rows
    unfolding lock_paths
    lock_paths_hold p [] t m e = absurd (cc)
    lock_paths_hold p (q ∷ paths) t m e = elim (Bool-cases (str_eq q p)) [
      | inl here ↦
          let same : p ≡ q = sym ((eq_iff q p).0 here) in
          lock_paths-keeps (IsHeld k p) (held-set_row k p) (IsHeld-append k p) ctx target k glob at
            paths _
            (rw (ap (matcher glob) (sym same) ∙ m) (
              subst
                (λ x. IsHeld k p (lock_path matcher config out ctx target k x (at x) t).store.rows)
                same (lock_path_holds p (at p) t)))
      | inr other ↦ lock_paths_hold p paths _ m (sym (rw other refl) ∙ e)
    ]

    lock_all-IsHeld :
        (p : String) (tables : Tables) (s : Store)
        → in_index k p tables.file_index ≡ true
        → matcher glob p ≡ true
        → IsHeld k p (lock_all matcher config out tables ctx target k glob at s).store.rows
    unfolding unlocked_paths
    lock_all-IsHeld p tables s there m = elim (Bool-cases (is_locked k s.rows p)) [
      | inl locked ↦
          lock_paths-keeps (IsHeld k p) (held-set_row k p) (IsHeld-append k p) ctx target k glob at
            _ _ (is_locked-IsHeld k p s.rows locked)
      | inr free ↦
          lock_paths_hold p (unlocked_paths k tables s.rows) _ m
            (has_path-distinct p _ ∙ has_path-unlocked k p tables.file_index s.rows there free)
    ]

  lock_target-Still :
      (share_id : Option ℕ) (glob : Option String) (tables : Tables) (ctx : JobContext)
      (target : ScheduleTarget) (at : String → ℕ) (s : Store) (l : LockRow)
      → Still l s.rows
      → Still l (lock_target matcher config out share_id glob tables ctx target at s).0.rows
  lock_target-Still none glob tables ctx target at s l h = h
  lock_target-Still (some k) none tables ctx target at s l h = h
  lock_target-Still (some k) (some glob) tables ctx target at s l h =
      if_branches (λ (r : Store × JobOutcome). Still l r.0.rows) (has_share k tables) _ _
        (λ _.
          lock_paths-keeps (Still l) (Still-set_row l) (Still-append l) ctx target k glob at
            (unlocked_paths k tables s.rows) _ h)
        (λ _. h)

  lock_window-Still :
      (target : Option ScheduleTarget) (tables : Tables) (ctx : JobContext) (at : String → ℕ)
      (s : Store) (l : LockRow)
      → Still l s.rows
      → Still l (lock_window matcher config out target tables ctx at s).0.rows
  lock_window-Still none tables ctx at s l h = h
  lock_window-Still (some target) tables ctx at s l h =
      lock_target-Still target.share_id target.path_glob tables ctx target at s l h

  window_target :
      (share_id : Option ℕ) (pattern : Option String) (tables : Tables) (ctx : JobContext)
      (target : ScheduleTarget) (at : String → ℕ) (s : Store) (k : ℕ) (glob p : String)
      → config.enabled ≡ true
      → share_id ≡ some k
      → pattern ≡ some glob
      → has_share k tables ≡ true
      → in_index k p tables.file_index ≡ true
      → matcher glob p ≡ true
      → IsHeld k p (lock_target matcher config out share_id pattern tables ctx target at s).0.rows
  window_target share_id pattern tables ctx target at s k glob p on e f there listed m =
      subst
        (λ x. IsHeld k p (lock_target matcher config out x pattern tables ctx target at s).0.rows)
        (sym e)
        (subst
          (λ y.
            IsHeld k p (lock_target matcher config out (some k) y tables ctx target at s).0.rows)
          (sym f)
          (if_branches (λ (r : Store × JobOutcome). IsHeld k p r.0.rows) (has_share k tables) _ _
            (λ _. lock_all-IsHeld ctx target k glob at on p tables s listed m)
            (λ gone. absurd (cc))))

  -- Where locking is enabled and the share is there, a lock window leaves every path of the share's index that
  -- its pattern matches with an active lock, whatever the server answers, and every lock that was active
  -- before, whoever holds it, stays active on its file and with its origin.
  pub window_locks :
      (tables : Tables) (ctx : JobContext) (at : String → ℕ) (s : Store) (target : ScheduleTarget)
      (k : ℕ) (glob p : String) (l : LockRow)
      → config.enabled ≡ true
      → ctx.target ≡ some target
      → target.share_id ≡ some k
      → target.path_glob ≡ some glob
      → has_share k tables ≡ true
      → in_index k p tables.file_index ≡ true
      → matcher glob p ≡ true
      → Still l s.rows
      → IsHeld k p (handle_lock_window matcher config out tables ctx at s).0.rows
        × Still l (handle_lock_window matcher config out tables ctx at s).0.rows
  unfolding handle_lock_window
  window_locks tables ctx at s target k glob p l on e f g there listed m h = (
    subst (λ x. IsHeld k p (lock_window matcher config out x tables ctx at s).0.rows) (sym e)
        (window_target target.share_id target.path_glob tables ctx target at s k glob p on f g there
          listed m),
    lock_window-Still ctx.target tables ctx at s l h,
  )
