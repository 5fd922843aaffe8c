-- ===== src/Locking/ScheduleWindows/Unlock.antt =====
-- What an unlock window of backend/locking/schedule-windows.ts leaves.
use cnc_network_bridge.Base.{
  ℕ, ◌≡◌, refl, sym, subst, ap, ◌∙◌, Bool, true, false, not, ◌&&◌, Option, none, some, List, [],
  ◌∷◌, ◌==◌, if◌then◌else◌, any_of, arith, if_branches, Bool-cases, inl, inr, beq_comm, nat_eq,
}
use cnc_network_bridge.Scheduling.Jobs.{ScheduleTarget, JobContext, JobOutcome}
use cnc_network_bridge.Locking.LockManager.Rows.{
  LockRow, LockOrigin, machine, manual, schedule, sync, Update, set_released, set_projected,
  set_read_only, set_lost, is_active, apply_update, find_active_id,
}
use cnc_network_bridge.Locking.LockManager.Projection.{Outside, Store, Result, ok, err}
use cnc_network_bridge.Locking.LockManager.{release}
use cnc_network_bridge.Locking.LockManager.Unique.{after}
use cnc_network_bridge.Locking.LockManager.Awaited.{
  Awaited, Awaited-set_row, Awaited-released, Awaited-selected, none_selected,
}
use cnc_network_bridge.Locking.LockManager.CallKeeps.{release-keeps}
use cnc_network_bridge.Locking.LockManager.Still.{same_origin, Still, Still-set_row, Still-released}
use cnc_network_bridge.Locking.ScheduleWindows.{
  Tables, has_share, scheduled_on, scheduled, release_all, released_or_logged, unlock_reason,
  unlock_target, unlock_window, handle_unlock_window,
}

scheduled_kept :
    (k : ℕ) (u : Update) (r : LockRow) → scheduled_on k (apply_update u r) ≡ scheduled_on k r
scheduled_kept k (set_released n o) r = refl
scheduled_kept k (set_projected b o) r = refl
scheduled_kept k (set_read_only b) r = refl
scheduled_kept k (set_lost b) r =
    if_branches (λ (x : LockRow). scheduled_on k x ≡ scheduled_on k r) (is_active r) _ r (λ _. refl)
      (λ _. refl)

abbrev IsAwaited : ℕ → List LockRow → List LockRow → Type 0
IsAwaited k = Awaited (scheduled_on k) (scheduled_kept k)

no_longer_awaited :
    (active kind here later : Bool)
    → (active && kind && not (if here then true else later)) ≡ false
    → (here && active) ≡ false
    → (active && kind && not later) ≡ false
no_longer_awaited active kind here later a b = ground arith

none_active :
    (id : ℕ) (r : LockRow) (rs : List LockRow)
    → find_active_id id (r ∷ rs) ≡ none
    → (((r.id == id) && is_active r) ≡ false) × (find_active_id id rs ≡ none)
unfolding find_active_id
none_active id r rs e = elim (Bool-cases ((r.id == id) && is_active r)) [
  | inl here ↦ absurd (let found : some r ≡ none = sym (rw here refl) ∙ e in cc found)
  | inr other ↦ (other, sym (rw other refl) ∙ e)
]

-- A lock whose id has no active row awaits nothing.
Awaited_gone :
    (k : ℕ) (l : LockRow) (ls rs : List LockRow)
    → find_active_id l.id rs ≡ none
    → IsAwaited k (l ∷ ls) rs
    → IsAwaited k ls rs
Awaited_gone k l ls [] gone h = tt
Awaited_gone k l ls (r ∷ rs) gone (a, h) =
    let (other, later) = none_active l.id r rs gone in
    (
      no_longer_awaited (is_active r) (scheduled_on k r) (l.id == r.id) _ a
          (ap (λ b. b && is_active r) (beq_comm l.id r.id) ∙ other),
      Awaited_gone k l ls rs later h,
    )

module _ (out : Outside) (ctx : JobContext) (at : ℕ → ℕ) where
  logged-store : (t : Store × ℕ) (r : Result) → (released_or_logged out t r).0 ≡ after t.0 r
  logged-store (s, n) (ok s' row) = refl
  logged-store (s, n) (err e) = refl

  release_all-Awaited :
      (k : ℕ) (ls : List LockRow) (t : Store × ℕ)
      → IsAwaited k ls t.0.rows
      → IsAwaited k [] (release_all out ctx at ls t).0.rows
  unfolding release_all
  release_all-Awaited k [] t h = h
  release_all-Awaited k (l ∷ ls) t h =
      let result = release out l.id (unlock_reason out ctx) false (at l.id) t.0 in
      release_all-Awaited k ls (released_or_logged out t result) (
        rw (logged-store t result) (
          release-keeps (IsAwaited k ls)
            (λ i u rs e. Awaited-set_row (scheduled_on k) (scheduled_kept k) i u ls rs) out l.id
            (unlock_reason out ctx) false (at l.id) t.0
            (Awaited-released (scheduled_on k) (scheduled_kept k) (at l.id) (unlock_reason out ctx)
              l ls t.0.rows h)
            (λ gone. Awaited_gone k l ls t.0.rows gone h)))

  release_all-Still :
      (o : LockRow) (ls : List LockRow) (t : Store × ℕ)
      → any_of (λ (l : LockRow). l.id == o.id) ls ≡ false
      → Still o t.0.rows
      → Still o (release_all out ctx at ls t).0.rows
  unfolding release_all
  release_all-Still o [] t apart h = h
  release_all-Still o (l ∷ ls) t apart h =
      let result = release out l.id (unlock_reason out ctx) false (at l.id) t.0 in
      release_all-Still o ls (released_or_logged out t result) (ground arith) (
        rw (logged-store t result) (
          release-keeps (Still o) (Still-set_row o) out l.id (unlock_reason out ctx) false (at l.id)
            t.0 (Still-released o l.id (at l.id) (unlock_reason out ctx) t.0.rows (ground arith) h)
            (λ gone. h)))

-- The lock is one of a schedule on the share.
abbrev pub by_schedule : ℕ → LockRow → Bool
by_schedule k r = same_origin r.origin schedule && r.share_id == k

scheduled_on_lem : (k : ℕ) (r : LockRow) → scheduled_on k r ≡ by_schedule k r
scheduled_on_lem k r = at_origin r.origin
  where
    at_origin :
        (o : LockOrigin)
        → elim o as (λ x. Bool) [ LockOrigin.schedule ↦ r.share_id == k | _ ↦ false ]
          ≡ (same_origin o schedule && r.share_id == k)
    at_origin machine = refl
    at_origin manual = refl
    at_origin schedule = refl
    at_origin sync = refl

no_schedules :
    (k : ℕ) (rows : List LockRow)
    → scheduled k rows ≡ []
    → any_of (λ (r : LockRow). is_active r && by_schedule k r) rows ≡ false
unfolding scheduled
no_schedules k [] e = refl
no_schedules k (r ∷ rs) e = elim (Bool-cases (is_active r && scheduled_on k r)) [
  | inl here ↦ absurd (let found : r ∷ scheduled k rs ≡ [] = sym (rw here refl) ∙ e in cc found)
  | inr other ↦
      rw (sym (scheduled_on_lem k r)) (rw other (no_schedules k rs (sym (rw other refl) ∙ e)))
]

neither : (a b : Bool) → (if a then true else b) ≡ false → (a ≡ false) × (b ≡ false)
neither a b e = ground arith

other_id : (id kind active : Bool) → (id && kind) ≡ false → (active && kind) ≡ true → id ≡ false
other_id id kind active e f = ground arith

apart_from :
    (k id : ℕ) (rows : List LockRow)
    → any_of (λ (l : LockRow). (l.id == id) && by_schedule k l) rows ≡ false
    → any_of (λ (l : LockRow). l.id == id) (scheduled k rows) ≡ false
unfolding scheduled
apart_from k id [] e = refl
apart_from k id (r ∷ rs) e =
    let (here, later) = neither (r.id == id && by_schedule k r) _ e in
    let rest = apart_from k id rs later in
    if_branches (λ (ls : List LockRow). any_of (λ (l : LockRow). l.id == id) ls ≡ false)
      (is_active r && scheduled_on k r) _ _
      (λ listed.
        let apart =
          other_id (r.id == id) (by_schedule k r) (is_active r) here
            (ap (λ b. is_active r && b) (sym (scheduled_on_lem k r)) ∙ listed) in
        rw apart rest)
      (λ _. rest)

module _ (out : Outside) where
  unlocked :
      (share_id : Option ℕ) (tables : Tables) (ctx : JobContext) (at : ℕ → ℕ) (s : Store) (k : ℕ)
      → share_id ≡ some k
      → has_share k tables ≡ true
      → scheduled k (unlock_target out share_id tables ctx at s).0.rows ≡ []
  unfolding scheduled
  unlocked share_id tables ctx at s k e there =
      subst (λ x. scheduled k (unlock_target out x tables ctx at s).0.rows ≡ []) (sym e)
        (if_branches (λ (r : Store × JobOutcome). scheduled k r.0.rows ≡ []) (has_share k tables) _
          _
          (λ _. none_selected (scheduled_on k) (scheduled_kept k) _ (
            release_all-Awaited out ctx at k _ _
              (Awaited-selected (scheduled_on k) (scheduled_kept k) s.rows)))
          (λ gone. absurd (cc)))

  spared :
      (share_id : Option ℕ) (tables : Tables) (ctx : JobContext) (at : ℕ → ℕ) (s : Store) (k : ℕ)
      (o : LockRow)
      → share_id ≡ some k
      → any_of (λ (l : LockRow). l.id == o.id) (scheduled k s.rows) ≡ false
      → Still o s.rows
      → Still o (unlock_target out share_id tables ctx at s).0.rows
  spared share_id tables ctx at s k o e apart h =
      subst (λ x. Still o (unlock_target out x tables ctx at s).0.rows) (sym e)
        (if_branches (λ (r : Store × JobOutcome). Still o r.0.rows) (has_share k tables) _ _
          (λ _. release_all-Still out ctx at o (scheduled k s.rows) (s, 0) apart h) (λ _. h))

  -- Where the share is there, an unlock window leaves it no active lock of a schedule, whatever the server
  -- answers, and every active lock whose id is none of a schedule on this share, of a machine or by hand or
  -- on another share, stays active on its file and with its origin.
  pub window_unlocks :
      (tables : Tables) (ctx : JobContext) (at : ℕ → ℕ) (s : Store) (target : ScheduleTarget)
      (k : ℕ) (o : LockRow)
      → ctx.target ≡ some target
      → target.share_id ≡ some k
      → has_share k tables ≡ true
      → any_of (λ (l : LockRow). (l.id == o.id) && by_schedule k l) s.rows ≡ false
      → Still o s.rows
      → (any_of
            (λ (r : LockRow). is_active r && by_schedule k r)
            (handle_unlock_window out tables ctx at s).0.rows
          ≡ false)
        × Still o (handle_unlock_window out tables ctx at s).0.rows
  unfolding handle_unlock_window
  window_unlocks tables ctx at s target k o e f there apart h = (
    no_schedules k (handle_unlock_window out tables ctx at s).0.rows (
        subst (λ x. scheduled k (unlock_window out x tables ctx at s).0.rows ≡ []) (sym e)
          (unlocked target.share_id tables ctx at s k f there)),
    subst (λ x. Still o (unlock_window out x tables ctx at s).0.rows) (sym e)
        (spared target.share_id tables ctx at s k o f (apart_from k o.id s.rows apart) h),
  )
