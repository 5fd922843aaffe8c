-- ===== src/Locking/LockManager/Keeps.antt =====
-- What every UPDATE of a row keeps is kept by the projection of a lock and by its end, in
-- backend/locking/lock-manager.ts.
use cnc_network_bridge.Base.{
  ℕ, String, ◌≡◌, refl, Bool, true, false, Option, none, some, List, [], ◌∷◌, arith, inl, inr,
  Bool-cases, if_branches,
}
use cnc_network_bridge.Locking.LockManager.Rows.{
  LockRow, ServerLockKind, no_projection, sidecar, byte_range, Update, set_released, set_projected,
  set_read_only, set_lost, set_row, is_active, apply_update,
}
use cnc_network_bridge.Locking.ReadOnlyGuard.{apply_read_only, clear_read_only}
use cnc_network_bridge.Locking.LockManager.Projection.{
  Outside, Store, LockEventAction, hold, take_write_permission, add_marker, marker_written,
  after_hold, project_mounted, project_on, project_and_persist, change, let_go, expired,
}
use cnc_network_bridge.Locking.LockManager.{
  finish, finish_all, give_write_permission_back, clear_at, unmark, is_marked,
}

-- Whether an UPDATE ends a lock.
abbrev pub is_release : Update → Bool
is_release (set_released at why) = true
is_release _ = false

pub is_active-apply_update :
    (u : Update) (r : LockRow) → is_release u ≡ false → is_active (apply_update u r) ≡ is_active r
is_active-apply_update (set_released n o) r e = absurd (cc)
is_active-apply_update (set_projected b o) r e = refl
is_active-apply_update (set_read_only b) r e = refl
is_active-apply_update (set_lost b) r e =
    if_branches (λ (x : LockRow). is_active x ≡ is_active r) (is_active r) _ r (λ _. refl)
      (λ _. refl)

-- What every other UPDATE keeps, the projection and the end of a lock keep.
module _ (P : List LockRow → Type 0)
    (kept : (id : ℕ) (u : Update) (rs : List LockRow)
      → is_release u ≡ false
      → P rs
      → P (set_row id u rs))
    (out : Outside) where
  pub take-keeps :
      (id : ℕ) (t : String) (s : Store) → P s.rows → P (take_write_permission out id t s).rows
  unfolding take_write_permission
  take-keeps id t s h = elim (Bool-cases (apply_read_only out.chmod_error t s.files).1.applied) [
    | inl applied ↦ rw applied (kept id (set_read_only true) s.rows refl h)
    | inr not_applied ↦ rw not_applied h
  ]

  written-keeps :
      (e : Option String) (m : String) (r : LockRow) (s : Store)
      → P s.rows
      → P (marker_written e m r s).rows
  written-keeps none m r s h = kept r.id (set_projected true none) s.rows refl h
  written-keeps (some e) m r s h = kept r.id (set_projected false (some e)) s.rows refl h

  pub hold-keeps : (id : ℕ) (s : Store) → (hold out id s).0.rows ≡ s.rows
  unfolding hold
  hold-keeps id s = ground arith

  after_hold-keeps :
      (e : Option String) (m : String) (r : LockRow) (s : Store)
      → P s.rows
      → P (after_hold e out m r s).rows
  unfolding add_marker
  after_hold-keeps none m r s h =
      written-keeps (out.write_error m r.rel_path) m r _ (take-keeps r.id _ s h)
  after_hold-keeps (some e) m r s h = kept r.id (set_projected false (some e)) s.rows refl h

  mounted-keeps :
      (m : String) (r : LockRow) (k : ServerLockKind) (s : Store)
      → P s.rows
      → P (project_mounted out m r k s).rows
  unfolding project_mounted add_marker
  mounted-keeps m r byte_range s h =
      after_hold-keeps (hold out r.id s).1 m r (hold out r.id s).0 (rw (hold-keeps r.id s) h)
  mounted-keeps m r no_projection s h = written-keeps (out.write_error m r.rel_path) m r s h
  mounted-keeps m r sidecar s h = written-keeps (out.write_error m r.rel_path) m r s h

  on-keeps :
      (m : Option String) (r : LockRow) (k : ServerLockKind) (s : Store)
      → P s.rows
      → P (project_on out m r k s).rows
  unfolding project_on
  on-keeps none r k s h = kept r.id (set_projected false _) s.rows refl h
  on-keeps (some m) r k s h = elim (Bool-cases (out.is_mounted m)) [
    | inl mounted ↦ rw mounted (mounted-keeps m r k s h)
    | inr away ↦ rw away (kept r.id (set_projected false _) s.rows refl h)
  ]

  pub project-keeps :
      (r : LockRow) (k : ServerLockKind) (s : Store)
      → P s.rows
      → P (project_and_persist out r k s).rows
  unfolding project_and_persist
  project-keeps r no_projection s h = h
  project-keeps r sidecar s h = on-keeps (out.mount_of r.share_id) r sidecar s h
  project-keeps r byte_range s h = on-keeps (out.mount_of r.share_id) r byte_range s h

  clear_at-keeps :
      (m : Option String) (r : LockRow) (s : Store) → P s.rows → P (clear_at out m r s).rows
  clear_at-keeps none r s h = h
  clear_at-keeps (some m) r s h =
      let result = (clear_read_only out.chmod_error (out.join m r.rel_path) s.files).1 in
      elim (Bool-cases (out.is_mounted m)) [
        | inr away ↦ rw away h
        | inl mounted ↦ elim (Bool-cases result.ok) [
          | inl done ↦ rw (mounted, done) (kept r.id (set_read_only false) s.rows refl h)
          | inr refused ↦ rw (mounted, refused) h
        ]
      ]

  pub give-keeps :
      (r : LockRow) (s : Store) → P s.rows → P (give_write_permission_back out r s).rows
  unfolding give_write_permission_back
  give-keeps r s h = elim (Bool-cases r.server_read_only_applied) [
    | inl taken ↦ simp taken (clear_at-keeps (out.mount_of r.share_id) r s h)
    | inr untouched ↦ simp untouched h
  ]

  unmark-same : (m : Option String) (r : LockRow) (s : Store) → (unmark out m r s).rows ≡ s.rows
  unmark-same none r s = refl
  unmark-same (some m) r s = ground arith

  pub finish-keeps :
      (r : LockRow) (a : LockEventAction) (why : Option String) (now : ℕ) (s : Store)
      → P (set_row r.id (set_released now why) s.rows)
      → P (finish out r a why now s).rows
  unfolding finish let_go
  finish-keeps r a why now s h =
      let ended = let_go r.id (change r.id (set_released now why) s) in
      let given = give-keeps r ended h in
      elim (Bool-cases (is_marked r.server_lock_kind)) [
        | inl marked ↦
            rw
              (
                marked,
                unmark-same (out.mount_of r.share_id) r (give_write_permission_back out r ended),
              )
              given
        | inr plain ↦ rw plain given
      ]

module _ (P : List LockRow → Type 0)
    (kept : (id : ℕ) (u : Update) (rs : List LockRow) → P rs → P (set_row id u rs))
    (out : Outside) where
  pub finish_all-keeps :
      (now : ℕ) (rs : List LockRow) (s : Store) → P s.rows → P (finish_all out now rs s).rows
  unfolding finish_all
  finish_all-keeps now [] s h = h
  finish_all-keeps now (r ∷ rs) s h =
      finish_all-keeps now rs (finish out r expired (some "TTL exceeded") now s) (
        finish-keeps P (λ id u rs e. kept id u rs) out r expired (some "TTL exceeded") now s
          (kept r.id (set_released now (some "TTL exceeded")) s.rows h))
