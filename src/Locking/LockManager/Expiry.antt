-- ===== src/Locking/LockManager/Expiry.antt =====
-- What the reaper of stale locks leaves, in backend/locking/lock-manager.ts.
use cnc_network_bridge.Base.{ℕ, Bool, ◌≡◌, refl, some, List, [], ◌∷◌, arith}
use cnc_network_bridge.Locking.LockManager.Rows.{
  LockRow, Update, set_released, set_projected, set_read_only, set_lost, apply_update,
}
use cnc_network_bridge.Locking.LockManager.Awaited.{
  Awaited, Awaited-set_row, Awaited-released, Awaited-selected, none_selected,
}
use cnc_network_bridge.Locking.LockManager.Keeps.{finish-keeps}
use cnc_network_bridge.Locking.LockManager.Projection.{Outside, Store, expired}
use cnc_network_bridge.Locking.LockManager.{finish, finish_all, expire_stale, stale, has_passed}

past_kept :
    (now : ℕ) (u : Update) (r : LockRow)
    → has_passed now (apply_update u r).expires_at ≡ has_passed now r.expires_at
past_kept now (set_released n o) r = refl
past_kept now (set_projected b o) r = refl
past_kept now (set_read_only b) r = refl
past_kept now (set_lost b) r = ground arith

abbrev is_past : ℕ → LockRow → Bool
is_past now r = has_passed now r.expires_at

abbrev IsAwaited : ℕ → List LockRow → List LockRow → Type 0
IsAwaited now = Awaited (is_past now) (past_kept now)

finish_all-Awaited :
    (out : Outside) (now : ℕ) (ls : List LockRow) (s : Store)
    → IsAwaited now ls s.rows
    → IsAwaited now [] (finish_all out now ls s).rows
unfolding finish_all
finish_all-Awaited out now [] s h = h
finish_all-Awaited out now (l ∷ ls) s h =
    finish_all-Awaited out now ls (finish out l expired (some "TTL exceeded") now s) (
      finish-keeps (IsAwaited now ls)
        (λ k u rs e. Awaited-set_row (is_past now) (past_kept now) k u ls rs) out l expired
        (some "TTL exceeded") now s
        (Awaited-released (is_past now) (past_kept now) now (some "TTL exceeded") l ls s.rows h))

-- After the reaper has run, no active lock is past its time, whatever the server answered.
pub expire_stale_reaps :
    (out : Outside) (now : ℕ) (s : Store) → stale now (expire_stale out now s).rows ≡ []
unfolding expire_stale stale
expire_stale_reaps out now s =
    none_selected (is_past now) (past_kept now) (finish_all out now (stale now s.rows) s).rows (
      finish_all-Awaited out now (stale now s.rows) s
        (Awaited-selected (is_past now) (past_kept now) s.rows))
