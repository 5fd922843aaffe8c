-- ===== src/Locking/LockManager/Refines.antt =====
-- The table of backend/locking/lock-manager.ts stands for the map from the files to the holders of their locks.
use cnc_network_bridge.Base.{
  ℕ, suc, String, ◌≡◌, refl, sym, ap, ◌∙◌, subst, Bool, false, Option, none, some, List, [], ◌∷◌,
  ◌++◌, ◌==◌, any_of, inl, inr, Bool-cases, Option-cases,
}
use cnc_network_bridge.Locking.LockManager.Rows.{
  LockRow, Update, set_released, set_lost, set_row, find_active, new_id,
}
use cnc_network_bridge.Locking.LockManager.Keeps.{is_release, project-keeps, finish-keeps}
use cnc_network_bridge.Locking.LockManager.RestartKeeps.{sweep_all-keeps, restore_all-keeps}
use cnc_network_bridge.Locking.LockManager.CallKeeps.{release-keeps}
use cnc_network_bridge.Locking.LockManager.Restart.{
  sweep_read_only_leftovers, lose_holder, restore_server_locks, leftovers, projected,
  record_projection_loss,
}
use cnc_network_bridge.Locking.LockManager.Projection.{
  LockingConfig, Outside, Store, AcquireLockInput, expired, let_go,
}
use cnc_network_bridge.Locking.LockManager.{
  acquire, insert_lock, row_of, release, expire_stale, stale, finish, finish_all, get_active,
}
use cnc_network_bridge.Locking.LockManager.Unique.{
  OneActive, set_row-OneActive, push-OneActive, Call, acquires, releases, expires, sweeps, loses,
  restarts, shuts_down, after, step, run,
}
use cnc_network_bridge.Locking.LockManager.View.{
  view, drop, drop_missing, view-set_row, view-released, view-append, view-one, view-nil,
  view-find_active, holder_in,
}
use cnc_network_bridge.Locking.LockManager.Reaped.{drop_past, drop_all, drop_all-stale}
use cnc_network_bridge.Locking.LockManager.Ids.{
  Distinct, Distinct-set_row, Distinct-append, new_id-set_row, new_id-append,
}
use cnc_network_bridge.Locking.LockManager.Holders.{
  Locks, no_locks, expiry-lifetime, grant, promise, promise_all,
}

-- The rows of the table stand for the map.
record Shows (a : Locks) (rs : List LockRow) : Type 0 where
  holder_of_file : (k : ℕ) (p : String) → view k p rs ≡ a.holder k p
  next_id : new_id rs ≡ a.next
  one : OneActive rs
  distinct : Distinct rs

Shows-set_row :
    (a : Locks) (id : ℕ) (u : Update) (rs : List LockRow)
    → is_release u ≡ false
    → Shows a rs
    → Shows a (set_row id u rs)
Shows-set_row a id u rs e h = record {
  holder_of_file = λ k p. view-set_row k p id u rs e ∙ h.holder_of_file k p;
  next_id = new_id-set_row id u rs ∙ h.next_id;
  one = set_row-OneActive id u rs h.one;
  distinct = Distinct-set_row id u rs h.distinct;
}

Shows-released :
    (a : Locks) (id at : ℕ) (why : Option String) (rs : List LockRow)
    → Shows a rs
    → Shows
        (record a { holder = λ k p. drop id (a.holder k p) })
        (set_row id (set_released at why) rs)
Shows-released a id at why rs h = record {
  holder_of_file =
      λ k p. view-released k p id at why rs h.one ∙ ap (drop id) (h.holder_of_file k p);
  next_id = new_id-set_row id (set_released at why) rs ∙ h.next_id;
  one = set_row-OneActive id (set_released at why) rs h.one;
  distinct = Distinct-set_row id (set_released at why) rs h.distinct;
}

-- Every lock that is ended, one after the other.
finish_all-Shows :
    (out : Outside) (now : ℕ) (ls : List LockRow) (s : Store) (a : Locks)
    → Shows a s.rows
    → Shows (record a { holder = λ k p. drop_all ls (a.holder k p) }) (finish_all out now ls s).rows
unfolding finish_all
finish_all-Shows out now [] s a h = h
finish_all-Shows out now (l ∷ ls) s a h =
    let a' = record a { holder = λ k p. drop l.id (a.holder k p) } in
    finish_all-Shows out now ls (finish out l expired (some "TTL exceeded") now s) a' (
      finish-keeps (Shows a') (Shows-set_row a') out l expired (some "TTL exceeded") now s
        (Shows-released a l.id now (some "TTL exceeded") s.rows h))

expire-Shows :
    (out : Outside) (now : ℕ) (s : Store) (a : Locks)
    → Shows a s.rows
    → Shows (promise (expires out now) a) (expire_stale out now s).rows
unfolding expire_stale promise
expire-Shows out now s a h =
    let swept = finish_all-Shows out now (stale now s.rows) s a h in
    record {
      holder_of_file = λ k p.
          swept.holder_of_file k p
          ∙ subst (λ o. drop_all (stale now s.rows) o ≡ drop_past now o) (h.holder_of_file k p)
              (drop_all-stale k p now s.rows h.distinct);
      next_id = swept.next_id;
      one = swept.one;
      distinct = swept.distinct;
    }

release-Shows :
    (out : Outside) (id : ℕ) (why : Option String) (forced : Bool) (now : ℕ) (s : Store) (a : Locks)
    → Shows a s.rows
    → Shows
        (promise (releases out id why forced now) a)
        (after s (release out id why forced now s)).rows
unfolding promise
release-Shows out id why forced now s a h =
    let a' = record a { holder = λ k p. drop id (a.holder k p) } in
    release-keeps (Shows a') (Shows-set_row a') out id why forced now s
      (Shows-released a id now why s.rows h)
      (λ gone. record {
        holder_of_file = λ k p.
            h.holder_of_file k p
            ∙ sym (
                subst (λ o. drop id o ≡ o) (h.holder_of_file k p)
                  (drop_missing k p id s.rows gone));
        next_id = h.next_id;
        one = h.one;
        distinct = h.distinct;
      })

Shows-granted :
    (config : LockingConfig) (input : AcquireLockInput) (now : ℕ) (a : Locks) (rs : List LockRow)
    → find_active input.share_id input.rel_path rs ≡ none
    → Shows a rs
    → Shows (grant config input now a none) (rs ++ row_of config input now rs ∷ [])
Shows-granted config input now a rs free h =
    let row = row_of config input now rs in
    record {
      holder_of_file = λ k p.
          view-append k p row rs
          ∙ rw
              (
                view-one k p row refl,
                h.holder_of_file k p,
                h.next_id,
                expiry-lifetime config input.origin input.ttl_seconds now,
              )
              refl;
      next_id = new_id-append row rs refl ∙ ap suc h.next_id;
      one = push-OneActive row rs h.one (rw free refl);
      distinct = Distinct-append row rs refl h.distinct;
    }

acquire-Shows :
    (config : LockingConfig) (out : Outside) (input : AcquireLockInput) (now : ℕ) (s : Store)
    (a : Locks)
    → Shows a s.rows
    → Shows
        (promise (acquires config out input now) a)
        (after s (acquire config out input now s)).rows
unfolding promise acquire insert_lock
acquire-Shows config out input now s a h =
    let file =
      sym (h.holder_of_file input.share_id input.rel_path)
      ∙ view-find_active input.share_id input.rel_path s.rows in
    elim (Bool-cases config.enabled) [
      | inr off ↦ rw (off, acquire) h
      | inl on ↦ elim (Option-cases (find_active input.share_id input.rel_path s.rows)) [
        | inr (r, taken) ↦ rw (on, taken, acquire, file, taken) h
        | inl free ↦
            let row = row_of config input now s.rows in
            let a' = grant config input now a none in
            rw (on, free, acquire, file, free)
              (project-keeps (Shows a') (Shows-set_row a') out row row.server_lock_kind _
                (Shows-granted config input now a s.rows free h))
      ]
    ]

step-Shows :
    (c : Call) (s : Store) (a : Locks) → Shows a s.rows → Shows (promise c a) (step c s).rows
unfolding step promise sweep_read_only_leftovers restore_server_locks lose_holder
    record_projection_loss let_go
step-Shows (acquires config out input now) s a h = acquire-Shows config out input now s a h
step-Shows (releases out id why forced now) s a h = release-Shows out id why forced now s a h
step-Shows (expires out now) s a h = expire-Shows out now s a h
step-Shows (sweeps out) s a h =
    sweep_all-keeps (Shows a) (Shows-set_row a) out (leftovers s.rows) s h
step-Shows (loses id why) s a h = elim (Bool-cases (any_of (λ k. k == id) s.holders)) [
  | inl held ↦ rw held (Shows-set_row a id (set_lost (some why)) s.rows refl h)
  | inr gone ↦ rw gone h
]
step-Shows (restarts out) s a h =
    restore_all-keeps (Shows a) (Shows-set_row a) out (projected s.rows) s h
step-Shows shuts_down s a h = h

run-Shows :
    (cs : List Call) (s : Store) (a : Locks)
    → Shows a s.rows
    → Shows (promise_all cs a) (run cs s).rows
unfolding run promise_all
run-Shows [] s a h = h
run-Shows (c ∷ cs) s a h = run-Shows cs (step c s) (promise c a) (step-Shows c s a h)

-- From an empty table, whatever calls come and whatever the servers answer, the active lock of a file is
-- the one of the map from the files to their holders: its id, its origin and the time it ends.
pub run_refines :
    (cs : List Call) (s : Store) (k : ℕ) (p : String)
    → s.rows ≡ []
    → holder_in (get_active k p (run cs s)) ≡ (promise_all cs no_locks).holder k p
unfolding get_active new_id
run_refines cs s k p empty =
    let start : Shows no_locks s.rows =
      subst (Shows no_locks) (sym empty)
        (record { holder_of_file = view-nil; next_id = refl; one = tt; distinct = tt }) in
    let end = run-Shows cs s no_locks start in
    sym (view-find_active k p (run cs s).rows) ∙ end.holder_of_file k p
