-- ===== src/Locking/LockManager/Holders.antt =====
-- What backend/locking/lock-manager.ts promises: a map from the files to the holders of their locks. Nothing that happens
-- on the servers, no marker, permission or event, has a part in it.
use cnc_network_bridge.Base.{
  ℕ, suc, ◌+◌, String, ◌≡◌, refl, ◌&&◌, Option, none, some, List, [], ◌∷◌, ◌==◌, if◌then◌else◌,
  str_eq,
}
use cnc_network_bridge.Locking.LockManager.Rows.{LockOrigin, machine, manual, schedule, sync}
use cnc_network_bridge.Locking.LockManager.Projection.{LockingConfig, AcquireLockInput}
use cnc_network_bridge.Locking.LockManager.{expiry, ttl_of}
use cnc_network_bridge.Locking.LockManager.Unique.{
  Call, acquires, releases, expires, sweeps, loses, restarts, shuts_down,
}
use cnc_network_bridge.Locking.LockManager.View.{Holder, drop, first_of}
use cnc_network_bridge.Locking.LockManager.Reaped.{drop_past}

-- The holder of each file, and the id that the next lock gets.
pub record Locks : Type 0 where
  pub holder : ℕ → String → Option Holder
  pub next : ℕ

abbrev pub no_locks : Locks
no_locks = record { holder = λ k p. none; next = 1 }

-- How long a lock lasts: 0 is for ever. One that is asked for without a time lasts for ever, unless a machine asks.
abbrev pub lifetime : LockingConfig → LockOrigin → Option (Option ℕ) → ℕ
lifetime config o (some (some t)) = t
lifetime config o (some none) = 0
lifetime config machine none = config.machine_lock_ttl_s
lifetime config o none = 0

abbrev pub ends_at : ℕ → ℕ → Option ℕ
ends_at now t = if t == 0 then none else some (now + t)

pub expiry-lifetime :
    (config : LockingConfig) (o : LockOrigin) (t : Option (Option ℕ)) (now : ℕ)
    → expiry now (ttl_of config o t) ≡ ends_at now (lifetime config o t)
expiry-lifetime config o (some (some t)) now = refl
expiry-lifetime config machine (some none) now = refl
expiry-lifetime config manual (some none) now = refl
expiry-lifetime config schedule (some none) now = refl
expiry-lifetime config sync (some none) now = refl
expiry-lifetime config machine none now = refl
expiry-lifetime config manual none now = refl
expiry-lifetime config schedule none now = refl
expiry-lifetime config sync none now = refl

-- A file that nobody holds is given to the one who asks; every other file keeps its holder.
abbrev pub grant : LockingConfig → AcquireLockInput → ℕ → Locks → Option Holder → Locks
grant config input now a (some h) = a
grant config input now a none = record {
  holder = λ k p. first_of (a.holder k p) (
      if input.share_id == k && str_eq input.rel_path p
      then some (record {
        id = a.next;
        origin = input.origin;
        expires_at = ends_at now (lifetime config input.origin input.ttl_seconds);
      })
      else none);
  next = suc a.next;
}

-- What a call does to the map.
unfoldable pub promise : Call → Locks → Locks
promise (acquires config out input now) a =
    if config.enabled then grant config input now a (a.holder input.share_id input.rel_path) else a
promise (releases out id why forced now) a = record a { holder = λ k p. drop id (a.holder k p) }
promise (expires out now) a = record a { holder = λ k p. drop_past now (a.holder k p) }
promise (sweeps out) a = a
promise (loses id why) a = a
promise (restarts out) a = a
promise shuts_down a = a

unfoldable pub promise_all : List Call → Locks → Locks
promise_all [] a = a
promise_all (c ∷ cs) a = promise_all cs (promise c a)
