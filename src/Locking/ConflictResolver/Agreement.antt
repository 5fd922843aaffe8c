-- ===== src/Locking/ConflictResolver/Agreement.antt =====
-- Where backend/locking/conflict-resolver.ts decides as backend/sync/diff-engine.ts does.
use cnc_network_bridge.Base.{
  ℕ, ◌+◌, ◌≡◌, ◌↔◌, Bool, true, false, ◌&&◌, Option, none, some, leb, arith, or_else,
}
use cnc_network_bridge.Sync.Diff.Types.{
  ConflictMode, machine_wins, server_wins, last_write_wins, Place, Side,
}
use cnc_network_bridge.Locking.ConflictResolver.{FileFingerprint, decide_winner}
use cnc_network_bridge.Sync.Diff.Resolve.{choose}

-- The fingerprint of a side of the diff engine.
abbrev pub fingerprint : Side → Option FileFingerprint
fingerprint none = none
fingerprint (some s) = some (record { hash = or_else s.hash ""; size = s.size; mtime = s.mtime })

abbrev pub is_local : Place → Bool
is_local Place.local = true
is_local Place.remote = false

-- The cases in which the two part: a deletion on the side that the mode prefers, and, under
-- last_write_wins, a copy of the machine that is not newer, nor older by more than the tolerance.
abbrev pub part : ConflictMode → ℕ → Side → Side → Bool
part machine_wins tolerance none remote = true
part server_wins tolerance (some l) none = true
part last_write_wins tolerance (some l) (some r) =
    leb l.mtime r.mtime && leb r.mtime (l.mtime + tolerance)
part _ tolerance local remote = false

-- The resolver and the engine's resolution of a conflict name the same winner exactly if the mode does
-- not prefer a side whose file was deleted, and the machine's copy is not, under last_write_wins, as old
-- as the server's or older by at most the tolerance.
pub decide_winner-choose :
    (mode : ConflictMode) (tolerance : ℕ) (local remote : Side)
    → (is_local (decide_winner mode (fingerprint local) (fingerprint remote))
        ≡ is_local (choose mode tolerance local remote).winner)
      ↔ (part mode tolerance local remote ≡ false)
unfolding decide_winner choose
decide_winner-choose machine_wins t none r = ground arith
decide_winner-choose machine_wins t (some l) none = ground arith
decide_winner-choose machine_wins t (some l) (some r) = ground arith
decide_winner-choose server_wins t none r = ground arith
decide_winner-choose server_wins t (some l) none = ground arith
decide_winner-choose server_wins t (some l) (some r) = ground arith
decide_winner-choose last_write_wins t none r = ground arith
decide_winner-choose last_write_wins t (some l) none = ground arith
decide_winner-choose last_write_wins t (some l) (some r) = ground arith
