-- ===== src/Sync/Orchestrator/Moves.antt =====
-- What each part of `reconcile` of backend/sync/orchestrator.ts does to the records and the tasks.
use mathlib.Core.Option
use text.Mathlib.TextPositions.{eq_refl}
use cnc_network_bridge.Base.{
  ℕ, String, ◌≡◌, refl, true, false, ◌&&◌, Option, none, some, if◌then◌else◌, str_eq, arith, inl,
  inr, Bool-cases, Option-cases, ◌∙◌, ap,
}
use cnc_network_bridge.Sync.Diff.Types.{Side, DiffInput, VersionCapture, VerdictAction}
use cnc_network_bridge.Sync.Diff.{decide}
use cnc_network_bridge.Sync.Diff.Compare.{destroys_data}
use cnc_network_bridge.Sync.Diff.Capture.{captured_side, decide_captures}
use cnc_network_bridge.Sync.EchoGuard.{is_quarantined}
use cnc_network_bridge.Sync.Orchestrator.Types.{
  FileRecord, Orchestrator, Phase, over, statting, capturing, writing, captured, update,
}
use cnc_network_bridge.Sync.Orchestrator.Breaker.{is_half_open, is_open, on_success, on_failure}
use cnc_network_bridge.Sync.Orchestrator.Reconcile.{
  start, statted, apply, write, after_capture, succeed, record_failure, commit_inert,
  commit_success, is_inert, is_converge, base_of, committed, is_due, call_port,
}

-- The task that runs for a path has read the record that the store still has.
abbrev pub HasRead : Phase → Option FileRecord → Type 0
HasRead (statting r) s = r ≡ s
HasRead (capturing r i) s = r ≡ s
HasRead (writing r i) s = r ≡ s
HasRead _ s = Unit

-- What both sides hold after a transfer, as the next base: what was sent, what was fetched, nothing after a
-- deletion; and where the sides agree already, the local file, or the server's if there is none.
abbrev pub agreed_side : VerdictAction → Side → Side → Side
agreed_side VerdictAction.push local remote = local
agreed_side VerdictAction.pull local remote = remote
agreed_side VerdictAction.delete_local local remote = none
agreed_side VerdictAction.delete_remote local remote = none
agreed_side _ none remote = remote
agreed_side _ (some l) remote = some l

committed-agreed_side :
    (a : VerdictAction) (l r : Side) → base_of (committed a l r) ≡ agreed_side a l r
committed-agreed_side VerdictAction.push l r = refl
committed-agreed_side VerdictAction.pull l r = refl
committed-agreed_side VerdictAction.delete_local l r = refl
committed-agreed_side VerdictAction.delete_remote l r = refl
committed-agreed_side VerdictAction.converge none r = refl
committed-agreed_side VerdictAction.converge (some l) r = refl
committed-agreed_side VerdictAction.noop none r = refl
committed-agreed_side VerdictAction.noop (some l) r = refl
committed-agreed_side VerdictAction.exclude none r = refl
committed-agreed_side VerdictAction.exclude (some l) r = refl
committed-agreed_side VerdictAction.skip none r = refl
committed-agreed_side VerdictAction.skip (some l) r = refl
committed-agreed_side VerdictAction.error none r = refl
committed-agreed_side VerdictAction.error (some l) r = refl
committed-agreed_side VerdictAction.defer none r = refl
committed-agreed_side VerdictAction.defer (some l) r = refl

-- The base after a step, in which a transfer of the path with this input was done, or none.
abbrev pub base_after : (String → String) → Option DiffInput → Side → Side
base_after upper_case none base = base
base_after upper_case (some i) base = agreed_side (decide upper_case i).action i.local i.remote

module _ (upper_case : String → String) where
  -- What a step does that is about one path.
  pub record Moves (path : String) (transferred : Option DiffInput) (o o' : Orchestrator)
      : Type 0 where
    pub store_else : (q : String) → str_eq q path ≡ false → o'.store q ≡ o.store q
    pub phase_else : (q : String) → str_eq q path ≡ false → o'.phase q ≡ o.phase q
    pub base : base_of (o'.store path) ≡ base_after upper_case transferred (base_of (o.store path))
    pub has_read : HasRead (o'.phase path) (o'.store path)

  converge_takes_nothing :
      (i : DiffInput)
      → is_converge (decide upper_case i).action ≡ true
      → (decide upper_case i).capture_version ≡ none
  unfolding destroys_data
  converge_takes_nothing i h = elim (Option-cases (decide upper_case i).capture_version) [
    | inl nothing ↦ nothing
    | inr (c, asked) ↦
        let side : captured_side (decide upper_case i) ≡ some c.side =
          ap (λ x. Option.map (λ (x : VersionCapture). x.side) x) asked in
        ground (arith, decide_captures upper_case i, side)
  ]

  pub failure_moves :
      (path : String) (rec : Option FileRecord) (m : String) (a : VerdictAction) (now : ℕ)
      (o : Orchestrator)
      → rec ≡ o.store path
      → Moves path none o (record_failure path rec m a now o)
  unfolding record_failure on_failure
  failure_moves path rec m a now o read = record {
    store_else = λ q other. ground arith;
    phase_else = λ q other. ground arith;
    base = ground (arith, eq_refl path);
    has_read = ground (arith, eq_refl path);
  }

  pub success_moves :
      (path : String) (i : DiffInput) (now : ℕ) (o : Orchestrator)
      → Moves path (some i) o (succeed upper_case path i now o)
  unfolding succeed commit_success on_success
  success_moves path i now o = record {
    store_else = λ q other. ground arith;
    phase_else = λ q other. ground arith;
    base =
        (let there : base_of ((succeed upper_case path i now o).store path)
              ≡ base_of (committed (decide upper_case i).action i.local i.remote) =
            rw (eq_refl path) refl in
          there)
        ∙ committed-agreed_side (decide upper_case i).action i.local i.remote;
    has_read = ground (arith, eq_refl path);
  }

  -- A converging verdict is done at once; any other waits for its write.
  abbrev pub now_done : DiffInput → Option DiffInput
  now_done i = if is_converge (decide upper_case i).action then some i else none

  write_moves :
      (path : String) (rec : Option FileRecord) (i : DiffInput) (now : ℕ) (o : Orchestrator)
      → rec ≡ o.store path
      → Moves path (now_done i) o (write upper_case path rec i now o)
  unfolding write
  write_moves path rec i now o read = elim (Bool-cases (is_converge (decide upper_case i).action)) [
    | inl same ↦ rw same (success_moves path i now o)
    | inr differs ↦ rw differs (record {
      store_else = λ q other. refl;
      phase_else = λ q other. ground arith;
      base = refl;
      has_read = ground (arith, eq_refl path);
    })
  ]

  pub statted_moves :
      (path : String) (rec : Option FileRecord) (i : DiffInput) (now : ℕ) (o : Orchestrator)
      → rec ≡ o.store path
      → Moves path (now_done i) o (statted upper_case path rec i now o)
  unfolding statted apply commit_inert
  statted_moves path rec i now o read = elim (Bool-cases (is_inert (decide upper_case i).action)) [
    | inl inert ↦
        let waits : is_converge (decide upper_case i).action ≡ false = ground arith in
        rw (inert, waits)
          (record {
            store_else = λ q other. ground arith;
            phase_else = λ q other. ground arith;
            base = ground (arith, eq_refl path);
            has_read = ground (arith, eq_refl path);
          })
    | inr active ↦ elim (Option-cases (decide upper_case i).capture_version) [
      | inl nothing ↦ rw (active, nothing) (write_moves path rec i now o read)
      | inr (c, asked) ↦
          let waits : is_converge (decide upper_case i).action ≡ false =
            ground (arith, converge_takes_nothing i) in
          rw (active, asked, waits)
            (record {
              store_else = λ q other. refl;
              phase_else = λ q other. ground arith;
              base = refl;
              has_read = ground (arith, eq_refl path);
            })
    ]
  ]

  pub capture_moves :
      (path : String) (rec : Option FileRecord) (i : DiffInput) (now : ℕ)
      (c : Option VersionCapture) (o : Orchestrator)
      → rec ≡ o.store path
      → Moves path (now_done i) o (after_capture upper_case path rec i now c o)
  unfolding after_capture
  capture_moves path rec i now none o read = write_moves path rec i now o read
  capture_moves path rec i now (some c) o read =
      let m = write_moves path rec i now (call_port path (captured c) o) read in
      record {
        store_else = m.store_else;
        phase_else = m.phase_else;
        base = m.base;
        has_read = m.has_read;
      }

  ending_moves :
      (path : String) (o o' : Orchestrator)
      → o'.store ≡ o.store
      → o'.phase ≡ update o.phase path over
      → Moves path none o o'
  ending_moves path o o' same ended = record {
    store_else = λ q other. ap (λ f. f q) same;
    phase_else = λ q other. ap (λ f. f q) ended ∙ ground (arith, other);
    base = ap (λ f. base_of (f path)) same;
    has_read = rw ended (ground (arith, eq_refl path));
  }

  pub start_moves :
      (path : String) (at now : ℕ) (o : Orchestrator) → Moves path none o (start path at now o)
  unfolding start
  start_moves path at now o = elim (Bool-cases (is_open o.breaker)) [
    | inl tripped ↦ rw tripped (ending_moves path o _ refl refl)
    | inr running ↦ elim (Bool-cases (is_half_open o.breaker && o.probe_used)) [
      | inl used ↦ rw (running, used) (ending_moves path o _ refl refl)
      | inr fresh ↦ elim (Bool-cases (is_due at (o.store path))) [
        | inr early ↦
            rw (running, fresh, early) (ending_moves path o _ (ground arith) (ground arith))
        | inl due ↦ elim (Bool-cases (is_quarantined path o.guard)) [
          | inl held ↦
              rw (running, fresh, due, held) (ending_moves path o _ (ground arith) (ground arith))
          | inr free ↦
              rw (running, fresh, due, free)
                (record {
                  store_else = λ q other. ground arith;
                  phase_else = λ q other. ground arith;
                  base = ground arith;
                  has_read = ground (arith, eq_refl path);
                })
        ]
      ]
    ]
  ]

  pub stays :
      (path : String) (o : Orchestrator)
      → HasRead (o.phase path) (o.store path)
      → Moves path none o o
  stays path o h = record {
    store_else = λ q other. refl;
    phase_else = λ q other. refl;
    base = refl;
    has_read = h;
  }
