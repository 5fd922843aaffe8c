-- ===== src/Versioning/Engine/Late.antt =====
-- What the queued captures of backend/versioning/versioning-engine.ts keep of a file that is overwritten.
use text.Mathlib.TextPositions.{eq_refl}
use cnc_network_bridge.Base.{
  ℕ, String, ◌≡◌, refl, ◌∙◌, Bool, true, false, Option, some, List, [], ◌∷◌, ◌++◌, get, put,
  get-put, string_eq,
}
use cnc_network_bridge.Sync.Diff.Types.{Place, CaptureReason, VersionCapture}
use cnc_network_bridge.Versioning.Retention.{FileVersion}
use cnc_network_bridge.Versioning.BlobStore.{Bytes}
use cnc_network_bridge.Versioning.BlobStore.Coding.{Coding}
use cnc_network_bridge.Versioning.VersionStore.{CaptureInput}
use cnc_network_bridge.Versioning.VersionStore.Written.{capture-Captured}
use cnc_network_bridge.Versioning.Engine.{
  VersioningEngine, Ports, DiskUsage, capture_version, handle_orchestrator_capture,
  capture_before_pull, capture_before_push, capture_conflict_loser, for_reason, run_first,
  should_capture, transfer, tick,
}

-- The capture of a file waits at the end.
record IsQueued (path : String) (e e' : VersioningEngine) : Type 0 where
  input : CaptureInput
  source : input.source_path ≡ path
  added : e' ≡ record e { waiting = e.waiting ++ input ∷ [] }

for_reason_queues :
    (r : CaptureReason) (p : Place) (share_id : ℕ) (rel_path path : String) (e : VersioningEngine)
    → IsQueued path e (for_reason r p share_id rel_path path e)
unfolding capture_before_pull capture_before_push capture_conflict_loser
for_reason_queues CaptureReason.overwrite Place.local share_id rel_path path e = record {
  input = _;
  source = refl;
  added = refl;
}
for_reason_queues CaptureReason.overwrite Place.remote share_id rel_path path e = record {
  input = _;
  source = refl;
  added = refl;
}
for_reason_queues CaptureReason.delete Place.local share_id rel_path path e = record {
  input = _;
  source = refl;
  added = refl;
}
for_reason_queues CaptureReason.delete Place.remote share_id rel_path path e = record {
  input = _;
  source = refl;
  added = refl;
}
for_reason_queues CaptureReason.conflict_loser p share_id rel_path path e = record {
  input = _;
  source = refl;
  added = refl;
}

capture_version_queues :
    (ports : Ports) (rel_path : String) (c : VersionCapture) (e : VersioningEngine)
    → IsQueued (ports.path_at c.side rel_path) e (capture_version ports rel_path c e)
unfolding capture_version handle_orchestrator_capture
capture_version_queues ports rel_path c e =
    for_reason_queues c.reason c.side ports.share_id rel_path (ports.path_at c.side rel_path) e

module _ (k : Coding) where
  open k use {sha256, gzip, gunzip, gunzip-gzip, sha256-is_digest}

  -- One version is added, with the digest of some content.
  abbrev pub Keeps : Bytes → VersioningEngine → VersioningEngine → Type 0
  Keeps content e e' =
      (v : FileVersion) × (e'.store.rows ≡ e.store.rows ++ v ∷ []) × (v.hash ≡ sha256 content)

  run_first-Keeps :
      (input : CaptureInput) (content : Bytes) (usage : Option DiskUsage) (mtime now : ℕ)
      (e : VersioningEngine) (waiting : List CaptureInput)
      → waiting ≡ input ∷ []
      → should_capture e.disk_pressure_threshold usage ≡ true
      → get input.source_path e.store.blobs.outside ≡ some content
      → Keeps content e (run_first sha256 gzip gunzip waiting usage mtime now false e)
  run_first-Keeps input content usage mtime now e waiting one on there =
      let c = capture-Captured k input mtime now content e.store there in
      rw (one, on) (c.result.version, c.rows_grown, c.hash)

  -- A capture that the event loop runs after the transfer keeps the new content, whatever the file held
  -- when the capture was asked for.
  pub late_capture :
      (ports : Ports) (rel_path : String) (c : VersionCapture) (content : Bytes)
      (usage : Option DiskUsage) (mtime now : ℕ) (e : VersioningEngine)
      → e.waiting ≡ []
      → should_capture e.disk_pressure_threshold usage ≡ true
      → Keeps content e (
          tick sha256 gzip gunzip usage mtime now false
            (transfer (ports.path_at c.side rel_path) content (capture_version ports rel_path c e)))
  unfolding tick transfer
  late_capture ports rel_path c content usage mtime now e none_waits on =
      let path = ports.path_at c.side rel_path in
      let q = capture_version_queues ports rel_path c e in
      let there : get q.input.source_path (put path content e.store.blobs.outside) ≡ some content =
        get-put path q.input.source_path content e.store.blobs.outside
        ∙ rw (q.source, eq_refl path) refl in
      rw q.added (
        run_first-Keeps q.input content usage mtime now
          (transfer path content (record e { waiting = e.waiting ++ q.input ∷ [] }))
          (e.waiting ++ q.input ∷ []) (rw none_waits refl) on there)

  -- A capture that the event loop runs before the transfer keeps the old content.
  early_capture :
      (ports : Ports) (rel_path : String) (c : VersionCapture) (old content : Bytes)
      (usage : Option DiskUsage) (mtime now : ℕ) (e : VersioningEngine)
      → e.waiting ≡ []
      → should_capture e.disk_pressure_threshold usage ≡ true
      → get (ports.path_at c.side rel_path) e.store.blobs.outside ≡ some old
      → Keeps old e (
          transfer
            (ports.path_at c.side rel_path)
            content
            (tick sha256 gzip gunzip usage mtime now false (capture_version ports rel_path c e)))
  unfolding tick transfer
  early_capture ports rel_path c old content usage mtime now e none_waits on there =
      let q = capture_version_queues ports rel_path c e in
      rw q.added (
        run_first-Keeps q.input old usage mtime now
          (record e { waiting = e.waiting ++ q.input ∷ [] }) (e.waiting ++ q.input ∷ [])
          (rw none_waits refl) on (rw q.source there))

  -- A disk that is nearly full takes no version, and the transfer is made all the same.
  pub pressed_overwrites :
      (ports : Ports) (rel_path : String) (c : VersionCapture) (content : Bytes)
      (usage : Option DiskUsage) (mtime now : ℕ) (fails : Bool) (e : VersioningEngine)
      → e.waiting ≡ []
      → should_capture e.disk_pressure_threshold usage ≡ false
      → let e' =
          transfer
            (ports.path_at c.side rel_path)
            content
            (tick sha256 gzip gunzip usage mtime now fails (capture_version ports rel_path c e)) in
        (e'.store.rows ≡ e.store.rows)
        × (get (ports.path_at c.side rel_path) e'.store.blobs.outside ≡ some content)
  unfolding tick transfer
  pressed_overwrites ports rel_path c content usage mtime now fails e none_waits off =
      let path = ports.path_at c.side rel_path in
      let q = capture_version_queues ports rel_path c e in
      rw (q.added, none_waits, off)
        (refl, get-put path path content e.store.blobs.outside ∙ rw (eq_refl path) refl)
