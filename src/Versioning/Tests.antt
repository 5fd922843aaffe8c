-- ===== src/Versioning/Tests.antt =====
-- Runs of the version store, of its cleanup and of its engine, and their theorems at inputs where their
-- hypotheses hold.
use cnc_network_bridge.Base.{
  ℕ, String, ◌≡◌, refl, true, false, none, some, List, [], ◌∷◌, ◌++◌, get, put, string_eq, All,
  filter_by, arith, if◌then◌else◌, str_eq,
}
use cnc_network_bridge.Sync.Diff.Types.{Place, CaptureReason, VersionCapture}
use cnc_network_bridge.Versioning.Sample.{ones, sha256, gzip, gunzip, empty_alone, coding}
use cnc_network_bridge.Versioning.Retention.{FileVersion, VersionOrigin, plan_retention}
use cnc_network_bridge.Versioning.BlobStore.{Bytes, StoreError, put_file, locate, hex_run, create}
use cnc_network_bridge.Versioning.VersionStore.{
  VersionStore, CaptureInput, referenced_version_ids, all_for_share, ok, err, store_failed,
  find_version, delete, next_id, restore, capture, delete_row, unlink_blob, open_content,
}
use cnc_network_bridge.Versioning.VersionStore.Backed.{IsWell}
use cnc_network_bridge.Versioning.VersionStore.Undo.{restore_undo}
use cnc_network_bridge.Versioning.VersionStore.Races.{delete_race}
use cnc_network_bridge.Versioning.Cleanup.{
  VersioningConfig, run, dry_run, delete_all, freed_hashes, survives, input_for, format_bytes,
}
use cnc_network_bridge.Versioning.Cleanup.History.{
  Event, captures, writes, apply, apply_all, new_store, apply_all-IsWell,
}
use cnc_network_bridge.Versioning.Cleanup.Listed.{
  listed_opens, history_spares, new_store-IsWell, apply_all-IsUnique,
}
use cnc_network_bridge.Versioning.Cleanup.Spared.{IsOutdone}
use cnc_network_bridge.Versioning.Cleanup.Freed.{run_frees_estimate}
use cnc_network_bridge.Versioning.Engine.{
  VersioningEngine, Ports, capture_version, transfer, tick, default_threshold,
}
use cnc_network_bridge.Versioning.Engine.Late.{late_capture, Keeps}

abbrev of_file : ℕ → CaptureInput
of_file share_id = record {
  share_id = share_id;
  rel_path = "A.H";
  source_path = "/cache/A.H";
  origin = VersionOrigin.server;
  reason = none;
}

-- A file of two bytes is captured, and made empty.
abbrev events : List Event
events =
    writes "/cache/A.H" (1 ∷ 2 ∷ [])
    ∷ captures (of_file 1) 5 100 false
    ∷ writes "/cache/A.H" []
    ∷ []

abbrev store : VersionStore
store = apply_all sha256 gzip gunzip events (new_store 0)

store-IsWell : IsWell coding store
store-IsWell = apply_all-IsWell coding events (new_store 0) (new_store-IsWell coding 0)

abbrev first : FileVersion
first = record {
  id = 1;
  share_id = 1;
  rel_path = "A.H";
  hash = ones;
  size = 2;
  mtime = 5;
  origin = VersionOrigin.server;
  reason = none;
  created_at = 100;
  pinned = false;
}

first_found : find_version 1 store.rows ≡ some first
unfolding apply_all apply capture put_file locate create hex_run get put find_version
first_found = refl

file_empty : get "/cache/A.H" store.blobs.outside ≡ some []
unfolding apply_all apply capture put_file locate create hex_run get put
file_empty = refl

restore_undo_example :
    let s' =
      (restore sha256 gzip gunzip 1 (λ p. some "/cache/A.H") (some "A.H") 6 200 false store).0 in
    ((c : Bytes) × (sha256 c ≡ ones) × (get "/cache/A.H" s'.blobs.outside ≡ some c))
    × (get "/cache/A.H"
          (restore sha256 gzip gunzip
            (next_id store.rows)
            (λ p. some "/cache/A.H")
            (some "A.H")
            7
            300
            false
            s').0.blobs.outside
        ≡ some [])
restore_undo_example =
    restore_undo coding 1 first (λ p. some "/cache/A.H") "A.H" "/cache/A.H" [] 6 200 7 300 store
      store-IsWell first_found refl file_empty empty_alone

listed_opens_example :
    (c : Bytes) × (sha256 c ≡ ones) × (open_content sha256 gzip gunzip 1 store ≡ ok c)
listed_opens_example = listed_opens coding 0 events 1 first first_found

-- Before the file is made empty, a deletion races with a capture of it.
abbrev full_events : List Event
full_events = writes "/cache/A.H" (1 ∷ 2 ∷ []) ∷ captures (of_file 1) 5 100 false ∷ []

abbrev full : VersionStore
full = apply_all sha256 gzip gunzip full_events (new_store 0)

full_found : find_version 1 full.rows ≡ some first
unfolding apply_all apply capture put_file locate create hex_run get put find_version
full_found = refl

full_last : (delete_row first full).1 ≡ true
unfolding apply_all apply capture put_file locate create hex_run get put delete_row
full_last = refl

full_raw : get ones full.blobs.gz ≡ none
unfolding apply_all apply capture put_file locate create hex_run get put
full_raw = refl

full_file : get "/cache/A.H" full.blobs.outside ≡ some (1 ∷ 2 ∷ [])
unfolding apply_all apply capture put_file locate create hex_run get put
full_file = refl

delete_race_example :
    let s2 = (capture sha256 gzip gunzip (of_file 1) 5 101 false (delete_row first full).0).0 in
    let s3 = (unlink_blob ones s2).0 in
    (w : FileVersion) × (find_version w.id s3.rows ≡ some w)
    × (w.hash ≡ ones)
    × (open_content sha256 gzip gunzip w.id s3
        ≡ err (store_failed (StoreError.blob_not_found ones)))
delete_race_example =
    delete_race coding first (1 ∷ 2 ∷ []) (of_file 1) 5 101 full
      (apply_all-IsWell coding full_events (new_store 0) (new_store-IsWell coding 0)) full_found
      refl full_last full_raw full_file

-- Two versions of the file, of which a pass keeps one, and a version of the same content in another share.
abbrev two : List Event
two = events ++ captures (of_file 1) 7 200 false ∷ []

abbrev shared : List Event
shared = writes "/cache/A.H" (1 ∷ 2 ∷ []) ∷ captures (of_file 2) 5 50 false ∷ two

abbrev keep_one : VersioningConfig
keep_one = record { enabled = true; keep_count = 1; keep_days = 0 }

history_spares_example :
    let s = apply_all sha256 gzip gunzip two (new_store 0) in
    let plan = (dry_run keep_one [] 300 none s).plan in
    let s' = (run keep_one [] 300 none s).0 in
    (s'.rows ≡ filter_by (survives plan.prune) s.rows)
    × All (IsOutdone (input_for keep_one [] 300 (all_for_share none s)) s'.rows) plan.prune
history_spares_example = history_spares sha256 gzip gunzip 0 two keep_one [] 300 none refl

abbrev size_by_hash : String → ℕ
size_by_hash h = if str_eq h ones then 2 else 0

two_sizes :
    All
      (λ (v : FileVersion). v.size ≡ size_by_hash v.hash)
      (apply_all sha256 gzip gunzip two (new_store 0)).rows
unfolding apply_all apply capture put_file locate create hex_run get put
two_sizes = (refl, (refl, tt))

run_frees_estimate_example :
    let s = apply_all sha256 gzip gunzip two (new_store 0) in
    (run keep_one [] 300 none s).1.bytes_freed
    ≡ (dry_run keep_one [] 300 none s).estimated_bytes_freed
run_frees_estimate_example =
    run_frees_estimate coding size_by_hash keep_one [] 300
      (apply_all sha256 gzip gunzip two (new_store 0))
      (apply_all-IsWell coding two (new_store 0) (new_store-IsWell coding 0))
      (apply_all-IsUnique sha256 gzip gunzip two (new_store 0) (λ id. omega arith)) two_sizes refl

-- For one share, the estimate counts content that another share still cites.
estimate_for_share :
    (dry_run keep_one [] 300
      (some 1)
      (apply_all sha256 gzip gunzip shared (new_store 0))).estimated_bytes_freed
    ≡ 2
unfolding dry_run apply_all apply capture put_file locate create hex_run get put freed_hashes
    plan_retention referenced_version_ids
estimate_for_share = refl

freed_for_share :
    (run keep_one [] 300 (some 1) (apply_all sha256 gzip gunzip shared (new_store 0))).1.bytes_freed
    ≡ 0
unfolding run dry_run delete_all apply_all apply capture put_file locate create hex_run get put
    plan_retention referenced_version_ids delete find_version delete_row unlink_blob
freed_for_share = refl

abbrev engine : VersioningEngine
engine = record { store = full; waiting = []; disk_pressure_threshold = default_threshold }

abbrev ports : Ports
ports = record { share_id = 1; path_at = λ side rel_path. "/cache/A.H" }

abbrev overwritten : VersionCapture
overwritten = record { side = Place.local; reason = CaptureReason.overwrite }

late_capture_example : Keeps coding [] engine (
    tick sha256 gzip gunzip none 5 300 false
      (transfer "/cache/A.H" [] (capture_version ports "A.H" overwritten engine)))
late_capture_example = late_capture coding ports "A.H" overwritten [] none 5 300 engine refl refl

formatted : format_bytes 1536 ≡ "1.5 KB"
unfolding format_bytes
formatted = refl

formatted_nearly : format_bytes 1048575 ≡ "1024.0 KB"
unfolding format_bytes
formatted_nearly = refl
