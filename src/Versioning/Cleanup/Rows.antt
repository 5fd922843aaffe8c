-- ===== src/Versioning/Cleanup/Rows.antt =====
-- Which rows a pass of backend/versioning/cleanup.ts deletes.
use cnc_network_bridge.Base.{
  ℕ, String, ◌≡◌, refl, sym, ◌∙◌, Option, none, some, List, [], ◌∷◌, filter_by, arith,
}
use cnc_network_bridge.Versioning.Retention.{FileVersion, PruneDecision}
use cnc_network_bridge.Versioning.VersionStore.{
  VersionStore, delete, delete_found, delete_row, unlink_blob, find_version, is_other,
}
use cnc_network_bridge.Versioning.Cleanup.{delete_all, survives}

absent_rows :
    (id : ℕ) (rows : List FileVersion)
    → find_version id rows ≡ none
    → filter_by (is_other id) rows ≡ rows
unfolding find_version
absent_rows id [] e = refl
absent_rows id (v ∷ vs) e = ground (arith, absent_rows id vs)

found_id :
    (id : ℕ) (rows : List FileVersion) (v : FileVersion) → find_version id rows ≡ some v → v.id ≡ id
unfolding find_version
found_id id [] v e = absurd (cc)
found_id id (w ∷ ws) v e = ground (arith, found_id id ws v)

unlink_blob-rows : (h : String) (s : VersionStore) → (unlink_blob h s).0.rows ≡ s.rows
unfolding unlink_blob
unlink_blob-rows h s = refl

delete_found-rows :
    (v : Option FileVersion) (id : ℕ) (s : VersionStore)
    → find_version id s.rows ≡ v
    → (delete_found v id s).0.rows ≡ filter_by (is_other id) s.rows
unfolding delete_row unlink_blob
delete_found-rows none id s e = sym (absent_rows id s.rows e)
delete_found-rows (some v) id s e = ground (arith, found_id id s.rows v e)

-- Whatever comes of the blob, the rows with the id are gone, and no others.
pub delete-rows :
    (id : ℕ) (s : VersionStore) → (delete id s).0.rows ≡ filter_by (is_other id) s.rows
unfolding delete
delete-rows id s = delete_found-rows (find_version id s.rows) id s refl

pub filter_survivors :
    (d : PruneDecision) (ds : List PruneDecision) (rows : List FileVersion)
    → filter_by (survives ds) (filter_by (is_other d.version.id) rows)
      ≡ filter_by (survives (d ∷ ds)) rows
filter_survivors d ds [] = refl
filter_survivors d ds (v ∷ vs) = ground (arith, filter_survivors d ds vs)

pub survives_none : (rows : List FileVersion) → filter_by (survives []) rows ≡ rows
survives_none [] = refl
survives_none (v ∷ vs) = ground (arith, survives_none vs)

pub delete_all-rows :
    (ds : List PruneDecision) (s : VersionStore)
    → (delete_all ds s).0.rows ≡ filter_by (survives ds) s.rows
unfolding delete_all
delete_all-rows [] s = sym (survives_none s.rows)
delete_all-rows (d ∷ ds) s =
    delete_all-rows ds (delete d.version.id s).0
    ∙ (rw (delete-rows d.version.id s) refl ∙ filter_survivors d ds s.rows)
