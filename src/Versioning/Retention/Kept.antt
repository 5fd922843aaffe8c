-- ===== src/Versioning/Retention/Kept.antt =====
-- Which versions the rules of backend/versioning/retention.ts keep, by their place among those of the file.
use cnc_network_bridge.Base.{
  ℕ, suc, ◌+◌, ◌*◌, Bool, ◌&&◌, ◌||◌, not, List, [], ◌∷◌, ◌++◌, ltb, ◌==◌, if◌then◌else◌,
}
use cnc_network_bridge.Versioning.Retention.{
  FileVersion, RetentionInput, sort_versions, is_protected,
}

-- More than so many days old, where the days are limited.
abbrev is_aged : RetentionInput → FileVersion → Bool
is_aged i v = not (i.policy.keep_days == 0) && ltb (v.created_at + i.policy.keep_days * 86400) i.now

-- Of the versions of a file, newest first, what is kept once so many unprotected ones have passed: the
-- protected ones; the newest other one; and of the others those among the first of the number that the
-- policy keeps that are not too old.
unfoldable pub retained : RetentionInput → ℕ → List FileVersion → List FileVersion
retained i rank [] = []
retained i rank (v ∷ vs) =
    let stays = rank == 0 || ltb rank i.policy.keep_count && not (is_aged i v) in
    if is_protected i v
    then v ∷ retained i rank vs
    else if stays
    then v ∷ retained i (suc rank) vs
    else retained i (suc rank) vs

-- The same for all files.
unfoldable pub retained_all : RetentionInput → List (List FileVersion) → List FileVersion
retained_all i [] = []
retained_all i (b ∷ bs) = retained i 0 (sort_versions b) ++ retained_all i bs
