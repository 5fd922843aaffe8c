-- ===== src/Locking/ConflictResolver/Links.antt =====
-- The records of backend/locking/conflict-resolver.ts and the versions that they name.
use cnc_network_bridge.Base.{
  ℕ, suc, ◌≤◌, String, ◌≡◌, refl, false, Option, none, some, List, [], ◌∷◌, length, ◌==◌,
  if◌then◌else◌, map, arith, inl, inr, Bool-cases,
}
use cnc_network_bridge.Sync.Diff.Types.{Place}
use cnc_network_bridge.Locking.ConflictResolver.{
  FileFingerprint, ResolveConflictInput, VersionRow, ConflictRow, Tables, decide_winner, loser_of,
  winner_of, hash_of, capture_version, version_of, resolve, acknowledge, set_acknowledged,
}

unfoldable pub find_version : ℕ → List VersionRow → Option VersionRow
find_version id [] = none
find_version id (v ∷ vs) = let rest = find_version id vs in if v.id == id then some v else rest

-- The ids of the versions count down to one.
abbrev IsNumbered : List VersionRow → Type 0
IsNumbered [] = Unit
IsNumbered (v ∷ vs) = (v.id ≡ suc (length vs)) × IsNumbered vs

-- There is a version of this file with this hash.
pub record IsVersion (vs : List VersionRow) (id share_id : ℕ) (path : String) (hash : Option String)
    : Type 0 where
  version : VersionRow
  there : find_version id vs ≡ some version
  same_share : version.share_id ≡ share_id
  same_path : version.rel_path ≡ path
  same_hash : some version.hash ≡ hash

abbrev LinksTo : List VersionRow → ℕ → String → Option String → Option ℕ → Type 0
LinksTo vs share_id path hash none = hash ≡ none
LinksTo vs share_id path hash (some id) = IsVersion vs id share_id path hash

-- A conflict names a version of its file with the loser's hash, or the losing side had no file.
abbrev pub IsLinked : List VersionRow → ConflictRow → Type 0
IsLinked vs c = LinksTo vs c.share_id c.rel_path c.loser_hash c.loser_version_id

abbrev pub AllLinked : List VersionRow → List ConflictRow → Type 0
AllLinked vs [] = Unit
AllLinked vs (c ∷ cs) = IsLinked vs c × AllLinked vs cs

-- The side that did not win, by the winner's name.
abbrev beaten : Place → ResolveConflictInput → Option FileFingerprint
beaten Place.local input = input.remote
beaten Place.remote input = input.local

abbrev best : Place → ResolveConflictInput → Option FileFingerprint
best Place.local input = input.local
best Place.remote input = input.remote

abbrev hash_in : Option FileFingerprint → Option String
hash_in none = none
hash_in (some f) = some f.hash

-- The record of a conflict is about the file of the call, and has the hashes of its two sides by who won.
abbrev pub IsRecorded : ResolveConflictInput → ConflictRow → Type 0
IsRecorded input c =
    (c.share_id ≡ input.share_id)
    × (c.rel_path ≡ input.rel_path)
    × (c.winner ≡ decide_winner input.mode input.local input.remote)
    × (c.loser_hash ≡ hash_in (beaten c.winner input))
    × (c.winner_hash ≡ hash_in (best c.winner input))

-- The records are those of the calls, each in its place.
abbrev pub AllRecorded : List ResolveConflictInput → List ConflictRow → Type 0
AllRecorded [] [] = Unit
AllRecorded (i ∷ is) (c ∷ cs) = IsRecorded i c × AllRecorded is cs
AllRecorded _ _ = ⊥

find_version_bound :
    (id : ℕ) (vs : List VersionRow) (w : VersionRow)
    → IsNumbered vs
    → find_version id vs ≡ some w
    → id ≤ length vs
unfolding find_version
find_version_bound id [] w n e = absurd (cc)
find_version_bound id (v ∷ vs) w (k, n) e = elim (Bool-cases (v.id == id)) [
  | inl here ↦ ground (arith, here, k)
  | inr there ↦
      let rest : find_version id vs ≡ some w = rw (← e, there) refl in
      omega (arith, find_version_bound id vs w n rest)
]

-- What a conflict names is still there after one version more.
add-LinksTo :
    (v : VersionRow) (vs : List VersionRow) (share_id : ℕ) (path : String) (hash : Option String)
    (id : Option ℕ)
    → v.id ≡ suc (length vs)
    → IsNumbered vs
    → LinksTo vs share_id path hash id
    → LinksTo (v ∷ vs) share_id path hash id
unfolding find_version
add-LinksTo v vs share_id path hash none k n l = l
add-LinksTo v vs share_id path hash (some id) k n l =
    let bound = find_version_bound id vs l.version n l.there in
    let other : (v.id == id) ≡ false = ground (arith, k, bound) in
    record {
      version = l.version;
      there = rw other l.there;
      same_share = l.same_share;
      same_path = l.same_path;
      same_hash = l.same_hash;
    }

add-AllLinked :
    (v : VersionRow) (vs : List VersionRow) (cs : List ConflictRow)
    → v.id ≡ suc (length vs)
    → IsNumbered vs
    → AllLinked vs cs
    → AllLinked (v ∷ vs) cs
add-AllLinked v vs [] k n h = tt
add-AllLinked v vs (c ∷ cs) k n (l, h) = (
  add-LinksTo v vs c.share_id c.rel_path c.loser_hash c.loser_version_id k n l,
  add-AllLinked v vs cs k n h,
)

-- Calls of the resolver, each at its time.
pub data Call : Type 0 where
  resolves : ResolveConflictInput → ℕ → Call
  acknowledges : ℕ → Call

unfoldable pub step : Call → Tables → Tables
step (resolves input now) t = (resolve input now t).0
step (acknowledges id) t = (acknowledge id t).0

unfoldable pub run : List Call → Tables → Tables
run [] t = t
run (x ∷ xs) t = run xs (step x t)

-- What the calls have resolved, newest first.
unfoldable pub resolved : List Call → List ResolveConflictInput → List ResolveConflictInput
resolved [] is = is
resolved (resolves input now ∷ xs) is = resolved xs (input ∷ is)
resolved (acknowledges id ∷ xs) is = resolved xs is

abbrev IsWell : Tables → Type 0
IsWell t = IsNumbered t.versions × AllLinked t.versions t.conflicts

-- The version of a loser is what the record of the conflict names.
capture_version-links :
    (share_id : ℕ) (path : String) (side : Option FileFingerprint) (reason : Option String)
    (now : ℕ) (t : Tables)
    → IsWell t
    → let (t', id) = capture_version share_id path side reason now t in
      IsNumbered t'.versions
      × AllLinked t'.versions t.conflicts
      × (t'.conflicts ≡ t.conflicts)
      × LinksTo t'.versions share_id path (hash_of side) id
unfolding capture_version find_version
capture_version-links share_id path none reason now t (n, h) = (n, h, refl, refl)
capture_version-links share_id path (some side) reason now t (n, h) =
    let v = version_of share_id path side reason now t.versions in
    (
      (refl, n),
      add-AllLinked v t.versions t.conflicts refl n h,
      refl,
      record {
        version = v;
        there = ground arith;
        same_share = refl;
        same_path = refl;
        same_hash = refl;
      },
    )

acknowledged-AllLinked :
    (id : ℕ) (vs : List VersionRow) (cs : List ConflictRow)
    → AllLinked vs cs
    → AllLinked vs (map (set_acknowledged id) cs)
acknowledged-AllLinked id vs [] h = tt
acknowledged-AllLinked id vs (c ∷ cs) (l, h) =
    let rest = acknowledged-AllLinked id vs cs h in
    elim (Bool-cases (c.id == id)) [ inl e ↦ rw e (l, rest) | inr e ↦ rw e (l, rest) ]

step-IsWell : (x : Call) (t : Tables) → IsWell t → IsWell (step x t)
unfolding step resolve acknowledge
step-IsWell (resolves input now) t w =
    let winner = decide_winner input.mode input.local input.remote in
    let side = loser_of winner input.local input.remote in
    let links = capture_version-links input.share_id input.rel_path side _ now t w in
    (links.0, (links.3, rw links.2 links.1))
step-IsWell (acknowledges id) t (n, h) = (n, acknowledged-AllLinked id t.versions t.conflicts h)

run-IsWell : (xs : List Call) (t : Tables) → IsWell t → IsWell (run xs t)
unfolding run
run-IsWell [] t w = w
run-IsWell (x ∷ xs) t w = run-IsWell xs (step x t) (step-IsWell x t w)

same_hash : (f : Option FileFingerprint) → hash_of f ≡ hash_in f
same_hash none = refl
same_hash (some f) = refl

recorded_sides :
    (w : Place) (input : ResolveConflictInput)
    → (hash_of (loser_of w input.local input.remote) ≡ hash_in (beaten w input))
      × (hash_of (winner_of w input.local input.remote) ≡ hash_in (best w input))
recorded_sides Place.local input = (same_hash input.remote, same_hash input.local)
recorded_sides Place.remote input = (same_hash input.local, same_hash input.remote)

acknowledged-AllRecorded :
    (id : ℕ) (is : List ResolveConflictInput) (cs : List ConflictRow)
    → AllRecorded is cs
    → AllRecorded is (map (set_acknowledged id) cs)
acknowledged-AllRecorded id [] [] h = h
acknowledged-AllRecorded id [] (c ∷ cs) h = absurd h
acknowledged-AllRecorded id (i ∷ is) [] h = absurd h
acknowledged-AllRecorded id (i ∷ is) (c ∷ cs) (l, h) =
    let rest = acknowledged-AllRecorded id is cs h in
    elim (Bool-cases (c.id == id)) [ inl e ↦ rw e (l, rest) | inr e ↦ rw e (l, rest) ]

capture_version-conflicts :
    (share_id : ℕ) (path : String) (side : Option FileFingerprint) (reason : Option String)
    (now : ℕ) (t : Tables)
    → (capture_version share_id path side reason now t).0.conflicts ≡ t.conflicts
unfolding capture_version
capture_version-conflicts share_id path none reason now t = refl
capture_version-conflicts share_id path (some side) reason now t = refl

run-AllRecorded :
    (xs : List Call) (is : List ResolveConflictInput) (t : Tables)
    → AllRecorded is t.conflicts
    → AllRecorded (resolved xs is) (run xs t).conflicts
unfolding run resolved step resolve acknowledge
run-AllRecorded [] is t h = h
run-AllRecorded (resolves input now ∷ xs) is t h =
    let winner = decide_winner input.mode input.local input.remote in
    let sides = recorded_sides winner input in
    run-AllRecorded xs (input ∷ is) (resolve input now t).0 (
      (refl, refl, refl, sides.0, sides.1),
      rw
          (capture_version-conflicts input.share_id input.rel_path
            (loser_of winner input.local input.remote) _ now t)
          h,
    )
run-AllRecorded (acknowledges id ∷ xs) is t h =
    run-AllRecorded xs is (acknowledge id t).0 (acknowledged-AllRecorded id is t.conflicts h)

-- After any calls on empty tables, the recorded conflicts are those of the calls that resolve, newest
-- first, each with the winner of its call, the hash of that side and the hash of the other side; and each
-- names a version of its file with the hash of the losing side, or that side had no file.
pub run-AllLinked :
    (xs : List Call)
    → let t = run xs (record { versions = []; conflicts = [] }) in
      AllLinked t.versions t.conflicts × AllRecorded (resolved xs []) t.conflicts
run-AllLinked xs =
    let empty : Tables = record { versions = []; conflicts = [] } in
    ((run-IsWell xs empty (tt, tt)).1, run-AllRecorded xs [] empty tt)
