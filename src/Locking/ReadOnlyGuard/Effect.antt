-- ===== src/Locking/ReadOnlyGuard/Effect.antt =====
-- What backend/locking/read-only-guard.ts does to the files.
use text.Mathlib.TextPositions.{eq_refl}
use cnc_network_bridge.Base.{
  String, ◌≡◌, refl, Bool, true, false, not, Option, none, some, str_eq, arith, Bool-cases,
  Option-cases, inl, inr,
}
use cnc_network_bridge.Locking.ReadOnlyGuard.{Mode, Files, is_writable, apply_read_only}

-- A file that is there, and that nobody may write.
abbrev pub is_protected : Option Mode → Bool
is_protected none = false
is_protected (some m) = not (is_writable m)

abbrev pub could_write : Option Mode → Bool
could_write none = false
could_write (some m) = is_writable m

-- Taking the write permission changes no other file. Where it is answered that all is well, the file is
-- there and nobody may write it; where it is answered that nothing was changed, no file is changed; and
-- where it is answered that something was, the file could be written before.
pub apply_read_only_effect :
    (chmod_error : String → Option String) (path other : String) (files : Files)
    → let done = apply_read_only chmod_error path files in
      (str_eq other path ≡ false → done.0 other ≡ files other)
      × (done.1.ok ≡ true → is_protected (done.0 path) ≡ true)
      × (done.1.applied ≡ false → done.0 other ≡ files other)
      × (done.1.applied ≡ true → could_write (files path) ≡ true)
unfolding apply_read_only
apply_read_only_effect chmod_error path other files = elim (Option-cases (files path)) [
  | inl gone ↦ rw gone ((λ n. refl), (λ h. ground arith), (λ h. refl), λ h. ground arith)
  | inr (m, there) ↦ elim (Bool-cases (is_writable m)) [
    | inr fixed ↦
        rw (there, fixed)
          ((λ n. refl), (λ h. rw (there, fixed) refl), (λ h. refl), λ h. ground arith)
    | inl free ↦ elim (Option-cases (chmod_error path)) [
      | inl lets ↦
          rw (there, free, lets)
            ((λ n. rw n refl), (λ h. rw (eq_refl path) refl), (λ h. ground arith), λ h. refl)
      | inr (e, refuses) ↦
          rw (there, free, refuses)
            ((λ n. refl), (λ h. ground arith), (λ h. refl), λ h. ground arith)
    ]
  ]
]
