-- ===== src/Versioning/BlobStore/Sound.antt =====
-- What the files of backend/versioning/blob-store.ts hold, and for how long.
use text.Mathlib.TextEquality.{eq_iff}
use mathlib.Core.Option.{some_inj}
use cnc_network_bridge.Base.{
  All, ℕ, String, ◌≡◌, ◌⊎◌, refl, sym, ◌∙◌, Bool, true, false, Option, none, some, List, [], ◌∷◌,
  str_eq, inl, inr, Bool-cases, put, get, remove, string_eq, if◌then◌else◌, get-put, get-remove,
  IsMap, put-IsMap, remove-IsMap,
}
use cnc_network_bridge.Versioning.BlobStore.{
  Bytes, BlobStore, Located, Result, ok, err, is_digest, locate, create, place, without, delete,
  put_file, put_found, delete_found, sweep_temp, Op, puts, puts_moving, extracts, deletes, crashes,
  sweeps, step, run,
}
use cnc_network_bridge.Versioning.BlobStore.Extract.{
  IsHonest, refused, extracted, extract_to-IsHonest,
}

-- A file that is put stays the same between the two reads of it.
abbrev pub IsStable : Op → Type 0
IsStable (puts_moving size first second fails) = ⊥
IsStable _ = Unit

module _ (sha256 : Bytes → String) (gunzip : Bytes → Option Bytes) where
  -- Content, if there is any, that has this digest.
  abbrev pub HasDigest : String → Option Bytes → Type 0
  HasDigest hash none = ⊥
  HasDigest hash (some c) = sha256 c ≡ hash

  pub record IsIntact (s : BlobStore) : Type 0 where
    pub raw_map : IsMap s.raw
    pub gz_map : IsMap s.gz
    pub raw_sound : (h : String) (c : Bytes) → get h s.raw ≡ some c → sha256 c ≡ h
    pub gz_sound : (h : String) (z : Bytes) → get h s.gz ≡ some z → HasDigest h (gunzip z)

module _ (sha256 : Bytes → String) (gzip : Bytes → Bytes) (gunzip : Bytes → Option Bytes)
    (gunzip-gzip : (c : Bytes) → gunzip (gzip c) ≡ some c)
    (sha256-is_digest : (c : Bytes) → is_digest (sha256 c) ≡ true) where
  abbrev Intact : BlobStore → Type 0
  Intact = IsIntact sha256 gunzip

  pub create-IsIntact : (threshold : ℕ) → IsIntact sha256 gunzip (create threshold)
  unfolding create get
  create-IsIntact threshold = record {
    raw_map = tt;
    gz_map = tt;
    raw_sound = λ h c e. absurd (cc);
    gz_sound = λ h z e. absurd (cc);
  }

  put_kept :
      (h d : String) (x y : Bytes) (m : List (String × Bytes))
      → get h (put d x m) ≡ some y
      → (get h m ≡ some y) ⊎ ((d ≡ h) × (x ≡ y))
  put_kept h d x y m e = elim (Bool-cases (str_eq d h)) [
    | inl here ↦ inr ((eq_iff d h).0 here, some_inj.0 (sym (get-put d h x m ∙ rw here refl) ∙ e))
    | inr there ↦ inl (sym (get-put d h x m ∙ rw there refl) ∙ e)
  ]

  remove_kept :
      (h d : String) (y : Bytes) (m : List (String × Bytes))
      → IsMap m
      → get h (remove d m) ≡ some y
      → get h m ≡ some y
  remove_kept h d y m u e = elim (Bool-cases (str_eq d h)) [
    | inl here ↦
        let gone : none ≡ some y = sym (get-remove d h m u ∙ rw here refl) ∙ e in absurd (cc)
    | inr there ↦ sym (get-remove d h m u ∙ rw there refl) ∙ e
  ]

  -- The files outside and the temp files do not matter.
  same-Intact :
      {s : BlobStore} {temps : List Bytes} {outside : List (String × Bytes)}
      → Intact s
      → Intact (record s { temps = temps; outside = outside })
  same-Intact o = record {
    raw_map = o.raw_map;
    gz_map = o.gz_map;
    raw_sound = o.raw_sound;
    gz_sound = o.gz_sound;
  }

  without-Intact : (d : String) (b : Bool) (s : BlobStore) → Intact s → Intact (without d b s)
  without-Intact d true s o = record {
    raw_map = o.raw_map;
    raw_sound = o.raw_sound;
    gz_map = remove-IsMap d s.gz o.gz_map;
    gz_sound = λ h z e. o.gz_sound h z (remove_kept h d z s.gz o.gz_map e);
  }
  without-Intact d false s o = record {
    gz_map = o.gz_map;
    gz_sound = o.gz_sound;
    raw_map = remove-IsMap d s.raw o.raw_map;
    raw_sound = λ h c e. o.raw_sound h c (remove_kept h d c s.raw o.raw_map e);
  }

  -- Content takes its place at its digest.
  placed-Intact :
      (c : Bytes) (b : Bool) (s : BlobStore)
      → Intact s
      → Intact (place (sha256 c) (if b then gzip c else c) b s)
  placed-Intact c true s o = record {
    raw_map = o.raw_map;
    raw_sound = o.raw_sound;
    gz_map = put-IsMap (sha256 c) (gzip c) s.gz o.gz_map;
    gz_sound = λ h z e. elim (put_kept h (sha256 c) (gzip c) z s.gz e) [
      | inl old ↦ o.gz_sound h z old
      | inr (here, same) ↦ rw (← same, gunzip-gzip c) here
    ];
  }
  placed-Intact c false s o = record {
    gz_map = o.gz_map;
    gz_sound = o.gz_sound;
    raw_map = put-IsMap (sha256 c) c s.raw o.raw_map;
    raw_sound = λ h x e. elim (put_kept h (sha256 c) c x s.raw e) [
      | inl old ↦ o.raw_sound h x old
      | inr (here, same) ↦ rw (← same) here
    ];
  }

  put-Intact :
      (size : ℕ) (c : Bytes) (fails : Bool) (s : BlobStore) (r : Result (Option Located))
      → Intact s
      → Intact (put_found sha256 gzip gunzip (sha256 c) size c fails s r).0
  put-Intact size c fails s (err e) o = o
  put-Intact size c fails s (ok (some l)) o = o
  put-Intact size c true s (ok none) o = o
  put-Intact size c false s (ok none) o = placed-Intact c _ s o

  delete-Intact :
      (h : String) (s : BlobStore) (r : Result (Option Located))
      → Intact s
      → Intact (delete_found h s r).0
  delete-Intact h s (err e) o = o
  delete-Intact h s (ok none) o = o
  delete-Intact h s (ok (some l)) o = without-Intact h l.compressed s o

  honest-Intact :
      (h d : String) (s : BlobStore) (r : BlobStore × Result ℕ)
      → IsHonest sha256 gzip gunzip h d s r
      → Intact s
      → Intact r.0
  honest-Intact h d s r refused o = o
  honest-Intact h d s r (extracted c e) o = same-Intact o

  pub step-IsIntact :
      (x : Op) (s : BlobStore)
      → IsStable x
      → IsIntact sha256 gunzip s
      → IsIntact sha256 gunzip (step sha256 gzip gunzip x s)
  unfolding step put_file delete sweep_temp
  step-IsIntact (puts size c fails) s _ o = put-Intact size c fails s (locate (sha256 c) s) o
  step-IsIntact (puts_moving size c c' fails) s k o = absurd k
  step-IsIntact (extracts h d fails) s _ o =
      honest-Intact h d s _ (extract_to-IsHonest sha256 gzip gunzip h d fails s) o
  step-IsIntact (deletes h) s _ o = delete-Intact h s (locate h s) o
  step-IsIntact (crashes b) s _ o = same-Intact o
  step-IsIntact sweeps s _ o = same-Intact o

  pub run-IsIntact :
      (xs : List Op) (s : BlobStore)
      → All IsStable xs
      → IsIntact sha256 gunzip s
      → IsIntact sha256 gunzip (run sha256 gzip gunzip xs s)
  unfolding run
  run-IsIntact [] s k o = o
  run-IsIntact (x ∷ xs) s (k, ks) o =
      run-IsIntact xs (step sha256 gzip gunzip x s) ks (step-IsIntact x s k o)
