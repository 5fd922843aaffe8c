-- ===== src/Versioning/BlobStore/Roundtrip.antt =====
-- Content put in backend/versioning/blob-store.ts, and extracted later.
use text.Mathlib.TextPositions.{eq_refl}
use cnc_network_bridge.Base.{
  ℕ, String, ◌≡◌, refl, sym, Bool, true, false, ◌||◌, Option, none, some, List, [], ◌∷◌, str_eq,
  length, arith, put, get, string_eq, get-put, get-remove, IsMap, All, is_some, subst,
}
use cnc_network_bridge.Versioning.BlobStore.{
  Bytes, BlobStore, Located, Result, ok, err, is_digest, locate, extract_to, extract_found,
  rename_to, copy_and_hash, create, place, without, delete, delete_found, put_file, put_found,
  sweep_temp, Op, puts, puts_moving, extracts, deletes, crashes, sweeps, step, run, found,
}
use cnc_network_bridge.Versioning.BlobStore.Extract.{
  IsHonest, refused, extracted, extract_to-IsHonest,
}
use cnc_network_bridge.Versioning.BlobStore.Sound.{
  IsIntact, IsStable, HasDigest, step-IsIntact, run-IsIntact, create-IsIntact,
}

-- An event that does not delete this digest, nor puts a file that changes meanwhile.
abbrev pub IsKept : String → Op → Type 0
IsKept h (deletes k) = str_eq k h ≡ false
IsKept h (puts_moving size first second fails) = ⊥
IsKept h _ = Unit

abbrev pub is_present : String → BlobStore → Bool
is_present h s = is_some (get h s.raw) || is_some (get h s.gz)

place_keeps :
    (h d : String) (x : Bytes) (b : Bool) (s : BlobStore)
    → is_present h s ≡ true
    → is_present h (place d x b s) ≡ true
place_keeps h d x true s p = ground (arith, p, get-put d h x s.gz)
place_keeps h d x false s p = ground (arith, p, get-put d h x s.raw)

pub place_present :
    (d : String) (x : Bytes) (b : Bool) (s : BlobStore) → is_present d (place d x b s) ≡ true
place_present d x true s = ground (arith, get-put d d x s.gz, eq_refl d)
place_present d x false s = ground (arith, get-put d d x s.raw, eq_refl d)

without_keeps :
    (h d : String) (b : Bool) (s : BlobStore)
    → IsMap s.raw
    → IsMap s.gz
    → str_eq d h ≡ false
    → is_present h s ≡ true
    → is_present h (without d b s) ≡ true
without_keeps h d true s u v e p = ground (arith, p, e, get-remove d h s.gz v)
without_keeps h d false s u v e p = ground (arith, p, e, get-remove d h s.raw u)

delete_keeps :
    (h d : String) (s : BlobStore) (r : Result (Option Located))
    → IsMap s.raw
    → IsMap s.gz
    → str_eq d h ≡ false
    → is_present h s ≡ true
    → is_present h (delete_found d s r).0 ≡ true
delete_keeps h d s (err e) u v k p = p
delete_keeps h d s (ok none) u v k p = p
delete_keeps h d s (ok (some l)) u v k p = without_keeps h d l.compressed s u v k p

module _ (sha256 : Bytes → String) (gzip : Bytes → Bytes) (gunzip : Bytes → Option Bytes)
    (gunzip-gzip : (c : Bytes) → gunzip (gzip c) ≡ some c)
    (sha256-is_digest : (c : Bytes) → is_digest (sha256 c) ≡ true) where
  abbrev Intact : BlobStore → Type 0
  Intact = IsIntact sha256 gunzip

  put_keeps :
      (h d : String) (size : ℕ) (c : Bytes) (fails : Bool) (s : BlobStore)
      (r : Result (Option Located))
      → is_present h s ≡ true
      → is_present h (put_found sha256 gzip gunzip d size c fails s r).0 ≡ true
  put_keeps h d size c fails s (err e) p = p
  put_keeps h d size c fails s (ok (some l)) p = p
  put_keeps h d size c true s (ok none) p = p
  put_keeps h d size c false s (ok none) p = place_keeps h d _ _ s p

  honest_keeps :
      (h k d : String) (s : BlobStore) (r : BlobStore × Result ℕ)
      → IsHonest sha256 gzip gunzip k d s r
      → is_present h s ≡ true
      → is_present h r.0 ≡ true
  honest_keeps h k d s r refused p = p
  honest_keeps h k d s r (extracted c e) p = p

  pub step_keeps :
      (h : String) (x : Op) (s : BlobStore)
      → Intact s
      → IsKept h x
      → is_present h s ≡ true
      → is_present h (step sha256 gzip gunzip x s) ≡ true
  unfolding step put_file delete sweep_temp
  step_keeps h (puts size c fails) s o k p =
      put_keeps h (sha256 c) size c fails s (locate (sha256 c) s) p
  step_keeps h (puts_moving size c c' fails) s o k p = absurd k
  step_keeps h (extracts g d fails) s o k p =
      honest_keeps h g d s _ (extract_to-IsHonest sha256 gzip gunzip g d fails s) p
  step_keeps h (deletes d) s o k p = delete_keeps h d s (locate d s) o.raw_map o.gz_map k p
  step_keeps h (crashes b) s o k p = p
  step_keeps h sweeps s o k p = p

  kept-IsStable : (h : String) (x : Op) → IsKept h x → IsStable x
  kept-IsStable h (puts size c fails) k = tt
  kept-IsStable h (puts_moving size c c' fails) k = k
  kept-IsStable h (extracts g d fails) k = tt
  kept-IsStable h (deletes d) k = tt
  kept-IsStable h (crashes b) k = tt
  kept-IsStable h sweeps k = tt

  All-IsStable : (h : String) (xs : List Op) → All (IsKept h) xs → All IsStable xs
  All-IsStable h [] k = tt
  All-IsStable h (x ∷ xs) (k, ks) = (kept-IsStable h x k, All-IsStable h xs ks)

  run_keeps :
      (h : String) (xs : List Op) (s : BlobStore)
      → Intact s
      → All (IsKept h) xs
      → is_present h s ≡ true
      → is_present h (run sha256 gzip gunzip xs s) ≡ true
  unfolding run
  run_keeps h [] s o k p = p
  run_keeps h (x ∷ xs) s o (k, ks) p =
      run_keeps h xs (step sha256 gzip gunzip x s)
        (step-IsIntact sha256 gzip gunzip gunzip-gzip sha256-is_digest x s (kept-IsStable h x k) o)
        ks (step_keeps h x s o k p)

  -- A put that the disk does not fail leaves the digest there.
  put_present :
      (size : ℕ) (c : Bytes) (s : BlobStore) (r w : Option Bytes)
      → get (sha256 c) s.raw ≡ r
      → get (sha256 c) s.gz ≡ w
      → is_present
          (sha256 c)
          (put_found sha256 gzip gunzip (sha256 c) size c false s (ok (found r w))).0
        ≡ true
  put_present size c s none none e f = place_present (sha256 c) _ _ s
  put_present size c s none (some z) e f = ground (arith, e, f)
  put_present size c s (some x) w e f = ground (arith, e)

  pub copy_exact :
      (c : Bytes) (d : String) (s : BlobStore) (x : Option Bytes)
      → ((x : Bytes) → sha256 x ≡ sha256 c → x ≡ c)
      → HasDigest sha256 gunzip (sha256 c) x
      → rename_to sha256 gzip gunzip d s (copy_and_hash sha256 gzip gunzip (sha256 c) x)
        ≡ (record s { outside = put d c s.outside }, ok (length c))
  copy_exact c d s none u h = absurd h
  copy_exact c d s (some x) u h = rw (u x h, eq_refl (sha256 c)) refl

  -- Where the digest is there, and belongs to one content, the extraction gives it.
  present_extracts :
      (c : Bytes) (d : String) (s : BlobStore) (r w : Option Bytes)
      → ((x : Bytes) → sha256 x ≡ sha256 c → x ≡ c)
      → ((x : Bytes) → r ≡ some x → sha256 x ≡ sha256 c)
      → ((z : Bytes) → w ≡ some z → HasDigest sha256 gunzip (sha256 c) (gunzip z))
      → is_some r || is_some w ≡ true
      → extract_found sha256 gzip gunzip (sha256 c) d false s (ok (found r w))
        ≡ (record s { outside = put d c s.outside }, ok (length c))
  present_extracts c d s none none u f g p = absurd (cc)
  present_extracts c d s none (some z) u f g p = copy_exact c d s (gunzip z) u (g z refl)
  present_extracts c d s (some x) w u f g p = copy_exact c d s (some x) u (f x refl)

  pub present_here :
      (c : Bytes) (d : String) (s : BlobStore)
      → ((x : Bytes) → sha256 x ≡ sha256 c → x ≡ c)
      → Intact s
      → is_present (sha256 c) s ≡ true
      → extract_to sha256 gzip gunzip (sha256 c) d false s
        ≡ (record s { outside = put d c s.outside }, ok (length c))
  unfolding extract_to locate
  present_here c d s u o p = rw (sha256-is_digest c) (
      present_extracts c d s (get (sha256 c) s.raw) (get (sha256 c) s.gz) u (o.raw_sound (sha256 c))
        (o.gz_sound (sha256 c)) p)

  pub locate_own :
      (c : Bytes) (s : BlobStore)
      → locate (sha256 c) s ≡ ok (found (get (sha256 c) s.raw) (get (sha256 c) s.gz))
  unfolding locate
  locate_own c s = rw (sha256-is_digest c) refl

  pub puts_present :
      (size : ℕ) (c : Bytes) (s : BlobStore)
      → is_present (sha256 c) (step sha256 gzip gunzip (puts size c false) s) ≡ true
  unfolding step put_file
  puts_present size c s =
      subst
        (λ r.
          is_present (sha256 c) (put_found sha256 gzip gunzip (sha256 c) size c false s r).0 ≡ true)
        (sym (locate_own c s)) (put_present size c s _ _ refl refl)

  -- Take the compression to be without loss, every digest to be well formed, and some content to be the
  -- only one with its digest. After any history of a store in which every file stayed the same while it was
  -- put, once the content has been put, unchanged meanwhile, and the disk has not failed, and after any
  -- such events that do not delete its digest, an extraction that the disk does not fail writes exactly that content to the destination and returns its length, whether or not it is
  -- compressed.
  pub put_extracts :
      (threshold size : ℕ) (before after : List Op) (c : Bytes) (destination : String)
      → ((x : Bytes) → sha256 x ≡ sha256 c → x ≡ c)
      → All IsStable before
      → All (IsKept (sha256 c)) after
      → let s =
          run sha256 gzip gunzip
            (puts size c false ∷ after)
            (run sha256 gzip gunzip before (create threshold)) in
        extract_to sha256 gzip gunzip (sha256 c) destination false s
        ≡ (record s { outside = put destination c s.outside }, ok (length c))
  unfolding run
  put_extracts threshold size before after c destination unique stable kept =
      let sound = run-IsIntact sha256 gzip gunzip gunzip-gzip sha256-is_digest in
      let first = run sha256 gzip gunzip before (create threshold) in
      let o =
        sound before (create threshold) stable
          (create-IsIntact sha256 gzip gunzip gunzip-gzip sha256-is_digest threshold) in
      let next = step sha256 gzip gunzip (puts size c false) first in
      let o' =
        step-IsIntact sha256 gzip gunzip gunzip-gzip sha256-is_digest (puts size c false) first tt
          o in
      present_here c destination (run sha256 gzip gunzip after next) unique
        (sound after next (All-IsStable (sha256 c) after kept) o')
        (run_keeps (sha256 c) after next o' kept (puts_present size c first))
