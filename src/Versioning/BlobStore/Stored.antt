-- ===== src/Versioning/BlobStore/Stored.antt =====
-- What the answer of `putFile` of backend/versioning/blob-store.ts promises.
use text.Mathlib.TextPositions.{eq_refl}
use cnc_network_bridge.Base.{
  ℕ, String, ◌≡◌, refl, sym, Bool, true, false, Option, none, some, ◌||◌, arith, get, string_eq,
  is_some, subst, length, put, ap, ◌∙◌, remove, get-remove, true, false,
}
use cnc_network_bridge.Versioning.BlobStore.{
  Bytes, BlobStore, Located, Result, ok, err, StoredBlob, locate, put_file, put_found, found,
  read_all, read_found, extract_to, extract_found, decoded, delete, delete_found, blob_not_found,
}
use cnc_network_bridge.Versioning.BlobStore.Coding.{Coding}
use cnc_network_bridge.Versioning.BlobStore.Sound.{IsIntact, HasDigest}
use cnc_network_bridge.Versioning.BlobStore.Roundtrip.{is_present, place_present, locate_own}

module _ (k : Coding) where
  open k use {sha256, gzip, gunzip, gunzip-gzip, sha256-is_digest}

  -- The answer names the digest of the content, and its blob is there.
  abbrev pub Promised : Bytes → BlobStore × Result StoredBlob → Type 0
  Promised c (s, err e) = Unit
  Promised c (s, ok b) = (b.hash ≡ sha256 c) × (is_present (sha256 c) s ≡ true)

  put_found-Promised :
      (size : ℕ) (c : Bytes) (fails : Bool) (s : BlobStore) (r w : Option Bytes)
      → get (sha256 c) s.raw ≡ r
      → get (sha256 c) s.gz ≡ w
      → Promised c (put_found sha256 gzip gunzip (sha256 c) size c fails s (ok (found r w)))
  put_found-Promised size c true s none none e f = tt
  put_found-Promised size c false s none none e f = (refl, place_present (sha256 c) _ _ s)
  put_found-Promised size c fails s none (some z) e f = (refl, ground (arith, e, f))
  put_found-Promised size c fails s (some x) w e f = (refl, ground (arith, e))

  pub put_file-Promised :
      (size : ℕ) (c : Bytes) (fails : Bool) (s : BlobStore)
      → Promised c (put_file sha256 gzip gunzip size c c fails s)
  unfolding put_file
  put_file-Promised size c fails s =
      subst (λ r. Promised c (put_found sha256 gzip gunzip (sha256 c) size c fails s r))
        (sym (locate_own sha256 gzip gunzip gunzip-gzip sha256-is_digest c s))
        (put_found-Promised size c fails s _ _ refl refl)

  -- What is there can be read, and has its digest.
  pub record Reads (h d : String) (s : BlobStore) : Type 0 where
    pub content : Bytes
    pub digest : sha256 content ≡ h
    pub all_read : read_all sha256 gzip gunzip h s ≡ ok content
    pub written :
        extract_to sha256 gzip gunzip h d false s
        ≡ (record s { outside = put d content s.outside }, ok (length content))

  -- The same, for what `locate` finds.
  record Found (h d : String) (s : BlobStore) (r : Result (Option Located)) : Type 0 where
    content : Bytes
    digest : sha256 content ≡ h
    all_read : read_found sha256 gzip gunzip h r ≡ ok content
    written :
        extract_found sha256 gzip gunzip h d false s r
        ≡ (record s { outside = put d content s.outside }, ok (length content))

  decoded_reads :
      (h d : String) (s : BlobStore) (l : Located) (x : Option Bytes)
      → decoded sha256 gzip gunzip l ≡ x
      → HasDigest sha256 gunzip h x
      → Found h d s (ok (some l))
  decoded_reads h d s l none e p = absurd p
  decoded_reads h d s l (some c) e p = record {
    content = c;
    digest = p;
    all_read = rw e refl;
    written = rw (e, p, eq_refl h) refl;
  }

  found_reads :
      (h d : String) (s : BlobStore) (r w : Option Bytes)
      → ((x : Bytes) → r ≡ some x → sha256 x ≡ h)
      → ((z : Bytes) → w ≡ some z → HasDigest sha256 gunzip h (gunzip z))
      → is_some r || is_some w ≡ true
      → Found h d s (ok (found r w))
  found_reads h d s none none f g p = absurd (cc)
  found_reads h d s none (some z) f g p = decoded_reads h d s _ (gunzip z) refl (g z refl)
  found_reads h d s (some x) w f g p = decoded_reads h d s _ (some x) refl (f x refl)

  pub present-Reads :
      (c : Bytes) (h d : String) (s : BlobStore)
      → sha256 c ≡ h
      → IsIntact sha256 gunzip s
      → is_present h s ≡ true
      → Reads h d s
  unfolding read_all extract_to
  present-Reads c h d s e o p =
      let at : locate h s ≡ ok (found (get h s.raw) (get h s.gz)) =
        subst (λ g. locate g s ≡ ok (found (get g s.raw) (get g s.gz))) e
          (locate_own sha256 gzip gunzip gunzip-gzip sha256-is_digest c s) in
      let f = found_reads h d s (get h s.raw) (get h s.gz) (o.raw_sound h) (o.gz_sound h) p in
      record {
        content = f.content;
        digest = f.digest;
        all_read = ap (read_found sha256 gzip gunzip h) at ∙ f.all_read;
        written = ap (extract_found sha256 gzip gunzip h d false s) at ∙ f.written;
      }

  -- A put that the disk does not fail succeeds.
  abbrev pub Succeeds : BlobStore × Result StoredBlob → Type 0
  Succeeds (s, err e) = ⊥
  Succeeds (s, ok b) = Unit

  put_found-Succeeds :
      (size : ℕ) (c : Bytes) (s : BlobStore) (r w : Option Bytes)
      → Succeeds (put_found sha256 gzip gunzip (sha256 c) size c false s (ok (found r w)))
  put_found-Succeeds size c s none none = tt
  put_found-Succeeds size c s none (some z) = tt
  put_found-Succeeds size c s (some x) w = tt

  pub put_file-Succeeds :
      (size : ℕ) (c : Bytes) (s : BlobStore)
      → Succeeds (put_file sha256 gzip gunzip size c c false s)
  unfolding put_file
  put_file-Succeeds size c s =
      subst (λ r. Succeeds (put_found sha256 gzip gunzip (sha256 c) size c false s r))
        (sym (locate_own sha256 gzip gunzip gunzip-gzip sha256-is_digest c s))
        (put_found-Succeeds size c s _ _)

  abbrev pub known : Bytes → Bytes → StoredBlob
  known c x = record {
    hash = sha256 c;
    size = length c;
    stored_size = length x;
    compressed = false;
    created = false;
  }

  -- Content whose blob is there is not written again.
  pub put_file-known :
      (c x : Bytes) (s : BlobStore)
      → get (sha256 c) s.raw ≡ some x
      → put_file sha256 gzip gunzip (length c) c c false s ≡ (s, ok (known c x))
  unfolding put_file
  put_file-known c x s e = ap (put_found sha256 gzip gunzip (sha256 c) (length c) c false s) (
      locate_own sha256 gzip gunzip gunzip-gzip sha256-is_digest c s
      ∙ ap (λ r. ok (found r (get (sha256 c) s.gz))) e)

  -- A blob that has one file is gone when that is deleted.
  pub delete_last :
      (c x : Bytes) (s : BlobStore)
      → IsIntact sha256 gunzip s
      → get (sha256 c) s.gz ≡ none
      → get (sha256 c) s.raw ≡ some x
      → read_all sha256 gzip gunzip (sha256 c) (delete (sha256 c) s).0
        ≡ err (blob_not_found (sha256 c))
  unfolding delete read_all
  delete_last c x s o e f =
      let h = sha256 c in
      let own = locate_own sha256 gzip gunzip gunzip-gzip sha256-is_digest c in
      let s' : BlobStore = record s { raw = remove h s.raw } in
      let at : locate h s ≡ ok (some (record { stored = x; compressed = false })) =
        own s ∙ ap (λ r. ok (found r (get h s.gz))) f in
      let out : get h (remove h s.raw) ≡ none =
        get-remove h h s.raw o.raw_map ∙ rw (eq_refl h) refl in
      let gone : locate h s' ≡ ok none =
        own s' ∙ (ap (λ r. ok (found r (get h s.gz))) out ∙ ap (λ w. ok (found none w)) e) in
      ap (λ r. read_found sha256 gzip gunzip h (locate h (delete_found h s r).0)) at
      ∙ ap (read_found sha256 gzip gunzip h) gone

  delete_found-present :
      (h : String) (s : BlobStore) (r w : Option Bytes)
      → is_some r || is_some w ≡ true
      → (delete_found h s (ok (found r w))).1 ≡ ok true
  delete_found-present h s none none p = absurd (cc)
  delete_found-present h s none (some z) p = refl
  delete_found-present h s (some x) w p = refl

  -- The deletion of a blob that is there deletes something.
  pub delete_present :
      (c : Bytes) (h : String) (s : BlobStore)
      → sha256 c ≡ h
      → is_present h s ≡ true
      → (delete h s).1 ≡ ok true
  unfolding delete
  delete_present c h s e p =
      let at : locate h s ≡ ok (found (get h s.raw) (get h s.gz)) =
        subst (λ g. locate g s ≡ ok (found (get g s.raw) (get g s.gz))) e
          (locate_own sha256 gzip gunzip gunzip-gzip sha256-is_digest c s) in
      ap (λ r. (delete_found h s r).1) at ∙ delete_found-present h s _ _ p
