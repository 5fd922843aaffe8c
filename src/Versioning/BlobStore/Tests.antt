-- ===== src/Versioning/BlobStore/Tests.antt =====
-- Runs of the blob store, and its theorems at inputs where their hypotheses hold.
use cnc_network_bridge.Base.{◌≡◌, refl, false, [], ◌∷◌, put, get, string_eq}
use cnc_network_bridge.Versioning.BlobStore.{
  BlobStore, ok, hex_run, create, locate, put_file, extract_to, verify, puts, deletes, sweeps, run,
}
use cnc_network_bridge.Versioning.Sample.{
  zeros, ones, sha256, gzip, gunzip, sha256-is_digest, empty_alone,
}
use cnc_network_bridge.Versioning.BlobStore.Roundtrip.{put_extracts}

put_extracts_example :
    let s =
      run sha256 gzip gunzip
        (puts 0 [] false ∷ deletes ones ∷ sweeps ∷ [])
        (run sha256 gzip gunzip (puts 2 (1 ∷ 2 ∷ []) false ∷ []) (create 1)) in
    extract_to sha256 gzip gunzip zeros "A.H" false s
    ≡ (record s { outside = put "A.H" [] s.outside }, ok 0)
put_extracts_example =
    put_extracts sha256 gzip gunzip (λ c. refl) sha256-is_digest 1 0
      (puts 2 (1 ∷ 2 ∷ []) false ∷ []) (deletes ones ∷ sweeps ∷ []) [] "A.H" empty_alone (tt, tt)
      (refl, (tt, tt))

-- A file that changes between the two reads is stored at the digest of its earlier content.
abbrev changed : BlobStore
changed = (put_file sha256 gzip gunzip 0 [] (7 ∷ []) false (create 0)).0

corrupt : verify sha256 gzip gunzip zeros changed ≡ ok false
unfolding verify put_file locate create hex_run get put
corrupt = refl
