-- ===== src/Versioning/Sample.antt =====
-- A digest and a compression to run backend/versioning with.
use text.Mathlib.TextEquality.{eq_iff}
use cnc_network_bridge.Base.{String, ◌≡◌, refl, true, false, Option, none, some, [], ◌∷◌}
use cnc_network_bridge.Versioning.BlobStore.{Bytes, is_digest, hex_run}
use cnc_network_bridge.Versioning.BlobStore.Coding.{Coding}

abbrev pub zeros : String
zeros = "0000000000000000000000000000000000000000000000000000000000000000"

abbrev pub ones : String
ones = "1111111111111111111111111111111111111111111111111111111111111111"

-- A digest that tells the empty file from the others.
abbrev pub sha256 : Bytes → String
sha256 [] = zeros
sha256 (b ∷ bs) = ones

-- A compression that adds a header.
abbrev pub gzip : Bytes → Bytes
gzip c = 31 ∷ c

abbrev pub gunzip : Bytes → Option Bytes
gunzip [] = none
gunzip (b ∷ c) = some c

pub sha256-is_digest : (c : Bytes) → is_digest (sha256 c) ≡ true
unfolding hex_run
sha256-is_digest [] = refl
sha256-is_digest (b ∷ bs) = refl

true_of : false ≡ true → ⊥
true_of h = cc

pub empty_alone : (x : Bytes) → sha256 x ≡ zeros → x ≡ []
empty_alone [] e = refl
empty_alone (b ∷ bs) e =
    let clash : false ≡ true = (eq_iff ones zeros).1 e in absurd (true_of clash)

abbrev pub coding : Coding
coding = record {
  sha256 = sha256;
  gzip = gzip;
  gunzip = gunzip;
  gunzip-gzip = λ c. refl;
  sha256-is_digest = sha256-is_digest;
}
