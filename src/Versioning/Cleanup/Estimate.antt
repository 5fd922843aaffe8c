-- ===== src/Versioning/Cleanup/Estimate.antt =====
-- The estimate of a dry run in backend/versioning/cleanup.ts, as a sum over the plan.
use text.Mathlib.TextPositions.{eq_refl}
use cnc_network_bridge.Base.{
  ℕ, ◌+◌, String, ◌≡◌, refl, ap, ◌∙◌, Bool, true, false, ◌||◌, some, List, [], ◌∷◌, if◌then◌else◌,
  any_of, arith, inl, inr, Bool-cases, All, subst, str_eq, eq_iff, Dict, get, put, string_eq,
  get-put, has, beq_comm,
}
use cnc_network_bridge.Versioning.Retention.{FileVersion, PruneDecision}
use cnc_network_bridge.Versioning.Cleanup.{cites, freed_hashes, sum_sizes}

abbrev pub occurs : String → List PruneDecision → Bool
occurs h ds = any_of (λ (d : PruneDecision). str_eq d.version.hash h) ds

-- Every blob that no survivor cites counts once, at its last decision.
abbrev pub last_sum : List FileVersion → List PruneDecision → ℕ
last_sum surviving [] = 0
last_sum surviving (d ∷ ds) =
    (if cites surviving d.version.hash || occurs d.version.hash ds then 0 else d.version.size)
    + last_sum surviving ds

-- The same, at its first decision, without those that are seen already.
abbrev first_sum : List FileVersion → (String → Bool) → List PruneDecision → ℕ
first_sum surviving seen [] = 0
first_sum surviving seen (d ∷ ds) =
    if cites surviving d.version.hash || seen d.version.hash
    then first_sum surviving seen ds
    else d.version.size + first_sum surviving (λ x. str_eq d.version.hash x || seen x) ds

-- The size goes with the digest.
abbrev pub HasSizes : (String → ℕ) → List PruneDecision → Type 0
HasSizes z ds = All (λ (d : PruneDecision). d.version.size ≡ z d.version.hash) ds

first_sum-ext :
    (surviving : List FileVersion) (p q : String → Bool) (ds : List PruneDecision)
    → ((x : String) → p x ≡ q x)
    → first_sum surviving p ds ≡ first_sum surviving q ds
first_sum-ext surviving p q [] e = refl
first_sum-ext surviving p q (d ∷ ds) e =
    let h = d.version.hash in
    rw (e h) (
      rw
        (
          first_sum-ext surviving p q ds e,
          first_sum-ext surviving (λ x. str_eq h x || p x) (λ x. str_eq h x || q x) ds
              (λ x. rw (e x) refl),
        )
        refl)

swap_seen : (a b c : Bool) → a || (b || c) ≡ b || (a || c)
swap_seen true true c = refl
swap_seen true false c = refl
swap_seen false true c = refl
swap_seen false false c = refl

-- What one digest adds that was not seen.
first_sum-seen :
    (surviving : List FileVersion) (z : String → ℕ) (h : String) (seen : String → Bool)
    (ds : List PruneDecision)
    → HasSizes z ds
    → seen h ≡ false
    → cites surviving h ≡ false
    → first_sum surviving seen ds
      ≡ (if occurs h ds then z h else 0) + first_sum surviving (λ x. str_eq h x || seen x) ds
first_sum-seen surviving z h seen [] s e c = refl
first_sum-seen surviving z h seen (d ∷ ds) (n, s) e c =
    let g = d.version.hash in
    elim (Bool-cases (str_eq g h)) [
      | inl same ↦
          rw ((eq_iff g h).0 same, c, e, eq_refl h)
            (ap (λ m. m + first_sum surviving (λ x. str_eq h x || seen x) ds)
              (n ∙ ap z ((eq_iff g h).0 same)))
      | inr other ↦
          let back : str_eq h g ≡ false = beq_comm h g ∙ other in
          let both : str_eq g h || seen h ≡ false = rw other e in
          elim (Bool-cases (cites surviving g || seen g)) [
            | inl skip ↦ rw (other, back, skip) (first_sum-seen surviving z h seen ds s e c)
            | inr fresh ↦
                let added : d.version.size + first_sum surviving (λ x. str_eq g x || seen x) ds
                    ≡ (if occurs h ds then z h else 0)
                      + (d.version.size
                          + first_sum surviving (λ x. str_eq g x || (str_eq h x || seen x)) ds) =
                  omega (
                    arith,
                    first_sum-seen surviving z h (λ x. str_eq g x || seen x) ds s both c,
                    first_sum-ext surviving (λ x. str_eq h x || (str_eq g x || seen x))
                        (λ x. str_eq g x || (str_eq h x || seen x)) ds
                        (λ x. swap_seen (str_eq h x) (str_eq g x) (seen x)),
                  ) in
                rw (other, back, fresh) added
          ]
    ]

first_sum-last :
    (surviving : List FileVersion) (z : String → ℕ) (ds : List PruneDecision)
    → HasSizes z ds
    → first_sum surviving (λ x. false) ds ≡ last_sum surviving ds
first_sum-last surviving z [] s = refl
first_sum-last surviving z (d ∷ ds) (n, s) =
    let h = d.version.hash in
    elim (Bool-cases (cites surviving h)) [
      | inl cited ↦ rw cited (omega (arith, first_sum-last surviving z ds s))
      | inr free ↦ ground (
        arith,
        free,
        n,
        first_sum-last surviving z ds s,
        first_sum-seen surviving z h (λ x. false) ds s refl free,
      )
    ]

-- `Map.set` of a size that is the one that is there already, where there is one.
Agrees : (String → ℕ) → Dict String ℕ → Type 0
Agrees z freed = (h : String) (n : ℕ) → get h freed ≡ some n → n ≡ z h

sum_sizes-put :
    (h : String) (n : ℕ) (freed : Dict String ℕ)
    → ((m : ℕ) → get h freed ≡ some m → m ≡ n)
    → sum_sizes (put h n freed) ≡ sum_sizes freed + (if has h freed then 0 else n)
unfolding get put
sum_sizes-put h n [] a = omega arith
sum_sizes-put h n ((g, m) ∷ freed) a = elim (Bool-cases (str_eq g h)) [
  | inl same ↦ let known : m ≡ n = a m (rw same refl) in rw (same, known) (omega arith)
  | inr other ↦
      let rest = sum_sizes-put h n freed (λ k e. a k (rw other e)) in rw other (omega (arith, rest))
]

has-put :
    (h x : String) (n : ℕ) (freed : Dict String ℕ)
    → has x (put h n freed) ≡ str_eq h x || has x freed
has-put h x n freed = ground (arith, get-put h x n freed)

put-Agrees :
    (z : String → ℕ) (h : String) (freed : Dict String ℕ)
    → Agrees z freed
    → Agrees z (put h (z h) freed)
unfolding Agrees
put-Agrees z h freed a x n e = ground (arith, e, get-put h x (z h) freed, eq_iff h x, a x n)

seen_again :
    (h x : String) (freed : Dict String ℕ)
    → has h freed ≡ true
    → str_eq h x || has x freed ≡ has x freed
seen_again h x freed e = elim (Bool-cases (str_eq h x)) [
  | inl same ↦
      let f : has x freed ≡ true = subst (λ y. has y freed ≡ true) ((eq_iff h x).0 same) e in
      rw (same, f) refl
  | inr other ↦ rw other refl
]

-- A hash that is put in counts once.
put-first_sum :
    (surviving : List FileVersion) (z : String → ℕ) (h : String) (freed : Dict String ℕ)
    (ds : List PruneDecision)
    → Agrees z freed
    → sum_sizes (put h (z h) freed) + first_sum surviving (λ x. has x (put h (z h) freed)) ds
      ≡ sum_sizes freed
        + (if has h freed
            then first_sum surviving (λ x. has x freed) ds
            else z h + first_sum surviving (λ x. str_eq h x || has x freed) ds)
unfolding Agrees
put-first_sum surviving z h freed ds a =
    let more = sum_sizes-put h (z h) freed (λ m e. a h m e) in
    let seen =
      first_sum-ext surviving (λ x. has x (put h (z h) freed)) (λ x. str_eq h x || has x freed) ds
        (λ x. has-put h x (z h) freed) in
    elim (Bool-cases (has h freed)) [
      | inl known ↦
          let again =
            first_sum-ext surviving (λ x. str_eq h x || has x freed) (λ x. has x freed) ds
              (λ x. seen_again h x freed known) in
          rw (more, seen, known, again) (omega arith)
      | inr new ↦ rw (more, seen, new) (omega arith)
    ]

freed_hashes-sum :
    (surviving : List FileVersion) (z : String → ℕ) (freed : Dict String ℕ)
    (ds : List PruneDecision)
    → HasSizes z ds
    → Agrees z freed
    → sum_sizes (freed_hashes surviving ds freed)
      ≡ sum_sizes freed + first_sum surviving (λ x. has x freed) ds
unfolding freed_hashes Agrees
freed_hashes-sum surviving z freed [] s a = omega arith
freed_hashes-sum surviving z freed (d ∷ ds) (n, s) a =
    let h = d.version.hash in
    elim (Bool-cases (cites surviving h)) [
      | inl cited ↦ rw cited (freed_hashes-sum surviving z freed ds s a)
      | inr free ↦
          rw (free, n)
            (freed_hashes-sum surviving z (put h (z h) freed) ds s (put-Agrees z h freed a)
              ∙ put-first_sum surviving z h freed ds a)
    ]

-- The estimate is the sum over the blobs that no survivor cites.
pub estimate-last_sum :
    (surviving : List FileVersion) (z : String → ℕ) (ds : List PruneDecision)
    → HasSizes z ds
    → sum_sizes (freed_hashes surviving ds []) ≡ last_sum surviving ds
unfolding Agrees get
estimate-last_sum surviving z ds s =
    freed_hashes-sum surviving z [] ds s (λ h n e. absurd (cc))
    ∙ (omega (arith, first_sum-last surviving z ds s))
