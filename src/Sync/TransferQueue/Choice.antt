-- ===== src/Sync/TransferQueue/Choice.antt =====
-- Which entry backend/sync/throttle.ts takes from the queue.
use mathlib.Core.List.{append_assoc, append-nil}
use cnc_network_bridge.Base.{
  ℕ, suc, ◌≡◌, refl, true, false, none, some, List, [], ◌∷◌, ◌++◌, All, All-append, length, arith,
  subst, sym, ap, ◌∙◌, inl, inr, Bool-cases, length-append,
}
use cnc_network_bridge.Sync.TransferQueue.{Waiting, beats, best_index, splice, take_next}

splice-middle :
    (x : Waiting) (xs ys : List Waiting) → splice (length xs) (xs ++ x ∷ ys) ≡ some (x, xs ++ ys)
unfolding splice
splice-middle x [] ys = refl
splice-middle x (z ∷ xs) ys = rw (splice-middle x xs ys) refl

-- No entry of the list goes before this one.
abbrev pub Unbeaten : ℕ → ℕ → Waiting → List Waiting → Type 0
Unbeaten aging now best = All (λ w. beats aging now w best ≡ false)

Unbeaten-trans :
    (aging now : ℕ) (c best : Waiting) (xs : List Waiting)
    → beats aging now c best ≡ true
    → Unbeaten aging now best xs
    → Unbeaten aging now c xs
Unbeaten-trans aging now c best [] b h = tt
Unbeaten-trans aging now c best (x ∷ xs) b (a, h) =
    (ground arith, Unbeaten-trans aging now c best xs b h)

-- This entry goes before every entry of the list.
abbrev pub BeatsAll : ℕ → ℕ → Waiting → List Waiting → Type 0
BeatsAll aging now best = All (λ w. beats aging now best w ≡ true)

BeatsAll-Unbeaten :
    (aging now : ℕ) (c best : Waiting) (xs : List Waiting)
    → beats aging now c best ≡ true
    → Unbeaten aging now best xs
    → BeatsAll aging now c xs
BeatsAll-Unbeaten aging now c best [] b h = tt
BeatsAll-Unbeaten aging now c best (x ∷ xs) b (a, h) =
    (ground arith, BeatsAll-Unbeaten aging now c best xs b h)

-- The entry at an index is one that no other goes before, and goes before all that stand before it.
abbrev pub ChosenAt : ℕ → ℕ → List Waiting → ℕ → Type 0
ChosenAt aging now all i =
    (e : Waiting) × (before : List Waiting) × (later : List Waiting) × (((all ≡ before ++ e ∷ later)
        × (i ≡ length before))
      × (Unbeaten aging now e all × BeatsAll aging now e before))

choose :
    (aging now : ℕ) (best : Waiting) (before later cs : List Waiting) (best_i i : ℕ)
    → best_i ≡ length before
    → i ≡ length (before ++ best ∷ later)
    → Unbeaten aging now best (before ++ best ∷ later)
    → BeatsAll aging now best before
    → ChosenAt aging now ((before ++ best ∷ later) ++ cs) (best_index aging now best best_i i cs)
unfolding best_index
choose aging now best before later [] best_i i hb hi h first = (
  best,
  before,
  later,
  ((append-nil _, hb), (subst (Unbeaten aging now best) (sym (append-nil _)) h, first)),
)
choose aging now best before later (c ∷ cs) best_i i hb hi h first =
    let pre = before ++ best ∷ later in
    elim (Bool-cases (beats aging now c best)) [
      | inl better ↦
          rw (better, ← append_assoc pre (c ∷ []) cs)
            (choose aging now c pre [] cs i (suc i) hi (omega (arith, length-append pre (c ∷ [])))
              (All-append (λ w. beats aging now w c ≡ false) pre (c ∷ [])
                (Unbeaten-trans aging now c best pre better h) (ground arith, tt))
              (BeatsAll-Unbeaten aging now c best pre better h))
      | inr worse ↦
          rw (worse, ← append_assoc pre (c ∷ []) cs, append_assoc before (best ∷ later) (c ∷ []))
            (choose aging now best before (later ++ c ∷ []) cs best_i (suc i) hb
              (rw (← append_assoc before (best ∷ later) (c ∷ []))
                (omega (arith, length-append pre (c ∷ []))))
              (rw (← append_assoc before (best ∷ later) (c ∷ []))
                (All-append (λ w. beats aging now w best ≡ false) pre (c ∷ []) h (worse, tt)))
              first)
    ]

-- Of the entries that wait, the queue takes the first that no other goes before, and leaves the others in
-- their order; where anything waits, it takes something.
pub take_next_best :
    (aging now : ℕ) (first : Waiting) (others : List Waiting)
    → (e : Waiting) × (before : List Waiting) × (later : List Waiting) × (((first ∷ others
            ≡ before ++ e ∷ later)
          × (take_next aging now (first ∷ others) ≡ some (e, before ++ later)))
        × (Unbeaten aging now e (first ∷ others) × BeatsAll aging now e before))
unfolding take_next
take_next_best aging now first others =
    let (e, before, later, ((same, at), h)) =
      choose aging now first [] [] others 0 1 refl refl (ground arith, tt) tt in
    (e, before, later, ((same, rw (at, same) (splice-middle e before later)), h))

-- What is taken goes before everything that stood before it.
pub take_next-BeatsAll :
    (aging now : ℕ) (xs : List Waiting) (e : Waiting) (rest : List Waiting)
    → take_next aging now xs ≡ some (e, rest)
    → (before : List Waiting) × (later : List Waiting) × ((xs ≡ before ++ e ∷ later)
        × BeatsAll aging now e before)
unfolding take_next
take_next-BeatsAll aging now [] e rest h = absurd (cc)
take_next-BeatsAll aging now (x ∷ xs) e rest h =
    let (c, before, later, ((same, taken), (best, first))) = take_next_best aging now x xs in
    let same_entry : c ≡ e = ap (λ o. elim o [ none ↦ c | some (t, r) ↦ t ]) (sym taken ∙ h) in
    (
      before,
      later,
      (
        subst (λ t. x ∷ xs ≡ before ++ t ∷ later) same_entry same,
        subst (λ t. BeatsAll aging now t before) same_entry first,
      ),
    )
