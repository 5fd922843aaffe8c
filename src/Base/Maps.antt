-- ===== src/Base/Maps.antt =====
-- A JavaScript `Map` as the list of its entries in the order of insertion: `set` on a key that is
-- there keeps its place. Keys are compared by an instance.
use Prim.Native.Nat.{ℕ}
use Prim.Native.String.{String}
use mathlib.Core.Path.{◌≡◌, refl}
use mathlib.Core.Logic.{◌↔◌}
use mathlib.Core.Bool.{Bool, true}
use mathlib.Core.Option.{Option, none, some}
use mathlib.Core.List.{List, [], ◌∷◌}
use native.Mathlib.Omega.{arith}
use text.Mathlib.Text.{◌==◌ as str_eq}
use text.Mathlib.TextEquality.{eq_iff}
use cnc_network_bridge.Base.Tests.{if◌then◌else◌, ◌==◌, ==_iff, is_some, and_then}

pub record Eq {ℓ} (A : Type ℓ) : Type ℓ where
  pub beq : A → A → Bool
  pub beq_iff : (a b : A) → (beq a b ≡ true) ↔ (a ≡ b)

instance abbrev pub nat_eq : Eq ℕ
nat_eq = record { beq = ◌==◌; beq_iff = ==_iff }

instance abbrev pub string_eq : Eq String
string_eq = record { beq = str_eq; beq_iff = eq_iff }

abbrev pub Dict {ℓ κ} : Type ℓ → Type κ → Type (ℓ ⊔ κ)
Dict K V = List (K × V)

module _ {ℓ} {K : Type ℓ} ⦃e : Eq K⦄ where
  pub beq_refl : (k : K) → e.beq k k ≡ true
  beq_refl k = (e.beq_iff k k).1 refl

  -- Equality tests against equal keys agree.
  pub beq_same : (i j k : K) → e.beq i j ≡ true → e.beq i k ≡ e.beq j k
  beq_same i j k h = rw ((e.beq_iff i j).0 h) refl

  pub beq_comm : (i j : K) → e.beq i j ≡ e.beq j i
  beq_comm i j = ground (arith, e.beq_iff i j, e.beq_iff j i, beq_refl i)

module _ {ℓ κ} {K : Type ℓ} {V : Type κ} ⦃e : Eq K⦄ where
  unfoldable pub get : K → Dict K V → Option V
  get k [] = none
  get k ((j, v) ∷ d) = if e.beq j k then some v else get k d

  unfoldable pub put : K → V → Dict K V → Dict K V
  put k v [] = (k, v) ∷ []
  put k v ((j, w) ∷ d) = if e.beq j k then (j, v) ∷ d else (j, w) ∷ put k v d

  unfoldable pub remove : K → Dict K V → Dict K V
  remove k [] = []
  remove k ((j, w) ∷ d) = if e.beq j k then d else (j, w) ∷ remove k d

  -- A pass over the entries that gives each value anew, or deletes the entry.
  unfoldable pub update_all : (V → Option V) → Dict K V → Dict K V
  update_all f [] = []
  update_all f ((j, w) ∷ d) = elim (f w) [
    | none ↦ update_all f d
    | some v ↦ (j, v) ∷ update_all f d
  ]

  abbrev pub has : K → Dict K V → Bool
  has k d = is_some (get k d)

  -- No key occurs twice.
  abbrev pub IsMap : Dict K V → Type κ
  IsMap [] = Unit
  IsMap ((j, w) ∷ d) = (get j d ≡ none) × IsMap d

  pub get-put :
      (k j : K) (v : V) (d : Dict K V) → get j (put k v d) ≡ (if e.beq k j then some v else get j d)
  unfolding get put
  get-put k j v [] = refl
  get-put k j v ((i, w) ∷ d) =
      ground (arith, get-put k j v d, e.beq_iff i k, e.beq_iff i j, e.beq_iff k j)

  get_absent : (k j : K) (d : Dict K V) → get k d ≡ none → e.beq k j ≡ true → get j d ≡ none
  get_absent k j d h same = rw (← (e.beq_iff k j).0 same) h

  pub get-remove :
      (k j : K) (d : Dict K V)
      → IsMap d
      → get j (remove k d) ≡ (if e.beq k j then none else get j d)
  unfolding get remove
  get-remove k j [] m = ground arith
  get-remove k j ((i, w) ∷ d) (a, m) =
      ground
        (arith, get-remove k j d m, e.beq_iff i k, e.beq_iff i j, e.beq_iff k j, get_absent i j d a)

  pub put-IsMap : (k : K) (v : V) (d : Dict K V) → IsMap d → IsMap (put k v d)
  unfolding put get
  put-IsMap k v [] m = (refl, tt)
  put-IsMap k v ((j, w) ∷ d) (a, m) =
      ground (arith, put-IsMap k v d m, get-put k j v d, beq_comm k j)

  pub remove-IsMap : (k : K) (d : Dict K V) → IsMap d → IsMap (remove k d)
  unfolding remove
  remove-IsMap k [] m = tt
  remove-IsMap k ((j, w) ∷ d) (a, m) =
      ground (arith, remove-IsMap k d m, get-remove k j d m, beq_comm k j)

  pub get-update_all :
      (f : V → Option V) (k : K) (d : Dict K V)
      → IsMap d
      → get k (update_all f d) ≡ and_then (get k d) f
  unfolding get update_all
  get-update_all f k [] m = refl
  get-update_all f k ((j, w) ∷ d) (a, m) =
      ground (arith, get-update_all f k d m, get_absent j k d a)

  pub update_all-IsMap : (f : V → Option V) (d : Dict K V) → IsMap d → IsMap (update_all f d)
  unfolding update_all
  update_all-IsMap f [] m = tt
  update_all-IsMap f ((j, w) ∷ d) (a, m) =
      ground (arith, update_all-IsMap f d m, get-update_all f j d m)
