-- ===== src/Lifecycle/Drain/Answers.antt =====
-- What a drain of backend/lifecycle/drain.ts resolves to.
use mathlib.Core.List.{append_assoc}
use cnc_network_bridge.Base.{
  ℕ, String, ◌≡◌, refl, sym, ap, ◌∙◌, filter_by, Bool, true, false, ◌&&◌, ◌||◌, not, List, [], ◌∷◌,
  ◌++◌, map, All, All-append, arith, inl, inr, Bool-cases, any_of, ◌==◌, ltb, leb,
}
use cnc_network_bridge.Lifecycle.Drain.{
  DrainRegistry, DrainResult, Operation, take_out, create, begin, done, drain, time_out, notify,
  resolve_all, clear_timers, labels, is_empty,
}
use cnc_network_bridge.Lifecycle.Drain.Events.{
  Event, begun, begins, finishes, drains, times_out, resets, step, run, IsNoReset,
}

-- A result says drained exactly if no operation is in the registry, and lists those that are.
abbrev pub IsHonest : DrainRegistry → ℕ × DrainResult → Type 0
IsHonest r (w, a) = (a.drained ≡ is_empty r.operations) × (a.remaining ≡ labels r)

abbrev nobody_waits : List ℕ → Bool
nobody_waits [] = true
nobody_waits (w ∷ ws) = false

-- Somebody waits only while something runs, and those who wait are those whose timer is set.
abbrev IsWaiting : DrainRegistry → Type 0
IsWaiting r =
    ((nobody_waits r.waiters || not (is_empty r.operations)) ≡ true) × (r.timers ≡ r.waiters)

-- What a step adds to the answers is honest after it.
abbrev pub Answers : DrainRegistry → DrainRegistry → Type 0
Answers r r' =
    (new : List (ℕ × DrainResult)) × (r'.answers ≡ new ++ r.answers) × All (IsHonest r') new

abbrev IsGood : DrainRegistry → DrainRegistry → Type 0
IsGood r r' = IsWaiting r' × Answers r r'

silent : (r r' : DrainRegistry) → r'.answers ≡ r.answers → Answers r r'
silent r r' e = ([], e, tt)

resolve_all-All :
    (r : DrainRegistry) (left : List String) (ws : List ℕ) (told : List (ℕ × DrainResult))
    → is_empty r.operations ≡ true
    → left ≡ labels r
    → (new : List (ℕ × DrainResult)) × (resolve_all left ws told ≡ new ++ told)
      × All (IsHonest r) new
unfolding resolve_all
resolve_all-All r left [] told e l = ([], refl, tt)
resolve_all-All r left (w ∷ ws) told e l =
    let a : ℕ × DrainResult = (w, record { drained = true; remaining = left }) in
    let (new, same, h) = resolve_all-All r left ws (a ∷ told) e l in
    (
      new ++ a ∷ [],
      same ∙ sym (append_assoc new (a ∷ []) told),
      All-append (IsHonest r) new (a ∷ []) h ((sym e, l), tt),
    )

clear-listed :
    (all ws : List ℕ)
    → ((t : ℕ) → any_of (λ w. w == t) ws ≡ true → any_of (λ w. w == t) all ≡ true)
    → clear_timers all ws ≡ []
unfolding clear_timers
clear-listed all [] h = refl
clear-listed all (t ∷ ts) h =
    let here = h t (ground arith) in rw here (clear-listed all ts (λ u e. h u (ground (arith, e))))

no_labels : (os : List Operation) → is_empty os ≡ true → map (λ (o : Operation). o.label) os ≡ []
no_labels [] e = refl
no_labels (o ∷ os) e = absurd (cc)

notify-IsGood : (r : DrainRegistry) → r.timers ≡ r.waiters → IsGood r (notify r)
unfolding notify
notify-IsGood r same = elim (Bool-cases (is_empty r.operations)) [
  | inl empty ↦ rw empty (
    (refl, rw same (clear-listed r.waiters r.waiters (λ t e. e))),
    resolve_all-All r (labels r) r.waiters r.answers empty refl,
  )
  | inr busy ↦ rw busy ((ground (arith, busy), same), silent r r refl)
]

push-not_empty : (os : List Operation) (o : Operation) → is_empty (os ++ o ∷ []) ≡ false
push-not_empty [] o = refl
push-not_empty (p ∷ os) o = refl

waits-any : (w : ℕ) (ws : List ℕ) → any_of (λ v. v == w) ws ≡ true → nobody_waits ws ≡ false
waits-any w [] h = ground arith
waits-any w (v ∷ ws) h = refl

begin-IsGood :
    (l : String) (now : ℕ) (r : DrainRegistry) → IsWaiting r → IsGood r (begun (begin l now r) r)
unfolding begin
begin-IsGood l now r (w, same) = elim (Bool-cases r.closing) [
  | inl closed ↦ rw closed ((w, same), silent r r refl)
  | inr accepting ↦
      rw accepting ((rw (push-not_empty r.operations _) (ground arith), same), ([], refl, tt))
]

done-IsGood : (id : ℕ) (r : DrainRegistry) → IsWaiting r → IsGood r (done id r)
unfolding done
done-IsGood id r (w, same) = elim (Bool-cases (any_of (λ f. f == id) r.finished)) [
  | inl again ↦ rw again ((w, same), silent r r refl)
  | inr first ↦ rw first (notify-IsGood (take_out id r) same)
]

drain-IsGood : (r : DrainRegistry) → IsWaiting r → IsGood r (drain r)
unfolding drain
drain-IsGood r (w, same) = elim (Bool-cases (is_empty r.operations)) [
  | inl empty ↦
      let a : ℕ × DrainResult = (r.next_waiter, record { drained = true; remaining = [] }) in
      rw empty ((w, same), (a ∷ [], refl, ((sym empty, sym (no_labels r.operations empty)), tt)))
  | inr busy ↦
      rw busy ((ground (arith, busy), ap (λ ws. ws ++ r.next_waiter ∷ []) same), ([], refl, tt))
]

time_out-IsGood : (w : ℕ) (r : DrainRegistry) → IsWaiting r → IsGood r (time_out w r)
unfolding time_out
time_out-IsGood w r (g, same) = elim (Bool-cases (any_of (λ v. v == w) r.timers)) [
  | inr gone ↦ rw gone ((g, same), silent r r refl)
  | inl set ↦
      let waits : any_of (λ v. v == w) r.waiters ≡ true = rw same at set in
      let busy : is_empty r.operations ≡ false = ground (arith, g, waits-any w r.waiters waits) in
      let a : ℕ × DrainResult = (w, record { drained = false; remaining = labels r }) in
      rw set (
        (rw busy (ground arith), ap (filter_by (λ v. not (v == w))) same),
        (a ∷ [], refl, ((sym busy, refl), tt)),
      )
]

step-IsGood : (e : Event) (r : DrainRegistry) → IsNoReset e → IsWaiting r → IsGood r (step e r)
unfolding step
step-IsGood (begins l now) r n h = begin-IsGood l now r h
step-IsGood (finishes id) r n h = elim (Bool-cases (leb 1 id && ltb id r.next_id)) [
  | inl given ↦ rw given (done-IsGood id r h)
  | inr unknown ↦ rw unknown (h, silent r r refl)
]
step-IsGood drains r n h = drain-IsGood r h
step-IsGood (times_out w) r n h = time_out-IsGood w r h
step-IsGood resets r n h = elim n [ ]

run-IsWaiting :
    (es : List Event) (r : DrainRegistry) → All IsNoReset es → IsWaiting r → IsWaiting (run es r)
unfolding run
run-IsWaiting [] r n h = h
run-IsWaiting (e ∷ es) r (m, n) h = run-IsWaiting es (step e r) n (step-IsGood e r m h).0

-- Whatever has happened to a new registry short of a reset, the next such event only adds to the answers,
-- and every drain that it resolves says that it drained exactly if no operation is in the registry after
-- the event, and lists the labels of those that are.
pub run-IsHonest :
    (es : List Event) (e : Event)
    → All IsNoReset es
    → IsNoReset e
    → Answers (run es create) (step e (run es create))
unfolding create
run-IsHonest es e n m = (step-IsGood e (run es create) m (run-IsWaiting es create n (refl, refl))).1
