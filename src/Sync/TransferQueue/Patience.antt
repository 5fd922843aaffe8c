-- ===== src/Sync/TransferQueue/Patience.antt =====
-- "Small files first, but not forever": how long the queue of backend/sync/throttle.ts lets a task be
-- overtaken.
use native.Mathlib.Nat.{add-mul}
use cnc_network_bridge.Base.{
  ℕ, ◌+◌, ◌-◌, ◌*◌, ◌≤◌, ◌<◌, ◌≡◌, true, some, sym, subst, List, [], ◌∷◌, ◌++◌, All, arith, ap, ◌∙◌,
}
use cnc_network_bridge.Sync.TransferQueue.{Waiting, beats, take_next}
use cnc_network_bridge.Sync.TransferQueue.Choice.{take_next-BeatsAll}

overtaken :
    (aging now : ℕ) (w e : Waiting)
    → beats aging now e w ≡ true
    → w.enqueued_at ≤ e.enqueued_at
    → e.enqueued_at ≤ now
    → e.size * 1000 + (e.enqueued_at - w.enqueued_at) * aging < w.size * 1000
overtaken aging now w e h before after =
    let gap = now - e.enqueued_at in
    let lead = e.enqueued_at - w.enqueued_at in
    let waits : now - w.enqueued_at ≡ gap + lead = omega arith in
    let parts : (now - w.enqueued_at) * aging ≡ gap * aging + lead * aging =
      ap (λ d. d * aging) waits ∙ add-mul gap lead aging in
    grind (arith, parts, h)

head_of : Waiting → List Waiting → Waiting
head_of w [] = w
head_of w (x ∷ xs) = x

tail_of : List Waiting → List Waiting
tail_of [] = []
tail_of (x ∷ xs) = xs

-- Two splits of a queue, of which the second is at a task that came later: the first stands before it.
ahead :
    (P : Waiting → Type 0) (w e : Waiting) (xs ys before later : List Waiting)
    → xs ++ w ∷ ys ≡ before ++ e ∷ later
    → All (λ t. t.sequence < e.sequence) xs
    → w.sequence < e.sequence
    → All P before
    → P w
unfolding head_of tail_of
ahead P w e [] ys [] later same earlier less h =
    let here : w.sequence ≡ e.sequence = ap (λ l. (head_of w l).sequence) same in
    absurd (omega arith)
ahead P w e [] ys (b ∷ before) later same earlier less (p, h) =
    subst P (sym (ap (head_of w) same)) p
ahead P w e (x ∷ xs) ys [] later same (less_x, earlier) less h =
    let here : x.sequence ≡ e.sequence = ap (λ l. (head_of w l).sequence) same in
    absurd (omega arith)
ahead P w e (x ∷ xs) ys (b ∷ before) later same (less_x, earlier) less (p, h) =
    ahead P w e xs ys before later (ap tail_of same) earlier less h

-- In a queue where a task waits and none before it was added later: a task that was added later is taken
-- instead only if it came, at the aging rate, less than the difference of their sizes after it.
pub take_next_patience :
    (aging now : ℕ) (xs ys : List Waiting) (w e : Waiting) (rest : List Waiting)
    → take_next aging now (xs ++ w ∷ ys) ≡ some (e, rest)
    → All (λ t. t.sequence < e.sequence) xs
    → w.sequence < e.sequence
    → w.enqueued_at ≤ e.enqueued_at
    → e.enqueued_at ≤ now
    → e.size * 1000 + (e.enqueued_at - w.enqueued_at) * aging < w.size * 1000
take_next_patience aging now xs ys w e rest h earlier less before after =
    let (front, later, (same, first)) = take_next-BeatsAll aging now (xs ++ w ∷ ys) e rest h in
    overtaken aging now w e
      (ahead (λ t. beats aging now e t ≡ true) w e xs ys front later same earlier less first) before
      after
