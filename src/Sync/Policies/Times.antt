-- ===== src/Sync/Policies/Times.antt =====
-- The bandwidth windows of backend/sync/policies.ts.
use Prim.Native.Char.{code}
use cnc_network_bridge.Base.{
  ℕ, ◌+◌, ◌-◌, ◌*◌, ◌%◌, String, Bool, true, false, ◌&&◌, Option, none, some, List, [], ◌∷◌, leb,
  ltb, ◌==◌, if◌then◌else◌, any_of,
}

pub record BandwidthWindow : Type 0 where
  pub label : String
  pub days : List ℕ
  pub from : String
  pub to : String
  pub limit_kbps : Option ℕ

abbrev digit_of : ℕ → ℕ
digit_of c = c - b'0'

-- `Number` of a text of digits, after those that were read.
unfoldable pub read_number : ℕ → String → ℕ
read_number n String.[] = n
read_number n (String.◌∷◌ c s) = read_number (n * 10 + digit_of (code c)) s

unfoldable pub read_time : ℕ → String → ℕ
unfolding read_number
read_time hours String.[] = hours * 60
read_time hours (String.◌∷◌ c s) =
    let more = read_time (hours * 10 + digit_of (code c)) s in
    if code c == b':' then hours * 60 + read_number 0 s else more

-- `parseTimeOfDay`, of a text that `timeOfDaySchema` accepts.
unfoldable pub parse_time_of_day : String → ℕ
unfolding read_time
parse_time_of_day value = read_time 0 value

-- `window.days.length === 0 || window.days.includes(day)`
unfoldable pub matches_day : List ℕ → ℕ → Bool
matches_day [] day = true
matches_day (d ∷ ds) day = any_of (λ x. x == day) (d ∷ ds)

unfoldable pub is_within_window : BandwidthWindow → ℕ → ℕ → Bool
unfolding parse_time_of_day matches_day
is_within_window window today minutes =
    let from = parse_time_of_day window.from in
    let to = parse_time_of_day window.to in
    let yesterday = (today + 6) % 7 in
    if from == to
    then matches_day window.days today
    else if ltb from to
    then matches_day window.days today && leb from minutes && ltb minutes to
    else if leb from minutes
    then matches_day window.days today
    else if ltb minutes to
    then matches_day window.days yesterday
    else false

-- The first window that the moment is in.
unfoldable pub first_window : List BandwidthWindow → ℕ → ℕ → Option BandwidthWindow
first_window [] today minutes = none
first_window (w ∷ ws) today minutes =
    let rest = first_window ws today minutes in
    if is_within_window w today minutes then some w else rest

unfoldable pub limit_at : List BandwidthWindow → ℕ → ℕ → Option ℕ → Option ℕ
limit_at [] today minutes fallback = fallback
limit_at (w ∷ ws) today minutes fallback =
    let rest = limit_at ws today minutes fallback in
    if is_within_window w today minutes then w.limit_kbps else rest
