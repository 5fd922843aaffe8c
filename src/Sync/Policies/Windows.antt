-- ===== src/Sync/Policies/Windows.antt =====
-- When a daily window of backend/sync/policies.ts holds.
use Prim.Native.Char.{code}
use cnc_network_bridge.Base.{
  ℕ, ◌+◌, ◌-◌, ◌*◌, ◌%◌, ◌<◌, String, ◌≡◌, ◌≢◌, Bool, true, false, ◌&&◌, ◌||◌, List, leb, ltb, ◌==◌,
  if◌then◌else◌, arith,
}
use cnc_network_bridge.Sync.Policies.Times.{
  BandwidthWindow, read_number, read_time, parse_time_of_day, matches_day, is_within_window,
}

abbrev minutes_per_day : ℕ
minutes_per_day = 1440

abbrev is_digit : ℕ → Bool
is_digit c = leb b'0' c && leb c b'9'

-- `/^([01][0-9]|2[0-3]):[0-5][0-9]$/`, of five characters and of a text.
abbrev is_time : ℕ → ℕ → ℕ → ℕ → ℕ → Bool
is_time h i c m n =
    (leb b'0' h && leb h b'1' && is_digit i || h == b'2' && leb b'0' i && leb i b'3')
    && c == b':'
    && leb b'0' m
    && leb m b'5'
    && is_digit n

abbrev pub is_time_of_day : String → Bool
is_time_of_day
      (String.◌∷◌ h (String.◌∷◌ i (String.◌∷◌ c (String.◌∷◌ m (String.◌∷◌ n String.[]))))) =
    is_time (code h) (code i) (code c) (code m) (code n)
is_time_of_day _ = false

hour_bound :
    (h i c m n : ℕ)
    → is_time h i c m n ≡ true
    → (h == b':' ≡ false) × (i == b':' ≡ false) × ((h - b'0') * 10 + (i - b'0') < 24)
hour_bound h i c m n e = (ground (arith, e), ground (arith, e), ground (arith, e))

minute_bound :
    (h i c m n : ℕ)
    → is_time h i c m n ≡ true
    → (c == b':' ≡ true) × ((m - b'0') * 10 + (n - b'0') < 60)
minute_bound h i c m n e = (ground (arith, e), ground (arith, e))

parse_bound : (s : String) → is_time_of_day s ≡ true → parse_time_of_day s < minutes_per_day
unfolding parse_time_of_day read_time read_number
parse_bound (String.◌∷◌ h (String.◌∷◌ i (String.◌∷◌ c (String.◌∷◌ m (String.◌∷◌ n String.[]))))) e =
    let (one, two, hours) = hour_bound (code h) (code i) (code c) (code m) (code n) e in
    let (three, minutes) = minute_bound (code h) (code i) (code c) (code m) (code n) e in
    rw (one, two, three) (omega (arith, hours, minutes))
parse_bound _ e = absurd (cc)

-- How long a window lasts that does not span the whole day.
abbrev pub lasts : ℕ → ℕ → ℕ
lasts from to = (to + minutes_per_day - from) % minutes_per_day

-- The window that starts on a day of the list holds now: it started today and is not over, or yesterday.
abbrev pub holds : List ℕ → ℕ → ℕ → ℕ → ℕ → Bool
holds days from to today minutes =
    matches_day days today && leb from minutes && ltb (minutes - from) (lasts from to)
    || matches_day days ((today + 6) % 7) && ltb (minutes + minutes_per_day - from) (lasts from to)

lasts_lem :
    (from to : ℕ)
    → from < minutes_per_day
    → to < minutes_per_day
    → from ≢ to
    → lasts from to ≡ (if ltb from to then to - from else to + minutes_per_day - from)
lasts_lem from to f t d = ground arith

-- For times that the schema accepts, a window holds exactly if one started today and is not over, or one
-- that started yesterday is not over, where a window from `from` lasts until `to` next comes; and if
-- both times are the same, on the whole of its days.
pub is_within_window_lem :
    (w : BandwidthWindow) (today minutes : ℕ)
    → is_time_of_day w.from ≡ true
    → is_time_of_day w.to ≡ true
    → minutes < minutes_per_day
    → is_within_window w today minutes ≡ (
        if parse_time_of_day w.from == parse_time_of_day w.to
        then matches_day w.days today
        else holds w.days (parse_time_of_day w.from) (parse_time_of_day w.to) today minutes)
unfolding is_within_window
is_within_window_lem w today minutes f t m =
    let from = parse_bound w.from f in
    let to = parse_bound w.to t in
    ground (arith, from, to, lasts_lem (parse_time_of_day w.from) (parse_time_of_day w.to) from to)
