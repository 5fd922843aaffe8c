-- ===== src/Sync/Policies/Tests.antt =====
-- Runs of the policies, and their theorems at inputs where their hypotheses hold.
use cnc_network_bridge.Base.{
  ℕ, String, ◌≡◌, refl, true, some, List, [], ◌∷◌, str_eq, ◌==◌, if◌then◌else◌, arith,
}
use cnc_network_bridge.Sync.Policies.Times.{
  BandwidthWindow, parse_time_of_day, read_time, read_number, matches_day, is_within_window,
}
use cnc_network_bridge.Sync.Policies.Rules.{
  CompiledPriorityRule, normalize, forward_slashes, drop_here, drop_slashes,
}
use cnc_network_bridge.Sync.Policies.{
  SyncPolicyEngine, sort_by_priority, priority_of, lowest, entries_from, sort_entries, insert_entry,
}
use cnc_network_bridge.Sync.Policies.Windows.{holds, is_within_window_lem}

-- The night shift of Friday.
abbrev night : BandwidthWindow
night = record {
  label = "night";
  days = 5 ∷ [];
  from = "22:00";
  to = "06:00";
  limit_kbps = some 800;
}

-- At two on Saturday it still is Friday's night.
after_midnight : is_within_window night 6 120 ≡ true
unfolding is_within_window parse_time_of_day read_time read_number matches_day
after_midnight = refl

is_within_window_lem_example : is_within_window night 6 120 ≡ (
    if parse_time_of_day "22:00" == parse_time_of_day "06:00"
    then matches_day (5 ∷ []) 6
    else holds (5 ∷ []) (parse_time_of_day "22:00") (parse_time_of_day "06:00") 6 120)
is_within_window_lem_example = is_within_window_lem night 6 120 refl refl (omega arith)

abbrev rule : String → ℕ → CompiledPriorityRule
rule path p = record {
  compiled = record { source = path; test = λ q. str_eq path (normalize q) };
  priority = p;
}

abbrev engine : SyncPolicyEngine
engine = record {
  windows = night ∷ [];
  excludes = [];
  read_only = [];
  priorities = rule "B.H" 5 ∷ rule "C.H" 90 ∷ rule "B.H" 10 ∷ [];
  issues = [];
}

abbrev paths : List String
paths = "C.H" ∷ "A.H" ∷ "/B.H" ∷ "D.H" ∷ []

sorts : sort_by_priority engine (λ p. p) paths ≡ "/B.H" ∷ "A.H" ∷ "D.H" ∷ "C.H" ∷ []
unfolding sort_by_priority sort_entries insert_entry entries_from priority_of lowest normalize
    forward_slashes drop_here drop_slashes
sorts = refl
