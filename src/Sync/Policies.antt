-- ===== src/Sync/Policies.antt =====
-- backend/sync/policies.ts: the bandwidth windows, and the rules on paths. Glob and regular expressions
-- belong to other libraries: their compilers are parameters. A moment is its day of the week and its
-- minute of the day, in the zone of the host.
pub mod Times
pub mod Rules
pub mod Windows
pub mod Order
mod Tests
use cnc_network_bridge.Base.{
  ℕ, zero, suc, ◌+◌, ◌-◌, ◌*◌, ◌%◌, String, Bool, true, false, not, ◌&&◌, ◌||◌, Option, none, some,
  List, [], ◌∷◌, ◌++◌, leb, ltb, ◌==◌, ◌<>◌, if◌then◌else◌, any_of, filter_by, map,
}
use Times.{BandwidthWindow, first_window, limit_at}
use Rules.{
  PathRule, PriorityRule, CompiledRule, CompiledPriorityRule, PolicyProblem, ProblemKind, Matcher,
  compile_all, compile_priorities,
}

pub record SyncPolicies : Type 0 where
  pub bandwidth_windows : List BandwidthWindow
  pub priority_rules : List PriorityRule
  pub exclude_rules : List PathRule
  pub read_only_rules : List PathRule

pub record SyncPolicyEngine : Type 0 where
  pub windows : List BandwidthWindow
  pub excludes : List CompiledRule
  pub read_only : List CompiledRule
  pub priorities : List CompiledPriorityRule
  pub issues : List PolicyProblem

abbrev default_priority : ℕ
default_priority = 50

-- The lowest priority of the rules that match, after what was found.
unfoldable pub lowest : String → List CompiledPriorityRule → ℕ → Bool → ℕ
lowest rel_path [] best matched = best
lowest rel_path (r ∷ rs) best matched =
    let better = r.compiled.test rel_path && (not matched || ltb r.priority best) in
    let next = lowest rel_path rs r.priority true in
    let rest = lowest rel_path rs best matched in if better then next else rest

unfoldable pub priority_of : SyncPolicyEngine → String → ℕ
unfolding lowest
priority_of e rel_path = lowest rel_path e.priorities default_priority false

abbrev some_rule : List CompiledRule → String → Bool
some_rule rules rel_path = any_of (λ r. r.test rel_path) rules

pub is_excluded : SyncPolicyEngine → String → Bool
is_excluded e rel_path = some_rule e.excludes rel_path

pub is_read_only : SyncPolicyEngine → String → Bool
is_read_only e rel_path = some_rule e.read_only rel_path

pub active_window : SyncPolicyEngine → ℕ → ℕ → Option BandwidthWindow
active_window e today minutes = first_window e.windows today minutes

pub bandwidth_limit_at : SyncPolicyEngine → ℕ → ℕ → Option ℕ → Option ℕ
bandwidth_limit_at e today minutes fallback = limit_at e.windows today minutes fallback

pub record Evaluation : Type 0 where
  pub excluded : Bool
  pub read_only : Bool
  pub priority : ℕ

pub evaluate : SyncPolicyEngine → String → Evaluation
evaluate e rel_path = record {
  excluded = is_excluded e rel_path;
  read_only = is_read_only e rel_path;
  priority = priority_of e rel_path;
}

module _ (picomatch reg_exp : String → Matcher) where
  pub create : SyncPolicies → SyncPolicyEngine
  create policies =
      let (excludes, first) =
        compile_all picomatch reg_exp policies.exclude_rules ProblemKind.exclude [] in
      let (readers, second) =
        compile_all picomatch reg_exp policies.read_only_rules ProblemKind.read_only first in
      let (priorities, issues) =
        compile_priorities picomatch reg_exp policies.priority_rules second in
      record {
        windows = policies.bandwidth_windows;
        excludes = excludes;
        read_only = readers;
        priorities = priorities;
        issues = issues;
      }

-- An item with its place in the input and its priority.
pub record Entry {ℓ} (T : Type ℓ) : Type ℓ where
  pub item : T
  pub index : ℕ
  pub priority : ℕ

module _ {ℓ} {T : Type ℓ} where
  -- The comparison of the sort, as a test of whether one entry goes before another.
  abbrev pub goes_before : Entry T → Entry T → Bool
  goes_before a b =
      if a.priority == b.priority then ltb a.index b.index else ltb a.priority b.priority

  unfoldable pub insert_entry : Entry T → List (Entry T) → List (Entry T)
  insert_entry x [] = x ∷ []
  insert_entry x (y ∷ ys) =
      let rest = insert_entry x ys in if goes_before x y then x ∷ y ∷ ys else y ∷ rest

  unfoldable pub sort_entries : List (Entry T) → List (Entry T)
  sort_entries [] = []
  sort_entries (x ∷ xs) = insert_entry x (sort_entries xs)

  unfoldable pub entries_from : (T → ℕ) → ℕ → List T → List (Entry T)
  entries_from urgency i [] = []
  entries_from urgency i (x ∷ xs) =
      record { item = x; index = i; priority = urgency x } ∷ entries_from urgency (suc i) xs

  unfoldable pub sort_by_priority : SyncPolicyEngine → (T → String) → List T → List T
  sort_by_priority e path_of items =
      map (λ x. x.item) (sort_entries (entries_from (λ x. priority_of e (path_of x)) 0 items))
