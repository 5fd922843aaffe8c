-- ===== src/Sync/Policies/Rules.antt =====
-- The rules on paths of backend/sync/policies.ts, and how they are compiled.
use Prim.Native.Char.{code}
use cnc_network_bridge.Base.{
  ℕ, String, Bool, ◌&&◌, Option, none, some, List, [], ◌∷◌, ◌++◌, ◌==◌, ◌<>◌, if◌then◌else◌,
}

pub record PathRule : Type 0 where
  pub glob : Option String
  pub regex : Option String

pub record PriorityRule : Type 0 where
  pub rule : PathRule
  pub priority : ℕ

-- `replace(/\\/g, '/')`
unfoldable pub forward_slashes : String → String
forward_slashes String.[] = ""
forward_slashes (String.◌∷◌ c s) =
    let rest = forward_slashes s in if code c == 0x5c then "/" <> rest else String.◌∷◌ c rest

-- `replace(/^\/+/, '')`
unfoldable pub drop_slashes : String → String
drop_slashes String.[] = ""
drop_slashes (String.◌∷◌ c s) =
    let rest = drop_slashes s in if code c == b'/' then rest else String.◌∷◌ c s

-- `replace(/^\.\//, '')`
unfoldable pub drop_here : String → String
drop_here (String.◌∷◌ c (String.◌∷◌ d s)) =
    if code c == b'.' && code d == b'/' then s else String.◌∷◌ c (String.◌∷◌ d s)
drop_here s = s

unfoldable pub normalize : String → String
unfolding forward_slashes drop_here drop_slashes
normalize rel_path = drop_slashes (drop_here (forward_slashes rel_path))

pub data ProblemKind : Type 0 where
  exclude read_only priority : ProblemKind

pub record PolicyProblem : Type 0 where
  pub kind : ProblemKind
  pub rule : String
  pub message : String

pub record CompiledRule : Type 0 where
  pub source : String
  pub test : String → Bool

pub record CompiledPriorityRule : Type 0 where
  pub compiled : CompiledRule
  pub priority : ℕ

-- What the compiler of an expression answers: a matcher, or the message of its error.
pub data Matcher : Type 0 where
  matches : (String → Bool) → Matcher
  throws : String → Matcher

-- The rule, if it compiles, and the problems after it.
abbrev compiled_by :
    ProblemKind → String → Matcher → List PolicyProblem → Option CompiledRule × List PolicyProblem
compiled_by kind source (matches m) problems =
    (some (record { source = source; test = λ p. m (normalize p) }), problems)
compiled_by kind source (throws message) problems =
    (none, problems ++ record { kind = kind; rule = source; message = message } ∷ [])

module _ (picomatch reg_exp : String → Matcher) where
  abbrev compile_rule :
      PathRule → ProblemKind → List PolicyProblem → Option CompiledRule × List PolicyProblem
  compile_rule rule kind problems = elim rule.glob [
    | some glob ↦ compiled_by kind glob (picomatch glob) problems
    | none ↦ elim rule.regex [
      | some regex ↦ compiled_by kind regex (reg_exp regex) problems
      | none ↦ (none, problems)
    ]
  ]

  abbrev kept_rule : Option CompiledRule → List CompiledRule → List CompiledRule
  kept_rule none rest = rest
  kept_rule (some r) rest = r ∷ rest

  unfoldable pub compile_all :
      List PathRule → ProblemKind → List PolicyProblem → List CompiledRule × List PolicyProblem
  compile_all [] kind problems = ([], problems)
  compile_all (r ∷ rs) kind problems =
      let (rule, found) = compile_rule r kind problems in
      let (rest, all) = compile_all rs kind found in (kept_rule rule rest, all)

  abbrev kept_priority :
      ℕ → Option CompiledRule → List CompiledPriorityRule → List CompiledPriorityRule
  kept_priority p none rest = rest
  kept_priority p (some r) rest = record { compiled = r; priority = p } ∷ rest

  unfoldable pub compile_priorities :
      List PriorityRule → List PolicyProblem → List CompiledPriorityRule × List PolicyProblem
  compile_priorities [] problems = ([], problems)
  compile_priorities (r ∷ rs) problems =
      let (rule, found) = compile_rule r.rule ProblemKind.priority problems in
      let (rest, all) = compile_priorities rs found in (kept_priority r.priority rule rest, all)
