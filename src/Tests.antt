-- ===== src/Tests.antt =====
-- Concrete policies, bundles and records, on which the theorems are applied and the code is run.
pub mod Access
pub mod Fields
pub mod Predicates
pub mod Limits
pub mod Schedules
pub mod Jobs
pub mod Policies
pub mod Normalize
use kittle.Base.{ℕ, ltb, ◌==◌, pos, String, Bool, true, false, Option, none, some, List, [], ◌∷◌}
use kittle.Js.{Numbers, Value, Props, number, string, boolean, prop, end}
use kittle.Predicate.{PredicateOp, PredicateNode, condition, and, nil, always_true}
use kittle.Tier.{Effect, allow, deny}
use kittle.Abac.{
  ScopeType, BundleMode, FieldReadMode, PolicyFieldAccess, NormalizedAbacPolicy, AbacPolicyBundle,
}

-- Whole numbers, with no text read as a number.
instance abbrev pub naturals : Numbers ℕ
naturals = record { lt = ltb; eq = ◌==◌; of_string = λ _. 0; parse_date = λ _. 0 }

abbrev pub policy_of :
    ℕ
    → Effect
    → ℕ
    → List String
    → Option PolicyFieldAccess
    → PredicateNode ℕ
    → NormalizedAbacPolicy ℕ
policy_of identity effect priority actions access conditions = record {
  identity = identity;
  source = record { policy_id = "p"; scope_type = ScopeType.tenant_default; scope_ref_id = none };
  module_key = "orders";
  effect = effect;
  priority = pos priority;
  payload = record { actions = actions; capabilities = []; field_access = access };
  compiled_conditions = conditions;
}

abbrev pub equals : String → String → PredicateNode ℕ
equals field value = condition (record { field = field; op = PredicateOp.eq; value = string value })

-- Open orders may be read and updated, but for their total; locked ones may not.
abbrev pub open_access : PolicyFieldAccess
open_access = record {
  read = some (("status", FieldReadMode.allow) ∷ ("phone", FieldReadMode.mask) ∷ []);
  write = some ("status" ∷ "note" ∷ []);
  query = some (record { filter = some ("phone" ∷ []); search = none; sort = none });
}

abbrev pub allow_open : NormalizedAbacPolicy ℕ
allow_open =
    policy_of 1 allow 10 ("read" ∷ "update" ∷ []) (some open_access) (equals "status" "open")

abbrev pub deny_locked : NormalizedAbacPolicy ℕ
deny_locked = policy_of 2 deny 20 ("read" ∷ "update" ∷ []) none (equals "lock" "yes")

abbrev pub policies : List (NormalizedAbacPolicy ℕ)
policies = allow_open ∷ deny_locked ∷ []

abbrev pub bundle : AbacPolicyBundle ℕ
bundle = record {
  mode = BundleMode.tenant;
  module_key = "orders";
  policies = policies;
  default_effect = deny;
  cache_scope_key = none;
  security_digest = some "digest";
  branded = true;
}

abbrev pub open_order : Props ℕ
open_order =
    prop "status" (string "open") (prop "lock" (string "no") (prop "phone" (string "5551234") end))

abbrev pub locked_order : Props ℕ
locked_order = prop "status" (string "open") (prop "lock" (string "yes") end)
