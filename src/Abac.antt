-- ===== src/Abac.antt =====
-- packages/core/src/domain/abacTypes.ts, the payload types of abacPolicySchema.ts, and the check of
-- a bundle's brand in abacBundleIntegrity.ts. The policies of a bundle are normalized: their
-- priorities are safe integers. `identity` is the object that `includes` and a `Set` compare.
pub mod Decision
pub mod Scope
pub mod Collection
pub mod Write
pub mod Fields
use kittle.Base.{
  ℕ, ℤ, String, ◌===◌, str_mem, Bool, true, false, ◌&&◌, Option, none, some, List, filter, Result,
  ok, err, require, if◌then◌else◌,
}
use kittle.Js.{Numbers, Props}
use kittle.Predicate.{PredicateNode}
use kittle.Predicate.Eval.{evaluate_predicate}
use kittle.Tier.{Effect, is_deny, Policies}

pub data ScopeType : Type 0 where
  tenant_default platform_default role branch department user : ScopeType

-- `scope_ref_id` is absent, null or a string.
pub record AbacPolicySource : Type 0 where
  pub policy_id : String
  pub scope_type : ScopeType
  pub scope_ref_id : Option (Option String)

pub data FieldReadMode : Type 0 where
  allow omit mask : FieldReadMode

pub record PolicyFieldQueryAccess : Type 0 where
  pub filter : Option (List String)
  pub search : Option (List String)
  pub sort : Option (List String)

pub record PolicyFieldAccess : Type 0 where
  pub read : Option (List (String × FieldReadMode))
  pub write : Option (List String)
  pub query : Option PolicyFieldQueryAccess

pub record ParsedPolicyPayload : Type 0 where
  pub actions : List String
  pub capabilities : List String
  pub field_access : Option PolicyFieldAccess

pub record NormalizedAbacPolicy (N : Type 0) : Type 0 where
  pub identity : ℕ
  pub source : AbacPolicySource
  pub module_key : String
  pub effect : Effect
  pub priority : ℤ
  pub payload : ParsedPolicyPayload
  pub compiled_conditions : PredicateNode N

pub data BundleMode : Type 0 where
  tenant platform : BundleMode

-- `branded`: the bundle carries the factory's symbol.
pub record AbacPolicyBundle (N : Type 0) : Type 0 where
  pub mode : BundleMode
  pub module_key : String
  pub policies : List (NormalizedAbacPolicy N)
  pub default_effect : Effect
  pub cache_scope_key : Option String
  pub security_digest : Option String
  pub branded : Bool

pub record AbacReadScope (N : Type 0) : Type 0 where
  pub filter : PredicateNode N
  pub cache_scope_key : Option String

-- `reasonCode` of a ForbiddenError.
pub data ReasonCode : Type 0 where
  allow_policy_matched deny_policy_matched no_relevant_policy no_policy_matched_record
        abac_field_write_denied abac_field_query_denied :
      ReasonCode

-- What a decision tells of a policy.
pub record Evidence : Type 0 where
  pub policy_id : String
  pub effect : Effect
  pub priority : ℤ
  pub scope_type : ScopeType
  pub scope_ref_id : Option (Option String)

pub record PolicyMeta : Type 0 where
  pub module_key : String
  pub effect : Effect
  pub priority : ℤ

-- The errors that the ABAC modules throw, without their messages. `write_refused` is the end of
-- `enforceAbacWrite`.
pub data AbacError : Type 0 where
  configuration_error : AbacError
  forbidden_error : ReasonCode → List String → AbacError
  write_refused :
      ReasonCode → (module_key action : String) → Option PolicyMeta → List Evidence → AbacError

abbrev pub is_some {ℓ} : {A : Type ℓ} → Option A → Bool
is_some (some _) = true
is_some none = false

module _ {N : Type 0} where
  abbrev pub policy_view : Policies (NormalizedAbacPolicy N)
  policy_view = record { get_priority = λ p. p.priority; get_effect = λ p. p.effect }

  unfoldable pub assert_verified_abac_bundle : AbacPolicyBundle N → Result AbacError (Unit {0})
  assert_verified_abac_bundle bundle =
      require (is_deny bundle.default_effect && bundle.branded && is_some bundle.security_digest)
        configuration_error

  abbrev pub is_for_action : String → String → NormalizedAbacPolicy N → Bool
  is_for_action module_key action p =
      p.module_key === module_key && str_mem action p.payload.actions

  abbrev pub is_for_capability : String → String → NormalizedAbacPolicy N → Bool
  is_for_capability module_key capability p =
      p.module_key === module_key && str_mem capability p.payload.capabilities

  abbrev pub policy_matches_record : ⦃num : Numbers N⦄ → Props N → NormalizedAbacPolicy N → Bool
  policy_matches_record r p = evaluate_predicate r p.compiled_conditions
