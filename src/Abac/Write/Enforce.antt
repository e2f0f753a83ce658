-- ===== src/Abac/Write/Enforce.antt =====
-- The write check as a whole.
use kittle.Base.{
  String, ◌===◌, ◌==◌, ◌≡◌, refl, sym, ◌∙◌, ap, Bool, true, false, ◌&&◌, ◌||◌, Option, List, filter,
  any, all, any-filter, is_empty, is_empty-filter, is_ok, arith, Bool-cases, inl, inr, Memᴰ,
  mem_of_any, mem_of_filter, false_of_any, any-eq-false,
}
use kittle.Js.{Numbers, Props}
use kittle.Tier.{Reason, deny, resolve_tiered_decision}
use kittle.Tier.Decision.{permitted, resolve_tiered_decision-allowed}
use kittle.Tier.Decision.Views.{
  allows_by, resolve_tiered_decision-congr, resolve_tiered_decision-reason,
}
use kittle.Abac.{
  Evidence, NormalizedAbacPolicy, AbacPolicyBundle, policy_view, policy_matches_record,
  assert_verified_abac_bundle,
}
use kittle.Abac.Decision.{includes_policy, relevant_to_action, evaluate_abac_record_action}
use kittle.Abac.Write.{
  evaluation_of, evaluate_relevant_write_access, allow_or_throw, enforce_record_write,
  enforce_abac_write, fields_or_keys,
}
use kittle.Abac.Write.Writable.{is_writable, assert_matched_policy_writable_fields-is_ok}

module _ {N : Type 0} where
  by_reason :
      (reason : Reason) (module_key : String) (deciding : List (NormalizedAbacPolicy N))
      (evidence : List Evidence)
      → (evaluation_of reason module_key deciding evidence).allowed ≡ allows_by reason
  unfolding evaluation_of
  by_reason Reason.allow_policy_matched module_key deciding evidence = refl
  by_reason Reason.deny_policy_matched module_key deciding evidence = refl
  by_reason Reason.no_relevant_policy module_key deciding evidence = refl
  by_reason Reason.no_policy_matched module_key deciding evidence = refl

  write_access-allowed :
      (relevant : List (NormalizedAbacPolicy N)) (module_key : String)
      (matches : NormalizedAbacPolicy N → Bool)
      → (evaluate_relevant_write_access relevant module_key matches).allowed
        ≡ (resolve_tiered_decision policy_view matches deny relevant).allowed
  unfolding evaluate_relevant_write_access
  write_access-allowed relevant module_key matches =
      by_reason (resolve_tiered_decision policy_view matches deny relevant).reason module_key _ _
      ∙ resolve_tiered_decision-reason policy_view matches relevant

  is_ok-allow_or_throw :
      (relevant : List (NormalizedAbacPolicy N)) (module_key action : String)
      (matches : NormalizedAbacPolicy N → Bool)
      → is_ok (
          allow_or_throw module_key action
            (evaluate_relevant_write_access relevant module_key matches))
        ≡ (resolve_tiered_decision policy_view matches deny relevant).allowed
  unfolding allow_or_throw
  is_ok-allow_or_throw relevant module_key action matches =
      ground (arith, write_access-allowed relevant module_key matches)

  -- Different objects of a bundle have different identities.
  abbrev pub IsCoherent : List (NormalizedAbacPolicy N) → Type 0
  IsCoherent policies =
      (p q : NormalizedAbacPolicy N)
      → Memᴰ p policies
      → Memᴰ q policies
      → p.identity ≡ q.identity
      → p ≡ q

  module _ (m : NormalizedAbacPolicy N → Bool) (policies : List (NormalizedAbacPolicy N))
      (coherent : IsCoherent policies) where
    -- The set of the matched policies answers the same as the match.
    includes-matched :
        (p : NormalizedAbacPolicy N) → Memᴰ p policies → includes_policy (filter m policies) p ≡ m p
    includes-matched p mp = elim (Bool-cases (includes_policy (filter m policies) p)) [
      | inl held ↦
          let (q, mq, e) =
            mem_of_any (λ q. m q && (q.identity == p.identity)) policies
              (sym (any-filter (λ q. q.identity == p.identity) m policies) ∙ held) in
          held
          ∙ sym (
              ap m (sym (coherent q p mq mp (ground arith)))
              ∙ (let t : m q ≡ true = ground arith in t))
      | inr absent ↦
          let f =
            false_of_any (λ q. m q && (q.identity == p.identity)) policies
              (sym (any-filter (λ q. q.identity == p.identity) m policies) ∙ absent) mp in
          absent ∙ (let t : false ≡ m p = ground arith in t)
    ]

  all_allowed :
      (m : NormalizedAbacPolicy N → Bool) (policies : List (NormalizedAbacPolicy N))
      → is_empty (filter m policies) ≡ true
      → (resolve_tiered_decision policy_view m deny policies).allowed ≡ false
  all_allowed m policies none' =
      let no' : any m policies ≡ false = (is_empty-filter m policies).0 none' in
      let no_permit : permitted policy_view m policies ≡ false =
        any-eq-false _ policies (λ p mp. let f = false_of_any m policies no' mp in ground arith) in
      ground (arith, resolve_tiered_decision-allowed policy_view m deny policies)

-- The relevant policies whose conditions hold at the record.
abbrev pub matched_policies :
    {N : Type 0} ⦃num : Numbers N⦄
    → AbacPolicyBundle N
    → String
    → Props N
    → List (NormalizedAbacPolicy N)
matched_policies bundle action r =
    filter (policy_matches_record r) (relevant_to_action bundle action)

module _ {N : Type 0} ⦃num : Numbers N⦄ (bundle : AbacPolicyBundle N) (action : String)
    (r : Props N) (changed_fields : Option (List String)) where
  is_ok-enforce_record_write :
      IsCoherent (relevant_to_action bundle action)
      → is_ok (enforce_record_write bundle action r changed_fields) ≡ (
          (resolve_tiered_decision policy_view
            (policy_matches_record r)
            deny
            (relevant_to_action bundle action)).allowed
          && all (is_writable (matched_policies bundle action r)) (fields_or_keys changed_fields r))
  unfolding enforce_record_write
  is_ok-enforce_record_write coherent =
      let relevant = relevant_to_action bundle action in
      ground (
        arith,
        is_ok-allow_or_throw relevant bundle.module_key action
            (includes_policy (matched_policies bundle action r)),
        resolve_tiered_decision-congr policy_view
            (includes_policy (matched_policies bundle action r)) (policy_matches_record r) deny
            relevant (includes-matched (policy_matches_record r) relevant coherent),
        assert_matched_policy_writable_fields-is_ok (matched_policies bundle action r) r
            changed_fields,
        all_allowed (policy_matches_record r) relevant,
      )

-- If different policies of a bundle have different identities, a write is let through exactly when
-- the bundle is verified, the decision on the record allows
-- the action, and, for an action other than "delete", every field to be written is writable under
-- the policies that match the record.
pub enforce_abac_write-is_ok :
    {N : Type 0} ⦃num : Numbers N⦄ (bundle : AbacPolicyBundle N) (action : String) (r : Props N)
    (changed_fields : Option (List String))
    → IsCoherent bundle.policies
    → is_ok (enforce_abac_write bundle action r changed_fields) ≡ (
        is_ok (assert_verified_abac_bundle bundle)
        && (evaluate_abac_record_action bundle action r).allowed
        && (action === "delete"
            || all
                (is_writable (matched_policies bundle action r))
                (fields_or_keys changed_fields r)))
unfolding enforce_abac_write evaluate_abac_record_action
enforce_abac_write-is_ok bundle action r changed_fields coherent =
    let relevant = relevant_to_action bundle action in
    let coherent' : IsCoherent relevant = λ p q mp mq.
      coherent p q (mem_of_filter _ bundle.policies mp) (mem_of_filter _ bundle.policies mq) in
    ground (
      arith,
      is_ok-enforce_record_write bundle action r changed_fields coherent',
      is_ok-allow_or_throw relevant bundle.module_key action (policy_matches_record r),
    )
