-- ===== src/Policy/Normalize/Kept.antt =====
-- What a durable copy keeps of a policy: canonicalizeDurable of
-- packages/core/src/domain/abacPolicyNormalizer.ts.
use mathlib.Core.Path.{subst}
use kittle.Base.{
  String, Bool, true, false, ◌&&◌, List, all, all-append, Result, ok, err, ◌>>=◌, ◌===◌, ◌≡◌, refl,
  sym, ap₂, ◌∙◌, arith, and_first, and_rest, ok-injective,
}
use kittle.Js.{Value, undefined, null, boolean, number, string, date, array, object}
use kittle.Predicate.{PredicateNode, Filters, condition, and, or, not, literal}
use kittle.Predicate.Supported.{AbacFieldType}
use kittle.Predicate.Supported.First.{conditions, conditions_in}
use kittle.Policy.Normalize.{
  RangeError, Normalizing, AbacPolicy, is_policy_effect, is_policy_priority, is_policy_scope_type,
}
use kittle.Policy.Normalize.Durable.{
  canonicalize_durable, canonicalize_node, canonicalize_filters, canonicalize_policy,
  canonicalize_window, canonicalize_payload, canonicalize_group,
}
use kittle.Policy.Normalize.Survives.{survives_at}

-- A predicate of what a computation returns, if it returns.
abbrev pub OnOk : {A : Type 0} → (A → Type 0) → Result RangeError A → Type 0
OnOk P (ok a) = P a
OnOk P (err _) = Unit

pub OnOk->>= :
    {A B : Type 0} (P : B → Type 0) (m : Result RangeError A) (f : A → Result RangeError B)
    → ((a : A) → m ≡ ok a → OnOk P (f a))
    → OnOk P (m >>= f)
OnOk->>= P (ok a) f h = h a refl
OnOk->>= P (err e) f h = tt

pub OnOk-chain :
    {A B : Type 0} (P : A → Type 0) (Q : B → Type 0) (m : Result RangeError A)
    (f : A → Result RangeError B)
    → OnOk P m
    → ((a : A) → P a → OnOk Q (f a))
    → OnOk Q (m >>= f)
OnOk-chain P Q (ok a) f first rest = rest a first
OnOk-chain P Q (err e) f first rest = tt

module _ {N : Type 0} (fields : List (String × AbacFieldType)) where
  abbrev pub Survive : PredicateNode N → Type 0
  Survive p = all (survives_at fields) (conditions p) ≡ true

  abbrev pub SurviveIn : Filters N → Type 0
  SurviveIn ps = all (survives_at fields) (conditions_in ps) ≡ true

module _ {N : Type 0} (nz : Normalizing N) (fields : List (String × AbacFieldType)) where
  mutual
    unfolding canonicalize_node canonicalize_filters conditions conditions_in

    -- A copy has the operators on the fields of its original.
    pub canonicalize_node-Survive :
        (p : PredicateNode N)
        → all (survives_at fields) (conditions p) ≡ true
        → OnOk (Survive fields) (canonicalize_node nz p)
    canonicalize_node-Survive (condition c) h =
        OnOk->>= _ (canonicalize_durable nz c.value) _ (λ w e. h)
    canonicalize_node-Survive (and filters) h =
        OnOk-chain (SurviveIn fields) (Survive fields) (canonicalize_filters nz filters) _
          (canonicalize_filters-SurviveIn filters h) (λ ps k. k)
    canonicalize_node-Survive (or filters) h =
        OnOk-chain (SurviveIn fields) (Survive fields) (canonicalize_filters nz filters) _
          (canonicalize_filters-SurviveIn filters h) (λ ps k. k)
    canonicalize_node-Survive (not filter) h =
        OnOk-chain (Survive fields) (Survive fields) (canonicalize_node nz filter) _
          (canonicalize_node-Survive filter h) (λ p k. k)
    canonicalize_node-Survive (literal b) h = h

    canonicalize_filters-SurviveIn :
        (ps : Filters N)
        → all (survives_at fields) (conditions_in ps) ≡ true
        → OnOk (SurviveIn fields) (canonicalize_filters nz ps)
    canonicalize_filters-SurviveIn Filters.nil h = refl
    canonicalize_filters-SurviveIn (Filters.cons p ps) h =
        let f = survives_at fields in
        let both = sym (all-append f (conditions p) (conditions_in ps)) ∙ h in
        OnOk-chain (Survive fields) (SurviveIn fields) (canonicalize_node nz p) _
          (canonicalize_node-Survive p (and_first _ _ both))
          (λ q k.
            OnOk-chain (SurviveIn fields) (SurviveIn fields) (canonicalize_filters nz ps) _
              (canonicalize_filters-SurviveIn ps (and_rest _ _ both))
              (λ qs ks. all-append f (conditions q) (conditions_in qs) ∙ ap₂ (λ a b. a && b) k ks))

module _ {N : Type 0} (nz : Normalizing N) where
  -- Texts and numbers.
  abbrev is_plain : Value N → Bool
  is_plain (string _) = true
  is_plain (number _) = true
  is_plain _ = false

  plain_kept : (v w : Value N) → is_plain v ≡ true → canonicalize_durable nz v ≡ ok w → v ≡ w
  unfolding canonicalize_durable
  plain_kept (string s) w h e = ok-injective e
  plain_kept (number x) w h e = ok-injective e
  plain_kept undefined w h e = cc
  plain_kept null w h e = cc
  plain_kept (boolean b) w h e = cc
  plain_kept (date t) w h e = cc
  plain_kept (array i vs) w h e = cc
  plain_kept (object i ps) w h e = cc

  -- A test that only texts and numbers pass is passed by the copy too.
  test_kept :
      (f : Value N → Bool) (v w : Value N)
      → is_plain v ≡ true
      → f v ≡ true
      → canonicalize_durable nz v ≡ ok w
      → f w ≡ true
  test_kept f v w plain h e = subst (λ x. f x ≡ true) (plain_kept v w plain e) h

  effect-plain : (v : Value N) → is_policy_effect v ≡ true → is_plain v ≡ true
  effect-plain v h = ground arith

  priority-plain : (v : Value N) → is_policy_priority nz v ≡ true → is_plain v ≡ true
  priority-plain v h = ground arith

  scope_type-plain : (v : Value N) → is_policy_scope_type v ≡ true → is_plain v ≡ true
  scope_type-plain v h = ground arith

  -- The header of a policy that the tiers may read.
  pub record IsHeader (p : AbacPolicy N) (module_key : String) : Type 0 where
    pub decided : is_policy_effect p.effect ≡ true
    pub ranked : is_policy_priority nz p.priority ≡ true
    pub scoped : is_policy_scope_type p.scope_type ≡ true
    pub of_module : (p.module_key === module_key) ≡ true

  pub canonicalize_policy-IsHeader :
      (p : AbacPolicy N) (module_key : String)
      → IsHeader p module_key
      → OnOk (λ q. IsHeader q module_key) (canonicalize_policy nz p)
  unfolding canonicalize_policy canonicalize_group
  canonicalize_policy-IsHeader p module_key header =
      let P = λ (q : AbacPolicy N). IsHeader q module_key in
      OnOk->>= P (canonicalize_durable nz p.scope_type) _ (λ scope_type es.
        OnOk->>= P (canonicalize_window nz p.starts_at) _ (λ starts_at _.
          OnOk->>= P (canonicalize_window nz p.ends_at) _ (λ ends_at _.
            OnOk->>= P (canonicalize_durable nz p.effect) _ (λ effect ee.
              OnOk->>= P (canonicalize_durable nz p.priority) _ (λ priority ep.
                OnOk->>= P (canonicalize_payload nz p.payload)
                  (λ payload. ok (record {
                    policy_id = p.policy_id;
                    scope_type = scope_type;
                    scope_ref_id = p.scope_ref_id;
                    starts_at = starts_at;
                    ends_at = ends_at;
                    module_key = p.module_key;
                    effect = effect;
                    priority = priority;
                    payload = payload;
                  }))
                  (λ payload _. record {
                    decided =
                        test_kept is_policy_effect p.effect effect
                          (effect-plain p.effect header.decided) header.decided ee;
                    ranked =
                        test_kept (is_policy_priority nz) p.priority priority
                          (priority-plain p.priority header.ranked) header.ranked ep;
                    scoped =
                        test_kept is_policy_scope_type p.scope_type scope_type
                          (scope_type-plain p.scope_type header.scoped) header.scoped es;
                    of_module = header.of_module;
                  }))))))
