-- ===== src/Predicate/Shape/Accepts.antt =====
-- What the check accepts, of the objects that the builders make.
use kittle.Base.{
  ℕ, zero, suc, ltb, leb, String, ◌===◌, ◌≡◌, refl, ◌∙◌, ap, ap₂, ◌>>◌, require, Bool, true, false,
  negate, ◌&&◌, ◌||◌, is_ok, Result, ok, err, if◌then◌else◌, arith,
}
use kittle.Js.{Value, Values, string, boolean, array, object, prop, end, is_undefined}
use kittle.Predicate.{
  PredicateOp, PredicateCondition, PredicateNode, Filters, condition, and, or, not, literal,
}
use kittle.Predicate.Shape.{
  ShapeError, max_predicate_depth, all_levels, assert_op, assert_field, assert_literal,
  assert_children, assert_filters, assert_kind, assert_candidate, assert_predicate_node,
}

abbrev pub op_name : PredicateOp → String
op_name PredicateOp.eq = "eq"
op_name PredicateOp.neq = "neq"
op_name PredicateOp.contains = "contains"
op_name PredicateOp.starts_with = "startsWith"
op_name PredicateOp.ends_with = "endsWith"
op_name PredicateOp.is_empty = "isEmpty"
op_name PredicateOp.is_not_empty = "isNotEmpty"
op_name PredicateOp.gt = "gt"
op_name PredicateOp.lt = "lt"
op_name PredicateOp.gte = "gte"
op_name PredicateOp.lte = "lte"
op_name PredicateOp.is_true = "isTrue"
op_name PredicateOp.is_false = "isFalse"
op_name PredicateOp.is_null = "isNull"
op_name PredicateOp.is_not_null = "isNotNull"
op_name PredicateOp.in_ = "in"
op_name PredicateOp.includes_any = "includesAny"
op_name PredicateOp.includes_all = "includesAll"
op_name PredicateOp.between = "between"

abbrev takes_no_value : PredicateOp → Bool
takes_no_value PredicateOp.is_empty = true
takes_no_value PredicateOp.is_not_empty = true
takes_no_value PredicateOp.is_true = true
takes_no_value PredicateOp.is_false = true
takes_no_value PredicateOp.is_null = true
takes_no_value PredicateOp.is_not_null = true
takes_no_value _ = false

abbrev max : ℕ → ℕ → ℕ
max a b = if ltb a b then b else a

leb-ltb : (a b : ℕ) → leb a b ≡ ltb a (suc b)
leb-ltb a b = ground arith

is_ok-require : {E : Type 0} (b : Bool) (e : E) → is_ok (require b e) ≡ b
is_ok-require true e = refl
is_ok-require false e = refl

is_ok->> : {E : Type 0} (m k : Result E (Unit {0})) → is_ok (m >> k) ≡ (is_ok m && is_ok k)
is_ok->> (ok _) k = refl
is_ok->> (err _) k = refl

module _ {N : Type 0} where
  -- The object that a node is. The check does not read the identities.
  abbrev group : String → Values N → Value N
  group kind filters = object 0 (prop "kind" (string kind) (prop "filters" (array 0 filters) end))

  mutual
    pub encode : PredicateNode N → Value N
    encode (condition c) = object 0 (
        prop "kind" (string "condition") (
          prop "field" (string c.field)
            (prop "op" (string (op_name c.op)) (prop "value" c.value end))))
    encode (and filters) = group "and" (encode_all filters)
    encode (or filters) = group "or" (encode_all filters)
    encode (not filter) = object 0 (prop "kind" (string "not") (prop "filter" (encode filter) end))
    encode (literal b) = object 0 (prop "kind" (string "literal") (prop "value" (boolean b) end))

    pub encode_all : Filters N → Values N
    encode_all Filters.nil = Values.nil
    encode_all (Filters.cons p ps) = Values.cons (encode p) (encode_all ps)

  mutual
    pub nesting : PredicateNode N → ℕ
    nesting (condition _) = 0
    nesting (and filters) = nesting_all filters
    nesting (or filters) = nesting_all filters
    nesting (not filter) = suc (nesting filter)
    nesting (literal _) = 0

    pub nesting_all : Filters N → ℕ
    nesting_all Filters.nil = 0
    nesting_all (Filters.cons p ps) = max (suc (nesting p)) (nesting_all ps)

  -- Each condition names a field, and has a value where its operator takes one.
  mutual
    pub is_complete : PredicateNode N → Bool
    is_complete (condition c) =
        negate (c.field === "") && (takes_no_value c.op || negate (is_undefined c.value))
    is_complete (and filters) = all_complete filters
    is_complete (or filters) = all_complete filters
    is_complete (not filter) = is_complete filter
    is_complete (literal _) = true

    pub all_complete : Filters N → Bool
    all_complete Filters.nil = true
    all_complete (Filters.cons p ps) = is_complete p && all_complete ps

  assert_op-is_ok :
      (op : PredicateOp) (value : Value N)
      → is_ok (assert_op (string (op_name op)) value)
        ≡ (takes_no_value op || negate (is_undefined value))
  unfolding assert_op
  assert_op-is_ok PredicateOp.is_empty value = refl
  assert_op-is_ok PredicateOp.is_not_empty value = refl
  assert_op-is_ok PredicateOp.is_true value = refl
  assert_op-is_ok PredicateOp.is_false value = refl
  assert_op-is_ok PredicateOp.is_null value = refl
  assert_op-is_ok PredicateOp.is_not_null value = refl
  assert_op-is_ok PredicateOp.eq value = is_ok-require (negate (is_undefined value)) _
  assert_op-is_ok PredicateOp.neq value = is_ok-require (negate (is_undefined value)) _
  assert_op-is_ok PredicateOp.contains value = is_ok-require (negate (is_undefined value)) _
  assert_op-is_ok PredicateOp.starts_with value = is_ok-require (negate (is_undefined value)) _
  assert_op-is_ok PredicateOp.ends_with value = is_ok-require (negate (is_undefined value)) _
  assert_op-is_ok PredicateOp.gt value = is_ok-require (negate (is_undefined value)) _
  assert_op-is_ok PredicateOp.lt value = is_ok-require (negate (is_undefined value)) _
  assert_op-is_ok PredicateOp.gte value = is_ok-require (negate (is_undefined value)) _
  assert_op-is_ok PredicateOp.lte value = is_ok-require (negate (is_undefined value)) _
  assert_op-is_ok PredicateOp.in_ value = is_ok-require (negate (is_undefined value)) _
  assert_op-is_ok PredicateOp.includes_any value = is_ok-require (negate (is_undefined value)) _
  assert_op-is_ok PredicateOp.includes_all value = is_ok-require (negate (is_undefined value)) _
  assert_op-is_ok PredicateOp.between value = is_ok-require (negate (is_undefined value)) _

  accepts_condition :
      (recur : Value N → Result ShapeError (Unit {0})) (c : PredicateCondition N)
      → is_ok (assert_candidate recur (encode (condition c))) ≡ is_complete (condition c)
  unfolding assert_candidate assert_kind assert_field encode is_complete
  accepts_condition recur c =
      is_ok->> (require (negate (c.field === "")) ShapeError.empty_field)
        (assert_op (string (op_name c.op)) c.value)
      ∙ ap₂ (λ a b. a && b) (is_ok-require (negate (c.field === "")) ShapeError.empty_field)
          (assert_op-is_ok c.op c.value)

  mutual
    unfolding assert_predicate_node assert_candidate assert_kind assert_literal assert_filters
        assert_children encode encode_all nesting nesting_all is_complete all_complete

    accepts :
        (left : ℕ) (p : PredicateNode N)
        → is_ok (assert_predicate_node left (encode p)) ≡ (ltb (nesting p) left && is_complete p)
    accepts zero p = ground arith
    accepts (suc left) (condition c) =
        let below : ltb 0 (suc left) ≡ true = ground arith in
        rw below (accepts_condition (assert_predicate_node left) c)
    accepts (suc left) (and filters) =
        accepts_all left filters
        ∙ ap (λ b. b && all_complete filters) (leb-ltb (nesting_all filters) left)
    accepts (suc left) (or filters) =
        accepts_all left filters
        ∙ ap (λ b. b && all_complete filters) (leb-ltb (nesting_all filters) left)
    accepts (suc left) (not filter) = ground (arith, accepts left filter)
    accepts (suc left) (literal b) = ground arith

    accepts_all :
        (left : ℕ) (ps : Filters N)
        → is_ok (assert_children (assert_predicate_node left) (encode_all ps))
          ≡ (leb (nesting_all ps) left && all_complete ps)
    accepts_all left Filters.nil = ground arith
    accepts_all left (Filters.cons p ps) =
        is_ok->> (assert_predicate_node left (encode p))
          (assert_children (assert_predicate_node left) (encode_all ps))
        ∙ ground (arith, accepts left p, accepts_all left ps)

  -- The object of a predicate passes the check exactly when each of its conditions names a field and
  -- has a value where its operator takes one, and its nodes are nested 100 levels deep at most.
  pub assert_predicate_node-is_ok :
      (p : PredicateNode N)
      → is_ok (assert_predicate_node all_levels (encode p))
        ≡ (leb (nesting p) max_predicate_depth && is_complete p)
  assert_predicate_node-is_ok p = ground (arith, accepts all_levels p)
