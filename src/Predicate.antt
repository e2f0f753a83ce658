-- ===== src/Predicate.antt =====
-- packages/core/src/domain/predicate.ts: the predicate AST and its builders.
-- A filter list is a type of its own, read as a list by `nodes`. An absent value is `undefined`.
pub mod Eval
pub mod Truth
pub mod Simplify
pub mod Shape
pub mod Supported
use kittle.Base.{Bool, true, false, List, [], ◌∷◌, String}
use kittle.Js.{Value, undefined}

pub data PredicateOp : Type 0 where
  eq neq contains starts_with ends_with is_empty is_not_empty gt lt gte lte is_true is_false is_null
        is_not_null in_ includes_any includes_all between :
      PredicateOp

pub record PredicateCondition (N : Type 0) : Type 0 where
  pub field : String
  pub op : PredicateOp
  pub value : Value N

mutual
  pub data PredicateNode (N : Type 0) : Type 0 where
    condition : PredicateCondition N → PredicateNode N
    and : Filters N → PredicateNode N
    or : Filters N → PredicateNode N
    not : PredicateNode N → PredicateNode N
    literal : Bool → PredicateNode N

  pub data Filters (N : Type 0) : Type 0 where
    nil : Filters N
    cons : PredicateNode N → Filters N → Filters N

module _ {N : Type 0} where
  abbrev pub nodes : Filters N → List (PredicateNode N)
  nodes nil = []
  nodes (cons p ps) = p ∷ nodes ps

  abbrev pub filters_of : List (PredicateNode N) → Filters N
  filters_of [] = nil
  filters_of (p ∷ ps) = cons p (filters_of ps)

  -- `Predicate.alwaysTrue()` and `Predicate.alwaysFalse()`
  abbrev pub always_true : PredicateNode N
  always_true = and nil

  abbrev pub always_false : PredicateNode N
  always_false = or nil
