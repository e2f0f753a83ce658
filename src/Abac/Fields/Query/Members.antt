-- ===== src/Abac/Fields/Query/Members.antt =====
-- What each loop of the query rules adds to the members of a list.
use kittle.Base.{str_mem-append}
use kittle.Base.{
  String, ◌===◌, eq_iff, str_mem, ◌≡◌, ◌∙◌, Bool, true, false, negate, ◌&&◌, ◌||◌, Option, none,
  some, List, [], ◌∷◌, any, Bool-cases, inl, inr, ap, if◌then◌else◌, arith,
}
use kittle.Tier.{Effect}
use kittle.Abac.{NormalizedAbacPolicy, PolicyFieldQueryAccess}
use kittle.Abac.Fields.{ReadMap, reads, read_entries}
use kittle.Abac.Fields.Query.{
  FieldQueryAccess, QueryMode, at_mode, add_new, push, push_all, push_each, query_fields, hides,
  shows, deny_hidden, grant_modes, query_of, allow_shown, grant_query, in_module,
  collect_denied_query_fields, collect_query_grants, allow_readable,
}

abbrev pub same_mode : QueryMode → QueryMode → Bool
same_mode QueryMode.filter QueryMode.filter = true
same_mode QueryMode.search QueryMode.search = true
same_mode QueryMode.sort QueryMode.sort = true
same_mode _ _ = false

module _ (f : String) where
  str_mem-add_new :
      (g : String) (fs : List String) → str_mem f (add_new g fs) ≡ (str_mem f fs || (g === f))
  unfolding add_new
  str_mem-add_new g fs = ground (arith, str_mem-append f fs (g ∷ []), eq_iff g f)

  str_mem-push :
      (m n : QueryMode) (g : String) (a : FieldQueryAccess)
      → str_mem f (at_mode m (push n g a))
        ≡ (str_mem f (at_mode m a) || (same_mode m n && (g === f)))
  unfolding push
  str_mem-push QueryMode.filter QueryMode.filter g a = str_mem-add_new g a.filter
  str_mem-push QueryMode.search QueryMode.search g a = str_mem-add_new g a.search
  str_mem-push QueryMode.sort QueryMode.sort g a = str_mem-add_new g a.sort
  str_mem-push QueryMode.filter QueryMode.search g a = ground arith
  str_mem-push QueryMode.filter QueryMode.sort g a = ground arith
  str_mem-push QueryMode.search QueryMode.filter g a = ground arith
  str_mem-push QueryMode.search QueryMode.sort g a = ground arith
  str_mem-push QueryMode.sort QueryMode.filter g a = ground arith
  str_mem-push QueryMode.sort QueryMode.search g a = ground arith

  pub str_mem-push_all :
      (m n : QueryMode) (fs : List String) (a : FieldQueryAccess)
      → str_mem f (at_mode m (push_all n fs a))
        ≡ (str_mem f (at_mode m a) || (same_mode m n && str_mem f fs))
  unfolding push_all
  str_mem-push_all m n [] a = ground arith
  str_mem-push_all m n (g ∷ fs) a =
      ground (arith, str_mem-push_all m n fs (push n g a), str_mem-push m n g a)

  same_mode-some :
      (m : QueryMode) (b : Bool)
      → ((same_mode m QueryMode.filter && b)
          || ((same_mode m QueryMode.search && b) || (same_mode m QueryMode.sort && b)))
        ≡ b
  same_mode-some QueryMode.filter b = ground arith
  same_mode-some QueryMode.search b = ground arith
  same_mode-some QueryMode.sort b = ground arith

  str_mem-push_each :
      (m : QueryMode) (g : String) (a : FieldQueryAccess)
      → str_mem f (at_mode m (push_each g a)) ≡ (str_mem f (at_mode m a) || (g === f))
  unfolding push_each
  str_mem-push_each m g a = ground (
    arith,
    same_mode-some m (g === f),
    str_mem-push m QueryMode.sort g (push QueryMode.search g (push QueryMode.filter g a)),
    str_mem-push m QueryMode.search g (push QueryMode.filter g a),
    str_mem-push m QueryMode.filter g a,
  )

  -- Does an entry for the field hide it, or show it?
  abbrev hidden_by : Effect → ReadMap → Bool
  hidden_by effect read = any (λ e. (e.0 === f) && hides effect e.1) read

  abbrev shown_by : Effect → ReadMap → Bool
  shown_by effect read = any (λ e. (e.0 === f) && shows effect e.1) read

  str_mem-deny_hidden :
      (effect : Effect) (read : ReadMap) (denied : List String)
      → str_mem f (deny_hidden effect read denied) ≡ (str_mem f denied || hidden_by effect read)
  unfolding deny_hidden
  str_mem-deny_hidden effect [] denied = ground arith
  str_mem-deny_hidden effect ((g, mode) ∷ read) denied = ground (
    arith,
    str_mem-deny_hidden effect read (if hides effect mode then add_new g denied else denied),
    str_mem-add_new g denied,
  )

  str_mem-allow_shown :
      (m : QueryMode) (effect : Effect) (read : ReadMap) (denied : List String)
      (a : FieldQueryAccess)
      → str_mem f (at_mode m (allow_shown effect read denied a))
        ≡ (str_mem f (at_mode m a) || (shown_by effect read && negate (str_mem f denied)))
  unfolding allow_shown
  str_mem-allow_shown m effect [] denied a = ground arith
  str_mem-allow_shown m effect ((g, mode) ∷ read) denied a =
      let ih = str_mem-allow_shown m effect read denied in
      elim (Bool-cases (g === f)) [
        | inl same ↦
            let e : g ≡ f = (eq_iff g f).0 same in
            ground (
              arith,
              ap (λ h. str_mem h denied) e,
              ih a,
              ih (push_each g a),
              str_mem-push_each m g a,
            )
        | inr other ↦ ground (arith, ih a, ih (push_each g a), str_mem-push_each m g a)
      ]

  str_mem-grant_modes :
      (m : QueryMode) (query : PolicyFieldQueryAccess) (a : FieldQueryAccess)
      → str_mem f (at_mode m (grant_modes query a))
        ≡ (str_mem f (at_mode m a) || str_mem f (query_fields m query))
  unfolding grant_modes
  str_mem-grant_modes m query a =
      str_mem-push_all m QueryMode.sort (query_fields QueryMode.sort query) _
      ∙ (rw
          (
            str_mem-push_all m QueryMode.search (query_fields QueryMode.search query)
                (push_all QueryMode.filter (query_fields QueryMode.filter query) a),
            str_mem-push_all m QueryMode.filter (query_fields QueryMode.filter query) a,
          )
          (own m))
    where
      own :
          (m : QueryMode)
          → (((str_mem f (at_mode m a)
                  || (same_mode m QueryMode.filter
                      && str_mem f (query_fields QueryMode.filter query)))
                || (same_mode m QueryMode.search
                    && str_mem f (query_fields QueryMode.search query)))
              || (same_mode m QueryMode.sort && str_mem f (query_fields QueryMode.sort query)))
            ≡ (str_mem f (at_mode m a) || str_mem f (query_fields m query))
      own QueryMode.filter = ground arith
      own QueryMode.search = ground arith
      own QueryMode.sort = ground arith

  abbrev granted_by : QueryMode → Option PolicyFieldQueryAccess → Bool
  granted_by m none = false
  granted_by m (some query) = str_mem f (query_fields m query)

  str_mem-grant_query :
      (m : QueryMode) (query : Option PolicyFieldQueryAccess) (a : FieldQueryAccess)
      → str_mem f (at_mode m (grant_query query a))
        ≡ (str_mem f (at_mode m a) || granted_by m query)
  unfolding grant_query
  str_mem-grant_query m none a = ground arith
  str_mem-grant_query m (some query) a = str_mem-grant_modes m query a

  module _ {N : Type 0} (module_key : String) where
    -- Does a policy of the module hide the field, show it, or grant the mode?
    abbrev pub is_hidden : List (NormalizedAbacPolicy N) → Bool
    is_hidden ps =
        any (λ p. in_module module_key p && hidden_by p.effect (read_entries (reads p))) ps

    abbrev pub is_shown : List (NormalizedAbacPolicy N) → Bool
    is_shown ps = any (λ p. in_module module_key p && shown_by p.effect (read_entries (reads p))) ps

    abbrev pub is_granted : QueryMode → List (NormalizedAbacPolicy N) → Bool
    is_granted m ps =
        any (λ p. in_module module_key p && granted_by m (query_of p.payload.field_access)) ps

    pub str_mem-collect_denied :
        (ps : List (NormalizedAbacPolicy N)) (denied : List String)
        → str_mem f (collect_denied_query_fields module_key ps denied)
          ≡ (str_mem f denied || is_hidden ps)
    unfolding collect_denied_query_fields
    str_mem-collect_denied [] denied = ground arith
    str_mem-collect_denied (p ∷ ps) denied = ground (
      arith,
      str_mem-collect_denied ps denied,
      str_mem-collect_denied ps (deny_hidden p.effect (read_entries (reads p)) denied),
      str_mem-deny_hidden p.effect (read_entries (reads p)) denied,
    )

    pub str_mem-collect_grants :
        (m : QueryMode) (ps : List (NormalizedAbacPolicy N)) (a : FieldQueryAccess)
        → str_mem f (at_mode m (collect_query_grants module_key ps a))
          ≡ (str_mem f (at_mode m a) || is_granted m ps)
    unfolding collect_query_grants
    str_mem-collect_grants m [] a = ground arith
    str_mem-collect_grants m (p ∷ ps) a = ground (
      arith,
      str_mem-collect_grants m ps a,
      str_mem-collect_grants m ps (grant_query (query_of p.payload.field_access) a),
      str_mem-grant_query m (query_of p.payload.field_access) a,
    )

    pub str_mem-allow_readable :
        (m : QueryMode) (ps : List (NormalizedAbacPolicy N)) (denied : List String)
        (a : FieldQueryAccess)
        → str_mem f (at_mode m (allow_readable module_key ps denied a))
          ≡ (str_mem f (at_mode m a) || (is_shown ps && negate (str_mem f denied)))
    unfolding allow_readable
    str_mem-allow_readable m [] denied a = ground arith
    str_mem-allow_readable m (p ∷ ps) denied a = ground (
      arith,
      str_mem-allow_readable m ps denied a,
      str_mem-allow_readable m ps denied (allow_shown p.effect (read_entries (reads p)) denied a),
      str_mem-allow_shown m p.effect (read_entries (reads p)) denied a,
    )
