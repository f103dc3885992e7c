-- ===== src/Otel/Traces/Groups.antt =====
-- How spans are grouped by their scopes (crates/wasi-otel/src/host/tracing_impl.rs).
use mathlib.Core.List.{Perm, perm_middle, append-nil, append_assoc, map-append}
use mathlib.Core.List.Perm
use yetti.Base.{
  ◌≡◌, ◌≢◌, ◌⊎◌, refl, sym, ap, ◌∙◌, some, Bool, true, false, inl, inr, Option, List, [], ◌∷◌, ◌++◌,
  map, arith, Text, Bytes, Bool-cases,
}
use yetti.Base.Lists.{All, All-append, All-map}
use yetti.Foreign.Opentelemetry
use yetti.Otel.Values.{
  Floats, InstrumentationScope, instrumentation_scope, Write, hash_scope, eq_scope,
}
use yetti.Otel.Traces.{
  SpanData, Group, HostResource, span_of, same, push, scope_map, scope_spans, resource_spans,
}

module _ (F : Floats) (decode : Text → Option Bytes)
    (meets : List (Write F) → List (Write F) → Bool) where
  abbrev pub Groups : Type 0
  Groups = List (Group F decode)

  abbrev spans_in : Groups → List (SpanData F decode)
  spans_in [] = []
  spans_in ((_, spans) ∷ groups) = spans ++ spans_in groups

  spans_in-push :
      (groups : Groups) (span : SpanData F decode)
      → Perm (spans_in (push F decode meets groups span)) (span ∷ spans_in groups)
  unfolding push
  spans_in-push [] span = Perm.refl _
  spans_in-push ((scope, spans) ∷ groups) span =
      elim (Bool-cases (same F decode meets scope span.instrumentation_scope)) [
        | inl h ↦
            rw (h, append_assoc spans (span ∷ []) (spans_in groups))
              (perm_middle spans (spans_in groups))
        | inr h ↦ rw h (
            Perm.trans (Perm.append_left spans (spans_in-push groups span))
              (perm_middle spans (spans_in groups)))
      ]

  spans_in-scope_map :
      (groups : Groups) (spans : List (SpanData F decode))
      → Perm (spans_in (scope_map F decode meets groups spans)) (spans_in groups ++ spans)
  unfolding scope_map
  spans_in-scope_map groups [] = rw append-nil (Perm.refl _)
  spans_in-scope_map groups (span ∷ spans) =
      Perm.trans (spans_in-scope_map (push F decode meets groups span) spans) (
        Perm.trans (Perm.append_right spans (spans_in-push groups span))
          (Perm.symm (perm_middle (spans_in groups) spans)))

  -- A lookup by the second scope comes upon an entry with the first as its key, which is `==` to it.
  abbrev pub Finds : InstrumentationScope F → InstrumentationScope F → Type 0
  Finds a b = (meets (hash_scope F a) (hash_scope F b) ≡ true) × (eq_scope F a b ≡ true)

  -- A group's key is the scope of its first span, and is found by those of the others.
  abbrev pub IsGroup : Group F decode → Type 0
  IsGroup (scope, []) = ⊥
  IsGroup (scope, first ∷ rest) =
      (scope ≡ first.instrumentation_scope)
      × All (λ span. Finds scope span.instrumentation_scope) rest

  -- No key stands before one for which it is found.
  abbrev AreSplit : Groups → Type 0
  AreSplit [] = Unit
  AreSplit ((scope, _) ∷ groups) =
      All (λ g. same F decode meets scope g.0 ≡ false) groups × AreSplit groups

  -- No key is before one that is `==` to it and feeds the same to the hasher.
  abbrev pub AreApart : Groups → Type 0
  AreApart [] = Unit
  AreApart ((scope, _) ∷ groups) =
      All (λ g. (hash_scope F scope ≢ hash_scope F g.0) ⊎ (eq_scope F scope g.0 ≡ false)) groups
      × AreApart groups

  same-Finds : (a b : InstrumentationScope F) → same F decode meets a b ≡ true → Finds a b
  unfolding same
  same-Finds a b h = (ground (arith, h), ground (arith, h))

  same-apart :
      ((ws : List (Write F)) → meets ws ws ≡ true)
      → (a b : InstrumentationScope F) → same F decode meets a b ≡ false
      → (hash_scope F a ≢ hash_scope F b) ⊎ (eq_scope F a b ≡ false)
  unfolding same
  same-apart found a b h = elim (Bool-cases (eq_scope F a b)) [
    | inl e ↦ inl (λ alike.
        let met : meets (hash_scope F a) (hash_scope F b) ≡ true =
          ap (meets (hash_scope F a)) (sym alike) ∙ found (hash_scope F a) in
        ground (arith, h, e, met))
    | inr e ↦ inr e
  ]

  IsGroup-snoc :
      (scope : InstrumentationScope F) (spans : List (SpanData F decode)) (span : SpanData F decode)
      → IsGroup (scope, spans)
      → Finds scope span.instrumentation_scope
      → IsGroup (scope, spans ++ span ∷ [])
  IsGroup-snoc scope [] span group h = elim group [ ]
  IsGroup-snoc scope (first ∷ rest) span (e, all) h = (e, All-append _ rest span all h)

  push-keys :
      (scope : InstrumentationScope F) (groups : Groups) (span : SpanData F decode)
      → All (λ g. same F decode meets scope g.0 ≡ false) groups
      → same F decode meets scope span.instrumentation_scope ≡ false
      → All (λ g. same F decode meets scope g.0 ≡ false) (push F decode meets groups span)
  unfolding push
  push-keys scope [] span all h = (h, tt)
  push-keys scope ((s, spans) ∷ groups) span (apart, all) h =
      ground (arith, apart, all, push-keys scope groups span all h)

  push-AreSplit :
      (groups : Groups) (span : SpanData F decode)
      → AreSplit groups
      → All IsGroup groups
      → AreSplit (push F decode meets groups span) × All IsGroup (push F decode meets groups span)
  unfolding push
  push-AreSplit [] span apart all = ((tt, tt), ((refl, tt), tt))
  push-AreSplit ((s, spans) ∷ groups) span (apart, rest) (group, all) =
      elim (Bool-cases (same F decode meets s span.instrumentation_scope)) [
        | inl h ↦ rw h ((apart, rest), (IsGroup-snoc s spans span group (same-Finds s _ h), all))
        | inr h ↦
            let (apart', all') = push-AreSplit groups span rest all in
            rw h ((push-keys s groups span apart h, apart'), (group, all'))
      ]

  scope_map-AreSplit :
      (groups : Groups) (spans : List (SpanData F decode))
      → AreSplit groups
      → All IsGroup groups
      → AreSplit (scope_map F decode meets groups spans)
        × All IsGroup (scope_map F decode meets groups spans)
  unfolding scope_map
  scope_map-AreSplit groups [] apart all = (apart, all)
  scope_map-AreSplit groups (span ∷ spans) apart all =
      let (apart', all') = push-AreSplit groups span apart all in
      scope_map-AreSplit (push F decode meets groups span) spans apart' all'

  abbrev pub exported_in : List (Opentelemetry.ScopeSpans F.F64) → List (Opentelemetry.Span F.F64)
  exported_in [] = []
  exported_in (scope ∷ scopes) = scope.spans ++ exported_in scopes

  abbrev pub exported : List (Opentelemetry.ResourceSpans F.F64) → List (Opentelemetry.Span F.F64)
  exported [] = []
  exported (resource ∷ resources) = exported_in resource.scope_spans ++ exported resources

  exported_in-map :
      (url : Option Text) (groups : Groups)
      → exported_in (map (scope_spans F decode meets url) groups)
        ≡ map (span_of F decode) (spans_in groups)
  unfolding scope_spans
  exported_in-map url [] = refl
  exported_in-map url ((scope, spans) ∷ groups) =
      rw (exported_in-map url groups) (sym (map-append (span_of F decode) spans (spans_in groups)))

  -- Whatever the lookup is, the exported spans are the given ones.
  pub exported-perm :
      (spans : List (SpanData F decode)) (resource : HostResource F decode)
      → Perm
          (exported (resource_spans F decode meets spans resource))
          (map (span_of F decode) spans)
  unfolding resource_spans
  exported-perm spans resource =
      rw
        (
          append-nil (exported_in _),
          exported_in-map resource.schema_url (scope_map F decode meets [] spans),
        )
        (Perm.map (span_of F decode) (spans_in-scope_map [] spans))

  -- the scopes of the parts of a request
  abbrev pub sent_scopes :
      List (Opentelemetry.ScopeSpans F.F64)
      → List (Option (Opentelemetry.InstrumentationScope F.F64))
  sent_scopes scopes = map (λ part. part.scope) scopes

  sent_scopes-map :
      (url : Option Text) (groups : Groups)
      → All IsGroup groups
      → sent_scopes (map (scope_spans F decode meets url) groups)
        ≡ map (λ g. some (instrumentation_scope F g.0)) groups
  unfolding scope_spans
  sent_scopes-map url [] all = refl
  sent_scopes-map url ((scope, []) ∷ groups) (group, all) = elim group [ ]
  sent_scopes-map url ((scope, first ∷ rest) ∷ groups) ((e, _), all) =
      rw (e, sent_scopes-map url groups all) refl

  AreApart-split :
      ((ws : List (Write F)) → meets ws ws ≡ true)
      → (groups : Groups) → AreSplit groups
      → AreApart groups
  AreApart-split found [] split = tt
  AreApart-split found ((scope, _) ∷ groups) (split, rest) =
      (All-map (λ g. same-apart found scope g.0) groups split, AreApart-split found groups rest)

  -- The parts of a request, one for each group.
  abbrev pub parts :
      List (Opentelemetry.ResourceSpans F.F64) → List (Opentelemetry.ScopeSpans F.F64)
  parts [] = []
  parts (resource ∷ resources) = resource.scope_spans ++ parts resources

  -- The export groups spans by their scopes and loses none. The hash map is any that comes upon a
  -- key which feeds to the hasher what it is looked up by. The exported spans are the given ones,
  -- converted, up to their order; there is one part of the request for each group, with the group's
  -- key as its scope; the key is the scope of the group's first span, and it is `==` to those of
  -- its other spans, by which the lookup comes upon it; no two keys are both `==` and alike for the
  -- hasher, so that scopes which are `==` are apart only where `Hash` tells them apart.
  pub resource_spans-perm :
      ((ws : List (Write F)) → meets ws ws ≡ true)
      → (spans : List (SpanData F decode)) (resource : HostResource F decode)
      → let groups = scope_map F decode meets [] spans in
        let request = resource_spans F decode meets spans resource in
        Perm (exported request) (map (span_of F decode) spans)
        × (sent_scopes (parts request) ≡ map (λ g. some (instrumentation_scope F g.0)) groups)
        × AreApart groups
        × All IsGroup groups
  unfolding resource_spans
  resource_spans-perm found spans resource =
      let (split, groups) = scope_map-AreSplit [] spans tt tt in
      (
        exported-perm spans resource,
        rw (append-nil (map (scope_spans F decode meets resource.schema_url) _))
            (sent_scopes-map resource.schema_url (scope_map F decode meets [] spans) groups),
        AreApart-split found (scope_map F decode meets [] spans) split,
        groups,
      )
