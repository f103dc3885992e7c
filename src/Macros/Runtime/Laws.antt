-- ===== src/Macros/Runtime/Laws.antt =====
-- Whether the generated runtime is well-formed (crates/runtime-macro/src/runtime.rs and expand.rs).
use mathlib.Core.Path.{subst}
use yetti.Base.{
  ◌≡◌, refl, sym, ap, ◌∙◌, ◌⊎◌, inl, inr, ◌≢◌, true, false, none, some, List, [], ◌∷◌, ◌++◌, map,
  arith, Text, text_eq, Bool-cases,
}
use yetti.Base.Lists.{contains, All}
use yetti.Macros.Idents.{SynPath, field_ident, wasi_ident}
use yetti.Macros.Runtime.{
  Host, Setting, hosts, get_ident, any_ident, dedup, parse, path_string, context_fields_from,
  expand,
}

-- The path of one segment.
abbrev pub ident_path : Text → SynPath
ident_path t = record { leading_colon = false; segments = t ∷ [] }

abbrev pub IsIdent : SynPath → Type 0
IsIdent path = (t : Text) × (path ≡ ident_path t)

abbrev pub Has : {A : Type 0} → List A → A → Type 0
Has [] a = ⊥
Has (x ∷ xs) a = (x ≡ a) ⊎ Has xs a

Has-append_left : {A : Type 0} (xs ys : List A) (a : A) → Has xs a → Has (xs ++ ys) a
Has-append_left [] ys a h = elim h [ ]
Has-append_left (x ∷ xs) ys a (inl e) = inl e
Has-append_left (x ∷ xs) ys a (inr h) = inr (Has-append_left xs ys a h)

Has-snoc : {A : Type 0} (xs : List A) (a : A) → Has (xs ++ a ∷ []) a
Has-snoc [] a = inl refl
Has-snoc (x ∷ xs) a = inr (Has-snoc xs a)

All-snoc :
    {A : Type 0} (P : A → Type 0) (xs : List A) (a : A) → All P xs → P a → All P (xs ++ a ∷ [])
All-snoc P [] a all h = (h, tt)
All-snoc P (x ∷ xs) a (p, all) h = (p, All-snoc P xs a all h)

Has-map : {A B : Type 0} (f : A → B) (xs : List A) (a : A) → Has xs a → Has (map f xs) (f a)
Has-map f [] a h = elim h [ ]
Has-map f (x ∷ xs) a (inl e) = inl (ap f e)
Has-map f (x ∷ xs) a (inr h) = inr (Has-map f xs a h)

All-Has : {A : Type 0} (P : A → Type 0) (xs : List A) (a : A) → All P xs → Has xs a → P a
All-Has P [] a all h = elim h [ ]
All-Has P (x ∷ xs) a (p, all) (inl e) = subst P e p
All-Has P (x ∷ xs) a (p, all) (inr h) = All-Has P xs a all h

get_ident-ident_path : (t : Text) → get_ident (ident_path t) ≡ some t
unfolding get_ident
get_ident-ident_path t = refl

path_string-ident_path : (t : Text) → path_string (ident_path t) ≡ t
unfolding path_string
path_string-ident_path t = refl

any_ident-Has :
    (backends : List SynPath) (t : Text)
    → All IsIdent backends
    → any_ident backends (some t) ≡ true
    → Has backends (ident_path t)
unfolding any_ident
any_ident-Has [] t all h = cc
any_ident-Has (b ∷ backends) t ((s, e), all) h = elim (text_eq.dec s t) [
  | yes p ↦ inl (e ∙ ap ident_path p)
  | no n ↦
      inr (any_ident-Has backends t all (ground (arith, h, ap get_ident e, get_ident-ident_path s)))
]

dedup-IsIdent :
    (backends : List SynPath) (hs : List Host)
    → All IsIdent backends
    → All (λ h. IsIdent h.backend) hs
    → All IsIdent (dedup backends hs)
unfolding dedup
dedup-IsIdent backends [] all idents = all
dedup-IsIdent backends (h ∷ hs) all (ident, idents) =
    elim (Bool-cases (any_ident backends (get_ident h.backend))) [
      | inl found ↦ rw found (dedup-IsIdent backends hs all idents)
      | inr new ↦ rw new (
          dedup-IsIdent (backends ++ h.backend ∷ []) hs
            (All-snoc IsIdent backends h.backend all ident) idents)
    ]

dedup-kept :
    (backends : List SynPath) (hs : List Host) (b : SynPath)
    → Has backends b
    → Has (dedup backends hs) b
unfolding dedup
dedup-kept backends [] b has = has
dedup-kept backends (h ∷ hs) b has = elim (Bool-cases (any_ident backends (get_ident h.backend))) [
  | inl found ↦ rw found (dedup-kept backends hs b has)
  | inr new ↦ rw new (
      dedup-kept (backends ++ h.backend ∷ []) hs b
        (Has-append_left backends (h.backend ∷ []) b has))
]

-- Backends of one segment are all kept.
dedup-Has :
    (backends : List SynPath) (hs : List Host) (h : Host)
    → All IsIdent backends
    → All (λ k. IsIdent k.backend) hs
    → Has hs h
    → Has (dedup backends hs) h.backend
unfolding dedup
dedup-Has backends [] h all idents has = elim has [ ]
dedup-Has backends (k ∷ hs) h all ((t, e), idents) (inl p) =
    elim (Bool-cases (any_ident backends (get_ident k.backend))) [
      | inl found ↦ rw found (
          dedup-kept backends hs h.backend (
            subst (λ x. Has backends x) (sym e ∙ ap (λ x. x.backend) p)
              (any_ident-Has backends t all
                (ap (any_ident backends) (sym (ap get_ident e ∙ get_ident-ident_path t)) ∙ found))))
      | inr new ↦ rw new (
          dedup-kept (backends ++ k.backend ∷ []) hs h.backend
            (rw (ap (λ x. x.backend) p) (Has-snoc backends h.backend)))
    ]
dedup-Has backends (k ∷ hs) h all (ident, idents) (inr has) =
    elim (Bool-cases (any_ident backends (get_ident k.backend))) [
      | inl found ↦ rw found (dedup-Has backends hs h all idents has)
      | inr new ↦ rw new (
          dedup-Has (backends ++ k.backend ∷ []) hs h
            (All-snoc IsIdent backends k.backend all ident) idents has)
    ]

-- Each backend of one segment has a field, of its name and its type.
context_fields_from-Has :
    (seen : List Text) (backends : List SynPath) (t : Text)
    → All IsIdent backends
    → Has backends (ident_path t)
    → contains seen t ≡ false
    → Has (context_fields_from seen backends) (field_ident (ident_path t), ident_path t)
unfolding context_fields_from
context_fields_from-Has seen [] t all has new = elim has [ ]
context_fields_from-Has seen (b ∷ backends) t ((s, e), all) (inl p) new =
    rw (p, path_string-ident_path t, new) (inl refl)
context_fields_from-Has seen (b ∷ backends) t ((s, e), all) (inr has) new =
    elim (Bool-cases (contains seen (path_string b))) [
      | inl skip ↦ rw skip (context_fields_from-Has seen backends t all has new)
      | inr add ↦ elim (text_eq.dec (path_string b) t) [
        | yes q ↦ rw add (
            inl (
              ap (λ x. (field_ident x, x))
                (e ∙ ap ident_path (sym (path_string-ident_path s) ∙ ap path_string (sym e) ∙ q))))
        | no n ↦ rw add (
            inr (
              context_fields_from-Has (path_string b ∷ seen) backends t all has
                (ground (arith, n, new))))
      ]
    ]

-- The values of `StoreCtx` clone fields that `Context` has, with the types that `StoreCtx` states: for
-- settings whose backends are identifiers, each host's value is a field of `Context` whose type is
-- the host's backend.
pub expand-parse :
    (settings : List Setting) (h : Host)
    → All (λ k. IsIdent k.backend) (parse settings).hosts
    → Has (parse settings).hosts h
    → Has (expand (parse settings)).context_fields (field_ident h.backend, h.backend)
      × Has (expand (parse settings)).store_ctx_fields (wasi_ident h.type_, h.backend)
      × Has (expand (parse settings)).store_ctx_values (wasi_ident h.type_, field_ident h.backend)
unfolding expand parse
expand-parse settings h idents has =
    let (t, e) = All-Has (λ k. IsIdent k.backend) (parse settings).hosts h idents has in
    let backends = (parse settings).backends in
    let kept : Has backends (ident_path t) =
      subst (λ x. Has backends x) e (dedup-Has [] (parse settings).hosts h tt idents has) in
    (
      rw e (
          context_fields_from-Has [] backends t (dedup-IsIdent [] (parse settings).hosts tt idents)
            kept refl),
      Has-map (λ k. (wasi_ident k.type_, k.backend)) (parse settings).hosts h has,
      Has-map (λ k. (wasi_ident k.type_, field_ident k.backend)) (parse settings).hosts h has,
    )

-- Backends that are paths of several segments are all taken for one: of two hosts with such backends,
-- whose field names differ, the second one's value clones a field that `Context` does not have.
pub expand-parse_collapsed :
    (h1 h2 : Host)
    → get_ident h1.backend ≡ none
    → get_ident h2.backend ≡ none
    → field_ident h1.backend ≢ field_ident h2.backend
    → let expanded = expand (parse (hosts (h1 ∷ h2 ∷ []) ∷ [])) in
      Has expanded.store_ctx_values (wasi_ident h2.type_, field_ident h2.backend)
      × ((p : SynPath) → ¬ Has expanded.context_fields (field_ident h2.backend, p))
unfolding expand parse
expand-parse_collapsed h1 h2 e1 e2 n = (
  inr (inl refl),
  λ p. rw (e1, e2, any_ident) (λ h. elim h [ inl e ↦ n (ap (λ x. x.0) e) | inr absent ↦ absent ]),
)
