-- ===== src/Macros/Guest/Laws.antt =====
-- What the guest macro accepts and generates (crates/guest-macro/src/guest.rs and http.rs).
use mathlib.Core.List.{append-nil}
use yetti.Base.{
  ℕ, ◌≡◌, ◌↔◌, refl, sym, ◌∙◌, inl, inr, Bool, true, false, Option, none, some, List, [], ◌∷◌, ◌++◌,
  map, arith, Text, nat_eq, text_eq, ◌==◌, Bool-cases, Option-cases,
}
use yetti.Base.Lists.{bytes, contains, All}
use yetti.Base.Exec.{ok, Result-cases}
use yetti.Base.Join.{join, split-join}
use yetti.Macros.Guest.{
  Route, Args, raw_query, body_bytes, path_params, Input, unit, query, body, params, before_brace,
  param_of, params_of, extract_params, expand_get_args, expand_post_args, expand_get_input,
  expand_post_input, expand_handler, Setting, owner, provider, http, messaging, Settings,
  add_settings, no_settings, Config, config_of, parse,
}

-- A parameter in braces.
abbrev pub braced : Text → Text
braced p = b'{' ∷ (p ++ b'}' ∷ [])

before_brace-append : (p : Text) → before_brace (p ++ b'}' ∷ []) ≡ some p
unfolding before_brace nat_eq
before_brace-append [] = refl
before_brace-append (c ∷ []) = refl
before_brace-append (c ∷ d ∷ p) = rw (before_brace-append (d ∷ p))

param_of-braced : (p : Text) → param_of (braced p) ≡ some p
unfolding param_of nat_eq
param_of-braced p = before_brace-append p

params_of-braced : (ps : List Text) → params_of (map braced ps) ≡ ps
unfolding params_of
params_of-braced [] = refl
params_of-braced (p ∷ ps) = ground (arith, param_of-braced p, params_of-braced ps)

contains-snoc :
    (p : Text) (c d : ℕ)
    → contains p c ≡ false
    → (d == c) ≡ false
    → contains (p ++ d ∷ []) c ≡ false
contains-snoc [] c d h k = ground (arith, k)
contains-snoc (x ∷ p) c d h k = ground (arith, h, k, contains-snoc p c d)

braced_slash :
    (ps : List Text)
    → All (λ p. contains p b'/' ≡ false) ps
    → All (λ p. contains p b'/' ≡ false) (map braced ps)
unfolding nat_eq
braced_slash [] all = tt
braced_slash (p ∷ ps) (h, all) = (contains-snoc p b'/' b'}' h refl, braced_slash ps all)

-- The parameters of a path that is made of parameters in braces are these, in order.
extract_params-join :
    (p : Text) (ps : List Text)
    → All (λ q. contains q b'/' ≡ false) (p ∷ ps)
    → extract_params (join b'/' (map braced (p ∷ ps))) ≡ p ∷ ps
unfolding extract_params
extract_params-join p ps all =
    rw (split-join b'/' (braced p) (map braced ps) (braced_slash (p ∷ ps) all))
      (params_of-braced (p ∷ ps))

-- Whether an input names only what the arguments bind.
abbrev pub IsBound : Args → Input → Type 0
IsBound args unit = Unit
IsBound args query = args ≡ raw_query
IsBound args body = args ≡ body_bytes
IsBound args (params ps) = args ≡ path_params ps

get-IsBound : (ps : List Text) (q : Bool) → IsBound (expand_get_args ps q) (expand_get_input ps q)
unfolding expand_get_args expand_get_input
get-IsBound [] true = refl
get-IsBound [] false = tt
get-IsBound (p ∷ ps) q = refl

post-IsBound : (b : Bool) → IsBound (expand_post_args b) (expand_post_input b)
unfolding expand_post_args expand_post_input
post-IsBound true = refl
post-IsBound false = tt

-- The input of a generated handler names only what its arguments bind, for every route.
expand_handler-IsBound :
    (o p : Text) (route : Route)
    → IsBound (expand_handler o p route).args (expand_handler o p route).input
unfolding expand_handler
expand_handler-IsBound o p route = elim (Bool-cases (route.handler.method == bytes "get")) [
  | inl h ↦ rw h (get-IsBound route.params route.handler.with_query)
  | inr h ↦ rw h (post-IsBound route.handler.with_body)
]

-- The owners and the providers among settings.
abbrev pub owners : List Setting → List Text
owners [] = []
owners (owner o ∷ settings) = o ∷ owners settings
owners (provider p ∷ settings) = owners settings
owners (http h ∷ settings) = owners settings
owners (messaging m ∷ settings) = owners settings

abbrev pub providers : List Setting → List Text
providers [] = []
providers (owner o ∷ settings) = providers settings
providers (provider p ∷ settings) = p ∷ providers settings
providers (http h ∷ settings) = providers settings
providers (messaging m ∷ settings) = providers settings

abbrev pub to_list : Option Text → List Text
to_list none = []
to_list (some t) = t ∷ []

add_settings-eq-ok :
    (s s' : Settings) (settings : List Setting)
    → add_settings s settings ≡ ok s'
    → (to_list s'.owner ≡ to_list s.owner ++ owners settings)
      × (to_list s'.provider ≡ to_list s.provider ++ providers settings)
unfolding add_settings
add_settings-eq-ok s s' [] h =
    ground (arith, h, append-nil (to_list s.owner), append-nil (to_list s.provider))
add_settings-eq-ok s s' (owner o ∷ settings) h =
    ground (arith, h, add_settings-eq-ok (record s { owner = some o }) s' settings)
add_settings-eq-ok s s' (provider p ∷ settings) h =
    ground (arith, h, add_settings-eq-ok (record s { provider = some p }) s' settings)
add_settings-eq-ok s s' (http r ∷ settings) h =
    add_settings-eq-ok (record s { http = some r }) s' settings h
add_settings-eq-ok s s' (messaging m ∷ settings) h =
    add_settings-eq-ok (record s { messaging = some m }) s' settings h

add_settings_total :
    (s : Settings) (settings : List Setting) (o p : Text)
    → to_list s.owner ++ owners settings ≡ o ∷ []
    → to_list s.provider ++ providers settings ≡ p ∷ []
    → (s' : Settings) × (add_settings s settings ≡ ok s')
unfolding add_settings
add_settings_total s [] o p h k = (s, refl)
add_settings_total s (owner x ∷ settings) o p h k = elim (Option-cases s.owner) [
  | inl e ↦
      let (s', added) =
        add_settings_total (record s { owner = some x }) settings o p (ground (arith, h, e)) k in
      (s', ground (arith, e, added))
  | inr (y, e) ↦ absurd (ground (arith, h, e))
]
add_settings_total s (provider x ∷ settings) o p h k = elim (Option-cases s.provider) [
  | inl e ↦
      let (s', added) =
        add_settings_total (record s { provider = some x }) settings o p h (ground (arith, k, e)) in
      (s', ground (arith, e, added))
  | inr (y, e) ↦ absurd (ground (arith, k, e))
]
add_settings_total s (http r ∷ settings) o p h k =
    add_settings_total (record s { http = some r }) settings o p h k
add_settings_total s (messaging m ∷ settings) o p h k =
    add_settings_total (record s { messaging = some m }) settings o p h k

config_of-eq-ok :
    (s : Settings) (o p : Option Text) (c : Config)
    → config_of s o p ≡ ok c
    → (to_list o ≡ c.owner ∷ []) × (to_list p ≡ c.provider ∷ [])
config_of-eq-ok s none p c h = cc
config_of-eq-ok s (some o) none c h = cc
config_of-eq-ok s (some o) (some p) c h = ground (arith, h)

to_list-eq : (x : Option Text) (o : Text) → to_list x ≡ o ∷ [] → x ≡ some o
to_list-eq none o h = cc
to_list-eq (some y) o h = ground (arith, h)

parse-eq-ok :
    (settings : List Setting) (c : Config)
    → parse settings ≡ ok c
    → (owners settings ≡ c.owner ∷ []) × (providers settings ≡ c.provider ∷ [])
unfolding parse
parse-eq-ok settings c h = elim (Result-cases (add_settings no_settings settings)) [
  | inl (s, e) ↦
      let configured : config_of s s.owner s.provider ≡ ok c = rw e at h in
      let (a, b) = add_settings-eq-ok no_settings s settings e in
      let (x, y) = config_of-eq-ok s s.owner s.provider c configured in (sym a ∙ x, sym b ∙ y)
  | inr (why, e) ↦ ground (arith, h, e)
]

-- Settings are accepted exactly if there is one owner and one provider among them, which are then
-- those of the configuration.
pub parse_iff :
    (settings : List Setting) (o p : Text)
    → ((c : Config) × (parse settings ≡ ok c) × (c.owner ≡ o) × (c.provider ≡ p))
      ↔ ((owners settings ≡ o ∷ []) × (providers settings ≡ p ∷ []))
unfolding parse
parse_iff settings o p = (
  λ (c, h, e, e1).
      let (a, b) = parse-eq-ok settings c h in (ground (arith, a, e), ground (arith, b, e1)),
  λ (h, k).
      let (s, added) = add_settings_total no_settings settings o p h k in
      let (a, b) = add_settings-eq-ok no_settings s settings added in
      (
        record { owner = o; provider = p; http = s.http; messaging = s.messaging },
        rw (added, to_list-eq s.owner o (a ∙ h), to_list-eq s.provider p (b ∙ k)),
        refl,
        refl,
      ),
)
