-- ===== src/Foreign/Uri.antt =====
-- What the program uses of `http::uri`: the builder of a URI, which keeps its first error to the
-- end. A URI with a scheme has an authority, and one with an authority and a path has a scheme.
use yetti.Base.{◌≡◌, refl, Option, none, some, List, [], ◌∷◌, Text}
use yetti.Base.Lists.{bytes}
use yetti.Base.Exec.{Result, ok, err}
use yetti.Foreign.Anyhow.{Anyhow, chained}

abbrev pub and_then {ℓ} : {E A B : Type ℓ} → Result E A → (A → Result E B) → Result E B
and_then (ok a) f = f a
and_then (err e) f = err e

pub record Uris (ah : Anyhow) : Type 1 where
  pub Scheme : Type 0
  pub Authority : Type 0
  pub PathAndQuery : Type 0
  pub Uri : Type 0
  pub Builder : Type 0
  -- `PathAndQuery::from_static("/")`
  pub root : PathAndQuery
  pub path_and_query : Uri → Option PathAndQuery
  pub scheme : Uri → Option Scheme
  pub authority : Uri → Option Authority
  -- `Uri::builder().path_and_query(p)`, and the two methods that take a text
  pub builder : PathAndQuery → Builder
  pub set_authority : Builder → Text → Builder
  pub set_scheme : Builder → Text → Builder
  pub build : Builder → Result ah.Error Uri
  pub parse_authority : Text → Result ah.Error Authority
  pub parse_scheme : Text → Result ah.Error Scheme
  -- the parts that a builder holds, or its first error
  pub held : Builder → Result ah.Error (Option Scheme × Option Authority × PathAndQuery)
  pub from_parts : Option Scheme → Option Authority → PathAndQuery → Result ah.Error Uri
  pub held-builder : (p : PathAndQuery) → held (builder p) ≡ ok (none, none, p)
  pub held-set_authority :
      (b : Builder) (t : Text)
      → held (set_authority b t)
        ≡ and_then (held b) (λ h. and_then (parse_authority t) (λ a. ok (h.0, some a, h.2)))
  pub held-set_scheme :
      (b : Builder) (t : Text)
      → held (set_scheme b t)
        ≡ and_then (held b) (λ h. and_then (parse_scheme t) (λ s. ok (some s, h.1, h.2)))
  pub build_lem : (b : Builder) → build b ≡ and_then (held b) (λ h. from_parts h.0 h.1 h.2)
  pub from_parts_full :
      (s : Scheme) (a : Authority) (p : PathAndQuery)
      → (u : Uri) × (from_parts (some s) (some a) p ≡ ok u)
        × (scheme u ≡ some s)
        × (authority u ≡ some a)
        × (path_and_query u ≡ some p)
  pub from_parts_relative :
      (p : PathAndQuery)
      → (u : Uri) × (from_parts none none p ≡ ok u)
        × (scheme u ≡ none)
        × (authority u ≡ none)
        × (path_and_query u ≡ some p)
  pub from_parts_no_scheme :
      (a : Authority) (p : PathAndQuery) → (e : ah.Error) × (from_parts none (some a) p ≡ err e)
  pub from_parts_no_authority :
      (s : Scheme) (p : PathAndQuery) → (e : ah.Error) × (from_parts (some s) none p ≡ err e)

-- Parts as texts, of which the empty one is refused.
pub record PlainUri : Type 0 where
  pub scheme : Option Text
  pub authority : Option Text
  pub path_and_query : Text

abbrev pub parse_part : Text → Result (List Text) Text
parse_part [] = err (bytes "empty" ∷ [])
parse_part (c ∷ t) = ok (c ∷ t)

abbrev pub checked : Option Text → Option Text → Text → Result (List Text) PlainUri
checked none (some a) p = err (bytes "scheme missing" ∷ [])
checked (some s) none p = err (bytes "authority missing" ∷ [])
checked none none p = ok (record { scheme = none; authority = none; path_and_query = p })
checked (some s) (some a) p =
    ok (record { scheme = some s; authority = some a; path_and_query = p })

abbrev pub plain_uris : Uris chained
plain_uris = record {
  Scheme = Text;
  Authority = Text;
  PathAndQuery = Text;
  Uri = PlainUri;
  Builder = Result (List Text) (Option Text × Option Text × Text);
  root = bytes "/";
  path_and_query = λ u. some u.path_and_query;
  scheme = λ u. u.scheme;
  authority = λ u. u.authority;
  builder = λ p. ok (none, none, p);
  set_authority = λ b t. and_then b (λ h. and_then (parse_part t) (λ a. ok (h.0, some a, h.2)));
  set_scheme = λ b t. and_then b (λ h. and_then (parse_part t) (λ s. ok (some s, h.1, h.2)));
  build = λ b. and_then b (λ h. checked h.0 h.1 h.2);
  parse_authority = parse_part;
  parse_scheme = parse_part;
  held = λ b. b;
  from_parts = checked;
  held-builder = λ p. refl;
  held-set_authority = λ b t. refl;
  held-set_scheme = λ b t. refl;
  build_lem = λ b. refl;
  from_parts_full = λ s a p.
      (record { scheme = some s; authority = some a; path_and_query = p }, refl, refl, refl, refl);
  from_parts_relative =
      λ p. (record { scheme = none; authority = none; path_and_query = p }, refl, refl, refl, refl);
  from_parts_no_scheme = λ a p. (bytes "scheme missing" ∷ [], refl);
  from_parts_no_authority = λ s p. (bytes "authority missing" ∷ [], refl);
}
