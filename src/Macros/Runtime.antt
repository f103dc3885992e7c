-- ===== src/Macros/Runtime.antt =====
-- The runtime macro: crates/runtime-macro/src/runtime.rs and src/expand.rs. The crates `syn` and
-- `quote` parse the settings and print tokens; the model starts at the settings and ends at the
-- items that the generated code repeats for hosts and backends.
pub mod Laws
use yetti.Base.{
  Bool, true, false, Option, none, some, List, [], ◌∷◌, ◌++◌, map, Text, text_eq, ◌==◌,
  if◌then◌else◌,
}
use yetti.Base.Lists.{bytes, contains}
use yetti.Macros.Idents.{SynPath, field_ident, wasi_ident}

pub record Host : Type 0 where
  pub type_ : SynPath
  pub backend : SynPath

pub record Config : Type 0 where
  pub gen_main : Bool
  pub hosts : List Host
  pub backends : List SynPath

-- `Opt`, a setting
pub data Setting : Type 0 where
  main : Bool → Setting
  hosts : List Host → Setting

-- `Path::get_ident`: the identifier of a path of one segment
unfoldable pub get_ident : SynPath → Option Text
get_ident path = elim path.segments [
  | [] ↦ none
  | t ∷ rest ↦ elim rest [ [] ↦ if path.leading_colon then none else some t | _ ∷ _ ↦ none ]
]

abbrev pub eq_ident : Option Text → Option Text → Bool
eq_ident none none = true
eq_ident none (some b) = false
eq_ident (some a) none = false
eq_ident (some a) (some b) = a == b

-- `backends.iter().any(|b| b.get_ident() == …)`
unfoldable pub any_ident : List SynPath → Option Text → Bool
unfolding get_ident
any_ident [] ident = false
any_ident (b ∷ backends) ident =
    if eq_ident (get_ident b) ident then true else any_ident backends ident

-- the loop that deduplicates the backends, with those so far
unfoldable pub dedup : List SynPath → List Host → List SynPath
unfolding any_ident get_ident
dedup backends [] = backends
dedup backends (host ∷ rest) =
    dedup
      (if any_ident backends (get_ident host.backend)
        then backends
        else backends ++ host.backend ∷ [])
      rest

abbrev pub set_main : Bool → Setting → Bool
set_main m (main b) = b
set_main m (hosts h) = m

abbrev pub set_hosts : List Host → Setting → List Host
set_hosts hs (main b) = hs
set_hosts hs (hosts h) = h

-- the loop over the settings, of which the last of a kind counts
unfoldable pub settings_of : Bool → List Host → List Setting → Bool × List Host
settings_of m hs [] = (m, hs)
settings_of m hs (setting ∷ settings) =
    settings_of (set_main m setting) (set_hosts hs setting) settings

-- `Config::parse`, from the settings on
unfoldable pub parse : List Setting → Config
unfolding settings_of dedup
parse settings =
    let (m, hs) = settings_of false [] settings in
    record { gen_main = m; hosts = hs; backends = dedup [] hs }

joined : Text → List Text → Text
joined out [] = out
joined out (t ∷ []) = out ++ t
joined out (t ∷ u ∷ ts) = joined (out ++ (t ++ bytes " :: ")) (u ∷ ts)

-- `quote! {#backend}.to_string()`
unfoldable pub path_string : SynPath → Text
unfolding joined
path_string path = joined (if path.leading_colon then bytes ":: " else []) path.segments

-- The loop that fills the fields of `Context`, each a name and a type, with the backends seen.
unfoldable pub context_fields_from : List Text → List SynPath → List (Text × SynPath)
unfolding path_string field_ident
context_fields_from seen [] = []
context_fields_from seen (backend ∷ backends) =
    let skipped = context_fields_from seen backends in
    let added =
      (field_ident backend, backend) ∷ context_fields_from (path_string backend ∷ seen) backends in
    if contains seen (path_string backend) then skipped else added

pub record Expanded : Type 0 where
  -- the fields of `Context`: a name and the backend's type
  pub context_fields : List (Text × SynPath)
  -- the fields of `StoreCtx`: a name and the backend's type
  pub store_ctx_fields : List (Text × SynPath)
  -- the values of these: a name, and the field of `Context` that is cloned
  pub store_ctx_values : List (Text × Text)
  pub host_trait_impls : List SynPath
  pub server_trait_impls : List SynPath
  -- a module and a field for each macro `qwasr_wasi_view!`
  pub wasi_view_impls : List (Text × Text)
  pub main_fn : Bool

-- `Expanded::try_from`
unfoldable pub expand : Config → Expanded
unfolding context_fields_from wasi_ident field_ident
expand config = record {
  context_fields = context_fields_from [] config.backends;
  store_ctx_fields = map (λ h. (wasi_ident h.type_, h.backend)) config.hosts;
  store_ctx_values = map (λ h. (wasi_ident h.type_, field_ident h.backend)) config.hosts;
  host_trait_impls = map (λ h. h.type_) config.hosts;
  server_trait_impls = map (λ h. h.type_) config.hosts;
  wasi_view_impls = map (λ h. (wasi_ident h.type_, wasi_ident h.type_)) config.hosts;
  main_fn = config.gen_main;
}
