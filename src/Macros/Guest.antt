-- ===== src/Macros/Guest.antt =====
-- The guest macro: crates/guest-macro/src/guest.rs and src/http.rs. The crates `syn` and `quote` parse
-- the tokens and print them: the model starts at the parsed settings and ends at the routes and the
-- handlers of the generated code.
pub mod Laws
use yetti.Base.{
  Bool, true, false, ◌&&◌, Option, none, some, List, [], ◌∷◌, map, Text, text_eq, nat_eq, ◌==◌,
  if◌then◌else◌,
}
use yetti.Base.Lists.{bytes, length, take}
use yetti.Base.HashMap.{is_some}
use yetti.Base.Exec.{Result, ok, err}
use yetti.Base.Str.{split, strip_prefix}
use yetti.Foreign.Uri.{and_then}
use yetti.Macros.Idents.{SynPath, handler_name}

-- `Handler`: the method and the types of a route.
pub record Handler : Type 0 where
  pub method : Text
  pub request : SynPath
  pub reply : SynPath
  pub with_body : Bool
  pub with_query : Bool

-- The word behind the type of the request, if there is one.
pub data Source : Type 0 where
  with_nothing with_body with_query : Source

abbrev pub is_body : Source → Bool
is_body with_body = true
is_body _ = false

abbrev pub is_query : Source → Bool
is_query with_query = true
is_query _ = false

abbrev pub get : Text
get = bytes "get"

abbrev pub post : Text
post = bytes "post"

-- `Handler::parse`, from its tokens on
unfoldable pub parse_handler : Text → SynPath → Source → SynPath → Result Text Handler
parse_handler method request source reply =
    if method == get && is_body source
    then err (bytes "GET requests should not have a body; consider using query parameters")
    else if method == post && is_query source
    then err (bytes "POST requests should not have query parameters; consider using body")
    else ok (record {
      method = method;
      request = request;
      reply = reply;
      with_body = is_body source;
      with_query = is_query source;
    })

pub record Route : Type 0 where
  pub path : Text
  pub params : List Text
  pub handler : Handler
  pub function : Text

-- the text without its last byte, if that is a closing brace
unfoldable pub before_brace : Text → Option Text
before_brace [] = none
before_brace (c ∷ []) = if c == b'}' then some [] else none
before_brace (c ∷ d ∷ s) = elim (before_brace (d ∷ s)) [ none ↦ none | some t ↦ some (c ∷ t) ]

-- A segment in braces, without them. The brace that closes is not the one that opens it, since
-- they differ.
unfoldable pub param_of : Text → Option Text
unfolding before_brace strip_prefix
param_of s = elim (strip_prefix (bytes "{") s) [ none ↦ none | some t ↦ before_brace t ]

unfoldable pub params_of : List Text → List Text
unfolding param_of
params_of [] = []
params_of (s ∷ segments) = elim (param_of s) [
  | none ↦ params_of segments
  | some p ↦ p ∷ params_of segments
]

unfoldable pub extract_params : Text → List Text
unfolding params_of split
extract_params path = params_of (split b'/' path)

-- the loop over the fields of a route, each of which is a handler
unfoldable pub only_handler : Option Handler → List Handler → Result Text (Option Handler)
only_handler handler [] = ok handler
only_handler handler (h ∷ fields) =
    let rest = only_handler (some h) fields in
    if is_some handler then err (bytes "cannot specify second handler") else rest

abbrev missing_handler : Text
missing_handler =
    bytes "route is missing handler (e.g., `get(Request, Response)` or `post(Request, Response)`)"

route_of : Text → Option Handler → Result Text Route
unfolding extract_params handler_name
route_of path none = err missing_handler
route_of path (some handler) = ok (record {
  path = path;
  params = extract_params path;
  handler = handler;
  function = handler_name path;
})

-- `Route::parse`, from its fields on
unfoldable pub parse_route : Text → List Handler → Result Text Route
unfolding only_handler route_of
parse_route path fields = and_then (only_handler none fields) (route_of path)

-- What a handler's arguments bind, and what it passes on as its input.
pub data Args : Type 0 where
  no_args raw_query body_bytes : Args
  path_params : List Text → Args

pub data Input : Type 0 where
  unit query body : Input
  params : List Text → Input

unfoldable pub expand_get_args : List Text → Bool → Args
expand_get_args [] q = if q then raw_query else no_args
expand_get_args (p ∷ ps) q = path_params (p ∷ ps)

unfoldable pub expand_post_args : Bool → Args
expand_post_args b = if b then body_bytes else no_args

unfoldable pub expand_get_input : List Text → Bool → Input
expand_get_input [] q = if q then query else unit
expand_get_input (p ∷ ps) q = params (p ∷ ps)

unfoldable pub expand_post_input : Bool → Input
expand_post_input b = if b then body else unit

-- A generated handler: its name, arguments, reply, request, input, provider and owner.
pub record Function : Type 0 where
  pub name : Text
  pub args : Args
  pub reply : SynPath
  pub request : SynPath
  pub input : Input
  pub provider : Text
  pub owner : Text

unfoldable pub expand_handler : Text → Text → Route → Function
unfolding expand_get_args expand_post_args expand_get_input expand_post_input
expand_handler o p route = record {
  name = route.function;
  args =
      if route.handler.method == get
      then expand_get_args route.params route.handler.with_query
      else expand_post_args route.handler.with_body;
  reply = route.handler.reply;
  request = route.handler.request;
  input =
      if route.handler.method == get
      then expand_get_input route.params route.handler.with_query
      else expand_post_input route.handler.with_body;
  provider = p;
  owner = o;
}

-- `.route(path, axum::routing::method(function))`
abbrev pub expand_route : Route → Text × Text × Text
expand_route route = (route.path, route.handler.method, route.function)

pub record Topic : Type 0 where
  pub pattern_ : Text
  pub message : SynPath
  pub handler : Text

-- `Topic::parse`, from its tokens on
unfoldable pub parse_topic : Text → SynPath → Topic
unfolding handler_name
parse_topic topic_pattern message = record {
  pattern_ = topic_pattern;
  message = message;
  handler = handler_name topic_pattern;
}

pub data Setting : Type 0 where
  owner provider : Text → Setting
  http : List Route → Setting
  messaging : List Topic → Setting

-- the settings so far
pub record Settings : Type 0 where
  pub owner : Option Text
  pub provider : Option Text
  pub http : Option (List Route)
  pub messaging : Option (List Topic)

abbrev pub add_setting : Settings → Setting → Result Text Settings
add_setting s (owner o) =
    if is_some s.owner
    then err (bytes "cannot specify second owner")
    else ok (record s { owner = some o })
add_setting s (provider p) =
    if is_some s.provider
    then err (bytes "cannot specify second provider")
    else ok (record s { provider = some p })
add_setting s (http h) = ok (record s { http = some h })
add_setting s (messaging m) = ok (record s { messaging = some m })

unfoldable pub add_settings : Settings → List Setting → Result Text Settings
add_settings s [] = ok s
add_settings s (setting ∷ settings) =
    and_then (add_setting s setting) (λ s'. add_settings s' settings)

pub record Config : Type 0 where
  pub owner : Text
  pub provider : Text
  pub http : Option (List Route)
  pub messaging : Option (List Topic)

abbrev config_of : Settings → Option Text → Option Text → Result Text Config
config_of s none p = err (bytes "missing `owner`")
config_of s (some o) none = err (bytes "missing `provider`")
config_of s (some o) (some p) =
    ok (record { owner = o; provider = p; http = s.http; messaging = s.messaging })

abbrev pub no_settings : Settings
no_settings = record { owner = none; provider = none; http = none; messaging = none }

-- `Config::parse`, from the settings on
unfoldable pub parse : List Setting → Result Text Config
unfolding add_settings
parse settings = and_then (add_settings no_settings settings) (λ s. config_of s s.owner s.provider)
