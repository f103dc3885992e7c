-- ===== src/Tests/Macros.antt =====
-- The macros on the settings of the examples, and the theorems on them.
use yetti.Base.{
  ℕ, ◌≡◌, ◌↔◌, refl, ap, arith, ◌≢◌, inl, inr, true, false, some, List, [], ◌∷◌, Text, text_eq,
  nat_eq,
}
use yetti.Base.Lists.{bytes}
use yetti.Base.Exec.{ok}
use yetti.Base.Str.{contains_str}
use yetti.Macros.Idents.{SynPath, field_ident, wasi_ident, handler_name}
use yetti.Macros.Runtime
use yetti.Macros.Runtime.{Host, expand}
use yetti.Macros.Runtime.Laws.{ident_path, Has, expand-parse, expand-parse_collapsed}
use yetti.Macros.Guest
use yetti.Macros.Guest.{
  Handler, Route, Topic, Config, Setting, owner, provider, http, messaging, expand_handler,
  extract_params,
}
use yetti.Macros.Guest.Laws.{owners, providers, parse_iff}
use yetti.Macros.Topics.{Message, Processors, handle}
use yetti.Macros.Topics.Laws.{handle-shadowed}

field_test :
    field_ident (record { leading_colon = false; segments = bytes "a" ∷ bytes "HttpDefault" ∷ [] })
    ≡ bytes "http_default"
unfolding field_ident
field_test = refl

wasi_test :
    wasi_ident (record { leading_colon = false; segments = bytes "WasiKeyValue" ∷ [] })
    ≡ bytes "qwasr_wasi_keyvalue"
unfolding wasi_ident nat_eq
wasi_test = refl

name_test :
    handler_name (bytes "/set-trip/{vehicle_id}/data.json") ≡ bytes "set_trip_vehicle_id_data_json"
unfolding handler_name nat_eq
name_test = refl

abbrev host_of : Text → Text → Host
host_of t b = record { type_ = ident_path t; backend = ident_path b }

abbrev http_host : Host
http_host = host_of (bytes "WasiHttp") (bytes "HttpDefault")

abbrev otel_host : Host
otel_host = host_of (bytes "WasiOtel") (bytes "OtelDefault")

abbrev runtime : List Runtime.Setting
runtime = Runtime.main true ∷ Runtime.hosts (http_host ∷ otel_host ∷ []) ∷ []

expand-parse_example :
    Has
      (expand (Runtime.parse runtime)).context_fields
      (field_ident (ident_path (bytes "OtelDefault")), ident_path (bytes "OtelDefault"))
    × Has
        (expand (Runtime.parse runtime)).store_ctx_fields
        (wasi_ident (ident_path (bytes "WasiOtel")), ident_path (bytes "OtelDefault"))
    × Has
        (expand (Runtime.parse runtime)).store_ctx_values
        (wasi_ident (ident_path (bytes "WasiOtel")), field_ident (ident_path (bytes "OtelDefault")))
unfolding Runtime.parse
expand-parse_example =
    expand-parse runtime otel_host ((bytes "HttpDefault", refl), ((bytes "OtelDefault", refl), tt))
      (inr (inl refl))

abbrev nested : Text → Text → SynPath
nested m t = record { leading_colon = false; segments = m ∷ t ∷ [] }

abbrev redis_host : Host
redis_host = record {
  type_ = ident_path (bytes "WasiKeyValue");
  backend = nested (bytes "be") (bytes "Redis");
}

abbrev kafka_host : Host
kafka_host = record {
  type_ = ident_path (bytes "WasiMessaging");
  backend = nested (bytes "be") (bytes "Kafka");
}

abbrev first_byte : Text → ℕ
first_byte [] = 0
first_byte (b ∷ bs) = b

letters_differ : ¬ (◌≡◌ {A = ℕ} 114 107)
letters_differ h = omega arith

names_differ :
    field_ident (nested (bytes "be") (bytes "Redis"))
    ≢ field_ident (nested (bytes "be") (bytes "Kafka"))
unfolding field_ident
names_differ e = letters_differ (ap first_byte e)

expand-parse_collapsed_example :
    Has
      (expand (Runtime.parse (Runtime.hosts (redis_host ∷ kafka_host ∷ []) ∷ []))).store_ctx_values
      (wasi_ident kafka_host.type_, field_ident kafka_host.backend)
    × ((p : SynPath)
        → ¬ Has
            (expand
              (Runtime.parse (Runtime.hosts (redis_host ∷ kafka_host ∷ []) ∷ []))).context_fields
            (field_ident kafka_host.backend, p))
unfolding Runtime.get_ident
expand-parse_collapsed_example = expand-parse_collapsed redis_host kafka_host refl refl names_differ

abbrev route : Route
route = record {
  path = bytes "/jobs/{id}";
  params = bytes "id" ∷ [];
  handler = record {
    method = bytes "get";
    request = ident_path (bytes "Q");
    reply = ident_path (bytes "R");
    with_body = false;
    with_query = false;
  };
  function = bytes "jobs_id";
}

abbrev guest : List Setting
guest = owner (bytes "at") ∷ provider (bytes "P") ∷ http (route ∷ []) ∷ []

parse_iff_example :
    ((c : Config) × (Guest.parse guest ≡ ok c) × (c.owner ≡ bytes "at") × (c.provider ≡ bytes "P"))
    ↔ ((owners guest ≡ bytes "at" ∷ []) × (providers guest ≡ bytes "P" ∷ []))
parse_iff_example = parse_iff guest (bytes "at") (bytes "P")

abbrev topic_of : Text → Topic
topic_of t = record { pattern_ = t; message = ident_path (bytes "M"); handler = bytes "h" }

-- Processors that log the patterns.
abbrev logging : Processors
logging = record { World = List Text; process = λ topic payload w. (ok tt, topic.pattern_ ∷ w) }

abbrev arrived : Message
arrived = record { topic = some (bytes "dev.r9k.v1"); payload = [] }

handle-shadowed_example :
    handle logging
      (topic_of (bytes "r9k") ∷ topic_of (bytes "x") ∷ topic_of (bytes "r9k.v1") ∷ [])
      arrived
      []
    ≡ handle logging (topic_of (bytes "r9k") ∷ topic_of (bytes "x") ∷ []) arrived []
unfolding contains_str nat_eq
handle-shadowed_example =
    handle-shadowed logging [] (topic_of (bytes "x") ∷ []) [] (topic_of (bytes "r9k"))
      (topic_of (bytes "r9k.v1")) arrived [] refl
