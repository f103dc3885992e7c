-- ===== src/Tests/Http.antt =====
-- The theorems on requests through the cache, at one request that is cached for a minute.
use yetti.Base.{
  ℕ, suc, ◌+◌, ◌*◌, ◌/◌, ◌≤◌, ◌≡◌, refl, Bool, true, false, ◌||◌, Option, none, some, List, [], ◌∷◌,
  ◌++◌, Text, Bytes, text_eq, nat_eq, ◌==◌, leb, if◌then◌else◌, arith,
}
use yetti.Base.Lists.{bytes, is_empty}
use yetti.Base.HashMap
use yetti.Base.HashMap.{HashMap}
use yetti.Base.Exec.{ok}
use yetti.Foreign.Anyhow.{chained}
use yetti.Foreign.Http.{Http, Response, Request, plain}
use yetti.Foreign.Envelope.{second, calendar, marked}
use yetti.KeyValue.Backend.{IsLawful}
use yetti.KeyValue.Memory.{memory}
use yetti.KeyValue.Memory.Laws.{lawful}
use yetti.KeyValue.Cache.{Env}
use yetti.Http.Control.{Control, cache_control, if_none_match, try_from}
use yetti.Http.Control.Laws.{IsParsed, try_from-IsParsed}
use yetti.Http.Cache.{
  Cache, maybe_from, serialize, deserialize, to_serialized, get, put, cache_bucket,
}
use yetti.Http
use yetti.Http.Cache.Laws.{expiry, deserialize-serialize, get-put}
use yetti.Http.Outgoing.{Incoming, Proxy, World, handle, etag_header}
use yetti.Http.Outgoing.Laws.{tagged, handle-again}
use yetti.Tests.Rkyv.{packed, write}

abbrev env : Env
env = record {
  ah = chained;
  chrono = calendar;
  json = marked;
  StoreError = List Text;
  from_error = λ e. e;
  store = memory (List Text);
}

abbrev L : IsLawful (memory (List Text))
L = lawful (List Text)

abbrev headers : HashMap Text Text
headers = (cache_control, bytes "max-age=60") ∷ (if_none_match, bytes "t") ∷ []

abbrev control : Control
control = record { no_cache = false; no_store = false; max_age = 60; etag = bytes "t" }

present : plain.get headers cache_control ≡ some (bytes "max-age=60")
unfolding HashMap.get text_eq
present = refl

parsed : try_from chained plain headers ≡ ok control
unfolding try_from HashMap.get text_eq yetti.Http.Control.directives yetti.Base.Str.split nat_eq
    yetti.Http.Control.directive yetti.Base.Str.to_ascii_lowercase yetti.Base.Str.trim
    yetti.Base.Str.strip_prefix yetti.Base.Str.parse_u64 yetti.Http.Control.require_etag
    yetti.Base.Str.starts_with
parsed = refl

try_from-IsParsed_example : IsParsed chained plain (plain.get headers if_none_match) control
try_from-IsParsed_example =
    try_from-IsParsed chained plain headers (bytes "max-age=60") control present parsed

abbrev request : Request plain
request = record { headers = headers; cache_options = none; body = [] }

abbrev cache : Cache
cache = record { control = control; bucket = cache_bucket }

asked : maybe_from env plain packed request ≡ ok (some cache)
unfolding maybe_from HashMap.get text_eq try_from yetti.Http.Control.directives yetti.Base.Str.split
    nat_eq yetti.Http.Control.directive yetti.Base.Str.to_ascii_lowercase yetti.Base.Str.trim
    yetti.Base.Str.strip_prefix yetti.Base.Str.parse_u64 yetti.Http.Control.require_etag
    yetti.Base.Str.starts_with
asked = refl

-- A proxy that counts the requests, and answers each with a body in two parts.
abbrev incoming : Incoming plain
incoming = record {
  status = 200;
  headers = (bytes "a", bytes "b") ∷ [];
  unstarted = some ((true, 1 ∷ 2 ∷ []) ∷ (false, 3 ∷ []) ∷ (true, 4 ∷ []) ∷ []);
}

abbrev proxy : Proxy env plain
proxy = record { Network = ℕ; send = λ request n. (ok incoming, suc n) }

abbrev w : World env plain packed proxy
w = record { kv = []; net = 0 }

-- The response with its whole body and the tag of the request.
abbrev response : Response plain
response = tagged env plain packed proxy incoming (bytes "t")

-- Its encoding, and that of the envelope around it, which lives from 1 s to 61 s.
abbrev x : Bytes
x = write (to_serialized env plain packed response)

abbrev sealed : Bytes
sealed = 123 ∷ 61 ∷ x

missed : (get env plain packed cache second []).0 ≡ ok none
unfolding get yetti.KeyValue.Cache.open_cache yetti.KeyValue.Memory.open_bucket
    yetti.KeyValue.Cache.get yetti.KeyValue.Memory.get HashMap.get HashMap.insert text_eq
missed = refl

encoded : marked.to_vec x ((second + 60 * second) / second) ≡ ok sealed
unfolding marked
encoded = refl

in_range : second + 60 * second ≤ calendar.max_time
unfolding calendar
in_range = omega arith

serialized : serialize env plain packed response ≡ ok x
unfolding serialize packed
serialized = refl

alive : leb (expiry cache second) (2 * second) ≡ false
alive = refl

visible :
    Http.Cache.Laws.IsVisible env plain packed
      (plain.iter (plain.insert incoming.headers etag_header (bytes "t")))
unfolding yetti.Foreign.Http.put_first yetti.Base.HashMap.remove text_eq
visible = ((_, refl), ((_, refl), tt))

storable : (control.no_store || (is_empty control.etag || control.max_age == 0)) ≡ false
unfolding nat_eq
storable = refl

handle-again_example :
    let after = (handle env plain packed proxy request second second second w).1 in
    let repeated = handle env plain packed proxy request (2 * second) 0 0 after in
    ((handle env plain packed proxy request second second second w).0 ≡ ok response)
    × (repeated.0 ≡ ok response)
    × (repeated.1.net ≡ after.net)
handle-again_example =
    handle-again env plain packed proxy L request request cache cache second second second
      (2 * second) 0 0 w incoming 1 (bytes "t") x sealed asked missed refl refl storable visible
      serialized in_range encoded asked (refl, refl, refl) refl refl (omega arith) alive

no_control : plain.get [] cache_control ≡ none
unfolding HashMap.get
no_control = refl

-- A store that holds the response already.
abbrev warm : World env plain packed proxy
warm = record { kv = (put env plain packed cache response second second []).1; net = 5 }

held : (get env plain packed cache (2 * second) warm.kv).0 ≡ ok (some response)
held =
    let (_, read) =
      get-put env plain packed L cache response x sealed second second storable visible serialized
        in_range encoded [] cache (2 * second) (refl, refl, refl) refl refl (omega arith) in
    read

abbrev fresh_headers : HashMap Text Text
fresh_headers = (cache_control, bytes "no-cache") ∷ []

abbrev fresh_request : Request plain
fresh_request = record { headers = fresh_headers; cache_options = none; body = [] }

abbrev fresh_cache : Cache
fresh_cache = record {
  control = record { no_cache = true; no_store = false; max_age = 0; etag = [] };
  bucket = cache_bucket;
}
