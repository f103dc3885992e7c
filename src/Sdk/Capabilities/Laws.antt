-- ===== src/Sdk/Capabilities/Laws.antt =====
-- What a guest's state store and publisher promise (crates/qwasr-sdk/src/capabilities.rs).
use yetti.Base.{
  ℕ, ◌+◌, ◌*◌, ◌/◌, ◌≤◌, ◌≡◌, refl, sym, ◌∙◌, none, some, Text, Bytes, text_eq, ◌==◌, leb,
  if◌then◌else◌,
}
use yetti.Base.Exec.{ok}
use yetti.Foreign.Envelope.{second}
use yetti.KeyValue.Backend.{IsLawful}
use yetti.KeyValue.Cache
use yetti.KeyValue.Cache.{Env}
use yetti.KeyValue.Cache.Laws.{live, get_lem, get-set_ttl}
use yetti.Sdk.Capabilities.{cache_name, get, set}

module _ (env : Env) (L : IsLawful env.store) where
  open env use {store, json, chrono}

  abbrev pub cached : store.Bucket
  cached = L.named (cache_name env)

  -- The store after an opening of the cache, which shows the same entries.
  abbrev opened : store.State → store.State
  opened s = (store.open_bucket (cache_name env) s).1

  open_cache_lem :
      (s : store.State) → Cache.open_cache env (cache_name env) s ≡ (ok cached, opened s)
  unfolding Cache.open_cache
  open_cache_lem s = rw (L.open_ok (cache_name env) s)

  state_get_lem :
      (k : Text) (now : ℕ) (s : store.State)
      → (get env k now s).0 ≡ ok (live env L now (L.view s cached k))
  unfolding get
  state_get_lem k now s = rw (open_cache_lem s, get_lem env L cached k now (opened s), L.view-open)

  module _ (k : Text) (value sealed : Bytes) (ttl created checked : ℕ) (s : store.State)
      (in_range : created + ttl * second ≤ chrono.max_time)
      (encoded : json.to_vec value ((created + ttl * second) / second) ≡ ok sealed) where
    stored :
        (set env k value (some ttl) created checked s).1
        ≡ (Cache.set env cached k value (some ttl) created checked (opened s)).1
    unfolding set
    stored = rw (open_cache_lem s)

    -- A value that was set with a time to live is returned by each later call until the end of its
    -- life rounded down to a whole second, and none after that; every other key reads as before.
    -- `set` returns the value that was live before.
    pub get-set_cached :
        (j : Text) (now : ℕ)
        → checked ≤ now
        → ((set env k value (some ttl) created checked s).0
            ≡ ok (live env L checked (L.view s cached k)))
          × ((get env j now (set env k value (some ttl) created checked s).1).0
              ≡ ok (
                  if k == j
                  then (if leb ((created + ttl * second) / second * second) now
                      then none
                      else some value)
                  else live env L now (L.view s cached j)))
    unfolding set
    get-set_cached j now h =
        let (before, after) =
          get-set_ttl env L cached k value sealed ttl created checked (opened s) in_range encoded
            cached j now h in
        let s' = (Cache.set env cached k value (some ttl) created checked (opened s)).1 in
        (
          rw (open_cache_lem s, before, L.view-open),
          rw stored (
              state_get_lem j now s'
              ∙ sym (get_lem env L cached j now s')
              ∙ after
              ∙ rw (L.alias_refl cached, L.view-open) refl),
        )
