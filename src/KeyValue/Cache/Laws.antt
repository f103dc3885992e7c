-- ===== src/KeyValue/Cache/Laws.antt =====
-- What a guest's cache promises over a lawful store (crates/wasi-keyvalue/src/guest/cache.rs).
use yetti.Base.{
  ℕ, ◌+◌, ◌*◌, ◌/◌, ◌≤◌, ◌≡◌, refl, ap, ◌∙◌, Bool, true, false, ◌&&◌, Option, none, some, Text,
  Bytes, text_eq, ◌==◌, leb, if◌then◌else◌, arith,
}
use yetti.Base.Exec.{ok}
use yetti.Foreign.Envelope.{second}
use yetti.KeyValue.Backend.{IsLawful}
use yetti.KeyValue.Cache.{
  Cacheable, is_expired, Env, try_from_bytes, try_into_bytes, expire, unseal, get, new_cacheable,
  seal, set,
}

module _ (env : Env) (L : IsLawful env.store) where
  open env use {store, json, chrono}

  -- What a read at `now` finds in a stored entry: a plain value, or the value of an envelope until
  -- it expires.
  abbrev live_value : ℕ → Bytes → Option Cacheable → Option Bytes
  live_value now entry none = some entry
  live_value now entry (some c) = if leb c.expires_at now then none else some c.value

  abbrev pub live : ℕ → Option Bytes → Option Bytes
  live now none = none
  live now (some entry) = live_value now entry (try_from_bytes env entry)

  live-if :
      (now : ℕ) (t : Bool) (o p : Option Bytes)
      → live now (if t then o else p) ≡ (if t then live now o else live now p)
  live-if now true o p = refl
  live-if now false o p = refl

  unseal_lem :
      (b : store.Bucket) (k : Text) (now : ℕ) (o : Option Bytes) (s : store.State)
      → (unseal env b k now o s).0 ≡ ok (live now o)
  unfolding unseal expire is_expired
  unseal_lem b k now none s = refl
  unseal_lem b k now (some entry) s = ground (arith, L.delete_ok b k s)

  -- A read returns the value that is live at its time, and never fails.
  pub get_lem :
      (b : store.Bucket) (k : Text) (now : ℕ) (s : store.State)
      → (get env b k now s).0 ≡ ok (live now (L.view s b k))
  unfolding get
  get_lem b k now s = rw L.get_lem (unseal_lem b k now (L.view s b k) s)

  live-unseal :
      (b c : store.Bucket) (k j : Text) (now later : ℕ) (o : Option Bytes) (s : store.State)
      → L.view s b k ≡ o
      → now ≤ later
      → live later (L.view (unseal env b k now o s).1 c j) ≡ live later (L.view s c j)
  unfolding unseal expire is_expired
  live-unseal b c k j now later none s e h = refl
  live-unseal b c k j now later (some entry) s e h =
      ground (arith, L.delete_ok b k s, L.view-delete b c k j s, L.view-alias b c k s)

  -- A read changes at most the entry that it found expired, in a way that no read at that time or
  -- later can tell.
  pub live-get :
      (b c : store.Bucket) (k j : Text) (now later : ℕ) (s : store.State)
      → now ≤ later
      → live later (L.view (get env b k now s).1 c j) ≡ live later (L.view s c j)
  unfolding get
  live-get b c k j now later s h =
      rw L.get_lem (live-unseal b c k j now later (L.view s b k) s refl h)

  -- The bytes that `set` stores.
  abbrev Seals : Bytes → ℕ → Option ℕ → Bytes → store.State → Type 0
  Seals value created ttl sealed s = seal env value created ttl s ≡ (ok sealed, s)

  module _ (b : store.Bucket) (k : Text) (value sealed : Bytes) (ttl : Option ℕ)
      (created checked : ℕ) (s : store.State) (sealing : Seals value created ttl sealed s) where
    set_lem :
        set env b k value ttl created checked s
        ≡ (ok (live checked (L.view s b k)), (store.set b k sealed (get env b k checked s).1).1)
    unfolding set
    set_lem = rw sealing (rw get_lem (rw L.set_ok))

    get-set :
        (c : store.Bucket) (j : Text) (now : ℕ)
        → checked ≤ now
        → (get env c j now (set env b k value ttl created checked s).1).0
          ≡ ok (if L.alias b c && k == j then live now (some sealed) else live now (L.view s c j))
    get-set c j now h =
        rw (set_lem, get_lem, L.view-set)
          (rw (live-if now (L.alias b c && k == j)) (rw (live-get b c k j checked now s h)))

  module _ (b : store.Bucket) (k : Text) (value sealed : Bytes) (ttl created checked : ℕ)
      (s : store.State) (in_range : created + ttl * second ≤ chrono.max_time)
      (encoded : json.to_vec value ((created + ttl * second) / second) ≡ ok sealed) where
    abbrev envelope : Cacheable
    envelope = record { value = value; expires_at = created + ttl * second }

    new_cacheable_lem : new_cacheable env value created ttl s ≡ (ok envelope, s)
    unfolding new_cacheable
    new_cacheable_lem = rw (chrono.add_seconds_lem created ttl in_range, new_cacheable)

    try_into_bytes_lem : try_into_bytes env envelope s ≡ (ok sealed, s)
    unfolding try_into_bytes
    try_into_bytes_lem = rw encoded

    seal_ttl : Seals value created (some ttl) sealed s
    unfolding seal
    seal_ttl = rw new_cacheable_lem try_into_bytes_lem

    try_from_bytes_lem :
        try_from_bytes env sealed
        ≡ some (record { value = value; expires_at = (created + ttl * second) / second * second })
    unfolding try_from_bytes
    try_from_bytes_lem = rw (json.from_slice-to_vec value _ sealed encoded, try_from_bytes)

    -- A value set with a time to live is returned by each later read until the end of its life
    -- rounded down to a whole second, and by none after that; every other key, and every bucket
    -- that does not share its contents, reads as before. `set` returns the value that was live
    -- before.
    pub get-set_ttl :
        (c : store.Bucket) (j : Text) (now : ℕ)
        → checked ≤ now
        → ((set env b k value (some ttl) created checked s).0 ≡ ok (live checked (L.view s b k)))
          × ((get env c j now (set env b k value (some ttl) created checked s).1).0
              ≡ ok (
                  if L.alias b c && k == j
                  then (if leb ((created + ttl * second) / second * second) now
                      then none
                      else some value)
                  else live now (L.view s c j)))
    get-set_ttl c j now h = (
      ap (λ r. r.0) (set_lem b k value sealed (some ttl) created checked s seal_ttl),
      get-set b k value sealed (some ttl) created checked s seal_ttl c j now h
          ∙ rw (try_from_bytes_lem, live),
    )

  -- A value set with no time to live that happens to decode as an envelope is not returned: a read
  -- finds the value inside the envelope until the time in it, and nothing after that.
  get-set_misread :
      (b : store.Bucket) (k : Text) (value inner : Bytes) (secs created checked now : ℕ)
      (s : store.State)
      → json.from_slice value ≡ ok (inner, secs)
      → checked ≤ now
      → (get env b k now (set env b k value none created checked s).1).0
        ≡ ok (if leb (secs * second) now then none else some inner)
  unfolding try_from_bytes seal
  get-set_misread b k value inner secs created checked now s decodes h =
      get-set b k value value none created checked s refl b k now h
      ∙ rw L.alias_refl (ground (arith, decodes))
