-- ===== src/Http/Server/Forwarded.antt =====
-- The loop over the header `Forwarded` (crates/wasi-http/src/host/server.rs).
use yetti.Base.{◌≡◌, refl, ◌∙◌, Option, none, some, List, [], ◌∷◌, arith, Text, nat_eq}
use yetti.Base.Lists.{bytes, All}
use yetti.Base.Exec.{Result, ok}
use yetti.Base.Str.{trim, strip_prefix}
use yetti.Foreign.Anyhow.{Anyhow}
use yetti.Foreign.Http.{Http}
use yetti.Foreign.Uri.{Uris}
use yetti.Http.Server.{each_tuple, if_proto, if_host}

abbrev pub host_of : Text → Option Text
host_of tuple = strip_prefix (bytes "host=") (trim tuple)

abbrev pub proto_of : Text → Option Text
proto_of tuple = strip_prefix (bytes "proto=") (trim tuple)

-- What the last element has that has any.
abbrev pub last_some : (Text → Option Text) → List Text → Option Text
last_some f [] = none
last_some f (t ∷ ts) = elim (last_some f ts) [ none ↦ f t | some x ↦ some x ]

module _ {E A : Type 0} (parse : Text → Result E A) where
  abbrev pub Parses : Option Text → Type 0
  Parses none = Unit
  Parses (some t) = (x : A) × (parse t ≡ ok x)

  -- A part that a text describes, the former one if there is none.
  abbrev pub Agrees : Option Text → Option A → Option A → Type 0
  Agrees none former a = a ≡ former
  Agrees (some t) former a = (x : A) × (parse t ≡ ok x) × (a ≡ some x)

  Agrees-trans :
      (former next : Option Text) (a a1 a2 : Option A)
      → Agrees former a a1
      → Agrees next a1 a2
      → Agrees (elim next [ none ↦ former | some t ↦ some t ]) a a2
  Agrees-trans none none a a1 a2 h k = k ∙ h
  Agrees-trans (some t) none a a1 a2 (x, e, h) k = (x, e, k ∙ h)
  Agrees-trans former (some t) a a1 a2 h k = k

-- No text starts with both.
strip_host_proto :
    (t x : Text) → strip_prefix (bytes "host=") t ≡ some x → strip_prefix (bytes "proto=") t ≡ none
unfolding strip_prefix
strip_host_proto [] x h = refl
strip_host_proto (c ∷ t) x h = ground (arith, h)

module _ (ah : Anyhow) (http : Http ah) (uris : Uris ah) where
  abbrev pub Readable : Text → Type 0
  Readable tuple =
      Parses uris.parse_authority (host_of tuple) × Parses uris.parse_scheme (proto_of tuple)

  proto_held :
      (proto : Option Text) (b : uris.Builder) (s : Option uris.Scheme) (a : Option uris.Authority)
      (p : uris.PathAndQuery)
      → uris.held b ≡ ok (s, a, p)
      → Parses uris.parse_scheme proto
      → (s' : Option uris.Scheme) × (uris.held (if_proto ah http uris b proto) ≡ ok (s', a, p))
        × Agrees uris.parse_scheme proto s s'
  proto_held none b s a p h parsed = (s, h, refl)
  proto_held (some t) b s a p h (x, parsed) =
      (some x, rw (uris.held-set_scheme b t, h, parsed), (x, parsed, refl))

  host_held :
      (host : Option Text) (tuple : Text) (b : uris.Builder) (s : Option uris.Scheme)
      (a : Option uris.Authority) (p : uris.PathAndQuery)
      → strip_prefix (bytes "host=") tuple ≡ host
      → uris.held b ≡ ok (s, a, p)
      → Parses uris.parse_authority host
      → Parses uris.parse_scheme (strip_prefix (bytes "proto=") tuple)
      → (s' : Option uris.Scheme) × (a' : Option uris.Authority) × (uris.held
            (if_host ah http uris b tuple host)
          ≡ ok (s', a', p))
        × Agrees uris.parse_scheme (strip_prefix (bytes "proto=") tuple) s s'
        × Agrees uris.parse_authority host a a'
  host_held none tuple b s a p e h parsed parsed1 =
      let (s', h', agrees) = proto_held _ b s a p h parsed1 in (s', a, h', agrees, refl)
  host_held (some t) tuple b s a p e h (x, parsed) parsed1 = (
    s,
    some x,
    rw (uris.held-set_authority b t, h, parsed),
    rw (strip_host_proto tuple t e) refl,
    (x, parsed, refl),
  )

  -- The builder after the loop holds what the last tuples with a host and with a scheme have.
  pub each_tuple_held :
      (tuples : List Text) (b : uris.Builder) (s : Option uris.Scheme) (a : Option uris.Authority)
      (p : uris.PathAndQuery)
      → uris.held b ≡ ok (s, a, p)
      → All Readable tuples
      → (s' : Option uris.Scheme) × (a' : Option uris.Authority) × (uris.held
            (each_tuple ah http uris tuples b)
          ≡ ok (s', a', p))
        × Agrees uris.parse_scheme (last_some proto_of tuples) s s'
        × Agrees uris.parse_authority (last_some host_of tuples) a a'
  unfolding each_tuple
  each_tuple_held [] b s a p h all = (s, a, h, refl, refl)
  each_tuple_held (t ∷ ts) b s a p h (readable, all) =
      let (s1, a1, h1, scheme, authority) =
        host_held _ (trim t) b s a p refl h readable.0 readable.1 in
      let (s2, a2, h2, scheme1, authority1) = each_tuple_held ts _ s1 a1 p h1 all in
      (
        s2,
        a2,
        h2,
        Agrees-trans uris.parse_scheme (proto_of t) (last_some proto_of ts) s s1 s2 scheme scheme1,
        Agrees-trans uris.parse_authority (host_of t) (last_some host_of ts) a a1 a2 authority
            authority1,
      )
