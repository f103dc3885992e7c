-- ===== src/Foreign/Http.antt =====
-- What the program uses of the crate `http`: header values, header maps and status codes. Header
-- names are their lower-case text.
use mathlib.Core.List.{foldl, append-nil, append_assoc}
use yetti.Base.{
  ℕ, ◌≡◌, refl, sym, ap, Bool, Option, none, some, List, [], ◌∷◌, ◌++◌, arith, Text, text_eq, ◌==◌,
  if◌then◌else◌,
}
use yetti.Base.Lists.{is_empty}
use yetti.Base.HashMap
use yetti.Base.HashMap.{HashMap}
use yetti.Base.Exec.{Result, ok, ok-injective}
use yetti.Foreign.Anyhow.{Anyhow, chained}

pub record Http (ah : Anyhow) : Type 1 where
  pub HeaderValue : Type 0
  -- an error unless every byte is visible ASCII or a tab
  pub to_str : HeaderValue → Result ah.Error Text
  pub from_str : Text → Result ah.Error HeaderValue
  pub to_str-from_str : (t : Text) (v : HeaderValue) → from_str t ≡ ok v → to_str v ≡ ok t
  pub from_str-to_str : (t : Text) (v : HeaderValue) → to_str v ≡ ok t → from_str t ≡ ok v
  pub HeaderMap : Type 0
  pub empty : HeaderMap
  -- the first value of a name
  pub get : HeaderMap → Text → Option HeaderValue
  -- replaces the values of a name
  pub insert : HeaderMap → Text → HeaderValue → HeaderMap
  -- adds a value behind those of a name
  pub append : HeaderMap → Text → HeaderValue → HeaderMap
  -- removes the values of a name
  pub remove : HeaderMap → Text → HeaderMap
  pub iter : HeaderMap → List (Text × HeaderValue)
  pub get-insert :
      (m : HeaderMap) (k j : Text) (v : HeaderValue)
      → get (insert m k v) j ≡ (if k == j then some v else get m j)
  pub get-remove :
      (m : HeaderMap) (k j : Text) → get (remove m k) j ≡ (if k == j then none else get m j)
  -- adding the pairs of a map in the order of `iter` to the empty map gives the map
  pub append-iter : (m : HeaderMap) → foldl (λ acc p. append acc p.0 p.1) empty (iter m) ≡ m
  -- the length of a header value is that of its text
  pub is_empty_value : HeaderValue → Bool
  pub is_empty_value_lem :
      (v : HeaderValue) (t : Text) → to_str v ≡ ok t → is_empty_value v ≡ is_empty t
  pub StatusCode : Type 0
  pub as_u16 : StatusCode → ℕ
  pub from_u16 : ℕ → Result ah.Error StatusCode
  pub from_u16-as_u16 : (c : StatusCode) → from_u16 (as_u16 c) ≡ ok c

pub record Response {ah : Anyhow} (http : Http ah) : Type 0 where
  pub status : http.StatusCode
  pub headers : http.HeaderMap
  pub body : List ℕ

pub record Request {ah : Anyhow} (http : Http ah) : Type 0 where
  pub headers : http.HeaderMap
  -- the bucket named by the extension `CacheOptions`, if the request carries one
  pub cache_options : Option Text
  pub body : List ℕ

-- Header values as texts, maps as lists of pairs, status codes as numbers.
unfoldable pub add_last : HashMap Text Text → Text → Text → HashMap Text Text
add_last m k v = m ++ (k, v) ∷ []

unfoldable pub put_first : HashMap Text Text → Text → Text → HashMap Text Text
put_first m k v = (k, v) ∷ HashMap.remove m k

pub get-put_first :
    (m : HashMap Text Text) (k j v : Text)
    → HashMap.get (put_first m k v) j ≡ (if k == j then some v else HashMap.get m j)
unfolding put_first HashMap.get
get-put_first m k j v = ground (arith, HashMap.get-remove m k j)

pub foldl-add_last :
    (acc m : HashMap Text Text) → foldl (λ acc p. add_last acc p.0 p.1) acc m ≡ acc ++ m
unfolding add_last
foldl-add_last acc [] = rw append-nil
foldl-add_last acc ((k, v) ∷ m) = rw (foldl-add_last (acc ++ (k, v) ∷ []) m) (append_assoc acc _ m)

abbrev pub plain : Http chained
plain = record {
  HeaderValue = Text;
  to_str = λ v. ok v;
  from_str = λ t. ok t;
  to_str-from_str = λ t v h. ap ok (sym (ok-injective t v h));
  from_str-to_str = λ t v h. ap ok (sym (ok-injective v t h));
  HeaderMap = HashMap Text Text;
  empty = [];
  get = HashMap.get;
  insert = put_first;
  append = add_last;
  remove = HashMap.remove;
  iter = λ m. m;
  get-insert = get-put_first;
  get-remove = HashMap.get-remove;
  append-iter = λ m. foldl-add_last [] m;
  is_empty_value = is_empty;
  is_empty_value_lem = λ v t h. ap is_empty (ok-injective v t h);
  StatusCode = ℕ;
  as_u16 = λ c. c;
  from_u16 = λ c. ok c;
  from_u16-as_u16 = λ c. refl;
}
