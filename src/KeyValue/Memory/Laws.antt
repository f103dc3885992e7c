-- ===== src/KeyValue/Memory/Laws.antt =====
-- The default backend (crates/wasi-keyvalue/src/host/default_impl.rs) is a map of maps.
use yetti.Base.{
  ◌≡◌, refl, Bool, true, ◌&&◌, Option, none, some, List, Text, Bytes, text_eq, ◌==◌, if◌then◌else◌,
  arith, [], inl, inr, Option-cases,
}
use yetti.Base.Lists.{contains}
use yetti.Base.HashMap
use yetti.Base.HashMap.{is_some, get-insert, get-remove, get-nil, contains-keys}
use yetti.Base.Exec.{ok}
use yetti.KeyValue.Backend.{IsLawful}
use yetti.KeyValue.Memory.{Store, InMemBucket, memory, open_bucket, get, set, delete, exists, keys}

unfoldable pub view : Store → InMemBucket → Text → Option Bytes
view s b k = elim (HashMap.get s b.name) [ none ↦ none | some bucket ↦ HashMap.get bucket k ]

abbrev alias : InMemBucket → InMemBucket → Bool
alias b c = b.name == c.name

module _ (Error : Type 0) (b c : InMemBucket) (k j : Text) (s : Store) where
  pub view-set :
      (v : Bytes)
      → view (set {Error = Error} b k v s).1 c j
        ≡ (if alias b c && k == j then some v else view s c j)
  unfolding view set
  view-set v = grind (arith, get-insert, get-nil)

  pub view-delete :
      view (delete {Error = Error} b k s).1 c j ≡ (if alias b c && k == j then none else view s c j)
  unfolding view delete
  view-delete = grind (arith, get-insert, get-remove)

pub exists_lem :
    (Error : Type 0) (b : InMemBucket) (k : Text) (s : Store)
    → exists {Error = Error} b k s ≡ (ok (is_some (view s b k)), s)
unfolding exists view
exists_lem Error b k s = ground arith

pub keys_lem :
    (Error : Type 0) (b : InMemBucket) (s : Store)
    → (ks : List Text) × (keys {Error = Error} b s ≡ (ok ks, s))
      × ((k : Text) → contains ks k ≡ is_some (view s b k))
unfolding keys view
keys_lem Error b s = elim (Option-cases (HashMap.get s b.name)) [
  | inl e ↦ ([], rw e, λ k. rw (e, is_some))
  | inr (m, e) ↦ (HashMap.keys m, rw e, λ k. rw (e, is_some) (contains-keys m k))
]

pub alias_refl : (b : InMemBucket) → alias b b ≡ true
alias_refl b = ground arith

pub view-alias :
    (b c : InMemBucket) (k : Text) (s : Store) → alias b c ≡ true → view s b k ≡ view s c k
unfolding view
view-alias b c k s h = ground arith

pub view-open_bucket :
    (Error : Type 0) (name : Text) (c : InMemBucket) (j : Text) (s : Store)
    → view (open_bucket {Error = Error} name s).1 c j ≡ view s c j
unfolding open_bucket view
view-open_bucket Error name c j s = grind (arith, get-insert, get-nil)

-- The maps of maps as an instance of the specification.
unfoldable pub lawful : (Error : Type 0) → IsLawful (memory Error)
unfolding get view set delete open_bucket
lawful Error = record {
  view = view;
  alias = alias;
  alias_refl = alias_refl;
  view-alias = view-alias;
  named = λ name. record { name = name };
  open_ok = λ name s. refl;
  view-open = view-open_bucket Error;
  get_lem = λ b k s. refl;
  exists_lem = exists_lem Error;
  set_ok = λ b k v s. refl;
  view-set = λ b c k j v s. view-set Error b c k j s v;
  delete_ok = λ b k s. refl;
  view-delete = λ b c k j s. view-delete Error b c k j s;
  keys_lem = keys_lem Error;
}

-- The backend in memory implements the specification of a backend: it is a map from buckets and
-- keys to values, buckets opened under one name share their contents, and no operation fails.
pub memory-IsLawful : (Error : Type 0) → IsLawful (memory Error)
memory-IsLawful Error = lawful Error
