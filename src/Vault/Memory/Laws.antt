-- ===== src/Vault/Memory/Laws.antt =====
-- The default vault (crates/wasi-vault/src/host/default_impl.rs) is a map of maps.
use yetti.Base.{
  ◌≡◌, refl, Bool, true, ◌&&◌, Option, none, some, List, [], Text, Bytes, text_eq, ◌==◌,
  if◌then◌else◌, arith, inl, inr, Option-cases,
}
use yetti.Base.Lists.{contains}
use yetti.Base.HashMap
use yetti.Base.HashMap.{is_some, get-insert, get-remove, get-nil, contains-keys}
use yetti.Base.Exec.{ok}
use yetti.KeyValue.Backend.{IsLawful}
use yetti.Vault.Memory.{
  Store, InMemoryLocker, vault, open_locker, get, set, delete, exists, list_ids,
}

unfoldable pub view : Store → InMemoryLocker → Text → Option Bytes
view s b k = elim (HashMap.get s b.identifier) [ some locker ↦ HashMap.get locker k | none ↦ none ]

abbrev alias : InMemoryLocker → InMemoryLocker → Bool
alias b c = b.identifier == c.identifier

module _ (Error : Type 0) where
  pub view-set :
      (b c : InMemoryLocker) (k j : Text) (v : Bytes) (s : Store)
      → view (set {Error = Error} b k v s).1 c j
        ≡ (if alias b c && k == j then some v else view s c j)
  unfolding view set
  view-set b c k j v s = grind (arith, get-insert, get-nil)

  pub delete_ok :
      (b : InMemoryLocker) (k : Text) (s : Store) → (delete {Error = Error} b k s).0 ≡ ok tt
  unfolding delete
  delete_ok b k s = ground arith

  pub view-delete :
      (b c : InMemoryLocker) (k j : Text) (s : Store)
      → view (delete {Error = Error} b k s).1 c j
        ≡ (if alias b c && k == j then none else view s c j)
  unfolding view delete
  view-delete b c k j s = grind (arith, get-insert, get-remove)

  pub exists_lem :
      (b : InMemoryLocker) (k : Text) (s : Store)
      → exists {Error = Error} b k s ≡ (ok (is_some (view s b k)), s)
  unfolding exists view
  exists_lem b k s = ground arith

  pub list_ids_lem :
      (b : InMemoryLocker) (s : Store)
      → (ks : List Text) × (list_ids {Error = Error} b s ≡ (ok ks, s))
        × ((k : Text) → contains ks k ≡ is_some (view s b k))
  unfolding list_ids view
  list_ids_lem b s = elim (Option-cases (HashMap.get s b.identifier)) [
    | inl e ↦ ([], rw e, λ k. rw (e, is_some))
    | inr (m, e) ↦ (HashMap.keys m, rw e, λ k. rw (e, is_some) (contains-keys m k))
  ]

  pub view-open_locker :
      (id : Text) (c : InMemoryLocker) (j : Text) (s : Store)
      → view (open_locker {Error = Error} id s).1 c j ≡ view s c j
  unfolding open_locker view
  view-open_locker id c j s = grind (arith, get-insert, get-nil)

pub alias_refl : (b : InMemoryLocker) → alias b b ≡ true
alias_refl b = ground arith

pub view-alias :
    (b c : InMemoryLocker) (k : Text) (s : Store) → alias b c ≡ true → view s b k ≡ view s c k
unfolding view
view-alias b c k s h = ground arith

-- The lockers as an instance of the specification of a backend.
unfoldable pub lawful : (Error : Type 0) → IsLawful (vault Error)
unfolding get view set open_locker
lawful Error = record {
  view = view;
  alias = alias;
  alias_refl = alias_refl;
  view-alias = view-alias;
  named = λ id. record { identifier = id };
  open_ok = λ id s. refl;
  view-open = view-open_locker Error;
  get_lem = λ b k s. refl;
  exists_lem = exists_lem Error;
  set_ok = λ b k v s. refl;
  view-set = view-set Error;
  delete_ok = delete_ok Error;
  view-delete = view-delete Error;
  keys_lem = list_ids_lem Error;
}

-- The default vault implements the specification of a backend: it is a map from lockers and secrets'
-- names to values, lockers opened under one identifier share their contents, and no operation fails.
pub vault-IsLawful : (Error : Type 0) → IsLawful (vault Error)
vault-IsLawful Error = lawful Error
