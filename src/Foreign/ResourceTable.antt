-- ===== src/Foreign/ResourceTable.antt =====
-- `wasmtime::component::ResourceTable`: entries of the host behind handles that a guest holds.
use yetti.Base.{
  ℕ, suc, ◌+◌, ◌≤◌, ◌≡◌, refl, ◌≢◌, Option, none, some, [], ◌∷◌, arith, Text, nat_eq, ◌==◌,
  if◌then◌else◌,
}
use yetti.Base.HashMap.{HashMap, get, remove, map_laws}
use yetti.Base.Exec.{ok, err, Exec}

pub record ResourceTable (Entry : Type 0) : Type 1 where
  pub Table : Type 0
  pub TableError : Type 0
  pub to_string : TableError → Text
  pub get : Table → ℕ → Option Entry
  -- a write through the reference that `get_mut` returns
  pub set : Table → ℕ → Entry → Table
  pub push : Entry → Exec Table TableError ℕ
  pub delete : ℕ → Exec Table TableError (Unit {0})
  -- the error of `get`, `get_mut` and `delete` at a handle that is not there or has another type
  pub absent : TableError
  pub push_fresh : (e : Entry) (t t' : Table) (r : ℕ) → push e t ≡ (ok r, t') → get t r ≡ none
  pub get-push_self : (e : Entry) (t t' : Table) (r : ℕ) → push e t ≡ (ok r, t') → get t' r ≡ some e
  pub get-push_ne :
      (e : Entry) (t t' : Table) (r q : ℕ) → push e t ≡ (ok r, t') → r ≢ q → get t' q ≡ get t q
  pub get-set :
      (t : Table) (r q : ℕ) (e e' : Entry)
      → get t r ≡ some e
      → get (set t r e') q ≡ (if r == q then some e' else get t q)
  pub get-delete_self : (t t' : Table) (r : ℕ) → delete r t ≡ (ok tt, t') → get t' r ≡ none
  pub get-delete_ne :
      (t t' : Table) (r q : ℕ) → delete r t ≡ (ok tt, t') → r ≢ q → get t' q ≡ get t q

-- A table that never fills up: a new handle is above all that are in use.
module _ {Entry : Type 0} where
  unfoldable pub fresh : HashMap ℕ Entry → ℕ
  fresh [] = 0
  fresh ((k, _) ∷ m) = suc (k + fresh m)

  get-fresh : (m : HashMap ℕ Entry) (r : ℕ) → fresh m ≤ r → get m r ≡ none
  unfolding fresh get
  get-fresh [] r h = refl
  get-fresh ((k, e) ∷ m) r h = ground (arith, get-fresh m r)

  unfoldable pub push_entry : Entry → Exec (HashMap ℕ Entry) Text ℕ
  push_entry e t = (ok (fresh t), (fresh t, e) ∷ t)

  unfoldable pub delete_entry : ℕ → Exec (HashMap ℕ Entry) Text (Unit {0})
  delete_entry r t = elim (get t r) [ none ↦ (err [], t) | some _ ↦ (ok tt, remove t r) ]

  pub push_entry_fresh :
      (e : Entry) (t t' : HashMap ℕ Entry) (r : ℕ) → push_entry e t ≡ (ok r, t') → get t r ≡ none
  unfolding push_entry
  push_entry_fresh e t t' r h = ground (arith, get-fresh t (fresh t))

  pub get-push_entry_self :
      (e : Entry) (t t' : HashMap ℕ Entry) (r : ℕ) → push_entry e t ≡ (ok r, t') → get t' r ≡ some e
  unfolding push_entry get
  get-push_entry_self e t t' r h = ground arith

  pub get-push_entry_ne :
      (e : Entry) (t t' : HashMap ℕ Entry) (r q : ℕ)
      → push_entry e t ≡ (ok r, t')
      → r ≢ q
      → get t' q ≡ get t q
  unfolding push_entry get
  get-push_entry_ne e t t' r q h n = ground arith

  pub get-delete_entry_self :
      (t t' : HashMap ℕ Entry) (r : ℕ) → delete_entry r t ≡ (ok tt, t') → get t' r ≡ none
  unfolding delete_entry
  get-delete_entry_self t t' r h = grind (arith, map_laws)

  pub get-delete_entry_ne :
      (t t' : HashMap ℕ Entry) (r q : ℕ)
      → delete_entry r t ≡ (ok tt, t')
      → r ≢ q
      → get t' q ≡ get t q
  unfolding delete_entry
  get-delete_entry_ne t t' r q h n = grind (arith, map_laws)

pub get-replaced :
    {Entry : Type 0} (t : HashMap ℕ Entry) (r q : ℕ) (e e' : Entry)
    → get t r ≡ some e
    → get ((r, e') ∷ t) q ≡ (if r == q then some e' else get t q)
unfolding get
get-replaced t r q e e' h = refl

abbrev pub growing : (Entry : Type 0) → ResourceTable Entry
growing Entry = record {
  Table = HashMap ℕ Entry;
  TableError = Text;
  to_string = λ t. t;
  get = get;
  set = λ t r e. (r, e) ∷ t;
  push = push_entry;
  delete = delete_entry;
  absent = [];
  push_fresh = push_entry_fresh;
  get-push_self = get-push_entry_self;
  get-push_ne = get-push_entry_ne;
  get-set = get-replaced;
  get-delete_self = get-delete_entry_self;
  get-delete_ne = get-delete_entry_ne;
}
