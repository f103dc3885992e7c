-- ===== src/Blobstore/Memory/Laws.antt =====
-- What the default blob store keeps, and what a container that is created again is
-- (crates/wasi-blobstore/src/host/default_impl.rs).
use yetti.Base.{
  ℕ, ◌<◌, ◌≡◌, refl, false, ◌&&◌, Option, none, some, Text, Bytes, text_eq, nat_eq, ◌==◌,
  if◌then◌else◌, arith, Bool-cases, inl, inr,
}
use yetti.Base.HashMap
use yetti.Base.HashMap.{get-insert, get-remove, contains_key, map_laws}
use yetti.Base.Exec.{ok}
use yetti.Foreign.Anyhow.{Anyhow}
use yetti.Blobstore.Memory.{
  InMemContainer, Store, objects_at, replace, new, create_container, get_container, get_data,
  write_data, delete_object, has_object,
}

-- The object of a name at an address.
abbrev pub object : Store → ℕ → Text → Option Bytes
object s address name = HashMap.get (objects_at s address) name

found : {A : Type 0} {a b : A} → some a ≡ some b → a ≡ b
found h = cc

module _ (ah : Anyhow) where
  pub object-write_data :
      (c : InMemContainer) (address : ℕ) (k j : Text) (x : Bytes) (s : Store)
      → object (write_data ah c k x s).1 address j
        ≡ (if (c.objects == address) && k == j then some x else object s address j)
  unfolding write_data replace objects_at
  object-write_data c address k j x s = grind (arith, get-insert)

  pub object-delete_object :
      (c : InMemContainer) (address : ℕ) (k j : Text) (s : Store)
      → object (delete_object ah c k s).1 address j
        ≡ (if (c.objects == address) && k == j then none else object s address j)
  unfolding delete_object replace objects_at
  object-delete_object c address k j s = grind (arith, get-insert, get-remove)

  -- Every named container has its objects at an address that was given out.
  abbrev pub IsValid : Store → Type 0
  IsValid s =
      (name : Text) (c : InMemContainer)
      → HashMap.get s.containers name ≡ some c
      → c.objects < s.next

  create_container-IsValid :
      (name : Text) (now : ℕ) (s : Store) → IsValid s → IsValid (create_container ah name now s).1
  unfolding create_container new
  create_container-IsValid name now s valid j c h = elim (Bool-cases (name == j)) [
    | inl t ↦ let same = found (rw (get-insert, t) at h) in rw (← same) (omega arith)
    | inr t ↦ let lower = valid j c (rw (get-insert, t) at h) in omega arith
  ]

  -- Creating a container whose name is taken makes the name stand for a new and empty container; a
  -- handle to the old one still reads and writes the old objects, unseen under the name. Named
  -- containers stay apart from addresses that are given out later.
  pub create_container-again :
      (name k : Text) (x : Bytes) (now start end : ℕ) (old : InMemContainer) (s : Store)
      → IsValid s
      → HashMap.get s.containers name ≡ some old
      → (fresh : InMemContainer) × (s1 : Store) × (create_container ah name now s ≡ (ok fresh, s1))
        × IsValid s1
        × ((get_container ah name s1).0 ≡ ok fresh)
        × ((has_object ah fresh k s1).0 ≡ ok false)
        × ((get_data ah old k start end s1).0 ≡ (get_data ah old k start end s).0)
        × ((get_data ah old k start end (write_data ah old k x s1).1).0 ≡ ok (some x))
        × ((has_object ah fresh k (write_data ah old k x s1).1).0 ≡ ok false)
  unfolding create_container new get_container has_object get_data write_data replace objects_at
      HashMap.get
  create_container-again name k x now start end old s valid h =
      let lower = valid name old h in
      (
        _,
        _,
        refl,
        create_container-IsValid name now s valid,
        grind (arith, map_laws),
        grind (arith, map_laws),
        grind (arith, map_laws),
        grind (arith, map_laws),
        grind (arith, map_laws),
      )
