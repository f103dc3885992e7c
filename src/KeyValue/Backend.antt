-- ===== src/KeyValue/Backend.antt =====
-- The traits `WasiKeyValueCtx` (crates/wasi-keyvalue/src/host.rs) and `Bucket`
-- (crates/wasi-keyvalue/src/host/resource.rs), and what a client expects of an implementation.
use yetti.Base.{
  ◌≡◌, Bool, true, ◌&&◌, Option, none, some, List, Text, Bytes, text_eq, ◌==◌, if◌then◌else◌,
}
use yetti.Base.Lists.{contains}
use yetti.Base.HashMap.{is_some}
use yetti.Base.Exec.{ok, Exec}

-- `Bucket` is `Arc<dyn Bucket>`. A future of the trait runs to its end in one step.
pub record Backend (Error : Type 0) : Type 1 where
  pub State : Type 0
  pub Bucket : Type 0
  pub open_bucket : Text → Exec State Error Bucket
  pub get : Bucket → Text → Exec State Error (Option Bytes)
  pub set : Bucket → Text → Bytes → Exec State Error (Unit {0})
  pub delete : Bucket → Text → Exec State Error (Unit {0})
  pub exists : Bucket → Text → Exec State Error Bool
  pub keys : Bucket → Exec State Error (List Text)

-- A backend that behaves as a map from buckets and keys to values, and never fails. `alias` tells
-- the buckets that share their contents.
pub record IsLawful {Error : Type 0} (B : Backend Error) : Type 0 where
  pub view : B.State → B.Bucket → Text → Option Bytes
  pub alias : B.Bucket → B.Bucket → Bool
  pub alias_refl : (b : B.Bucket) → alias b b ≡ true
  pub view-alias :
      (b c : B.Bucket) (k : Text) (s : B.State) → alias b c ≡ true → view s b k ≡ view s c k
  -- the bucket that each opening of a name gives
  pub named : Text → B.Bucket
  pub open_ok : (name : Text) (s : B.State) → (B.open_bucket name s).0 ≡ ok (named name)
  pub view-open :
      (name : Text) (c : B.Bucket) (j : Text) (s : B.State)
      → view (B.open_bucket name s).1 c j ≡ view s c j
  pub get_lem : (b : B.Bucket) (k : Text) (s : B.State) → B.get b k s ≡ (ok (view s b k), s)
  pub exists_lem :
      (b : B.Bucket) (k : Text) (s : B.State) → B.exists b k s ≡ (ok (is_some (view s b k)), s)
  pub set_ok : (b : B.Bucket) (k : Text) (v : Bytes) (s : B.State) → (B.set b k v s).0 ≡ ok tt
  pub view-set :
      (b c : B.Bucket) (k j : Text) (v : Bytes) (s : B.State)
      → view (B.set b k v s).1 c j ≡ (if alias b c && k == j then some v else view s c j)
  pub delete_ok : (b : B.Bucket) (k : Text) (s : B.State) → (B.delete b k s).0 ≡ ok tt
  pub view-delete :
      (b c : B.Bucket) (k j : Text) (s : B.State)
      → view (B.delete b k s).1 c j ≡ (if alias b c && k == j then none else view s c j)
  pub keys_lem :
      (b : B.Bucket) (s : B.State)
      → (ks : List Text) × (B.keys b s ≡ (ok ks, s))
        × ((k : Text) → contains ks k ≡ is_some (view s b k))
