-- ===== src/Blobstore/Context.antt =====
-- The traits `WasiBlobstoreCtx` (crates/wasi-blobstore/src/host.rs) and `Container`
-- (crates/wasi-blobstore/src/host/resource.rs).
use yetti.Base.{ℕ, Bool, Option, List, Text, Bytes}
use yetti.Base.Exec.{Exec}
use yetti.Foreign.Anyhow.{Anyhow}

pub record ContainerMetadata : Type 0 where
  pub name : Text
  pub created_at : ℕ

pub record ObjectMetadata : Type 0 where
  pub name : Text
  pub container : Text
  pub created_at : ℕ
  pub size : ℕ

-- `Container` is `Arc<dyn Container>`. The readings of the clock are arguments.
pub record Context (ah : Anyhow) : Type 1 where
  pub State : Type 0
  pub Container : Type 0
  pub create_container : Text → ℕ → Exec State ah.Error Container
  pub get_container : Text → Exec State ah.Error Container
  pub delete_container : Text → Exec State ah.Error (Unit {0})
  pub container_exists : Text → Exec State ah.Error Bool
  pub name : Container → Exec State ah.Error Text
  pub info : Container → Exec State ah.Error ContainerMetadata
  pub get_data : Container → Text → ℕ → ℕ → Exec State ah.Error (Option Bytes)
  pub write_data : Container → Text → Bytes → Exec State ah.Error (Unit {0})
  pub list_objects : Container → Exec State ah.Error (List Text)
  pub delete_object : Container → Text → Exec State ah.Error (Unit {0})
  pub has_object : Container → Text → Exec State ah.Error Bool
  pub object_info : Container → Text → ℕ → Exec State ah.Error ObjectMetadata
