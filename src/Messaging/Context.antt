-- ===== src/Messaging/Context.antt =====
-- The traits `WasiMessagingCtx` (crates/wasi-messaging/src/host.rs) and `Client`
-- (crates/wasi-messaging/src/host/resource.rs).
use yetti.Base.{Option, Text, Bytes}
use yetti.Base.Exec.{Result, Exec}
use yetti.Foreign.Anyhow.{Anyhow}
use yetti.Messaging.Message.{Message, Metadata, RequestOptions}

pub record Context (ah : Anyhow) : Type 1 where
  pub State : Type 0
  pub Client : Type 0
  pub Subscriptions : Type 0
  pub connect : Exec State ah.Error Client
  pub new_message : Bytes → Result ah.Error Message
  pub set_content_type : Message → Text → Result ah.Error Message
  pub set_payload : Message → Bytes → Result ah.Error Message
  pub add_metadata : Message → Text → Text → Result ah.Error Message
  pub set_metadata : Message → Metadata → Result ah.Error Message
  pub remove_metadata : Message → Text → Result ah.Error Message
  pub subscribe : Client → Exec State ah.Error Subscriptions
  pub send : Client → Text → Message → Exec State ah.Error (Unit {0})
  pub request : Client → Text → Message → Option RequestOptions → Exec State ah.Error Message
