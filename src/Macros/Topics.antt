-- ===== src/Macros/Topics.antt =====
-- The handler of messages that the guest macro generates: crates/guest-macro/src/messaging.rs.
pub mod Laws
use yetti.Base.{Bool, true, false, Option, none, some, List, [], ◌∷◌, ◌++◌, Text, Bytes}
use yetti.Base.Lists.{bytes}
use yetti.Base.Exec.{Result, ok, err, Exec, map_err}
use yetti.Base.Str.{contains_str}
use yetti.Macros.Guest.{Topic}

-- `match topic.as_str()`: the first arm whose guard `t.contains(pattern)` holds.
unfoldable pub dispatch : List Topic → Text → Option Topic
unfolding contains_str
dispatch [] topic = none
dispatch (t ∷ topics) topic = elim (contains_str t.pattern_ topic) [
  | true ↦ some t
  | false ↦ dispatch topics topic
]

-- A message, as far as the handler reads it.
pub record Message : Type 0 where
  pub topic : Option Text
  pub payload : Bytes

-- `Error::Other`
pub data Error : Type 0 where
  other : Text → Error

-- The processors: what the code generated for a topic does with the payload, with the text of its
-- error.
pub record Processors : Type 1 where
  pub World : Type 0
  pub process : Topic → Bytes → Exec World Text (Unit {0})

module _ (P : Processors) where
  abbrev pub run : Option Topic → Text → Bytes → Exec P.World Error (Unit {0})
  run none topic payload w = (err (other (bytes "unhandled topic: " ++ topic)), w)
  run (some t) topic payload w =
      let (r, w') = P.process t payload w in (map_err (λ e. other e) r, w')

  -- `handle`
  unfoldable pub handle : List Topic → Message → Exec P.World Error (Unit {0})
  unfolding dispatch
  handle topics message w = elim message.topic [
    | none ↦ (err (other (bytes "message is missing topic")), w)
    | some topic ↦ run (dispatch topics topic) topic message.payload w
  ]
