-- ===== src/Foreign/Anyhow.antt =====
-- The crate `anyhow`: an error is built from a message or wrapped in a context, and prints its
-- outermost message.
use yetti.Base.{◌≡◌, refl, List, ◌∷◌, [], Text}

pub record Anyhow : Type 1 where
  pub Error : Type 0
  pub msg : Text → Error
  pub context : Text → Error → Error
  pub to_string : Error → Text
  pub to_string-msg : (t : Text) → to_string (msg t) ≡ t
  pub to_string-context : (t : Text) (e : Error) → to_string (context t e) ≡ t

-- The chain of messages, the outermost first.
abbrev head_or_nil : List Text → Text
head_or_nil [] = []
head_or_nil (t ∷ ts) = t

abbrev pub chained : Anyhow
chained = record {
  Error = List Text;
  msg = λ t. t ∷ [];
  context = λ t e. t ∷ e;
  to_string = head_or_nil;
  to_string-msg = λ t. refl;
  to_string-context = λ t e. refl;
}
