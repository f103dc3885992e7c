-- ===== src/Tests/Vault.antt =====
-- The theorems on `wasi:vault` at the default vault with one secret.
use yetti.Base.{◌≡◌, refl, some, List, [], ◌∷◌, Text, text_eq, nat_eq}
use yetti.Base.Lists.{bytes}
use yetti.Base.HashMap
use yetti.Foreign.Anyhow.{chained}
use yetti.Foreign.ResourceTable.{ResourceTable, growing}
use yetti.KeyValue.Backend.{Backend, IsLawful}
use yetti.Vault.Memory.{InMemoryLocker, vault}
use yetti.Vault.Memory.Laws.{vault-IsLawful}
use yetti.Vault.Host.{View}

vault-IsLawful_example : IsLawful (vault (List Text))
vault-IsLawful_example = vault-IsLawful (List Text)

abbrev B : Backend (List Text)
B = vault (List Text)

abbrev T : ResourceTable InMemoryLocker
T = growing InMemoryLocker

abbrev locker : InMemoryLocker
locker = record { identifier = bytes "l" }

abbrev pin : Text
pin = bytes "pin"

abbrev v : View chained B T
v = record { ctx = (bytes "l", (pin, 7 ∷ []) ∷ []) ∷ []; table = (4, locker) ∷ (3, locker) ∷ [] }

named : T.get v.table 3 ≡ some locker
unfolding HashMap.get nat_eq
named = refl

named_again : T.get v.table 4 ≡ some locker
unfolding HashMap.get nat_eq
named_again = refl
