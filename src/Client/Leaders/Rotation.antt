-- ===== src/Client/Leaders/Rotation.antt =====
-- A pass starts with every endpoint once.
use tsoracle.Prelude.{ℕ, ◌+◌, if◌then◌else◌, List, [], ◌∷◌}
use tsoracle.BTreeMap.{bytes_ord, same}
use tsoracle.Client.{Endpoint}

-- How many times an endpoint is in a list.
unfoldable pub occurrences : Endpoint → List Endpoint → ℕ
occurrences e [] = 0
occurrences e (x ∷ xs) = (if same x e then 1 else 0) + occurrences e xs
