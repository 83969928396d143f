-- ===== src/Panel/Settings.antt =====
-- crates/panel-server/src/models/settings.rs: the ports that no rule may listen on. The JSON parser is serde's
-- and an argument. A negative entry is no port, so it is left out of the result.
use emorelay.Base.{ℕ, Option, none, some, List, [], ◌∷◌, String}
use emorelay.Base.Signed.{ℤ, pos, negsuc}

-- What the read of the setting gives: it fails, finds no row, or the text in the row.
pub data Setting : Type 0 where
  unreadable missing : Setting
  value : String → Setting

abbrev pub default_reserved_ports : List ℕ
default_reserved_ports = 22 ∷ 80 ∷ 443 ∷ 3306 ∷ 5432 ∷ []

abbrev pub ports_of : List ℤ → List ℕ
ports_of [] = []
ports_of (pos n ∷ ns) = n ∷ ports_of ns
ports_of (negsuc n ∷ ns) = ports_of ns

unfoldable pub reserved_ports : (String → Option (List ℤ)) → Setting → List ℕ
reserved_ports parse unreadable = default_reserved_ports
reserved_ports parse missing = default_reserved_ports
reserved_ports parse (value text) = elim (parse text) [
  | none ↦ default_reserved_ports
  | some ns ↦ ports_of ns
]
