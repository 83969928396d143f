-- ===== src/Agent/Creds.antt =====
-- crates/node-agent/src/tunnel/creds.rs: the keys and certificates that a node keeps for its tunnels.
-- The file system is a function of the tunnel, the hop and the file's name.
pub mod Files
use emorelay.Base.{
  ℕ, zero, suc, Bool, true, false, ◌&&◌, Option, none, some, List, [], ◌∷◌, String, str_eq, ◌==◌,
  if◌then◌else◌,
}
use emorelay.Base.Signed.{ℤ, pos, negsuc}
use emorelay.Proto.{TunnelCredentials}

abbrev pub Files : Type 0
Files = ℕ → ℕ → String → Option String

-- How the writes end: all are done, or so many are and the next leaves its file like this.
pub data Writes : Type 0 where
  all_written : Writes
  stops : ℕ → Option String → Writes

abbrev pub put : Files → ℕ → ℕ → String → Option String → Files
put d tunnel_id ordinal name content t o n =
    if tunnel_id == t && (ordinal == o && str_eq name n) then content else d t o n

pub write_files : Files → ℕ → ℕ → List (String × String) → Writes → Files × Bool
write_files d t o [] w = (d, true)
write_files d t o ((name, content) ∷ fs) all_written =
    write_files (put d t o name (some content)) t o fs all_written
write_files d t o ((name, content) ∷ fs) (stops zero left) = (put d t o name left, false)
write_files d t o ((name, content) ∷ fs) (stops (suc n) left) =
    write_files (put d t o name (some content)) t o fs (stops n left)

abbrev pub files_of : TunnelCredentials → List (String × String)
files_of c =
    ("server.pem", c.server_cert_pem)
    ∷ ("server.key", c.server_key_pem)
    ∷ ("client.pem", c.client_cert_pem)
    ∷ ("client.key", c.client_key_pem)
    ∷ ("ca.pem", c.ca_pem)
    ∷ []

-- A negative ordinal is an error before anything is written.
pub store : Files → TunnelCredentials → Writes → Files × Bool
unfolding write_files
store d c w = elim c.ordinal [
  | pos o ↦ write_files d c.tunnel_id o (files_of c) w
  | negsuc n ↦ (d, false)
]

-- How `remove_dir_all` ends: the directory is gone, or was not there; or it fails and has removed
-- the files for which the test is true.
pub data Removal : Type 0 where
  removed : Removal
  fails : (ℕ → String → Bool) → Removal

pub remove_tunnel : Files → ℕ → Removal → Files × Bool
remove_tunnel d tunnel_id removed = ((λ t o n. if tunnel_id == t then none else d t o n), true)
remove_tunnel d tunnel_id (fails gone) =
    ((λ t o n. if tunnel_id == t && gone o n then none else d t o n), false)
