-- ===== src/Panel/Rules/Sample.antt =====
-- Data for the tests: a site with a user, an administrator and a node, and a printer of targets. No code
-- stands behind it.
use emorelay.Base.{
  ℕ, zero, suc, ◌≡◌, refl, ap, Bool, true, false, Option, none, some, List, [], ◌∷◌, String, str_eq,
  ◌==◌, if◌then◌else◌, arith,
}
use emorelay.Base.Signed.{pos}
use emorelay.Base.Ip.{v4}
use emorelay.Proto.{TargetEndpoint}
use Prim.Native.Char.{code}
use emorelay.Panel.Settings.{missing}
use emorelay.Panel.Dispatcher.{new, subscribe}
use emorelay.Panel.Sample.{db}
use emorelay.Panel.Ports.Table.{IsTable}
use emorelay.Panel.Rules.{Formats, AuthUser, Site, User}

-- A target is its host with an `h` before each character, a `p` for each unit of its port, and a `;`.
abbrev write_port : ℕ → String → String
write_port zero s = s
write_port (suc n) s = String.◌∷◌ "p" (write_port n s)

abbrev write_host : String → String → String
write_host String.[] s = s
write_host (String.◌∷◌ c h) s = String.◌∷◌ "h" (String.◌∷◌ c (write_host h s))

abbrev pub to_string : List TargetEndpoint → String
to_string [] = String.[]
to_string (t ∷ ts) = write_host t.host (write_port t.port (String.◌∷◌ ";" (to_string ts)))

abbrev on_first : (TargetEndpoint → TargetEndpoint) → List TargetEndpoint → List TargetEndpoint
on_first f [] = []
on_first f (t ∷ ts) = f t ∷ ts

-- The first argument says whether a character of a host comes next.
abbrev read : Bool → String → List TargetEndpoint
read payload String.[] = []
read true (String.◌∷◌ c s) = on_first (λ t. record t { host = String.◌∷◌ c t.host }) (read false s)
read false (String.◌∷◌ c s) =
    let after_h = read true s in
    let rest = read false s in
    if code c == b'h'
    then after_h
    else (if code c == b'p'
        then on_first (λ t. record t { port = suc t.port }) rest
        else record { host = ""; port = 0 } ∷ rest)

abbrev pub from_str : String → Option (List TargetEndpoint)
from_str s = some (read false s)

read-write_port :
    (n : ℕ) (s : String) (ts : List TargetEndpoint)
    → read false s ≡ record { host = ""; port = 0 } ∷ ts
    → read false (write_port n s) ≡ record { host = ""; port = n } ∷ ts
read-write_port zero s ts h = h
read-write_port (suc n) s ts h =
    ap (on_first (λ t. record t { port = suc t.port })) (read-write_port n s ts h)

read-write_host :
    (host : String) (s : String) (port : ℕ) (ts : List TargetEndpoint)
    → read false s ≡ record { host = ""; port = port } ∷ ts
    → read false (write_host host s) ≡ record { host = host; port = port } ∷ ts
read-write_host String.[] s port ts h = h
read-write_host (String.◌∷◌ c host) s port ts h =
    ap (on_first (λ t. record t { host = String.◌∷◌ c t.host })) (read-write_host host s port ts h)

read-to_string : (ts : List TargetEndpoint) → read false (to_string ts) ≡ ts
read-to_string [] = refl
read-to_string (t ∷ ts) =
    let rest = String.◌∷◌ ";" (to_string ts) in
    read-write_host t.host (write_port t.port rest) t.port ts (
      read-write_port t.port rest ts
        (ap (λ us. record { host = ""; port = 0 } ∷ us) (read-to_string ts)))

pub from_str-to_string : (ts : List TargetEndpoint) → from_str (to_string ts) ≡ some ts
from_str-to_string ts = ap some (read-to_string ts)

abbrev pub formats : Formats
formats = record {
  parse_ip = λ s.
      if str_eq s "0.0.0.0"
      then some (v4 (record { a = 0; b = 0; c = 0; d = 0 }))
      else (if str_eq s "10.0.0.1"
          then some (v4 (record { a = 10; b = 0; c = 0; d = 1 }))
          else none);
  targets_from_str = from_str;
  targets_to_string = to_string;
  ports_from_str = λ s. none;
}

abbrev pub owner : User
owner = record {
  id = 2;
  expires_at = none;
  traffic_limit_bytes_30d = some (pos 1000);
  period_used_bytes_cached = 0;
  quota_reset_day = some (pos 31);
  forward_rules_quota = some (pos 3);
  deleted = false;
}

-- User 2 owns the rules, has the grants of node 1 and tunnel 3, and may have three rules; user 5 has
-- nothing. Node 1 is connected.
abbrev pub site : Site
site = record {
  db = db;
  users = owner ∷ record owner { id = 5; forward_rules_quota = none } ∷ [];
  grants = record {
    nodes = record { user_id = 2; node_id = 1 } ∷ [];
    tunnels =
        record { user_id = 2; tunnel_id = 3; forward_rules_limit_in_tunnel = some (pos 1) } ∷ [];
  };
  reserved = missing;
  dispatcher = (subscribe new 1).0;
  audit = [];
}

abbrev pub user : AuthUser
user = record { sub = 2; is_admin = false }

abbrev pub other : AuthUser
other = record { sub = 5; is_admin = false }

abbrev pub admin : AuthUser
admin = record { sub = 1; is_admin = true }

pub db-IsTable : IsTable db
db-IsTable = record {
  no_clash = ((refl, tt), (tt, tt));
  fresh = (omega arith, (refl, tt), (omega arith, tt, tt));
}
