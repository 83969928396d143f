-- ===== src/Agent/ConnLimit.antt =====
-- crates/node-agent/src/limit/conn_limit.rs and the accept loop of relay/tcp.rs that uses it.
-- `Semaphore` counts the free permits; a permit is given back when its connection ends.
pub mod Cap
mod Tests
use emorelay.Base.{
  ℕ, zero, suc, ◌+◌, ◌-◌, Bool, true, false, Option, none, some, List, [], ◌∷◌, ◌==◌, min,
  if◌then◌else◌,
}
use emorelay.Base.Signed.{ℤ, pos, negsuc}
use emorelay.Base.Words.{wrapping_add}

-- `Semaphore::MAX_PERMITS`, usize::MAX >> 3.
abbrev pub max_permits : ℕ
max_permits = 2305843009213693951

-- The free permits of a new limiter; `none` is no limit.
unfoldable pub conn_limiter : ℤ → Option ℕ
conn_limiter (negsuc n) = none
conn_limiter (pos zero) = none
conn_limiter (pos (suc n)) = some (min (suc n) max_permits)

-- `none` is the error of a full limiter.
pub try_acquire : Option ℕ → Option (Option ℕ)
try_acquire none = some none
try_acquire (some zero) = none
try_acquire (some (suc n)) = some (some n)

-- The drop of a permit.
abbrev pub release : Option ℕ → Option ℕ
release none = none
release (some n) = some (suc n)

-- What the accept loop changes: the limiter, the connections that run, and two counters.
pub record Listener : Type 0 where
  pub limiter : Option ℕ
  pub open_connections : ℕ
  pub connection_count : ℕ
  pub error_count : ℕ

pub listen : ℤ → Listener
listen max_connections = record {
  limiter = conn_limiter max_connections;
  open_connections = 0;
  connection_count = 0;
  error_count = 0;
}

pub data Event : Type 0 where
  accepted : Event
  accept_error : Bool → Event
  closed : Bool → Event

-- A connection that is let in keeps its permit until it ends; the flag of `closed` is an error of
-- its bridge, and that of `accept_error` tells the benign kind, which is not counted.
pub on_event : Listener → Event → Listener
on_event s accepted = elim (try_acquire s.limiter) [
  | none ↦ record s { error_count = wrapping_add s.error_count 1 }
  | some limiter ↦ record s {
    limiter = limiter;
    open_connections = suc s.open_connections;
    connection_count = wrapping_add s.connection_count 1;
  }
]
on_event s (accept_error benign) =
    if benign then s else record s { error_count = wrapping_add s.error_count 1 }
on_event s (closed failed) = if s.open_connections == 0 then s else record s {
  limiter = release s.limiter;
  open_connections = s.open_connections - 1;
  error_count = if failed then wrapping_add s.error_count 1 else s.error_count;
}

pub run : Listener → List Event → Listener
run s [] = s
run s (e ∷ es) = run (on_event s e) es
