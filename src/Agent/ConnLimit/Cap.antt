-- ===== src/Agent/ConnLimit/Cap.antt =====
-- Never more connections at once than the rule allows, and none refused below that.
use emorelay.Base.{
  ℕ, zero, suc, ◌+◌, ◌≤◌, ◌<◌, ◌≡◌, refl, subst, Option, none, some, List, [], ◌∷◌, ◌==◌, min,
  arith, if◌then◌else◌,
}
use emorelay.Base.Signed.{ℤ, pos, negsuc}
use emorelay.Base.Words.{wrapping_add}
use emorelay.Agent.ConnLimit.{
  Listener, Event, accepted, accept_error, closed, conn_limiter, try_acquire, listen, on_event, run,
  max_permits,
}

-- Permits are free or held by a running connection.
abbrev pub Balanced : Option ℕ → Listener → Type 0
Balanced none s = s.limiter ≡ none
Balanced (some cap) s = (free : ℕ) × (s.limiter ≡ some free) × (free + s.open_connections ≡ cap)

on_event-Balanced :
    (limit : Option ℕ) (s : Listener) (e : Event) → Balanced limit s → Balanced limit (on_event s e)
unfolding on_event try_acquire
on_event-Balanced none s accepted b = ground arith
on_event-Balanced none s (accept_error benign) b = ground arith
on_event-Balanced none s (closed failed) b = ground arith
on_event-Balanced (some cap) s accepted (zero, b, c) = (zero, ground arith, ground arith)
on_event-Balanced (some cap) s accepted (suc free, b, c) = (free, ground arith, ground arith)
on_event-Balanced (some cap) s (accept_error benign) (free, b, c) =
    (free, ground arith, ground arith)
on_event-Balanced (some cap) s (closed failed) (free, b, c) =
    ((if s.open_connections == 0 then free else suc free), ground arith, ground arith)

run-Balanced :
    (limit : Option ℕ) (s : Listener) (es : List Event)
    → Balanced limit s
    → Balanced limit (run s es)
unfolding run
run-Balanced limit s [] b = b
run-Balanced limit s (e ∷ es) b =
    run-Balanced limit (on_event s e) es (on_event-Balanced limit s e b)

listen-Balanced : (n : ℤ) → Balanced (conn_limiter n) (listen n)
unfolding listen conn_limiter
listen-Balanced (negsuc n) = refl
listen-Balanced (pos zero) = refl
listen-Balanced (pos (suc n)) = (min (suc n) max_permits, refl, omega arith)

-- The connections that a listener has let in and that still run.
abbrev pub open_after : ℤ → List Event → ℕ
open_after n es = (run (listen n) es).open_connections

-- The listener of a rule with a limit never has more connections open than the limit.
pub open_connections_bound : (n : ℕ) (es : List Event) → open_after (pos (suc n)) es ≤ suc n
unfolding conn_limiter
open_connections_bound n es = omega (
  arith,
  run-Balanced (some (min (suc n) max_permits)) (listen (pos (suc n))) es
      (listen-Balanced (pos (suc n))),
)

-- After any events a new connection is let in exactly if fewer are open than the limit, which
-- counts up to the semaphore's maximum; a refused one is counted as an error and changes nothing
-- else.
pub on_event-accepted :
    (n : ℕ) (es : List Event)
    → let s = run (listen (pos (suc n))) es in
      (s.open_connections < min (suc n) max_permits
        → ((on_event s accepted).open_connections ≡ suc s.open_connections)
          × ((on_event s accepted).connection_count ≡ wrapping_add s.connection_count 1))
      × (min (suc n) max_permits ≤ s.open_connections
          → on_event s accepted ≡ record s { error_count = wrapping_add s.error_count 1 })
unfolding on_event try_acquire conn_limiter
on_event-accepted n es =
    let (free, l, c) =
      run-Balanced (some (min (suc n) max_permits)) (listen (pos (suc n))) es
        (listen-Balanced (pos (suc n))) in
    (λ room. ground arith, λ full. ground arith)

-- A rule with no limit, written as 0 or below, never refuses a connection.
pub on_event-unlimited :
    (m : ℤ) (es : List Event)
    → conn_limiter m ≡ none
    → (on_event (run (listen m) es) accepted).open_connections ≡ suc (open_after m es)
unfolding on_event try_acquire
on_event-unlimited m es h =
    let b : Balanced none (run (listen m) es) =
      run-Balanced none (listen m) es
        (subst (λ (l : Option ℕ). Balanced l (listen m)) h (listen-Balanced m)) in
    rw (b, on_event)
