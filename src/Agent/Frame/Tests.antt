-- ===== src/Agent/Frame/Tests.antt =====
-- crates/node-agent/src/tunnel/frame.rs: two datagrams, one of them empty.
use emorelay.Base.{ℕ, ◌≡◌, refl, some, List, [], ◌∷◌}
use emorelay.Agent.Frame.{write_frame}
use emorelay.Agent.Frame.RoundTrip.{write_all}

abbrev payloads : List (List ℕ)
payloads = (1 ∷ 2 ∷ 3 ∷ []) ∷ [] ∷ []

abbrev written : List ℕ
written = 0 ∷ 3 ∷ 1 ∷ 2 ∷ 3 ∷ 0 ∷ 0 ∷ []

all_fit : write_all payloads ≡ some written
unfolding write_frame
all_fit = refl
