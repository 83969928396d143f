-- ===== src/Agent/Creds/Files.antt =====
-- Storing a tunnel's credentials and revoking them.
use emorelay.Base.{
  ℕ, zero, suc, true, false, ◌&&◌, none, some, List, [], ◌∷◌, String, ◌==◌, if◌then◌else◌, ◌≡◌,
  refl, ap, arith, Bool-cases, inl, inr, ◌∙◌,
}
use emorelay.Base.Signed.{ℤ, pos, negsuc}
use emorelay.Proto.{TunnelCredentials}
use emorelay.Agent.Creds.{
  Files, Writes, all_written, stops, put, write_files, files_of, store, removed, remove_tunnel,
}

write_files-other :
    (d : Files) (t o : ℕ) (fs : List (String × String)) (w : Writes) (u p : ℕ) (n : String)
    → (t == u && o == p) ≡ false
    → (write_files d t o fs w).0 u p n ≡ d u p n
unfolding write_files
write_files-other d t o [] w u p n e = refl
write_files-other d t o ((name, content) ∷ fs) all_written u p n e =
    write_files-other (put d t o name (some content)) t o fs all_written u p n e ∙ ground (arith, e)
write_files-other d t o ((name, content) ∷ fs) (stops zero left) u p n e = ground (arith, e)
write_files-other d t o ((name, content) ∷ fs) (stops (suc k) left) u p n e =
    write_files-other (put d t o name (some content)) t o fs (stops k left) u p n e
    ∙ ground (arith, e)

-- Storing credentials, whether it succeeds or fails half-way, leaves the files of every other hop as
-- they were.
pub store-other :
    (d : Files) (c : TunnelCredentials) (w : Writes) (o u p : ℕ) (n : String)
    → c.ordinal ≡ pos o
    → (c.tunnel_id == u && o == p) ≡ false
    → (store d c w).0 u p n ≡ d u p n
unfolding store
store-other d c w o u p n e other =
    rw e (write_files-other d c.tunnel_id o (files_of c) w u p n other)

store-negative :
    (d : Files) (c : TunnelCredentials) (w : Writes) (k : ℕ)
    → c.ordinal ≡ negsuc k
    → store d c w ≡ (d, false)
unfolding store
store-negative d c w k at = rw at refl

store-other_tunnel :
    (d : Files) (c : TunnelCredentials) (w : Writes) (u p : ℕ) (n : String) (z : ℤ)
    → c.ordinal ≡ z
    → (c.tunnel_id == u) ≡ false
    → (store d c w).0 u p n ≡ d u p n
store-other_tunnel d c w u p n (pos o) at e = store-other d c w o u p n at (ap (λ b. b && o == p) e)
store-other_tunnel d c w u p n (negsuc k) at e = ap (λ r. r.0 u p n) (store-negative d c w k at)

-- When credentials of a hop with a natural number are stored and no write fails, the call succeeds
-- and each of the five files of the hop holds the part of the message that belongs in it.
pub store-read :
    (d : Files) (c : TunnelCredentials) (o : ℕ)
    → c.ordinal ≡ pos o
    → let f = (store d c all_written).0 c.tunnel_id o in
      ((store d c all_written).1 ≡ true)
      × (f "server.pem" ≡ some c.server_cert_pem)
      × (f "server.key" ≡ some c.server_key_pem)
      × (f "client.pem" ≡ some c.client_cert_pem)
      × (f "client.key" ≡ some c.client_key_pem)
      × (f "ca.pem" ≡ some c.ca_pem)
unfolding store write_files
store-read d c o at =
    rw at (refl, ground arith, ground arith, ground arith, ground arith, ground arith)

-- Revoking a tunnel's credentials after they were stored, whether or not the store was complete,
-- leaves no file of the tunnel, on any hop, and every other tunnel's files as they were.
pub remove_tunnel-store :
    (d : Files) (c : TunnelCredentials) (w : Writes) (u p : ℕ) (n : String)
    → (remove_tunnel (store d c w).0 c.tunnel_id removed).0 u p n
      ≡ (if c.tunnel_id == u then none else d u p n)
unfolding remove_tunnel
remove_tunnel-store d c w u p n = elim (Bool-cases (c.tunnel_id == u)) [
  | inl e ↦ rw e refl
  | inr e ↦ rw e (store-other_tunnel d c w u p n c.ordinal refl e)
]
