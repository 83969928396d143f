-- ===== src/Agent/Sniff/Prefix.antt =====
-- A fingerprint is decided by the first eight bytes, and no prefix of a blocked stream is let go.
use emorelay.Base.{
  ℕ, ◌≤◌, ◌≡◌, refl, true, false, not, ◌&&◌, ◌||◌, List, [], ◌∷◌, ◌++◌, ◌==◌, length, All, arith,
  is_some,
}
use emorelay.Agent.Sniff.{
  starts_with, http_methods, has_bit, is_tls_client_hello, any_method, is_http_request, is_socks,
  sniff_blocked, tls_prefix_possible, any_prefix, http_prefix_possible, socks_prefix_possible,
  could_be_blocked, block_tls, block_http, block_socks,
}

tls-append : (b r : List ℕ) → is_tls_client_hello (b ++ r) ≡ true → tls_prefix_possible b ≡ true
unfolding is_tls_client_hello tls_prefix_possible
tls-append [] r h = refl
tls-append (x ∷ []) [] h = cc
tls-append (x ∷ []) (y ∷ []) h = cc
tls-append (x ∷ []) (y ∷ z ∷ r) h = ground arith
tls-append (x ∷ y ∷ []) [] h = cc
tls-append (x ∷ y ∷ []) (z ∷ r) h = ground arith
tls-append (x ∷ y ∷ z ∷ b) r h = h

tls_mono : (b r : List ℕ) → is_tls_client_hello b ≡ true → is_tls_client_hello (b ++ r) ≡ true
unfolding is_tls_client_hello
tls_mono [] r h = cc
tls_mono (x ∷ []) r h = cc
tls_mono (x ∷ y ∷ []) r h = cc
tls_mono (x ∷ y ∷ z ∷ b) r h = h

socks-append : (b r : List ℕ) → is_socks (b ++ r) ≡ true → socks_prefix_possible b ≡ true
unfolding is_socks socks_prefix_possible
socks-append [] r h = refl
socks-append (x ∷ []) [] h = cc
socks-append (x ∷ []) (y ∷ r) h = ground arith
socks-append (x ∷ y ∷ b) r h = ground arith

socks_mono : (b r : List ℕ) → is_socks b ≡ true → is_socks (b ++ r) ≡ true
unfolding is_socks
socks_mono [] r h = cc
socks_mono (x ∷ []) r h = cc
socks_mono (x ∷ y ∷ b) r h = h

starts_with-append :
    (b r m : List ℕ) → starts_with (b ++ r) m ≡ true → (starts_with m b || starts_with b m) ≡ true
starts_with-append [] r [] h = refl
starts_with-append [] r (y ∷ m) h = refl
starts_with-append (x ∷ b) r [] h = ground arith
starts_with-append (x ∷ b) r (y ∷ m) h = ground (arith, starts_with-append b r m)

starts_with_mono : (b r m : List ℕ) → starts_with b m ≡ true → starts_with (b ++ r) m ≡ true
starts_with_mono b r [] h = ground arith
starts_with_mono [] r (y ∷ m) h = cc
starts_with_mono (x ∷ b) r (y ∷ m) h = ground (arith, starts_with_mono b r m)

starts_with-long : (b r m : List ℕ) → length m ≤ length b → starts_with (b ++ r) m ≡ starts_with b m
starts_with-long b r [] h = ground arith
starts_with-long [] r (y ∷ m) h = absurd (omega arith)
starts_with-long (x ∷ b) r (y ∷ m) h = ground (arith, starts_with-long b r m)

any_method-append :
    (ms : List (List ℕ)) (b r : List ℕ) → any_method ms (b ++ r) ≡ true → any_prefix ms b ≡ true
unfolding any_method any_prefix
any_method-append [] b r h = cc
any_method-append (m ∷ ms) b r h =
    ground (arith, starts_with-append b r m, any_method-append ms b r)

any_method_mono :
    (ms : List (List ℕ)) (b r : List ℕ) → any_method ms b ≡ true → any_method ms (b ++ r) ≡ true
unfolding any_method
any_method_mono [] b r h = cc
any_method_mono (m ∷ ms) b r h = ground (arith, starts_with_mono b r m, any_method_mono ms b r)

any_method-long :
    (ms : List (List ℕ)) (b r : List ℕ)
    → All (λ m. length m ≤ length b) ms
    → any_method ms (b ++ r) ≡ any_method ms b
unfolding any_method
any_method-long [] b r h = refl
any_method-long (m ∷ ms) b r h =
    ground (arith, starts_with-long b r m h.0, any_method-long ms b r h.1)

sniff_cons :
    (x : ℕ) (b : List ℕ) (mask : ℕ)
    → is_some (sniff_blocked (x ∷ b) mask) ≡ (
        not (mask == 0)
        && ((has_bit mask block_tls && is_tls_client_hello (x ∷ b))
            || ((has_bit mask block_http && any_method http_methods (x ∷ b))
                || (has_bit mask block_socks && is_socks (x ∷ b)))))
unfolding sniff_blocked is_http_request
sniff_cons x b mask = ground arith

sniff_nil : (mask : ℕ) → is_some (sniff_blocked [] mask) ≡ false
unfolding sniff_blocked
sniff_nil mask = refl

-- While a blocked stream is still incomplete, what has come of it is recognised as a prefix.
pub sniff_blocked-prefix :
    (b r : List ℕ) (mask : ℕ)
    → is_some (sniff_blocked (b ++ r) mask) ≡ true
    → could_be_blocked b mask ≡ true
unfolding could_be_blocked http_prefix_possible
sniff_blocked-prefix [] [] mask h = cc (sniff_nil mask)
sniff_blocked-prefix [] (x ∷ r) mask h = ground (arith, sniff_cons x r mask)
sniff_blocked-prefix (x ∷ b) r mask h = ground (
  arith,
  sniff_cons x (b ++ r) mask,
  tls-append (x ∷ b) r,
  socks-append (x ∷ b) r,
  any_method-append http_methods (x ∷ b) r,
)

-- What is blocked stays blocked as more bytes come.
pub sniff_blocked_mono :
    (b r : List ℕ) (mask : ℕ)
    → is_some (sniff_blocked b mask) ≡ true
    → is_some (sniff_blocked (b ++ r) mask) ≡ true
unfolding sniff_blocked
sniff_blocked_mono [] r mask h = cc
sniff_blocked_mono (x ∷ b) r mask h = ground (
  arith,
  sniff_cons x (b ++ r) mask,
  sniff_cons x b mask,
  tls_mono (x ∷ b) r,
  socks_mono (x ∷ b) r,
  any_method_mono http_methods (x ∷ b) r,
)

tls-long : (b r : List ℕ) → 8 ≤ length b → is_tls_client_hello (b ++ r) ≡ is_tls_client_hello b
unfolding is_tls_client_hello
tls-long [] r h = absurd (omega arith)
tls-long (x ∷ []) r h = absurd (omega arith)
tls-long (x ∷ y ∷ []) r h = absurd (omega arith)
tls-long (x ∷ y ∷ z ∷ b) r h = refl

socks-long : (b r : List ℕ) → 8 ≤ length b → is_socks (b ++ r) ≡ is_socks b
unfolding is_socks
socks-long [] r h = absurd (omega arith)
socks-long (x ∷ []) r h = absurd (omega arith)
socks-long (x ∷ y ∷ b) r h = refl

-- Eight bytes decide.
pub sniff_blocked-long :
    (b r : List ℕ) (mask : ℕ)
    → 8 ≤ length b
    → is_some (sniff_blocked (b ++ r) mask) ≡ is_some (sniff_blocked b mask)
sniff_blocked-long [] r mask h = absurd (omega arith)
sniff_blocked-long (x ∷ b) r mask h =
    let http = any_method-long http_methods (x ∷ b) r (omega arith) in
    ground (
      arith,
      sniff_cons x (b ++ r) mask,
      sniff_cons x b mask,
      tls-long (x ∷ b) r h,
      socks-long (x ∷ b) r h,
      http,
    )
