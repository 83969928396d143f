-- ===== src/Panel/Util/Host.antt =====
-- crates/panel-server/src/util.rs: which texts may be the target of a rule.
use emorelay.Base.{
  ℕ, Bool, true, false, not, ◌&&◌, ◌||◌, Option, List, [], ◌∷◌, String, ◌==◌, ltb, leb, is_some,
  if◌then◌else◌,
}
use emorelay.Base.Ip.{IpAddr}
use emorelay.Base.Text.{
  is_empty, len, split, starts_with, ends_with, all_chars, is_ascii_alphanumeric, is_ascii_digit,
}

abbrev pub dot : ℕ
dot = 46

abbrev pub hyphen : ℕ
hyphen = 45

abbrev pub is_valid_segment : String → Bool
is_valid_segment seg =
    not (is_empty seg)
    && (leb (len seg) 63
        && (not (starts_with hyphen seg)
            && (not (ends_with hyphen seg)
                && all_chars (λ c. is_ascii_alphanumeric c || c == hyphen) seg)))

-- Every segment is well-formed, and the last is not a number; the loop stops at the first bad one.
abbrev pub all_segments : List String → Bool
all_segments [] = true
all_segments (seg ∷ []) = is_valid_segment seg && not (all_chars is_ascii_digit seg)
all_segments (seg ∷ s ∷ segs) = is_valid_segment seg && all_segments (s ∷ segs)

module _ (parse : String → Option IpAddr) where
  unfoldable pub is_valid_target_host : String → Bool
  is_valid_target_host host =
      if is_empty host || ltb 253 (len host)
      then false
      else (if is_some (parse host) then true else all_segments (split dot host))
