-- ===== src/Base/Text.antt =====
-- What the code uses of Rust's `str`: a text is its sequence of Unicode characters.
use emorelay.Base.{
  ℕ, ◌+◌, Bool, true, false, ◌&&◌, ◌||◌, List, [], ◌∷◌, String, ◌==◌, leb, ltb, if◌then◌else◌,
}
use Prim.Native.Char.{Char, code}

-- The Unicode property White_Space.
abbrev pub is_whitespace : ℕ → Bool
is_whitespace c =
    (leb 9 c && leb c 13)
    || (c == 32
        || (c == 133
            || (c == 160
                || (c == 5760
                    || ((leb 8192 c && leb c 8202)
                        || (c == 8232
                            || (c == 8233 || (c == 8239 || (c == 8287 || c == 12288)))))))))

abbrev pub is_empty : String → Bool
is_empty String.[] = true
is_empty (String.◌∷◌ c s) = false

abbrev pub trim_start : String → String
trim_start String.[] = String.[]
trim_start (String.◌∷◌ c s) =
    let rest = trim_start s in if is_whitespace (code c) then rest else String.◌∷◌ c s

abbrev pub trim_end : String → String
trim_end String.[] = String.[]
trim_end (String.◌∷◌ c s) =
    let rest = trim_end s in
    if is_whitespace (code c) && is_empty rest then String.[] else String.◌∷◌ c rest

unfoldable pub trim : String → String
trim s = trim_end (trim_start s)

-- The bytes of a character in UTF-8.
abbrev pub len_utf8 : ℕ → ℕ
len_utf8 c = if ltb c 128 then 1 else (if ltb c 2048 then 2 else (if ltb c 65536 then 3 else 4))

abbrev pub len : String → ℕ
len String.[] = 0
len (String.◌∷◌ c s) = len_utf8 (code c) + len s

abbrev pub all_chars : (ℕ → Bool) → String → Bool
all_chars p String.[] = true
all_chars p (String.◌∷◌ c s) = p (code c) && all_chars p s

abbrev pub starts_with : ℕ → String → Bool
starts_with a String.[] = false
starts_with a (String.◌∷◌ c s) = code c == a

abbrev pub ends_with : ℕ → String → Bool
ends_with a String.[] = false
ends_with a (String.◌∷◌ c s) = let rest = ends_with a s in if is_empty s then code c == a else rest

abbrev pub push_front : Char → List String → List String
push_front c [] = String.◌∷◌ c String.[] ∷ []
push_front c (s ∷ ss) = String.◌∷◌ c s ∷ ss

-- `split(sep)`: one part more than there are separators.
abbrev pub split : ℕ → String → List String
split sep String.[] = String.[] ∷ []
split sep (String.◌∷◌ c s) =
    let rest = split sep s in if code c == sep then String.[] ∷ rest else push_front c rest

abbrev pub is_ascii_digit : ℕ → Bool
is_ascii_digit c = leb 48 c && leb c 57

abbrev pub is_ascii_alphanumeric : ℕ → Bool
is_ascii_alphanumeric c = is_ascii_digit c || ((leb 65 c && leb c 90) || (leb 97 c && leb c 122))
