-- ===== src/Text.antt =====
-- The functions of Go's package strings that the program calls, on native texts. `to_lower` maps
-- the ASCII letters only; the texts it is given are hardware names, ports and MAC addresses.
pub mod Laws
pub mod Cut
use ironic_temper.Base.{
  ltb, ◌/◌, ◌%◌, ℕ, zero, suc, ◌+◌, ◌-◌, Char, code, len_utf8, String, ◌<>◌, Bool, true, false,
  ◌&&◌, ◌||◌, List, [], ◌∷◌, leb, ◌==◌, if◌then◌else◌,
}

-- `s == ""`
abbrev pub is_empty : String → Bool
is_empty String.[] = true
is_empty (String.◌∷◌ c s) = false

pub has_prefix : String → String → Bool
has_prefix s String.[] = true
has_prefix String.[] (String.◌∷◌ d p) = false
has_prefix (String.◌∷◌ c s) (String.◌∷◌ d p) = code c == code d && has_prefix s p

-- `strings.Contains(s, sub)`
unfoldable pub contains : String → String → Bool
unfolding has_prefix
contains String.[] sub = is_empty sub
contains (String.◌∷◌ c s) sub = has_prefix (String.◌∷◌ c s) sub || contains s sub

abbrev pub cons_head : Char → List String → List String
cons_head c [] = String.◌∷◌ c "" ∷ []
cons_head c (p ∷ ps) = String.◌∷◌ c p ∷ ps

-- `strings.Split(s, sep)` at a separator of one character, given by its code.
unfoldable pub split : ℕ → String → List String
split sep String.[] = "" ∷ []
split sep (String.◌∷◌ c s) =
    let rest = split sep s in if code c == sep then "" ∷ rest else cons_head c rest

-- `strings.ReplaceAll(s, sep, "")`
unfoldable pub remove_all : ℕ → String → String
remove_all sep String.[] = ""
remove_all sep (String.◌∷◌ c s) =
    let rest = remove_all sep s in if code c == sep then rest else String.◌∷◌ c rest

char_or : String → ℕ → Char → Char
char_or String.[] i d = d
char_or (String.◌∷◌ c s) zero d = c
char_or (String.◌∷◌ c s) (suc i) d = char_or s i d

pub lower_char : Char → Char
unfolding char_or
lower_char c =
    if leb b'A' (code c) then char_or "abcdefghijklmnopqrstuvwxyz" (code c - b'A') c else c

-- `strings.ToLower(s)`
unfoldable pub to_lower : String → String
unfolding lower_char
to_lower String.[] = ""
to_lower (String.◌∷◌ c s) = String.◌∷◌ (lower_char c) (to_lower s)

-- `len(s)` counts bytes.
unfoldable pub byte_len : String → ℕ
byte_len String.[] = 0
byte_len (String.◌∷◌ c s) = len_utf8 c + byte_len s

-- `strings.Join(parts, sep)`
unfoldable pub join : String → List String → String
join sep [] = ""
join sep (p ∷ []) = p
join sep (p ∷ q ∷ ps) = p <> (sep <> join sep (q ∷ ps))

digit : ℕ → String
unfolding char_or
digit d = String.◌∷◌ (char_or "0123456789" d "?") ""

decimal_digits : ℕ → ℕ → String
unfolding digit
decimal_digits zero n = ""
decimal_digits (suc fuel) n =
    let rest = decimal_digits fuel (n / 10) in if ltb n 10 then digit n else rest <> digit (n % 10)

-- `strconv.FormatInt(n, 10)` and `fmt.Sprint(n)`; an int64 has nineteen digits at most.
unfoldable pub decimal : ℕ → String
unfolding decimal_digits
decimal n = decimal_digits 20 n
