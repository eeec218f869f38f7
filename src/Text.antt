-- ===== src/Text.antt =====
-- The methods of Python's `str` that src/kilix_telemetry/collect.py parses with. The classes of
-- printable characters and the case mapping are Unicode tables, which enter as a parameter; white
-- space and line breaks are the documented lists.
use Prim.Native.Char.{Char, code}
use Prim.Native.String as Str
use kilix_telemetry.Common.{
  ℕ, zero, suc, String, Bool, true, false, ◌&&◌, ◌||◌, ◌==◌, leb, Option, none, some, List, [], ◌∷◌,
  if◌then◌else◌,
}
use kilix_telemetry.Values.{prefix}

-- `str.isprintable` of a character, `str.lower` and `str.isdigit`.
pub record Unicode : Type 0 where
  pub is_printable : Char → Bool
  pub lower : String → String
  pub is_digits : String → Bool

abbrev within : ℕ → ℕ → ℕ → Bool
within low high c = leb low c && leb c high

-- The characters that `str.split()` and `str.strip()` take for white space.
unfoldable pub is_space : Char → Bool
is_space letter =
    let c = code letter in
    within 9 13 c
    || within 28 32 c
    || c == 133
    || c == 160
    || c == 5760
    || within 8192 8202 c
    || within 8232 8233 c
    || c == 8239
    || c == 8287
    || c == 12288

-- The characters at which `str.splitlines()` ends a line.
unfoldable pub is_break : Char → Bool
is_break letter =
    let c = code letter in within 10 13 c || within 28 30 c || c == 133 || within 8232 8233 c

-- `text[n:]`
unfoldable pub suffix_from : ℕ → String → String
suffix_from zero s = s
suffix_from (suc n) Str.[] = ""
suffix_from (suc n) (Str.◌∷◌ c s) = suffix_from n s

unfoldable pub is_empty : String → Bool
is_empty Str.[] = true
is_empty (Str.◌∷◌ c s) = false

-- `text or default`
abbrev pub text_or : String → String → String
text_or s default = if is_empty s then default else s

-- The word that a text begins with, which may be empty, in front of the other words.
abbrev add_word : String → List String → List String
add_word word words = if is_empty word then words else word ∷ words

unfoldable split_parts : String → String × List String
split_parts Str.[] = ("", [])
split_parts (Str.◌∷◌ c s) =
    let (word, words) = split_parts s in
    if is_space c then ("", add_word word words) else (Str.◌∷◌ c word, words)

-- `text.split()`
unfoldable pub split : String → List String
unfolding split_parts is_space is_empty
split s = let (word, words) = split_parts s in add_word word words

abbrev add_char : Char → List String → List String
add_char c [] = Str.◌∷◌ c "" ∷ []
add_char c (line ∷ lines) = Str.◌∷◌ c line ∷ lines

-- Whether a text begins with a line feed, which a carriage return before it belongs to.
abbrev begins_lf : String → Bool
begins_lf Str.[] = false
begins_lf (Str.◌∷◌ c s) = code c == 10

-- `text.splitlines()`
unfoldable pub split_lines : String → List String
unfolding is_break
split_lines Str.[] = []
split_lines (Str.◌∷◌ c s) =
    let lines = split_lines s in
    if code c == 13 && begins_lf s
    then lines
    else if is_break c
    then "" ∷ lines
    else add_char c lines

-- `text.partition(separator)` for a separator of one character; the middle part only says whether it
-- occurs.
unfoldable pub split_at : ℕ → String → String × Bool × String
split_at separator Str.[] = ("", false, "")
split_at separator (Str.◌∷◌ c s) =
    let (before, found, after) = split_at separator s in
    if code c == separator then ("", true, s) else (Str.◌∷◌ c before, found, after)

unfoldable strip_left : String → String
strip_left Str.[] = ""
strip_left (Str.◌∷◌ c s) = let rest = strip_left s in if is_space c then rest else Str.◌∷◌ c s

unfoldable strip_right : String → String
strip_right Str.[] = ""
strip_right (Str.◌∷◌ c s) =
    let rest = strip_right s in if is_space c && is_empty rest then "" else Str.◌∷◌ c rest

-- `text.strip()`
unfoldable pub strip : String → String
unfolding strip_left strip_right is_space is_empty
strip s = strip_right (strip_left s)

abbrev next_index : Option ℕ → Option ℕ
next_index none = none
next_index (some i) = some (suc i)

-- `text.find(c)` and `text.rfind(c)` for one character, with -1 as `none`.
unfoldable pub find : ℕ → String → Option ℕ
find c Str.[] = none
find c (Str.◌∷◌ d s) = let later = next_index (find c s) in if code d == c then some 0 else later

abbrev found_here : Bool → Option ℕ
found_here true = some 0
found_here false = none

unfoldable pub rfind : ℕ → String → Option ℕ
rfind c Str.[] = none
rfind c (Str.◌∷◌ d s) = elim (rfind c s) [ some i ↦ some (suc i) | none ↦ found_here (code d == c) ]

-- `text.startswith(start)`
unfoldable pub begins_with : String → String → Bool
begins_with Str.[] s = true
begins_with (Str.◌∷◌ c start) Str.[] = false
begins_with (Str.◌∷◌ c start) (Str.◌∷◌ d s) = code c == code d && begins_with start s

module _ (unicode : Unicode) where
  unfoldable pub masked : String → String
  masked Str.[] = ""
  masked (Str.◌∷◌ c s) =
      let rest = masked s in if unicode.is_printable c then Str.◌∷◌ c rest else Str.◌++◌ "?" rest

  -- `_safe_text`
  unfoldable pub safe_text : String → ℕ → String
  unfolding masked strip prefix
  safe_text value limit = prefix limit (masked (strip value))
