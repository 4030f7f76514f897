-- ===== src/Prelude/Text.antt =====
-- What the program asks of a `str`: its blank texts, its trimmed ends, its length in bytes.
use Prim.Native.Nat.{ℕ, ◌+◌}
use Prim.Native.Char.{code}
use Prim.Native.String.{String, len}
use mathlib.Core.Bool.{Bool, true, false, ◌&&◌, ◌||◌}
use mathlib.Core.Option.{Option, none, some}
use lite_agentify.Prelude.Tests.{leb, nat_beq, if◌then◌else◌}

-- `char::is_whitespace`: the code points of Unicode's White_Space.
abbrev pub is_whitespace : ℕ → Bool
is_whitespace c =
    leb 9 c && leb c 13
    || nat_beq c 32
    || nat_beq c 133
    || nat_beq c 160
    || nat_beq c 5760
    || leb 8192 c && leb c 8202
    || nat_beq c 8232
    || nat_beq c 8233
    || nat_beq c 8239
    || nat_beq c 8287
    || nat_beq c 12288

-- `text.trim().is_empty()`: every character is white space.
unfoldable pub is_blank : String → Bool
is_blank String.[] = true
is_blank (String.◌∷◌ c s) = is_whitespace (code c) && is_blank s

abbrev is_ascii_uppercase : ℕ → Bool
is_ascii_uppercase c = leb b'A' c && leb c b'Z'

-- `text.chars().all(|ch| ch.is_ascii_uppercase())`.
unfoldable pub all_ascii_uppercase : String → Bool
all_ascii_uppercase String.[] = true
all_ascii_uppercase (String.◌∷◌ c s) = is_ascii_uppercase (code c) && all_ascii_uppercase s

-- `text.len()`, in bytes.
abbrev pub byte_len : String → ℕ
byte_len s = len s

-- `text.strip_prefix(prefix)`.
unfoldable pub strip_prefix : String → String → Option String
strip_prefix String.[] s = some s
strip_prefix (String.◌∷◌ p ps) String.[] = none
strip_prefix (String.◌∷◌ p ps) (String.◌∷◌ c s) =
    let rest = strip_prefix ps s in if nat_beq (code p) (code c) then rest else none

abbrev cons_unless_slash : ℕ → String → String → String
cons_unless_slash c whole String.[] = if nat_beq c b'/' then String.[] else whole
cons_unless_slash c whole (String.◌∷◌ _ _) = whole

-- `text.trim_end_matches('/')`.
unfoldable pub trim_trailing_slash : String → String
trim_trailing_slash String.[] = String.[]
trim_trailing_slash (String.◌∷◌ c s) =
    let rest = trim_trailing_slash s in cons_unless_slash (code c) (String.◌∷◌ c rest) rest

abbrev pub is_empty_text : String → Bool
is_empty_text String.[] = true
is_empty_text (String.◌∷◌ _ _) = false

-- `text.trim_start()`.
unfoldable pub trim_start : String → String
trim_start String.[] = String.[]
trim_start (String.◌∷◌ c s) =
    let rest = trim_start s in if is_whitespace (code c) then rest else String.◌∷◌ c s

-- `text.trim_end()`.
unfoldable pub trim_end : String → String
trim_end String.[] = String.[]
trim_end (String.◌∷◌ c s) =
    let rest = trim_end s in
    if is_empty_text rest && is_whitespace (code c) then String.[] else String.◌∷◌ c rest

-- `text.trim()`.
unfoldable pub trim : String → String
unfolding trim_start trim_end
trim s = trim_end (trim_start s)

abbrev ascii_lower : ℕ → ℕ
ascii_lower c = if is_ascii_uppercase c then c + 32 else c

-- Whether the text in ASCII lower case starts with the needle.
unfoldable pub starts_lower : String → String → Bool
starts_lower String.[] s = true
starts_lower (String.◌∷◌ p ps) String.[] = false
starts_lower (String.◌∷◌ p ps) (String.◌∷◌ c s) =
    nat_beq (code p) (ascii_lower (code c)) && starts_lower ps s

-- `text.to_ascii_lowercase().contains(needle)`.
unfoldable pub contains_lower : String → String → Bool
unfolding starts_lower
contains_lower needle String.[] = starts_lower needle String.[]
contains_lower needle (String.◌∷◌ c s) =
    starts_lower needle (String.◌∷◌ c s) || contains_lower needle s
