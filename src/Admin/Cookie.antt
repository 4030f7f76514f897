-- ===== src/Admin/Cookie.antt =====
-- The session cookie, `session_cookie` and `set_cookie_header` in src/admin/mod.rs.
use Prim.Native.Char.{Char, code}
use Prim.Native.String.{◌++◌ as append, ◌∷◌ as push}
use lite_agentify.Prelude.{
  ℕ, String, Option, none, some, List, [], ◌∷◌, nat_beq, find_map, if◌then◌else◌, and_then,
}
use lite_agentify.Prelude.Text.{trim, strip_prefix}

abbrev pub session_cookie_name : String
session_cookie_name = "lite_agentify_admin"

-- A character in front of the first of some parts.
abbrev onto_first : Char → List String → List String
onto_first c [] = push c "" ∷ []
onto_first c (part ∷ parts) = push c part ∷ parts

-- `text.split(separator)`.
unfoldable pub split_at : ℕ → String → List String
split_at separator String.[] = "" ∷ []
split_at separator (String.◌∷◌ c s) =
    let rest = split_at separator s in
    if nat_beq (code c) separator then "" ∷ rest else onto_first c rest

-- What follows the name of the cookie and `=` in one pair.
abbrev pub cookie_value : String → Option String
cookie_value pair = and_then (strip_prefix session_cookie_name (trim pair)) (strip_prefix "=")

-- `cookie` is the text of the `Cookie` header.
unfoldable pub session_cookie : Option String → Option String
unfolding split_at trim strip_prefix
session_cookie none = none
session_cookie (some cookie) = find_map cookie_value (split_at b';' cookie)

-- `set_cookie_header`, with the decimal text of the age.
abbrev pub set_cookie_header : (token max_age_secs : String) → String
set_cookie_header token max_age_secs = append session_cookie_name (
    append "="
      (append token (append "; HttpOnly; SameSite=Strict; Path=/admin; Max-Age=" max_age_secs)))
