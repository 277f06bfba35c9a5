-- ===== src/Client/Cookie.antt =====
-- `readCookie` (web/src/lib/apiClient.ts): the regular expression over `document.cookie`, for a name
-- without characters that an expression reads specially, which the two names in use are.
use Prim.Native.Char.{code}
use Prim.Native.String.{String, [], ◌∷◌, ◌++◌}
use mathlib.Core.Option
use guardian_cloud.Prelude.{Option, none, some, ◌==◌, if◌then◌else◌}

-- what follows a prefix
unfoldable pub strip : String → String → Option String
strip [] s = some s
strip (c ∷ p) [] = none
strip (c ∷ p) (d ∷ s) = if code c == code d then strip p s else none

-- `[^;]*` at the start of a text
unfoldable pub until_semicolon : String → String
until_semicolon [] = []
until_semicolon (c ∷ s) = let rest = until_semicolon s in if code c == b';' then [] else c ∷ rest

-- what follows the leftmost occurrence of a text
unfoldable pub after_first : String → String → Option String
after_first t [] = strip t []
after_first t (c ∷ s) =
    let later = after_first t s in elim (strip t (c ∷ s)) [ some rest ↦ some rest | none ↦ later ]

-- the group of `(?:^|; )name=([^;]*)`: at the start of the text, or else after the first `; name=`
unfoldable pub match_cookie : String → String → Option String
unfolding strip until_semicolon after_first
match_cookie name cookies = Option.map until_semicolon (elim (strip (name ++ "=") cookies) [
  | some rest ↦ some rest
  | none ↦ after_first ("; " ++ (name ++ "=")) cookies
])
