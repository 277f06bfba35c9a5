-- ===== src/Theme/Colors.antt =====
-- `hexToRgb`, `formatFontFamily` and `softAccent` of web/src/theme/tokens.ts.
use Prim.Native.Char.{code}
use Prim.Native.String.{String, [], ◌∷◌, ◌++◌, count}
use guardian_cloud.Prelude.{
  ℕ, ◌+◌, ◌-◌, ◌*◌, ◌/◌, ◌%◌, ◌^◌, Bool, true, false, ◌&&◌, ◌||◌, Option, none, some, leb, ◌==◌,
  if◌then◌else◌, str_eq, to_string, is_empty, trim,
}
use guardian_cloud.Theme.Tokens.{ColorScheme}

-- the code of a letter after `toLowerCase`, over ASCII
abbrev pub lower : ℕ → ℕ
lower c = if leb b'A' c && leb c b'Z' then c + 32 else c

-- `a.toLowerCase() === b.toLowerCase()`
unfoldable pub eq_ignore_case : String → String → Bool
eq_ignore_case [] [] = true
eq_ignore_case (c ∷ s) (d ∷ t) = lower (code c) == lower (code d) && eq_ignore_case s t
eq_ignore_case _ _ = false

-- the value of a hexadecimal digit
abbrev pub hex_value : ℕ → Option ℕ
hex_value c =
    if leb b'0' c && leb c b'9'
    then some (c - b'0')
    else if leb b'a' c && leb c b'f'
    then some (c - b'a' + 10)
    else if leb b'A' c && leb c b'F'
    then some (c - b'A' + 10)
    else none

-- `parseInt(text, 16)` after some digits, of a text with no blank, sign or `0x` in front: the
-- longest prefix of digits counts.
unfoldable pub parse_hex : ℕ → String → ℕ
parse_hex acc [] = acc
parse_hex acc (c ∷ s) = elim (hex_value (code c)) [
  | none ↦ acc
  | some d ↦ parse_hex (acc * 16 + d) s
]

-- `text.replace('#', '')`: the first one goes
unfoldable pub without_hash : String → String
without_hash [] = []
without_hash (c ∷ s) = if code c == b'#' then s else c ∷ without_hash s

-- `text.split('').map((c) => c + c).join('')`
unfoldable pub doubled : String → String
doubled [] = []
doubled (c ∷ s) = c ∷ (c ∷ doubled s)

-- `(num >> k) & 255`, on 32 bits
abbrev pub byte_at : ℕ → ℕ → ℕ
byte_at k num = num % 2 ^ 32 / 2 ^ k % 256

-- the digits of a colour, of which a short form has one for two
unfoldable pub full_hex : String → String
unfolding without_hash doubled
full_hex hex = let h = without_hash hex in if count h == 3 then doubled h else h

-- the channels of a number, in decimal
unfoldable pub rgb_of : ℕ → String
unfolding to_string
rgb_of num =
    to_string (byte_at 16 num)
    ++ ("," ++ (to_string (byte_at 8 num) ++ ("," ++ to_string (byte_at 0 num))))

-- `>>` takes `NaN`, the number of a text without digits, as 0.
unfoldable pub hex_to_rgb : String → String
unfolding full_hex parse_hex rgb_of
hex_to_rgb hex = rgb_of (parse_hex 0 (full_hex hex))

abbrev is_quote : ℕ → Bool
is_quote c = c == 34 || c == 39

-- `text.replace(/^["']|["']$/g, '')`
unfoldable pub without_first_quote : String → String
without_first_quote [] = []
without_first_quote (c ∷ s) = if is_quote (code c) then s else c ∷ s

unfoldable pub without_last_quote : String → String
without_last_quote [] = []
without_last_quote (c ∷ s) =
    if is_quote (code c) && is_empty s then [] else c ∷ without_last_quote s

unfoldable pub format_font_family : String → String
unfolding trim without_first_quote without_last_quote
format_font_family font =
    let name = without_last_quote (without_first_quote (trim font)) in
    if str_eq name ""
    then "sans-serif"
    else "\"" ++ (name ++ "\", ui-sans-serif, system-ui, sans-serif")

unfoldable pub soft_accent : String → ColorScheme → String
unfolding hex_to_rgb
soft_accent accent ColorScheme.dark = "rgba(" ++ (hex_to_rgb accent ++ ",0.15)")
soft_accent accent ColorScheme.light = "color-mix(in srgb, " ++ (accent ++ " 16%, white)")
