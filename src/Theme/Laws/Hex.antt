-- ===== src/Theme/Laws/Hex.antt =====
-- `hexToRgb` reads the two forms of a hexadecimal colour.
use Prim.Native.Char.{Char, char, code}
use Prim.Native.String.{String, [], ◌∷◌, ◌++◌, count}
use text.Mathlib.TextLemmas.{length-cons}
use guardian_cloud.Prelude.{
  ℕ, zero, suc, ◌+◌, ◌*◌, ◌/◌, ◌%◌, ◌<◌, ◌≡◌, refl, ap, ◌∙◌, some, to_string, arith,
}
use guardian_cloud.Theme.Colors.{hex_value, parse_hex, byte_at, full_hex, rgb_of, hex_to_rgb}

-- a hexadecimal digit as it is written
abbrev pub hex_char : ℕ → Char
hex_char zero = char b'0' tt
hex_char (suc zero) = char b'1' tt
hex_char (suc (suc zero)) = char b'2' tt
hex_char (suc (suc (suc zero))) = char b'3' tt
hex_char (suc (suc (suc (suc zero)))) = char b'4' tt
hex_char (suc (suc (suc (suc (suc zero))))) = char b'5' tt
hex_char (suc (suc (suc (suc (suc (suc zero)))))) = char b'6' tt
hex_char (suc (suc (suc (suc (suc (suc (suc zero))))))) = char b'7' tt
hex_char (suc (suc (suc (suc (suc (suc (suc (suc zero)))))))) = char b'8' tt
hex_char (suc (suc (suc (suc (suc (suc (suc (suc (suc zero))))))))) = char b'9' tt
hex_char (suc (suc (suc (suc (suc (suc (suc (suc (suc (suc zero)))))))))) = char b'a' tt
hex_char (suc (suc (suc (suc (suc (suc (suc (suc (suc (suc (suc zero))))))))))) = char b'b' tt
hex_char (suc (suc (suc (suc (suc (suc (suc (suc (suc (suc (suc (suc zero)))))))))))) = char b'c' tt
hex_char (suc (suc (suc (suc (suc (suc (suc (suc (suc (suc (suc (suc (suc zero))))))))))))) =
    char b'd' tt
hex_char (suc (suc (suc (suc (suc (suc (suc (suc (suc (suc (suc (suc (suc (suc zero)))))))))))))) =
    char b'e' tt
hex_char
      (suc
        (suc (suc (suc (suc (suc (suc (suc (suc (suc (suc (suc (suc (suc (suc zero))))))))))))))) =
    char b'f' tt
hex_char _ = char b'0' tt

-- a byte in two digits, before a text
abbrev pub hex_byte : ℕ → String → String
hex_byte n s = hex_char (n / 16) ∷ (hex_char (n % 16) ∷ s)

abbrev hash : Char
hash = char b'#' tt

hex_value-hex_char : (d : ℕ) → d < 16 → hex_value (code (hex_char d)) ≡ some d
hex_value-hex_char zero h = refl
hex_value-hex_char (suc zero) h = refl
hex_value-hex_char (suc (suc zero)) h = refl
hex_value-hex_char (suc (suc (suc zero))) h = refl
hex_value-hex_char (suc (suc (suc (suc zero)))) h = refl
hex_value-hex_char (suc (suc (suc (suc (suc zero))))) h = refl
hex_value-hex_char (suc (suc (suc (suc (suc (suc zero)))))) h = refl
hex_value-hex_char (suc (suc (suc (suc (suc (suc (suc zero))))))) h = refl
hex_value-hex_char (suc (suc (suc (suc (suc (suc (suc (suc zero)))))))) h = refl
hex_value-hex_char (suc (suc (suc (suc (suc (suc (suc (suc (suc zero))))))))) h = refl
hex_value-hex_char (suc (suc (suc (suc (suc (suc (suc (suc (suc (suc zero)))))))))) h = refl
hex_value-hex_char (suc (suc (suc (suc (suc (suc (suc (suc (suc (suc (suc zero))))))))))) h = refl
hex_value-hex_char (suc (suc (suc (suc (suc (suc (suc (suc (suc (suc (suc (suc zero)))))))))))) h =
    refl
hex_value-hex_char
      (suc (suc (suc (suc (suc (suc (suc (suc (suc (suc (suc (suc (suc zero))))))))))))) h =
    refl
hex_value-hex_char
      (suc (suc (suc (suc (suc (suc (suc (suc (suc (suc (suc (suc (suc (suc zero)))))))))))))) h =
    refl
hex_value-hex_char
      (suc (suc (suc (suc (suc (suc (suc (suc (suc (suc (suc (suc (suc (suc (suc zero)))))))))))))))
      h =
    refl
hex_value-hex_char
      (suc
        (suc (suc (suc (suc (suc (suc (suc (suc (suc (suc (suc (suc (suc (suc (suc n))))))))))))))))
      h =
    absurd (omega arith)

parse_hex-hex_char :
    (acc d : ℕ) (s : String) → d < 16 → parse_hex acc (hex_char d ∷ s) ≡ parse_hex (acc * 16 + d) s
unfolding parse_hex
parse_hex-hex_char acc d s h = rw (hex_value-hex_char d h, parse_hex)

parse_hex-hex_byte :
    (acc n : ℕ) (s : String) → n < 256 → parse_hex acc (hex_byte n s) ≡ parse_hex (acc * 256 + n) s
parse_hex-hex_byte acc n s h =
    parse_hex-hex_char acc (n / 16) (hex_char (n % 16) ∷ s) (omega arith)
    ∙ parse_hex-hex_char (acc * 16 + n / 16) (n % 16) s (omega arith)
    ∙ ap (λ k. parse_hex k s) (omega arith)

-- the text of three bytes in decimal
abbrev pub triple : ℕ → ℕ → ℕ → String
triple r g b = to_string r ++ ("," ++ (to_string g ++ ("," ++ to_string b)))

rgb_of_bytes :
    (r g b : ℕ)
    → r < 256
    → g < 256
    → b < 256
    → rgb_of (((0 * 256 + r) * 256 + g) * 256 + b) ≡ triple r g b
unfolding rgb_of
rgb_of_bytes r g b hr hg hb =
    let er : byte_at 16 (((0 * 256 + r) * 256 + g) * 256 + b) ≡ r = omega arith in
    let eg : byte_at 8 (((0 * 256 + r) * 256 + g) * 256 + b) ≡ g = omega arith in
    let eb : byte_at 0 (((0 * 256 + r) * 256 + g) * 256 + b) ≡ b = omega arith in cc

hex_bytes :
    (r g b : ℕ)
    → r < 256
    → g < 256
    → b < 256
    → rgb_of (parse_hex 0 (hex_byte r (hex_byte g (hex_byte b [])))) ≡ triple r g b
unfolding parse_hex
hex_bytes r g b hr hg hb =
    ap rgb_of (
      parse_hex-hex_byte 0 r (hex_byte g (hex_byte b [])) hr
      ∙ parse_hex-hex_byte (0 * 256 + r) g (hex_byte b []) hg
      ∙ parse_hex-hex_byte ((0 * 256 + r) * 256 + g) b [] hb)
    ∙ rgb_of_bytes r g b hr hg hb

count_six : (a b c d e f : Char) → count (a ∷ (b ∷ (c ∷ (d ∷ (e ∷ (f ∷ [])))))) ≡ 6
count_six a b c d e f = simp length-cons

count_three : (a b c : Char) → count (a ∷ (b ∷ (c ∷ []))) ≡ 3
count_three a b c = simp length-cons

full_hex_six :
    (a b c d e f : Char)
    → full_hex (hash ∷ (a ∷ (b ∷ (c ∷ (d ∷ (e ∷ (f ∷ [])))))))
      ≡ a ∷ (b ∷ (c ∷ (d ∷ (e ∷ (f ∷ [])))))
unfolding full_hex
full_hex_six a b c d e f = rw (count_six a b c d e f) refl

full_hex_three :
    (a b c : Char) → full_hex (hash ∷ (a ∷ (b ∷ (c ∷ [])))) ≡ a ∷ (a ∷ (b ∷ (b ∷ (c ∷ (c ∷ [])))))
unfolding full_hex
full_hex_three a b c = rw (count_three a b c) refl

-- two equal digits are a byte
hex_byte_twice : (x : ℕ) (s : String) → x < 16 → hex_char x ∷ (hex_char x ∷ s) ≡ hex_byte (17 * x) s
hex_byte_twice x s h =
    let high : 17 * x / 16 ≡ x = omega arith in
    let low : 17 * x % 16 ≡ x = omega arith in rw (high, low) refl

-- A colour of three bytes in six digits is read as the three bytes in decimal, and a colour of
-- three digits as the one that has each digit twice.
pub hex_to_rgb_lem :
    (r g b : ℕ)
    → r < 256
    → g < 256
    → b < 256
    → (x y z : ℕ) → x < 16
    → y < 16
    → z < 16
    → (hex_to_rgb (hash ∷ hex_byte r (hex_byte g (hex_byte b []))) ≡ triple r g b)
      × (hex_to_rgb (hash ∷ (hex_char x ∷ (hex_char y ∷ (hex_char z ∷ []))))
          ≡ triple (17 * x) (17 * y) (17 * z))
unfolding hex_to_rgb
hex_to_rgb_lem r g b hr hg hb x y z hx hy hz = (
  ap (λ s. rgb_of (parse_hex 0 s))
        (full_hex_six (hex_char (r / 16)) (hex_char (r % 16)) (hex_char (g / 16))
          (hex_char (g % 16)) (hex_char (b / 16)) (hex_char (b % 16)))
      ∙ hex_bytes r g b hr hg hb,
  ap (λ s. rgb_of (parse_hex 0 s))
        (full_hex_three (hex_char x) (hex_char y) (hex_char z)
          ∙ hex_byte_twice x (hex_char y ∷ (hex_char y ∷ (hex_char z ∷ (hex_char z ∷ [])))) hx
          ∙ ap (hex_byte (17 * x)) (hex_byte_twice y (hex_char z ∷ (hex_char z ∷ [])) hy)
          ∙ ap (λ s. hex_byte (17 * x) (hex_byte (17 * y) s)) (hex_byte_twice z [] hz))
      ∙ hex_bytes (17 * x) (17 * y) (17 * z) (omega arith) (omega arith) (omega arith),
)
