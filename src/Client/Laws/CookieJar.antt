-- ===== src/Client/Laws/CookieJar.antt =====
-- `readCookie` (web/src/lib/apiClient.ts) against the cookies that the browser's text is made of.
use Prim.Native.Char.{Char, char, code}
use Prim.Native.String.compare
use Prim.Native.String.{String, [], ◌∷◌, ◌++◌}
use mathlib.Core.Option
use text.Mathlib.TextLemmas.{nil-append, cons-append}
use guardian_cloud.Prelude.{
  ℕ, ◌≡◌, refl, ◌∙◌, ap, Bool, true, false, not, ◌&&◌, Option, none, some, List, ◌==◌,
  if◌then◌else◌, str_eq, arith,
}
use guardian_cloud.Client.Cookie.{strip, until_semicolon, after_first, match_cookie}

-- a text without a character
abbrev pub lacks : ℕ → String → Bool
lacks x [] = true
lacks x (c ∷ s) = not (code c == x) && lacks x s

-- The cookies of a page, as `document.cookie` writes them: `n=v; m=w`.
abbrev pub after_cookies : List (String × String) → String
after_cookies List.[] = ""
after_cookies (List.◌∷◌ (n, v) jar) = "; " ++ (n ++ "=" ++ v ++ after_cookies jar)

abbrev pub document_cookie : List (String × String) → String
document_cookie List.[] = ""
document_cookie (List.◌∷◌ (n, v) jar) = n ++ "=" ++ v ++ after_cookies jar

-- names without `=` and `;`, values without `;`
abbrev pub IsJar : List (String × String) → Type 0
IsJar List.[] = Unit
IsJar (List.◌∷◌ (n, v) jar) =
    (lacks b'=' n ≡ true) × (lacks b';' n ≡ true) × (lacks b';' v ≡ true) × IsJar jar

abbrev pub value_of : String → List (String × String) → Option String
value_of name List.[] = none
value_of name (List.◌∷◌ (n, v) jar) = if str_eq name n then some v else value_of name jar

abbrev equals_sign : Char
equals_sign = char b'=' tt

abbrev semicolon : Char
semicolon = char b';' tt

abbrev space : Char
space = char b' ' tt

equals_sign-append : (s : String) → "=" ++ s ≡ equals_sign ∷ s
equals_sign-append s = cons-append equals_sign [] s ∙ ap (λ t. equals_sign ∷ t) (nil-append s)

boundary-append : (s : String) → "; " ++ s ≡ semicolon ∷ (space ∷ s)
boundary-append s =
    cons-append semicolon (space ∷ []) s
    ∙ ap (λ t. semicolon ∷ t) (cons-append space [] s ∙ ap (λ t. space ∷ t) (nil-append s))

str_eq-cons_cons :
    (c d : Char) (s t : String)
    → str_eq (c ∷ s) (d ∷ t) ≡ (if code c == code d then str_eq s t else false)
str_eq-cons_cons c d s t = rw (compare.cons-cons c d s t) (ground arith)

until_after_cookies : (jar : List (String × String)) → until_semicolon (after_cookies jar) ≡ ""
unfolding until_semicolon
until_after_cookies List.[] = refl
until_after_cookies (List.◌∷◌ (n, v) jar) =
    rw (boundary-append (n ++ "=" ++ v ++ after_cookies jar)) refl

until_semicolon-append :
    (v : String) (jar : List (String × String))
    → lacks b';' v ≡ true
    → until_semicolon (v ++ after_cookies jar) ≡ v
unfolding until_semicolon
until_semicolon-append [] jar h = rw nil-append (until_after_cookies jar)
until_semicolon-append (c ∷ v) jar h = rw cons-append (ground (arith, until_semicolon-append v jar))

after_first-append :
    (x : Char) (t v s : String)
    → lacks (code x) v ≡ true
    → after_first (x ∷ t) (v ++ s) ≡ after_first (x ∷ t) s
unfolding after_first strip
after_first-append x t [] s h = ap (after_first (x ∷ t)) (nil-append s)
after_first-append x t (c ∷ v) s h = rw cons-append (ground (arith, after_first-append x t v s))

strip_name :
    (name n s : String)
    → lacks b'=' name ≡ true
    → lacks b'=' n ≡ true
    → strip (name ++ "=") (n ++ "=" ++ s) ≡ (if str_eq name n then some s else none)
unfolding strip
strip_name [] [] s h k = rw (nil-append ("=" ++ s), equals_sign-append s) refl
strip_name [] (c ∷ n) s h k = rw (cons-append c n ("=" ++ s), compare.nil-cons c n) (ground arith)
strip_name (c ∷ name) [] s h k =
    rw
      (nil-append ("=" ++ s), equals_sign-append s, cons-append c name "=", compare.cons-nil c name)
      (ground arith)
strip_name (c ∷ name) (d ∷ n) s h k =
    rw (cons-append c name "=", cons-append d n ("=" ++ s), str_eq-cons_cons c d name n)
      (ground (arith, strip_name name n s))

after_first-skip :
    (t n v s : String)
    → lacks b';' n ≡ true
    → lacks b';' v ≡ true
    → after_first (semicolon ∷ t) (n ++ "=" ++ v ++ s) ≡ after_first (semicolon ∷ t) s
unfolding after_first strip
after_first-skip t n v s h k =
    after_first-append semicolon t n ("=" ++ v ++ s) h
    ∙ ap (after_first (semicolon ∷ t)) (equals_sign-append (v ++ s))
    ∙ after_first-append semicolon t v s k

-- the group of the first match, or else what a later one gives
either_group :
    (b : Bool) {x : Option String} (y z : Option String) (r : String) {v : String}
    → x ≡ (if b then some r else none)
    → until_semicolon r ≡ v
    → Option.map until_semicolon y ≡ z
    → Option.map until_semicolon (elim x [ some rest ↦ some rest | none ↦ y ])
      ≡ (if b then some v else z)
either_group true y z r e f g = rw e (ap some f)
either_group false y z r e f g = rw e g

match_later :
    (name : String) (jar : List (String × String))
    → lacks b'=' name ≡ true
    → IsJar jar
    → Option.map until_semicolon
        (after_first (semicolon ∷ (space ∷ (name ++ "="))) (after_cookies jar))
      ≡ value_of name jar
unfolding after_first strip
match_later name List.[] h w = refl
match_later name (List.◌∷◌ (n, v) jar) h w =
    let (hn, sn, sv, w) = w in
    let e = strip_name name n (v ++ after_cookies jar) h hn in
    let skip = after_first-skip (space ∷ (name ++ "=")) n v (after_cookies jar) sn sv in
    rw (boundary-append (n ++ "=" ++ v ++ after_cookies jar)) (
      either_group (str_eq name n) _ (value_of name jar) _ e (until_semicolon-append v jar sv)
        (ap (Option.map until_semicolon) skip ∙ match_later name jar h w))

strip_name-nil : (name : String) → strip (name ++ "=") "" ≡ none
unfolding strip
strip_name-nil [] = refl
strip_name-nil (c ∷ name) = rw (cons-append c name "=") refl

-- In the text of a page's cookies, `readCookie`'s expression finds the value of the first cookie
-- with exactly the name, and nothing where there is none; the names have no `=` and `;`, the
-- values no `;`.
pub match_cookie-document_cookie :
    (name : String) (jar : List (String × String))
    → lacks b'=' name ≡ true
    → IsJar jar
    → match_cookie name (document_cookie jar) ≡ value_of name jar
unfolding match_cookie after_first
match_cookie-document_cookie name List.[] h w =
    rw (strip_name-nil name, boundary-append (name ++ "=")) refl
match_cookie-document_cookie name (List.◌∷◌ (n, v) jar) h w =
    let (hn, sn, sv, w) = w in
    let e = strip_name name n (v ++ after_cookies jar) h hn in
    let skip = after_first-skip (space ∷ (name ++ "=")) n v (after_cookies jar) sn sv in
    either_group (str_eq name n) _ (value_of name jar) _ e (until_semicolon-append v jar sv) (
      ap (λ t. Option.map until_semicolon (after_first t (n ++ "=" ++ v ++ after_cookies jar)))
        (boundary-append (name ++ "="))
      ∙ ap (Option.map until_semicolon) skip
      ∙ match_later name jar h w)
