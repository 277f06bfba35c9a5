-- ===== src/Prelude/Digits.antt =====
-- The last digits of a number that is printed in decimal.
use Prim.Native.Nat.{ℕ, zero, suc, ◌/◌, ◌%◌, ◌≤◌, ◌*◌, ◌^◌}
use Prim.Native.String.{String, [], ◌∷◌, ◌++◌, count}
use mathlib.Core.Path.{◌≡◌, refl, sym, ◌∙◌, ap, subst}
use native.Mathlib.Nat.{pow-succ'}
use native.Mathlib.Omega.{arith}
use text.Mathlib.TextLemmas.{
  nil-append, cons-append, append_assoc, length-append, append-nil, length-cons,
}
use guardian_cloud.Prelude.Text.{digit, decimal_from, to_string, drop_chars, slice_last}

drop_chars-append : (s t : String) → drop_chars (count s) (s ++ t) ≡ t
unfolding drop_chars
drop_chars-append [] t = nil-append t
drop_chars-append (c ∷ s) t = rw (cons-append, length-cons) (drop_chars-append s t)

count-digit : (d : ℕ) → count (digit d) ≡ 1
unfolding digit
count-digit zero = refl
count-digit (suc zero) = refl
count-digit (suc (suc zero)) = refl
count-digit (suc (suc (suc zero))) = refl
count-digit (suc (suc (suc (suc zero)))) = refl
count-digit (suc (suc (suc (suc (suc zero))))) = refl
count-digit (suc (suc (suc (suc (suc (suc zero)))))) = refl
count-digit (suc (suc (suc (suc (suc (suc (suc zero))))))) = refl
count-digit (suc (suc (suc (suc (suc (suc (suc (suc zero)))))))) = refl
count-digit _ = refl

-- The last characters of a text that ends in a known one.
pub slice_last-append : (s t : String) → slice_last (count t) (s ++ t) ≡ t
unfolding slice_last
slice_last-append s t =
    rw (length-append s t) (ap (λ k. drop_chars k (s ++ t)) (omega arith) ∙ drop_chars-append s t)

decimal_from-suc :
    (f n : ℕ) → 10 ≤ n → decimal_from (suc f) n ≡ decimal_from f (n / 10) ++ digit (n % 10)
unfolding decimal_from
decimal_from-suc f n h = ground arith

-- the text of the last `k` digits of a number
abbrev last_digits : ℕ → ℕ → String
last_digits zero n = ""
last_digits (suc k) n = last_digits k (n / 10) ++ digit (n % 10)

count-last_digits : (k n : ℕ) → count (last_digits k n) ≡ k
count-last_digits zero n = refl
count-last_digits (suc k) n =
    length-append _ _ ∙ omega (arith, count-last_digits k (n / 10), count-digit (n % 10))

pow_ten : (k : ℕ) → 10 ^ suc k ≡ 10 * 10 ^ k
pow_ten k = pow-succ' 10 k

pow_ten_pos : (k : ℕ) → 1 ≤ 10 ^ k
pow_ten_pos zero = omega arith
pow_ten_pos (suc k) = rw (pow_ten k) (omega (arith, pow_ten_pos k))

-- A number with more than `k` digits ends in its last `k` digits.
decimal_from-last_digits :
    (f k n : ℕ) → k ≤ f → 10 ^ k ≤ n → (s : String) × (decimal_from f n ≡ s ++ last_digits k n)
decimal_from-last_digits f zero n hf hn = (decimal_from f n, sym (append-nil _))
decimal_from-last_digits zero (suc k) n hf hn = absurd (omega arith)
decimal_from-last_digits (suc f) (suc k) n hf hn =
    let big : 10 * 10 ^ k ≤ n = rw (← pow_ten k) hn in
    let (s, e) = decimal_from-last_digits f k (n / 10) (omega arith) (omega arith) in
    (s, decimal_from-suc f n (omega (arith, pow_ten_pos k)) ∙ rw (e, append_assoc) refl)

pub slice_last-to_string :
    (k n : ℕ) → k ≤ n → 10 ^ k ≤ n → slice_last k (to_string n) ≡ last_digits k n
unfolding to_string
slice_last-to_string k n hk hn =
    let (s, e) = decimal_from-last_digits (suc n) k n (omega arith) hn in
    rw e (
      subst (λ c. slice_last c (s ++ last_digits k n) ≡ last_digits k n) (count-last_digits k n)
        (slice_last-append s (last_digits k n)))

last_digits_four : (n m : ℕ) → n % 10000 ≡ m % 10000 → last_digits 4 n ≡ last_digits 4 m
last_digits_four n m e =
    let ones : n % 10 ≡ m % 10 = omega arith in
    let tens : n / 10 % 10 ≡ m / 10 % 10 = omega arith in
    let hundreds : n / 10 / 10 % 10 ≡ m / 10 / 10 % 10 = omega arith in
    let thousands : n / 10 / 10 / 10 % 10 ≡ m / 10 / 10 / 10 % 10 = omega arith in
    rw (ones, tens, hundreds, thousands)

last_digits_three : (n m : ℕ) → n % 1000 ≡ m % 1000 → last_digits 3 n ≡ last_digits 3 m
last_digits_three n m e =
    let ones : n % 10 ≡ m % 10 = omega arith in
    let tens : n / 10 % 10 ≡ m / 10 % 10 = omega arith in
    let hundreds : n / 10 / 10 % 10 ≡ m / 10 / 10 % 10 = omega arith in rw (ones, tens, hundreds)

-- Two numbers of five digits or more that agree modulo 10000 have the same last four characters.
pub slice_last_four :
    (n m : ℕ)
    → 10000 ≤ n
    → 10000 ≤ m
    → n % 10000 ≡ m % 10000
    → slice_last 4 (to_string n) ≡ slice_last 4 (to_string m)
slice_last_four n m hn hm e =
    slice_last-to_string 4 n (omega arith) hn
    ∙ last_digits_four n m e
    ∙ sym (slice_last-to_string 4 m (omega arith) hm)

-- Two numbers of four digits or more that agree modulo 1000 have the same last three characters.
pub slice_last_three :
    (n m : ℕ)
    → 1000 ≤ n
    → 1000 ≤ m
    → n % 1000 ≡ m % 1000
    → slice_last 3 (to_string n) ≡ slice_last 3 (to_string m)
slice_last_three n m hn hm e =
    slice_last-to_string 3 n (omega arith) hn
    ∙ last_digits_three n m e
    ∙ sym (slice_last-to_string 3 m (omega arith) hm)
