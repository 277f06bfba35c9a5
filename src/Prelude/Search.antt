-- ===== src/Prelude/Search.antt =====
-- Laws of `find`, `find_and_set` and `filter`, over a test or over the objects' ids.
use mathlib.Core.Option
use guardian_cloud.Prelude.Tests.{Option-cases, one_if, if◌then◌else◌}
use guardian_cloud.Prelude.Lists.{Change, length, find, find_index, find_and_set, filter, count}
use Prim.Native.Nat.{◌+◌, ◌≤◌}
use Prim.Native.String.{String}
use mathlib.Core.Bool.{Bool, true, false, not, ◌&&◌}
use mathlib.Core.List.{List, [], ◌∷◌, ◌++◌, map}
use mathlib.Core.Logic.{inl, inr, ◌↔◌}
use mathlib.Core.Option.{Option, none, some}
use mathlib.Core.Path.{◌≡◌, refl, sym}
use native.Mathlib.Omega.{arith}
use text.Mathlib.Text.{◌==◌ as str_eq}
use text.Mathlib.TextEquality.{eq_iff}

module _ {ℓ} {A : Type ℓ} where
  -- The array after a write to the first element that passes a test.
  unfoldable pub update_first : (A → Bool) → (A → A) → List A → List A
  update_first p f [] = []
  update_first p f (x ∷ xs) = if p x then f x ∷ xs else x ∷ update_first p f xs

  pub find_and_set_lem :
      (p : A → Bool) (f : A → A) (xs : List A)
      → find_and_set p f xs
        ≡ Option.map
            (λ x. record { before = x; after = f x; items = update_first p f xs })
            (find p xs)
  unfolding find_and_set find_index find update_first
  find_and_set_lem p f [] = refl
  find_and_set_lem p f (x ∷ xs) = ground (arith, find_and_set_lem p f xs)

  pub length-update_first :
      (p : A → Bool) (f : A → A) (xs : List A) → length (update_first p f xs) ≡ length xs
  unfolding update_first
  length-update_first p f [] = refl
  length-update_first p f (x ∷ xs) = ground (arith, length-update_first p f xs)

  pub map-update_first {κ} :
      {B : Type κ} (g : A → B) (p : A → Bool) (f : A → A) (xs : List A)
      → ((x : A) → g (f x) ≡ g x)
      → map g (update_first p f xs) ≡ map g xs
  unfolding update_first
  map-update_first g p f [] keep = refl
  map-update_first g p f (x ∷ xs) keep = ground (arith, keep x, map-update_first g p f xs keep)

  -- the array after `find_and_set`, which leaves it alone if nothing is found
  abbrev pub items_or : List A → Option (Change A) → List A
  items_or xs none = xs
  items_or xs (some c) = c.items

  pub update_first_eq_of_none :
      (p : A → Bool) (f : A → A) (xs : List A) → find p xs ≡ none → update_first p f xs ≡ xs
  unfolding find update_first
  update_first_eq_of_none p f [] e = refl
  update_first_eq_of_none p f (x ∷ xs) e = ground (arith, update_first_eq_of_none p f xs)

  pub items_or-find_and_set :
      (p : A → Bool) (f : A → A) (xs : List A)
      → items_or xs (find_and_set p f xs) ≡ update_first p f xs
  items_or-find_and_set p f xs = elim (Option-cases (find p xs)) [
    | inl e ↦ rw (find_and_set_lem p f xs, e) (sym (update_first_eq_of_none p f xs e))
    | inr (x, e) ↦ rw (find_and_set_lem p f xs, e)
  ]

  pub map-find_and_set {κ} :
      {B : Type κ} (g : A → B) (p : A → Bool) (f : A → A) (xs : List A)
      → ((x : A) → g (f x) ≡ g x)
      → map g (items_or xs (find_and_set p f xs)) ≡ map g xs
  map-find_and_set g p f xs keep =
      rw (items_or-find_and_set p f xs) (map-update_first g p f xs keep)

  -- The element that passes the test is found again, changed.
  pub find-update_first_self :
      (p : A → Bool) (f : A → A) (xs : List A)
      → ((x : A) → p (f x) ≡ p x)
      → find p (update_first p f xs) ≡ Option.map f (find p xs)
  unfolding find update_first
  find-update_first_self p f [] keep = refl
  find-update_first_self p f (x ∷ xs) keep =
      ground (arith, keep x, find-update_first_self p f xs keep)

  -- A search by a test that no changed element passes is not affected.
  pub find-update_first_ne :
      (q p : A → Bool) (f : A → A) (xs : List A)
      → ((x : A) → q (f x) ≡ q x)
      → ((x : A) → p x ≡ true → q x ≡ false)
      → find q (update_first p f xs) ≡ find q xs
  unfolding find update_first
  find-update_first_ne q p f [] keep apart = refl
  find-update_first_ne q p f (x ∷ xs) keep apart =
      ground (arith, keep x, apart x, find-update_first_ne q p f xs keep apart)

  pub count-cons :
      (q : A → Bool) (x : A) (xs : List A) → count q (x ∷ xs) ≡ one_if (q x) + count q xs
  unfolding count
  count-cons q x xs = ground arith

  pub count-le-length : (q : A → Bool) (xs : List A) → count q xs ≤ length xs
  unfolding count
  count-le-length q [] = omega arith
  count-le-length q (x ∷ xs) = ground (arith, count-le-length q xs)

  -- A count moves by what the change does to the one element.
  pub count-update_first :
      (q p : A → Bool) (f : A → A) (xs : List A) (x : A)
      → find p xs ≡ some x
      → count q (update_first p f xs) + one_if (q x) ≡ count q xs + one_if (q (f x))
  unfolding find update_first
  count-update_first q p f [] x e = cc
  count-update_first q p f (y ∷ xs) x e = ground (
    arith,
    count-update_first q p f xs x,
    count-cons q y xs,
    count-cons q (f y) xs,
    count-cons q y (update_first p f xs),
  )

  pub find-append :
      (p : A → Bool) (xs : List A) (y : A)
      → find p (xs ++ y ∷ [])
        ≡ elim (find p xs) [ some x ↦ some x | none ↦ if p y then some y else none ]
  unfolding find
  find-append p [] y = refl
  find-append p (x ∷ xs) y = ground (arith, find-append p xs y)

  pub find-filter-not : (p : A → Bool) (xs : List A) → find p (filter (λ x. not (p x)) xs) ≡ none
  unfolding find filter
  find-filter-not p [] = refl
  find-filter-not p (x ∷ xs) = ground (arith, find-filter-not p xs)

  pub find-filter_ne :
      (q p : A → Bool) (xs : List A)
      → ((x : A) → p x ≡ true → q x ≡ false)
      → find q (filter (λ x. not (p x)) xs) ≡ find q xs
  unfolding find filter
  find-filter_ne q p [] apart = refl
  find-filter_ne q p (x ∷ xs) apart = ground (arith, apart x, find-filter_ne q p xs apart)

-- No id of the list is `k`.
abbrev pub fresh : String → List String → Bool
fresh k [] = true
fresh k (j ∷ ks) = not (str_eq j k) && fresh k ks

-- The ids of the list differ from one another.
abbrev pub distinct : List String → Bool
distinct [] = true
distinct (k ∷ ks) = fresh k ks && distinct ks

fresh-append :
    (k j : String) (ks : List String) → fresh k (ks ++ j ∷ []) ≡ (fresh k ks && not (str_eq j k))
fresh-append k j [] = ground arith
fresh-append k j (i ∷ ks) = ground (arith, fresh-append k j ks)

pub distinct-append :
    (ks : List String) (k : String)
    → fresh k ks ≡ true
    → distinct ks ≡ true
    → distinct (ks ++ k ∷ []) ≡ true
distinct-append [] k h d = refl
distinct-append (j ∷ ks) k h d =
    ground (arith, distinct-append ks k, fresh-append j k ks, eq_iff j k, eq_iff k j)

module _ {ℓ} {A : Type ℓ} (id : A → String) where
  -- An id is fresh exactly when the search for it fails.
  pub fresh_iff :
      (k : String) (xs : List A)
      → (fresh k (map id xs) ≡ true) ↔ (find (λ x. str_eq (id x) k) xs ≡ none)
  unfolding find
  fresh_iff k [] = ground arith
  fresh_iff k (x ∷ xs) = ground (arith, fresh_iff k xs)

  fresh-filter :
      (k : String) (p : A → Bool) (xs : List A)
      → fresh k (map id xs) ≡ true
      → fresh k (map id (filter p xs)) ≡ true
  unfolding filter
  fresh-filter k p [] h = refl
  fresh-filter k p (x ∷ xs) h = ground (arith, fresh-filter k p xs)

  pub distinct-filter :
      (p : A → Bool) (xs : List A)
      → distinct (map id xs) ≡ true
      → distinct (map id (filter p xs)) ≡ true
  unfolding filter
  distinct-filter p [] h = refl
  distinct-filter p (x ∷ xs) h = ground (arith, distinct-filter p xs, fresh-filter (id x) p xs)
