-- ===== src/Theme/Laws/Favorites.antt =====
-- Paths and sections that are put into a list and taken out.
use guardian_cloud.Prelude.{
  ◌≡◌, refl, inl, inr, ap, true, false, not, List, [], ◌∷◌, ◌++◌, String, str_eq, eq_iff,
  if◌then◌else◌, Bool-cases, arith, filter,
}
use guardian_cloud.Theme.Schemes.{has}
use guardian_cloud.Theme.Nav.{NavState, read, on_nav_prefs, write, toggled, toggle_favorite}

has-append :
    (q x : String) (xs : List String)
    → has q (xs ++ (x ∷ [])) ≡ (if str_eq x q then true else has q xs)
unfolding has
has-append q x [] = refl
has-append q x (y ∷ xs) = rw (has-append q x xs) (ground arith)

has-filter :
    (q x : String) (xs : List String)
    → has q (filter (λ y. not (str_eq y x)) xs) ≡ (if str_eq x q then false else has q xs)
unfolding has filter
has-filter q x [] = ground arith
has-filter q x (y ∷ xs) = elim (Bool-cases (str_eq y x)) [
  | inl e ↦ rw e (rw (has-filter q x xs) (rw ((eq_iff y x).0 e) (ground arith)))
  | inr e ↦ elim (Bool-cases (str_eq x q)) [
    | inl f ↦
        let apart : str_eq y q ≡ false = rw (← (eq_iff x q).0 f) e in
        rw e (rw apart (rw (has-filter q x xs) refl))
    | inr f ↦ rw e (rw (has-filter q x xs) (rw f refl))
  ]
]

-- a text that is toggled changes its place in or out, and no other does
has-toggled :
    (q x : String) (xs : List String)
    → has q (toggled x xs) ≡ (if str_eq x q then not (has x xs) else has q xs)
unfolding toggled
has-toggled q x xs = elim (Bool-cases (has x xs)) [
  | inl e ↦ rw e (has-filter q x xs)
  | inr e ↦ rw e (has-append q x xs)
]

filter-append_absent :
    (x : String) (xs : List String)
    → has x xs ≡ false
    → filter (λ y. not (str_eq y x)) (xs ++ (x ∷ [])) ≡ xs
unfolding has filter
filter-append_absent x [] w = rw ((eq_iff x x).1 refl) refl
filter-append_absent x (y ∷ xs) w =
    let apart : str_eq y x ≡ false = ground arith in
    let absent : has x xs ≡ false = ground arith in
    rw apart (ap (λ zs. y ∷ zs) (filter-append_absent x xs absent))

toggled_twice : (x : String) (xs : List String) → has x xs ≡ false → toggled x (toggled x xs) ≡ xs
unfolding toggled
toggled_twice x xs w =
    let same : str_eq x x ≡ true = (eq_iff x x).1 refl in
    rw w (rw (has-append x x xs) (rw same (filter-append_absent x xs w)))

-- A path that is toggled becomes a favorite where it was none and none where it was one, every other
-- path and every other preference stays; a second toggle of a path that was no favorite gives the
-- preferences as they were, the order of the favorites included.
pub toggle_favorite_lem :
    (path : String) (st : NavState)
    → let p = read st in
      let p' = read (toggle_favorite path st) in
      ((q : String)
        → has q p'.favorites
          ≡ (if str_eq path q then not (has path p.favorites) else has q p.favorites))
      × (record p' { favorites = p.favorites } ≡ p)
      × (has path p.favorites ≡ false → read (toggle_favorite path (toggle_favorite path st)) ≡ p)
unfolding toggle_favorite read write on_nav_prefs
toggle_favorite_lem path st =
    let p = read st in
    (
      λ q. has-toggled q path p.favorites,
      refl,
      λ w. ap (λ xs. record p { favorites = xs }) (toggled_twice path p.favorites w),
    )
