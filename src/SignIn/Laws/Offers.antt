-- ===== src/SignIn/Laws/Offers.antt =====
-- Which second factors a page offers.
use mathlib.Core.List
use guardian_cloud.Prelude.{
  ◌≡◌, ◌⊎◌, refl, inl, inr, sym, ◌∙◌, ap, eq_iff, true, false, not, ◌&&◌, ◌||◌, List, [], ◌∷◌,
  String, str_eq, Bool-cases, arith, filter,
}
use guardian_cloud.Prelude.Search.{fresh, distinct, distinct-append}
use guardian_cloud.SignIn.Factors.{is_member, add_all, recovery_code, offered, candidates}

fresh_lem : (k : String) (js : List String) → fresh k js ≡ not (is_member k js)
fresh_lem k [] = refl
fresh_lem k (j ∷ js) = ground (arith, fresh_lem k js)

is_member-append :
    (k : String) (js is : List String)
    → is_member k (List.◌++◌ js is) ≡ (is_member k js || is_member k is)
is_member-append k [] is = refl
is_member-append k (j ∷ js) is = ground (arith, is_member-append k js is)

is_member-add_all :
    (k : String) (found xs : List String)
    → is_member k (add_all found xs) ≡ (is_member k found || is_member k xs)
unfolding add_all
is_member-add_all k found [] = ground arith
is_member-add_all k found (x ∷ xs) = elim (Bool-cases (is_member x found)) [
  | inl e ↦ rw e (is_member-add_all k found xs ∙ known (Bool-cases (str_eq x k)) e)
  | inr e ↦ rw e (
      ground (
        arith,
        is_member-add_all k (List.◌++◌ found (x ∷ [])) xs,
        is_member-append k found (x ∷ []),
      ))
]
  where
    known :
        (str_eq x k ≡ true) ⊎ (str_eq x k ≡ false)
        → is_member x found ≡ true
        → (is_member k found || is_member k xs)
          ≡ (is_member k found || (str_eq x k || is_member k xs))
    known (inr d) e = rw d refl
    known (inl d) e = rw d (rw (ap (λ y. is_member y found) (sym ((eq_iff x k).0 d)) ∙ e) refl)

add_all-distinct :
    (found xs : List String) → distinct found ≡ true → distinct (add_all found xs) ≡ true
unfolding add_all
add_all-distinct found [] d = d
add_all-distinct found (x ∷ xs) d = elim (Bool-cases (is_member x found)) [
  | inl e ↦ rw e (add_all-distinct found xs d)
  | inr e ↦ rw e (
      add_all-distinct (List.◌++◌ found (x ∷ [])) xs
        (distinct-append found x (fresh_lem x found ∙ ap not e) d))
]

is_member-candidates :
    (k factor : String) (fs : List String)
    → is_member k (candidates factor fs) ≡ (not (str_eq k factor) && is_member k fs)
unfolding candidates filter
is_member-candidates k factor [] = ground arith
is_member-candidates k factor (f ∷ fs) =
    ground (arith, is_member-candidates k factor fs, eq_iff f factor, eq_iff f k, eq_iff k factor)

-- The factors of a page are those that the API has named and the recovery code, each once; those
-- with a button are these less the one in use.
pub offered_lem :
    (k factor : String) (available : List String)
    → (is_member k (offered available) ≡ (is_member k available || str_eq recovery_code k))
      × (distinct (offered available) ≡ true)
      × (is_member k (candidates factor (offered available))
          ≡ (not (str_eq k factor) && (is_member k available || str_eq recovery_code k)))
unfolding offered
offered_lem k factor available =
    let members : is_member k (offered available)
        ≡ (is_member k available || str_eq recovery_code k) =
      ground (
        arith,
        is_member-add_all k [] (List.◌++◌ available (recovery_code ∷ [])),
        is_member-append k available (recovery_code ∷ []),
      ) in
    (
      members,
      add_all-distinct [] (List.◌++◌ available (recovery_code ∷ [])) refl,
      is_member-candidates k factor (offered available)
          ∙ ap (λ b. not (str_eq k factor) && b) members,
    )
