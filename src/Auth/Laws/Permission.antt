-- ===== src/Auth/Laws/Permission.antt =====
-- `can` and `RequirePermission`: a page is shown to a user with its permission.
use guardian_cloud.Prelude.{
  ◌≡◌, ◌↔◌, ◌⊎◌, refl, inl, inr, ap, sym, ◌∙◌, Bool, true, false, none, some, String, eq_iff,
  if◌then◌else◌, arith,
}
use guardian_cloud.Client.Json.{Json, Items, Body, property}
use guardian_cloud.Auth.State.{AuthState}
use guardian_cloud.Auth.Provider.{is_text, has_item, includes_permission, can}
use guardian_cloud.Auth.Gate.{Screen, require_permission}

-- the text is one of the items
abbrev pub IsItem : String → Items → Type 0
IsItem t Items.nil = ⊥
IsItem t (Items.cons j items) = (j ≡ Json.text t) ⊎ IsItem t items

is_text_iff : (t : String) (j : Json) → (is_text t (some j) ≡ true) ↔ (j ≡ Json.text t)
is_text_iff t (Json.text u) =
    (λ h. ap Json.text ((eq_iff u t).0 h), λ h. (eq_iff u t).1 (ground arith))
is_text_iff t Json.null = (λ h. ground arith, λ h. ground arith)
is_text_iff t (Json.flag b) = (λ h. ground arith, λ h. ground arith)
is_text_iff t (Json.num b) = (λ h. ground arith, λ h. ground arith)
is_text_iff t (Json.array b) = (λ h. ground arith, λ h. ground arith)
is_text_iff t (Json.object b) = (λ h. ground arith, λ h. ground arith)

has_item_iff : (t : String) (items : Items) → (has_item t items ≡ true) ↔ IsItem t items
unfolding has_item
has_item_iff t Items.nil = (λ h. ground arith, λ h. absurd h)
has_item_iff t (Items.cons j items) =
    first_or_later (is_text t (some j)) (is_text_iff t j) (has_item_iff t items)
  where
    first_or_later :
        (b : Bool) {c : Bool} {P Q : Type 0}
        → ((b ≡ true) ↔ P)
        → ((c ≡ true) ↔ Q)
        → ((if b then true else c) ≡ true) ↔ (P ⊎ Q)
    first_or_later true p q = (λ h. inl (p.0 refl), λ h. refl)
    first_or_later false p q =
        (λ h. inr (q.0 h), λ h. elim h [ inl x ↦ ground (arith, p.1 x) | inr y ↦ q.1 y ])

shown_iff :
    (b : Bool) (permission : String)
    → ((if b then Screen.children else Screen.permission_denied permission) ≡ Screen.children)
      ↔ (b ≡ true)
shown_iff true p = (λ h. refl, λ h. refl)
shown_iff false p = (λ h. ground arith, λ h. ground arith)

-- A page that needs a permission is shown exactly to a user who has it among the permissions that
-- `/me` has answered with; with no user it is not shown.
pub require_permission_iff :
    (st : AuthState) (permission : String) (me : Body) (items : Items)
    → property "permissions" me ≡ some (Json.array items)
    → ((require_permission (record st { user = some me }) permission Screen.children
          ≡ Screen.children)
        ↔ IsItem permission items)
      × (require_permission (record st { user = none }) permission Screen.children
          ≡ Screen.permission_denied permission)
unfolding require_permission can
require_permission_iff st permission me items e =
    let (there, back) = has_item_iff permission items in
    let includes = ap (λ p. includes_permission permission p) e in
    let (of, to) =
      shown_iff (includes_permission permission (property "permissions" me)) permission in
    ((λ h. there (sym includes ∙ of h), λ h. to (includes ∙ back h)), refl)
