-- ===== src/Client/Json.antt =====
-- The values that travel in the bodies of requests and answers.
use guardian_cloud.Prelude.{
  ℕ, Bool, Option, none, some, List, [], ◌∷◌, String, if◌then◌else◌, str_eq,
}

mutual
  pub data Json : Type 0 where
    null : Json
    flag : Bool → Json
    num : ℕ → Json
    text : String → Json
    array : Items → Json
    object : Fields → Json

  pub data Items : Type 0 where
    nil : Items
    cons : Json → Items → Items

  pub data Fields : Type 0 where
    end : Fields
    field : String → Json → Fields → Fields

-- `Record<string, unknown>`
abbrev pub Body : Type 0
Body = List (String × Json)

-- `body[key]`, where nothing stands for `undefined`
unfoldable pub property : String → Body → Option Json
property key [] = none
property key ((k, v) ∷ body) = if str_eq k key then some v else property key body
