-- ===== src/SignIn/Factors.antt =====
-- The second factors that are offered: a factor is its name, since the list comes from the API.
use mathlib.Core.List
use guardian_cloud.Prelude.{
  Bool, false, not, ◌||◌, Option, some, List, [], ◌∷◌, String, str_eq, filter, if◌then◌else◌,
}
use guardian_cloud.Client.Json.{Json, Items}

-- A body's array of texts. The code casts the body's member; what is no text is left out here.
abbrev pub texts : Items → List String
texts Items.nil = []
texts (Items.cons (Json.text t) rest) = t ∷ texts rest
texts (Items.cons _ rest) = texts rest

-- `result.methods ?? ['TOTP']`
abbrev pub methods_of : Option Json → List String
methods_of (some (Json.array items)) = texts items
methods_of _ = "TOTP" ∷ []

abbrev pub is_member : String → List String → Bool
is_member k [] = false
is_member k (j ∷ js) = str_eq j k || is_member k js

-- `new Set([...found, ...xs])`, in the order of insertion
unfoldable pub add_all : List String → List String → List String
add_all found [] = found
add_all found (x ∷ xs) =
    let skipped = add_all found xs in
    let added = add_all (List.◌++◌ found (x ∷ [])) xs in
    if is_member x found then skipped else added

abbrev pub recovery_code : String
recovery_code = "RECOVERY_CODE"

-- `Array.from(new Set([...available, 'RECOVERY_CODE']))`
unfoldable pub offered : List String → List String
unfolding add_all
offered available = add_all [] (List.◌++◌ available (recovery_code ∷ []))

-- `available[0] ?? 'TOTP'`
abbrev pub first_factor : List String → String
first_factor [] = "TOTP"
first_factor (m ∷ _) = m

-- the factors with a button: `offered.filter((candidate) => candidate !== factor)`
unfoldable pub candidates : String → List String → List String
unfolding filter
candidates factor factors = filter (λ c. not (str_eq c factor)) factors
