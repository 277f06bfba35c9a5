-- ===== src/Onboarding/Tests.antt =====
-- The wizard at concrete inputs, with checks in the place of zod's.
use Prim.Native.String.{count}
use Prim.Native.Char.{code}
use guardian_cloud.Prelude.{
  Bool-cases, inl, inr, ℕ, ◌≡◌, refl, Bool, true, false, ◌&&◌, none, some, ◌+◌, ◌-◌, ◌≤◌, ◌*◌,
  Option, List, [], ◌∷◌, ◌++◌, String, str_eq, leb, if◌then◌else◌, arith,
}
use guardian_cloud.Admin.State.{Host, AdminStore, notify, log_action}
use guardian_cloud.Admin.Store.Organizations.{create_organization, new_organization}
use guardian_cloud.Admin.Seed.Initial.{initial_store}
use guardian_cloud.Onboarding.Schema.{Value, Kind, Check, FieldKey}
use guardian_cloud.Onboarding.Form.{Zod, all_fields, trigger, step_fields}
use guardian_cloud.Onboarding.Wizard.{
  WizardState, start, handle_next, handle_submit, on_submit, activate, onboarded, spaced, go_to,
  type_text, check_box,
}
use guardian_cloud.Onboarding.Laws.Fields.{TakesTitles}
use guardian_cloud.Onboarding.Laws.Steps.{WizardAction, do_actions}
use guardian_cloud.Onboarding.Laws.Activation.{
  submission, handle_submit_activates, handle_submit_twice,
}
use guardian_cloud.Onboarding.Laws.Sizes.{
  TakesNumbers, ReadsWhole, AllReadWhole, IsSized, do_actions-AllSized,
}

abbrev host_at : ℕ → Host
host_at t = record { now = λ _. t; to_iso = λ _. "2026-09-06"; random = λ _. "0.k3j9x2ab" }

abbrev host : Host
host = host_at 1757170812345

abbrev later_host : Host
later_host = host_at 1757170822000

abbrev is_one_of : List String → String → Bool
is_one_of [] t = false
is_one_of (x ∷ xs) t = if str_eq x t then true else is_one_of xs t

abbrev is_of_kind : Kind → Value → Bool
is_of_kind Kind.string (Value.text _) = true
is_of_kind Kind.number (Value.num _) = true
is_of_kind Kind.boolean (Value.flag _) = true
is_of_kind (Kind.one_of xs) (Value.text t) = is_one_of xs t
is_of_kind _ _ = false

abbrev size_of : Value → ℕ
size_of (Value.text t) = count t
size_of (Value.num n) = n
size_of (Value.flag _) = 0

abbrev passes : List Check → Value → Bool
passes [] v = true
passes (Check.min n _ ∷ checks) v = leb n (size_of v) && passes checks v
passes (Check.max n _ ∷ checks) v = leb (size_of v) n && passes checks v
passes (_ ∷ checks) v = passes checks v

-- the number of a text of digits
abbrev whole_from : ℕ → String → Option ℕ
whole_from acc String.[] = some acc
whole_from acc (String.◌∷◌ c s) =
    let rest = whole_from (acc * 10 + (code c - b'0')) s in
    if leb b'0' (code c) && leb (code c) b'9' then rest else none

abbrev coerced : Kind → Value → Value
coerced Kind.number (Value.text t) = elim (whole_from 0 t) [
  | none ↦ Value.text t
  | some n ↦ Value.num n
]
coerced _ v = v

-- the kinds, with texts of digits as numbers, and the least and greatest sizes
abbrev sizes_only : Zod
sizes_only rule v =
    let w = coerced rule.kind v in
    if is_of_kind rule.kind w && passes rule.checks w then some w else none

sizes_only-TakesTitles : TakesTitles sizes_only
sizes_only-TakesTitles t = refl

-- A number that passes lies between the bounds.
passes_bounds :
    (lo hi : ℕ) (m n : Option String) (w : Value) (x : ℕ)
    → (if is_of_kind Kind.number w && passes (Check.min lo m ∷ Check.max hi n ∷ []) w
        then some w
        else none)
      ≡ some (Value.num x)
    → (lo ≤ x) × (x ≤ hi)
passes_bounds lo hi m n (Value.num y) x e = (ground arith, ground arith)
passes_bounds lo hi m n (Value.text t) x e = ground arith
passes_bounds lo hi m n (Value.flag b) x e = ground arith

sizes_only-TakesNumbers : TakesNumbers sizes_only
sizes_only-TakesNumbers lo hi m n v x e = passes_bounds lo hi m n (coerced Kind.number v) x e

sizes_only-ReadsWhole : (v : Value) → ReadsWhole sizes_only v
sizes_only-ReadsWhole v rule w k e =
    elim (Bool-cases
      (is_of_kind rule.kind (coerced rule.kind v) && passes rule.checks (coerced rule.kind v))) [
        | inl t ↦ ground arith
        | inr t ↦ ground arith
      ]

abbrev walk : List WizardAction
walk =
    WizardAction.typed FieldKey.name "Acme Defense"
    ∷ WizardAction.typed FieldKey.slug "acme-defense"
    ∷ WizardAction.typed FieldKey.domain "acme.com"
    ∷ WizardAction.next
    ∷ WizardAction.typed FieldKey.owner_name "Ada Young"
    ∷ WizardAction.typed FieldKey.owner_email "ada@acme.com"
    ∷ WizardAction.next
    ∷ WizardAction.next
    ∷ WizardAction.typed FieldKey.seat_count "1200"
    ∷ WizardAction.typed FieldKey.device_multiplier "2"
    ∷ WizardAction.next
    ∷ WizardAction.checked FieldKey.enforce_mfa false
    ∷ WizardAction.next
    ∷ WizardAction.next
    ∷ []

abbrev reviewed : WizardState
reviewed = do_actions sizes_only walk (start initial_store)

-- The wizard stays at its first step until there is a name.
no_name : (handle_next sizes_only (start initial_store)).current_step ≡ 1
unfolding handle_next step_fields trigger
no_name = refl

spaced_tier : spaced "BUSINESS_PLUS" ≡ "BUSINESS PLUS"
unfolding spaced
spaced_tier = refl

reviewed_seven : reviewed.current_step ≡ 7
unfolding handle_next step_fields trigger type_text check_box
reviewed_seven = refl

handle_submit_activates_example :
    let o = submission sizes_only host reviewed in
    let st' = handle_submit sizes_only host reviewed in
    (st'.current_step ≡ 8)
    × (st'.is_activated ≡ true)
    × (st'.created_org_id ≡ some o.id)
    × (st'.store.organizations ≡ o ∷ reviewed.store.organizations)
    × (st'.values ≡ reviewed.values)
handle_submit_activates_example =
    handle_submit_activates sizes_only walk initial_store host sizes_only-TakesTitles reviewed_seven

reviewed_trigger : trigger sizes_only reviewed.values all_fields ≡ true
unfolding handle_next step_fields trigger type_text check_box
reviewed_trigger = refl

handle_submit_twice_example :
    let o = submission sizes_only host reviewed in
    let o' = submission sizes_only later_host reviewed in
    let st' =
      handle_submit sizes_only later_host (go_to 7 (handle_submit sizes_only host reviewed)) in
    (st'.store.organizations ≡ o' ∷ o ∷ reviewed.store.organizations)
    × (o'.name ≡ o.name)
    × (o'.slug ≡ o.slug)
    × (o'.domain ≡ o.domain)
handle_submit_twice_example =
    handle_submit_twice sizes_only host later_host reviewed reviewed_seven reviewed_trigger

-- a store with no organizations yet
abbrev empty_store : AdminStore
empty_store = record initial_store { organizations = [] }

abbrev full_walk : List WizardAction
full_walk = walk ++ (WizardAction.submitted host ∷ [])

abbrev empty_reviewed : WizardState
empty_reviewed = do_actions sizes_only walk (start empty_store)

full_walk_reads : AllReadWhole sizes_only full_walk
full_walk_reads =
    let reads = sizes_only-ReadsWhole in
    (reads _, (reads _, (reads _, (reads _, (reads _, (reads _, (reads _, (reads _, tt))))))))

-- The seats and the devices are those that were typed.
full_walk_sizes :
    let o = submission sizes_only host empty_reviewed in
    (o.employee_count ≡ 1200) × (o.device_count ≡ 2400)
unfolding handle_next step_fields trigger type_text check_box onboarded new_organization
full_walk_sizes = (refl, refl)

-- The walk ends with an organization in the store that had none.
full_walk_organizations :
    (do_actions sizes_only full_walk (start empty_store)).store.organizations
    ≡ submission sizes_only host empty_reviewed ∷ []
unfolding handle_submit on_submit activate create_organization notify log_action handle_next
    step_fields trigger type_text check_box
full_walk_organizations = refl

do_actions-AllSized_example : IsSized (submission sizes_only host empty_reviewed) × Unit {0}
unfolding handle_submit on_submit activate create_organization notify log_action handle_next
    step_fields trigger type_text check_box
do_actions-AllSized_example =
    do_actions-AllSized sizes_only full_walk (start empty_store) sizes_only-TakesNumbers
      full_walk_reads (λ k. sizes_only-ReadsWhole _) tt
