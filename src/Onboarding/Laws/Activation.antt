-- ===== src/Onboarding/Laws/Activation.antt =====
-- The activation of the organization that the wizard is about.
use mathlib.Core.Path.{subst}
use guardian_cloud.Prelude.{◌≡◌, refl, ap, ◌∙◌, sym, true, false, some, List, ◌∷◌, ◌==◌, ltb, arith}
use guardian_cloud.Admin.Types.Tenant.{Organization}
use guardian_cloud.Admin.State.{Host, AdminStore, notify, log_action}
use guardian_cloud.Admin.Store.Organizations.{new_organization, create_organization}
use guardian_cloud.Onboarding.Form.{Zod, Values, all_fields, trigger, parsed_values}
use guardian_cloud.Onboarding.Wizard.{
  WizardState, start, onboarded, activate, on_submit, handle_submit, go_to,
}
use guardian_cloud.Onboarding.Laws.Fields.{TakesTitles, step_of_le, all_accepted}
use guardian_cloud.Onboarding.Laws.Steps.{
  WizardAction, do_actions, IsReady, start-IsReady, do_actions-IsReady,
}

-- the organization that a submission at the seventh step creates
abbrev pub submission : Zod → Host → WizardState → Organization
submission zod h st = new_organization h (onboarded (parsed_values zod st.values))

ready_trigger :
    (zod : Zod) (st : WizardState)
    → IsReady zod st
    → st.current_step ≡ 7
    → trigger zod st.values all_fields ≡ true
ready_trigger zod st w e =
    all_accepted zod st.values all_fields
      (λ k. w.accepted_before k (let le = step_of_le k in omega arith))

activate_lem :
    (zod : Zod) (h : Host) (st : WizardState)
    → st.current_step ≡ 7
    → trigger zod st.values all_fields ≡ true
    → let o = submission zod h st in
      let st' = handle_submit zod h st in
      (st'.current_step ≡ 8)
      × (st'.is_activated ≡ true)
      × (st'.created_org_id ≡ some o.id)
      × (st'.store.organizations ≡ o ∷ st.store.organizations)
      × (st'.values ≡ st.values)
unfolding handle_submit on_submit activate create_organization notify log_action
activate_lem zod h st seven t =
    let e : ltb st.current_step 7 ≡ false = ground arith in
    let f : (st.current_step == 7) ≡ true = ground arith in
    rw t (rw e (rw f (refl, refl, refl, refl, refl)))

-- Whatever the user has done since the page was opened, the button of the seventh step activates: the
-- wizard shows its eighth step, and the store has one more organization, that of the values as the
-- schema gives them, whose id is kept. The schema is taken to let every text be a title.
pub handle_submit_activates :
    (zod : Zod) (actions : List WizardAction) (store : AdminStore) (h : Host)
    → TakesTitles zod
    → let st = do_actions zod actions (start store) in
      st.current_step ≡ 7
      → let o = submission zod h st in
        let st' = handle_submit zod h st in
        (st'.current_step ≡ 8)
        × (st'.is_activated ≡ true)
        × (st'.created_org_id ≡ some o.id)
        × (st'.store.organizations ≡ o ∷ st.store.organizations)
        × (st'.values ≡ st.values)
handle_submit_activates zod actions store h titles seven =
    let st = do_actions zod actions (start store) in
    let w = do_actions-IsReady zod actions (start store) titles (start-IsReady zod store titles) in
    activate_lem zod h st seven (ready_trigger zod st w seven)

pub activate_values :
    (zod : Zod) (h : Host) (st : WizardState) (v : Values)
    → st.current_step ≡ 7
    → st.values ≡ v
    → trigger zod v all_fields ≡ true
    → (handle_submit zod h st).store.organizations
      ≡ new_organization h (onboarded (parsed_values zod v)) ∷ st.store.organizations
activate_values zod h st v seven same t =
    let (_, _, _, added, _) =
      activate_lem zod h st seven (subst (λ u. trigger zod u all_fields ≡ true) (sym same) t) in
    added
    ∙ ap (λ u. new_organization h (onboarded (parsed_values zod u)) ∷ st.store.organizations) same

go_to_seven : (st : WizardState) → st.current_step ≡ 8 → go_to 7 st ≡ record st { current_step = 7 }
unfolding go_to
go_to_seven st e = rw e refl

-- An activated wizard goes back to the seventh step by the list at the top, and activates again: the
-- store then has two more organizations, of the same name, slug and domain.
pub handle_submit_twice :
    (zod : Zod) (h h' : Host) (st : WizardState)
    → st.current_step ≡ 7
    → trigger zod st.values all_fields ≡ true
    → let o = submission zod h st in
      let o' = submission zod h' st in
      let st' = handle_submit zod h' (go_to 7 (handle_submit zod h st)) in
      (st'.store.organizations ≡ o' ∷ o ∷ st.store.organizations)
      × (o'.name ≡ o.name)
      × (o'.slug ≡ o.slug)
      × (o'.domain ≡ o.domain)
unfolding new_organization
handle_submit_twice zod h h' st seven t =
    let (eight, _, _, added, same) = activate_lem zod h st seven t in
    let st1 = handle_submit zod h st in
    let again = activate_values zod h' (record st1 { current_step = 7 }) st.values refl same t in
    (
      ap (λ s. (handle_submit zod h' s).store.organizations) (go_to_seven st1 eight)
          ∙ again
          ∙ ap (λ os. submission zod h' st ∷ os) added,
      refl,
      refl,
      refl,
    )
