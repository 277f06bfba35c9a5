-- ===== src/Admin/Laws/Unique.antt =====
-- Ids stay unique while the ids that the clock gives are new (the `create…` methods of
-- web/src/repositories/adminStore.ts).
use mathlib.Core.List
use guardian_cloud.Prelude.{
  ℕ, ◌≡◌, refl, inl, inr, Bool, true, false, not, arith, Bool-cases, str_eq,
}
use guardian_cloud.Prelude.Search.{fresh, distinct, distinct-append, distinct-filter}
use guardian_cloud.Admin.State.{Host, AdminStore, subscribe, unsubscribe}
use guardian_cloud.Admin.Store.Organizations.{new_organization, new_subscription}
use guardian_cloud.Admin.Store.Users.{new_user}
use guardian_cloud.Admin.Store.Plans.{new_plan}
use guardian_cloud.Admin.Store.Security.{new_incident}
use guardian_cloud.Admin.Store.Iam.{new_admin}
use guardian_cloud.Admin.Store.Platform.{new_maintenance_window}
use guardian_cloud.Admin.Service.{Command, dispatch}
use guardian_cloud.Admin.Seed.Initial.{initial_store}
use guardian_cloud.Admin.Laws.Frame.{Part, writes, dispatch-Same}
use guardian_cloud.Admin.Laws.Ids.{ids, ids-Same, KeepsIds, dispatch-ids}

-- The condition under which a command keeps the ids unique: the id of an object that it adds is not in
-- use, and an update gives no id. The source's partial objects may give one
-- (`update_organization_takes_id` of Admin/Tests/Commands).
abbrev pub Admits : Host → Command → AdminStore → Type 0
Admits h (Command.create_organization input) s =
    (fresh (new_organization h input).id (ids Part.organizations s) ≡ true)
    × (fresh (new_subscription h (new_organization h input)).id (ids Part.subscriptions s) ≡ true)
Admits h (Command.create_user input) s = fresh (new_user h input).id (ids Part.users s) ≡ true
Admits h (Command.create_plan input) s = fresh (new_plan h input).id (ids Part.plans s) ≡ true
Admits h (Command.create_incident input) s =
    fresh (new_incident h input).id (ids Part.incidents s) ≡ true
Admits h (Command.create_admin input) s = fresh (new_admin h input).id (ids Part.admins s) ≡ true
Admits h (Command.remove_admin _) s = Unit
Admits h (Command.create_maintenance_window input) s =
    fresh (new_maintenance_window h input).id (ids Part.maintenance_windows s) ≡ true
Admits h c s = KeepsIds c

abbrev pub HasDistinctIds : AdminStore → Type 0
HasDistinctIds s = (q : Part) → distinct (ids q s) ≡ true

abbrev makes_or_removes : Command → Bool
makes_or_removes (Command.create_organization _) = true
makes_or_removes (Command.create_user _) = true
makes_or_removes (Command.create_plan _) = true
makes_or_removes (Command.create_incident _) = true
makes_or_removes (Command.create_admin _) = true
makes_or_removes (Command.remove_admin _) = true
makes_or_removes (Command.create_maintenance_window _) = true
makes_or_removes _ = false

module _ (h : Host) (s : AdminStore) where
  Admits-KeepsIds : (c : Command) → makes_or_removes c ≡ false → Admits h c s → KeepsIds c
  Admits-KeepsIds (Command.create_user _) e a = cc
  Admits-KeepsIds (Command.update_settings _ _) e a = a
  Admits-KeepsIds _ e a = ground arith

  module _ (d : HasDistinctIds s) where
    -- a written collection: one new id before or behind the old ones, or some ids less
    written :
        (c : Command) (q : Part)
        → makes_or_removes c ≡ true
        → Admits h c s
        → writes c q ≡ true
        → distinct (ids q (dispatch h c s).1) ≡ true
    unfolding dispatch
    written (Command.create_organization input) Part.organizations m a w =
        ground (arith, d Part.organizations)
    written (Command.create_organization input) Part.subscriptions m a w =
        ground (arith, d Part.subscriptions)
    written (Command.create_user input) Part.users m a w = ground (arith, d Part.users)
    written (Command.create_plan input) Part.plans m a w =
        rw List.map-append (distinct-append (ids Part.plans s) _ a (d Part.plans))
    written (Command.create_incident input) Part.incidents m a w = ground (arith, d Part.incidents)
    written (Command.create_admin input) Part.admins m a w =
        rw List.map-append (distinct-append (ids Part.admins s) _ a (d Part.admins))
    written (Command.remove_admin id) Part.admins m a w = ground (
      arith,
      d Part.admins,
      distinct-filter (λ a. a.id) (λ a. not (str_eq a.id id)) s.admins (d Part.admins),
    )
    written (Command.create_maintenance_window input) Part.maintenance_windows m a w =
        ground (arith, d Part.maintenance_windows)
    written c q m a w = ground arith

    -- A command whose new ids are not in use, and which is no update that gives an id, keeps the ids of every collection distinct.
    pub dispatch-HasDistinctIds : (c : Command) → Admits h c s → HasDistinctIds (dispatch h c s).1
    dispatch-HasDistinctIds c a q = elim (Bool-cases (writes c q)) [
      | inl w ↦ elim (Bool-cases (makes_or_removes c)) [
        | inl m ↦ written c q m a w
        | inr k ↦ rw (dispatch-ids h c q s (Admits-KeepsIds c k a)) (d q)
      ]
      | inr u ↦ rw (ids-Same q s (dispatch h c s).1 (dispatch-Same h c q s u)) (d q)
    ]

initial-HasDistinctIds : HasDistinctIds initial_store
unfolding initial_store
initial-HasDistinctIds Part.organizations = refl
initial-HasDistinctIds _ = refl

-- The stores that the portal can be in while every new id is new and no update gives an id.
pub data Reach : AdminStore → Type 0 where
  start : Reach initial_store
  command :
      {s : AdminStore} (h : Host) (c : Command) → Admits h c s → Reach s → Reach (dispatch h c s).1
  joins : {s : AdminStore} (l : ℕ) → Reach s → Reach (subscribe l s)
  leaves : {s : AdminStore} (l : ℕ) → Reach s → Reach (unsubscribe l s)

ids-subscribe : (l : ℕ) (q : Part) (s : AdminStore) → ids q (subscribe l s) ≡ ids q s
unfolding subscribe
ids-subscribe l Part.organizations s = ground arith
ids-subscribe l _ s = ground arith

ids-unsubscribe : (l : ℕ) (q : Part) (s : AdminStore) → ids q (unsubscribe l s) ≡ ids q s
unfolding unsubscribe
ids-unsubscribe l Part.organizations s = refl
ids-unsubscribe l _ s = refl

-- From the initial data on, no collection ever holds two objects with one id, as long as the id
-- of each new object is not in use when it is added and no update gives an id.
pub Reach-HasDistinctIds : {s : AdminStore} → Reach s → HasDistinctIds s
Reach-HasDistinctIds start = initial-HasDistinctIds
Reach-HasDistinctIds (command {s} h c a r) =
    dispatch-HasDistinctIds h s (Reach-HasDistinctIds r) c a
Reach-HasDistinctIds (joins {s} l r) = λ q. rw (ids-subscribe l q s) (Reach-HasDistinctIds r q)
Reach-HasDistinctIds (leaves {s} l r) = λ q. rw (ids-unsubscribe l q s) (Reach-HasDistinctIds r q)
