-- ===== src/Admin/Laws/Timeline.antt =====
-- The history of an incident and of the store over many calls (`updateIncidentStatus` and
-- `logAction` of web/src/repositories/adminStore.ts).
use guardian_cloud.Prelude.{
  ℕ, suc, ◌+◌, ◌≡◌, refl, ◌∙◌, Bool, true, false, Option, some, List, [], ◌∷◌, String, arith,
  length, if◌then◌else◌,
}
use text.Mathlib.TextPositions.{eq_refl}
use guardian_cloud.Admin.Types.Enums.{IncidentStatus}
use guardian_cloud.Admin.Types.Security.{SecurityIncident}
use guardian_cloud.Admin.Types.Platform.{AuditLogEntry}
use guardian_cloud.Admin.State.{Host, AdminStore}
use guardian_cloud.Admin.Store.Security.{
  get_incident_by_id, update_incident_status, with_incident_status,
}
use guardian_cloud.Admin.Service.{Command, dispatch, succeeded}
use guardian_cloud.Admin.Laws.Trail.{Accounted, older, target, dispatch-Accounted}
use guardian_cloud.Admin.Laws.Lookup.{get_incident_by_id-update_incident_status}

-- One call of `updateIncidentStatus`: what the host reads, the status and the notes.
pub record StatusChange : Type 0 where
  pub host : Host
  pub status : IncidentStatus
  pub notes : Option String

-- the calls in turn, on one incident
unfoldable pub change_all : List StatusChange → String → AdminStore → AdminStore
change_all [] id s = s
change_all (c ∷ cs) id s = change_all cs id (update_incident_status c.host id c.status c.notes s).1

-- what they make of the incident
replay : List StatusChange → SecurityIncident → SecurityIncident
replay [] i = i
replay (c ∷ cs) i = replay cs (with_incident_status c.host c.status c.notes i)

abbrev pub last_status : IncidentStatus → List StatusChange → IncidentStatus
last_status old [] = old
last_status old (c ∷ cs) = last_status c.status cs

get_incident_by_id-change_all :
    (cs : List StatusChange) (id : String) (s : AdminStore) (i : SecurityIncident)
    → get_incident_by_id id s ≡ some i
    → get_incident_by_id id (change_all cs id s) ≡ some (replay cs i)
unfolding change_all replay
get_incident_by_id-change_all [] id s i e = e
get_incident_by_id-change_all (c ∷ cs) id s i e =
    get_incident_by_id-change_all cs id (update_incident_status c.host id c.status c.notes s).1
      (with_incident_status c.host c.status c.notes i)
      ((get_incident_by_id-update_incident_status c.host id c.status c.notes id s).1
        ∙ rw (eq_refl id, e))

-- `older` is what `newer` ends with.
pub data Extends {ℓ} {A : Type ℓ} (older : List A) : List A → Type ℓ where
  same : Extends older older
  more : {newer : List A} (x : A) → Extends older newer → Extends older (x ∷ newer)

Extends-trans {ℓ} : {A : Type ℓ} {xs ys zs : List A} → Extends xs ys → Extends ys zs → Extends xs zs
Extends-trans e same = e
Extends-trans e (more x f) = more x (Extends-trans e f)

replay-Extends :
    (cs : List StatusChange) (i : SecurityIncident) → Extends i.timeline (replay cs i).timeline
unfolding replay with_incident_status
replay-Extends [] i = same
replay-Extends (c ∷ cs) i =
    Extends-trans (more _ same) (replay-Extends cs (with_incident_status c.host c.status c.notes i))

replay_fields :
    (cs : List StatusChange) (i : SecurityIncident)
    → ((replay cs i).status ≡ last_status i.status cs)
      × (length (replay cs i).timeline ≡ length i.timeline + length cs)
      × ((replay cs i).created_at ≡ i.created_at)
unfolding replay with_incident_status
replay_fields [] i = (refl, omega arith, refl)
replay_fields (c ∷ cs) i =
    let r = replay_fields cs (with_incident_status c.host c.status c.notes i) in
    (r.0, r.1 ∙ omega arith, r.2)

-- Any sequence of status changes of a known incident leaves it findable, with the status of the last
-- change, one new timeline entry for each change before all the old ones, and its creation date.
pub change_all_history :
    (cs : List StatusChange) (id : String) (s : AdminStore) (i : SecurityIncident)
    → get_incident_by_id id s ≡ some i
    → (j : SecurityIncident) × (get_incident_by_id id (change_all cs id s) ≡ some j)
      × (j.status ≡ last_status i.status cs)
      × (length j.timeline ≡ length i.timeline + length cs)
      × Extends i.timeline j.timeline
      × (j.created_at ≡ i.created_at)
change_all_history cs id s i e =
    let r = replay_fields cs i in
    (replay cs i, get_incident_by_id-change_all cs id s i e, r.0, r.1, replay-Extends cs i, r.2)

-- The commands of a session in turn, each with what the host reads in it, and how many of them
-- report success.
unfoldable pub run : List (Host × Command) → AdminStore → ℕ × AdminStore
run [] s = (0, s)
run ((h, c) ∷ cs) s =
    let (r, s') = dispatch h c s in
    let (n, s'') = run cs s' in ((if succeeded r then suc n else n), s'')

Extends-older :
    (es fs : List AuditLogEntry) → older es ≡ fs → length es ≡ suc (length fs) → Extends fs es
Extends-older [] fs e n = absurd (omega arith)
Extends-older (e ∷ es) fs p n = rw (← p) (more e same)

older_audit_logs :
    (h : Host) (c : Command) (s : AdminStore)
    → let (r, s') = dispatch h c s in
      Extends s.audit_logs s'.audit_logs
      × (length s'.audit_logs ≡ length s.audit_logs + (if succeeded r then 1 else 0))
older_audit_logs h c s =
    go (succeeded (dispatch h c s).0) (dispatch h c s).1 (dispatch-Accounted h c s)
  where
    go :
        (b : Bool) (s' : AdminStore)
        → Accounted s (target h c) (b, s')
        → Extends s.audit_logs s'.audit_logs
          × (length s'.audit_logs ≡ length s.audit_logs + (if b then 1 else 0))
    go true s' a =
        (Extends-older s'.audit_logs s.audit_logs a.kept a.one_more, omega (arith, a.one_more))
    go false s' a = rw a (same, omega arith)

-- A session of commands only adds to the audit log: the old entries stay behind the new ones, of
-- which there is one for each command that reports success.
pub run_history :
    (cs : List (Host × Command)) (s : AdminStore)
    → let (n, s') = run cs s in
      Extends s.audit_logs s'.audit_logs × (length s'.audit_logs ≡ length s.audit_logs + n)
unfolding run
run_history [] s = (same, omega arith)
run_history ((h, c) ∷ cs) s =
    let now = older_audit_logs h c s in
    let later = run_history cs (dispatch h c s).1 in
    (Extends-trans now.0 later.0, ground (arith, now.1, later.1))
