-- ===== src/Leads.antt =====
-- apps/api-core/src/modules/leads/leads.service.ts: enquiries and their pipeline.
pub mod Pipeline
pub mod Updates
pub mod Intake
mod Tests
use Prim.Native.String.{◌++◌}
use real_estate_platform.Base.{
  ℕ, ◌+◌, Bool, true, false, not, ◌&&◌, List, [], ◌∷◌, any, String, ◌==◌, Option, none, some, trim,
  given, is_some, or_else, ◌=?◌, if◌then◌else◌,
}
use real_estate_platform.Enums.{
  LeadStatus, new, contacted, qualified, viewing, negotiating, won, lost, same_lead_status,
  lead_statuses, lead_status_text, UserRole, staff_roles, includes_role,
}
use real_estate_platform.Errors.{
  Thrown, bad_request_error, not_found_error, detail, bad_request, related_resource_not_found,
  lead_not_found,
}
use real_estate_platform.Exec.{
  Exec, Reply, query, store, throw_if, or_throw, if_given, pure, ◌>>=◌, ◌>>◌, Result, ok, continue,
}
use real_estate_platform.Catalog.{is_area, is_compound, unknown_reference}
use real_estate_platform.Schema.{Lead, User, PropertyIndex, Area, Compound}
use real_estate_platform.Table.Checks.{require}
use real_estate_platform.Platform.{Platform, World}
use real_estate_platform.Properties.{increment_lead_count}

unfoldable pub transitions : LeadStatus → List LeadStatus
transitions new = contacted ∷ qualified ∷ lost ∷ []
transitions contacted = qualified ∷ viewing ∷ lost ∷ []
transitions qualified = viewing ∷ negotiating ∷ lost ∷ []
transitions viewing = negotiating ∷ won ∷ lost ∷ []
transitions negotiating = won ∷ lost ∷ []
transitions won = []
transitions lost = []

unfoldable pub may_move : LeadStatus → LeadStatus → Bool
unfolding transitions
may_move from to = any (λ s. same_lead_status s to) (transitions from)

-- `TRANSITIONS[from].join(', ')`.
join_statuses : List LeadStatus → String
join_statuses [] = ""
join_statuses (s ∷ []) = lead_status_text s
join_statuses (s ∷ t ∷ ss) = lead_status_text s ++ (", " ++ join_statuses (t ∷ ss))

allowed_text : List LeadStatus → String
unfolding join_statuses
allowed_text [] = " — this status is final."
allowed_text (s ∷ ss) = ". Allowed: " ++ join_statuses (s ∷ ss)

unfoldable pub transition_error : LeadStatus → LeadStatus → Thrown
unfolding allowed_text transitions
transition_error from to =
    bad_request_error
      ("A lead cannot move from \""
        ++ (lead_status_text from
            ++ ("\" to \"" ++ (lead_status_text to ++ ("\"" ++ allowed_text (transitions from))))))
      bad_request
      (detail "status" ("invalid transition from " ++ lead_status_text from) "transition")

pub record CreateLeadDto : Type 0 where
  pub property_id : Option String
  pub name : String
  pub phone : String
  pub email : Option String
  pub message : Option String
  pub area_id : Option String
  pub compound_id : Option String
  pub property_type : Option String
  pub source : Option String
  pub company : Option String

-- `dto.company && dto.company.trim().length > 0`.
unfoldable pub honeypot_tripped : CreateLeadDto → Bool
honeypot_tripped dto = elim dto.company [ none ↦ false | some c ↦ not (trim c == "") ]

-- An absent field, a field that is set to `null`, or a value.
pub data Change {ℓ} (A : Type ℓ) : Type ℓ where
  keep null : Change A
  to : A → Change A

pub record UpdateLeadDto : Type 0 where
  pub status : Option LeadStatus
  pub assigned_to_id : Change String
  pub notes : Change String

abbrev pub lead_missing : String → Thrown
lead_missing id = not_found_error ("Lead \"" ++ (id ++ "\" was not found")) lead_not_found

-- `where: { id, deletedAt: null }`.
abbrev pub is_live_property : String → PropertyIndex → Bool
is_live_property id r = r.id == id && not (is_some r.deleted_at)

abbrev pub is_agent : String → User → Bool
is_agent id u = u.id == id && includes_role staff_roles u.role

abbrev pub is_lead : String → Lead → Bool
is_lead id l = l.id == id

-- The row that `create` stores; the database fills in the identifier and the date.
unfoldable pub new_lead : CreateLeadDto → Option String → String → ℕ → Lead
new_lead dto submitter id now = record {
  id = id;
  property_id = dto.property_id;
  user_id = submitter;
  name = dto.name;
  phone = dto.phone;
  email = dto.email;
  message = dto.message;
  source = or_else dto.source "website";
  area_id = dto.area_id;
  compound_id = dto.compound_id;
  property_type = dto.property_type;
  status = new;
  assigned_to_id = none;
  notes = none;
  contacted_at = none;
  created_at = now;
}

abbrev pub changed_to : Change String → Option String → Option String
changed_to keep old = old
changed_to null old = none
changed_to (to a) old = some a

-- The `data` of the update, on the row that was read.
unfoldable pub apply_update : UpdateLeadDto → Option ℕ → ℕ → Lead → Lead
apply_update dto contacted_at now l = record l {
  status = or_else dto.status l.status;
  assigned_to_id = changed_to dto.assigned_to_id l.assigned_to_id;
  notes = changed_to dto.notes l.notes;
  contacted_at = if moving then some now else l.contacted_at;
}
  where
    moving : Bool
    moving = elim dto.status [
      | none ↦ false
      | some s ↦ same_lead_status s contacted && not (is_some contacted_at)
    ]

module _ (p : Platform) where
  abbrev pub on_leads : {A : Type 0} → (p.leads.Db → Reply (A × p.leads.Db)) → Exec (World p) A
  on_leads f = store (λ w. w.leads) (λ w d. record w { leads = d }) f

  unfoldable pub assert_property : String → Exec (World p) (Unit {0})
  assert_property id =
      require p.property_index (λ w. w.property_index) (is_live_property id)
        (unknown_reference "Property" id "propertyId" "unknown property")

  unfoldable pub assert_area : String → Exec (World p) (Unit {0})
  assert_area id =
      require p.areas (λ w. w.areas) (is_area id)
        (unknown_reference "Area" id "areaId" "unknown area")

  unfoldable pub assert_compound : String → Exec (World p) (Unit {0})
  assert_compound id =
      require p.compounds (λ w. w.compounds) (is_compound id)
        (unknown_reference "Compound" id "compoundId" "unknown compound")

  unfoldable pub assert_catalog_refs_exist :
      Option String → Option String → Exec (World p) (Unit {0})
  assert_catalog_refs_exist area_id compound_id = do
    if_given (given area_id) assert_area
    if_given (given compound_id) assert_compound

  unfoldable pub count_lead : Option String → ℕ → Exec (World p) (Unit {0})
  count_lead property_id now =
      if_given (given property_id) (λ id. do increment_lead_count p id now; pure tt)

  -- The enquiry of a form that passes the honeypot.
  unfoldable pub submit :
      CreateLeadDto → Option String → String → ℕ → Exec (World p) (Option String)
  submit dto submitter id now = do
    if_given (given dto.property_id) assert_property
    assert_catalog_refs_exist dto.area_id dto.compound_id
    lead ← on_leads (p.leads.create (new_lead dto submitter id now))
    count_lead dto.property_id now
    pure (some lead.id)

  unfoldable pub create :
      CreateLeadDto → Option String → String → ℕ → Exec (World p) (Option String)
  create dto submitter id now = elim (honeypot_tripped dto) [
    | true ↦ pure none
    | false ↦ submit dto submitter id now
  ]

  unfoldable pub find_one : String → Exec (World p) Lead
  find_one id = do
    lead ← query (λ w. p.leads.find_first (is_lead id) w.leads)
    or_throw lead (lead_missing id)

  -- `dto.status !== undefined && dto.status !== existing.status`, then `assertTransition`.
  unfoldable pub assert_transition : LeadStatus → Option LeadStatus → Exec (World p) (Unit {0})
  assert_transition from none = pure tt
  assert_transition from (some s) =
      throw_if (not (same_lead_status s from) && not (may_move from s)) (transition_error from s)

  unfoldable pub assert_assignee : Change String → Exec (World p) (Unit {0})
  assert_assignee (to id) = if_given (given (some id)) (λ a.
      require p.users (λ w. w.users) (is_agent a)
        (bad_request_error "Leads can only be assigned to an agent or administrator"
          related_resource_not_found (detail "assignedToId" "not an agent" "exists")))
  assert_assignee _ = pure tt

  unfoldable pub update : String → UpdateLeadDto → ℕ → Exec (World p) Lead
  update id dto now = do
    existing ← find_one id
    assert_transition existing.status dto.status
    assert_assignee dto.assigned_to_id
    on_leads (p.leads.update (is_lead id) (apply_update dto existing.contacted_at now))

  unfoldable pub remove : String → Exec (World p) String
  remove id = do
    require p.leads (λ w. w.leads) (is_lead id) (lead_missing id)
    on_leads (p.leads.delete (is_lead id))
    pure id
