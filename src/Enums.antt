-- ===== src/Enums.antt =====
-- apps/api-core/src/common/enums.ts: user roles, lead statuses, property statuses and their
-- `===` on the string literals.
use real_estate_platform.Base.{ℕ, Bool, true, List, [], ◌∷◌, ◌=?◌, any, ◌≡◌, ◌↔◌, arith, String}

pub data UserRole : Type 0 where
  user agent admin superadmin : UserRole

abbrev pub role_index : UserRole → ℕ
role_index user = 0
role_index agent = 1
role_index admin = 2
role_index superadmin = 3

abbrev pub same_role : UserRole → UserRole → Bool
same_role a b = role_index a =? role_index b

pub same_role_iff : (a b : UserRole) → (same_role a b ≡ true) ↔ (a ≡ b)
same_role_iff a b = ground arith

abbrev pub staff_roles : List UserRole
staff_roles = agent ∷ admin ∷ superadmin ∷ []

abbrev pub admin_roles : List UserRole
admin_roles = admin ∷ superadmin ∷ []

abbrev pub includes_role : List UserRole → UserRole → Bool
includes_role rs r = any (λ q. same_role q r) rs

pub data LeadStatus : Type 0 where
  new contacted qualified viewing negotiating won lost : LeadStatus

abbrev pub lead_status_index : LeadStatus → ℕ
lead_status_index new = 0
lead_status_index contacted = 1
lead_status_index qualified = 2
lead_status_index viewing = 3
lead_status_index negotiating = 4
lead_status_index won = 5
lead_status_index lost = 6

abbrev pub same_lead_status : LeadStatus → LeadStatus → Bool
same_lead_status a b = lead_status_index a =? lead_status_index b

pub same_lead_status_iff : (a b : LeadStatus) → (same_lead_status a b ≡ true) ↔ (a ≡ b)
same_lead_status_iff a b = ground arith

-- `Object.keys(TRANSITIONS)` and `LEAD_STATUSES`, in the source's order.
abbrev pub lead_statuses : List LeadStatus
lead_statuses = new ∷ contacted ∷ qualified ∷ viewing ∷ negotiating ∷ won ∷ lost ∷ []

pub data PropertyStatus : Type 0 where
  available reserved sold off_plan delivered : PropertyStatus

abbrev pub lead_status_text : LeadStatus → String
lead_status_text new = "new"
lead_status_text contacted = "contacted"
lead_status_text qualified = "qualified"
lead_status_text viewing = "viewing"
lead_status_text negotiating = "negotiating"
lead_status_text won = "won"
lead_status_text lost = "lost"
