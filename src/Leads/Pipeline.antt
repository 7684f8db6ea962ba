-- ===== src/Leads/Pipeline.antt =====
-- The lead pipeline of `TRANSITIONS` as a step relation: its order, its ends, its length.
use real_estate_platform.Base.{
  ℕ, suc, ◌+◌, ◌≤◌, ◌<◌, ◌≡◌, ◌≢◌, ◌↔◌, Bool, true, false, not, arith, ◌||◌,
}
use real_estate_platform.Enums.{
  LeadStatus, new, contacted, qualified, viewing, negotiating, won, lost, same_lead_status,
}
use real_estate_platform.Leads.{may_move}

-- How far a lead has come; `won` and `lost` are the two ends.
abbrev stage : LeadStatus → ℕ
stage new = 0
stage contacted = 1
stage qualified = 2
stage viewing = 3
stage negotiating = 4
stage won = 5
stage lost = 5

abbrev pub is_final : LeadStatus → Bool
is_final won = true
is_final lost = true
is_final _ = false

-- A run of `n` status moves that the service allows.
pub data Trail (from : LeadStatus) : LeadStatus → ℕ → Type 0 where
  here : Trail from from 0
  step : {s t : LeadStatus} {n : ℕ} → Trail from s n → may_move s t ≡ true → Trail from t (suc n)

may_move-stage : (s t : LeadStatus) → may_move s t ≡ true → stage s < stage t
unfolding may_move
may_move-stage s t h = ground arith

Trail-stage : {s t : LeadStatus} {n : ℕ} → Trail s t n → n + stage s ≤ stage t
Trail-stage here = omega arith
Trail-stage (step {s = s} {t = t} trail h) = omega (arith, Trail-stage trail, may_move-stage s t h)

stage-le : (s : LeadStatus) → stage s ≤ 5
stage-le s = ground arith

-- A lead makes at most five moves in its life, and no run of one or more moves comes back to the
-- status at which it began.
pub Trail-bound : {s t : LeadStatus} {n : ℕ} → Trail s t n → (n ≤ 5) × (0 < n → s ≢ t)
Trail-bound {s} {t} {n} trail = (
  omega (arith, Trail-stage trail, stage-le t),
  λ pos same. omega (arith, Trail-stage trail, ap_stage same),
)
  where
    ap_stage : s ≡ t → stage s ≡ stage t
    ap_stage e = cc

abbrev pub has_been_shown : LeadStatus → Bool
has_been_shown s = same_lead_status s viewing || same_lead_status s negotiating

-- A status is left exactly when it is neither `won` nor `lost`; every status that is left can go
-- to `lost` at once; only `viewing` and `negotiating` lead to `won`; nothing leads back to `new`.
final_iff :
    (s : LeadStatus)
    → ((is_final s ≡ false) ↔ ((t : LeadStatus) × (may_move s t ≡ true)))
      × (may_move s lost ≡ not (is_final s))
      × (may_move s won ≡ has_been_shown s)
      × (may_move s new ≡ false)
unfolding may_move
final_iff s = (
  (λ h. (lost, ground arith), λ r. ground (arith, r.1)),
  ground arith,
  ground arith,
  ground arith,
)
