-- ===== src/Leads/Updates.antt =====
-- What an update of a lead does to the row, and when it is refused.
use real_estate_platform.Base.{
  ℕ, ◌≡◌, refl, sym, ap, ◌∙◌, ◌⊎◌, inl, inr, true, false, not, ◌&&◌, arith, String, Option, none,
  some, find, ◌==◌, or_else, some-injective, any, given, given-none, given-some, eq_iff, subst,
}
use real_estate_platform.Enums.{LeadStatus, same_lead_status, same_lead_status_iff}
use real_estate_platform.Exec.{ok, answer}
use real_estate_platform.Exec.Inversion.{
  >>=-ok, >>-ok, query-ok, store-ok, throw_if-ok, or_throw-ok, if_given-ok,
}
use real_estate_platform.Schema.{Lead}
use real_estate_platform.Table.{patch}
use real_estate_platform.Table.Checks.{require-ok}
use real_estate_platform.Platform.{Platform, World}
use real_estate_platform.Leads.{
  may_move, UpdateLeadDto, is_lead, find_one, assert_transition, assert_assignee, apply_update,
  update, Change, keep, null, to, is_agent,
}

moves_or_stays :
    (from s t : LeadStatus)
    → (not (same_lead_status s from) && not (may_move from s)) ≡ false
    → some s ≡ some t
    → (t ≡ from) ⊎ (may_move from t ≡ true)
moves_or_stays from s t h e = ground (arith, same_lead_status_iff s from)

empty_filled : (a b : String) → (b == "") ≡ true → to b ≡ to a → (a == "") ≡ false → ⊥
empty_filled a b empty h filled = ground (arith, eq_iff b "", eq_iff a "")

same_id : (a b id : String) → some b ≡ some id → to b ≡ to a → id ≡ a
same_id a b id h k = cc

apply_update-status :
    (dto : UpdateLeadDto) (c : Option ℕ) (now : ℕ) (l : Lead)
    → (apply_update dto c now l).status ≡ or_else dto.status l.status
unfolding apply_update
apply_update-status dto c now l = refl

apply_update_contact :
    (dto : UpdateLeadDto) (now t : ℕ) (l : Lead)
    → l.contacted_at ≡ some t
    → (apply_update dto l.contacted_at now l).contacted_at ≡ some t
unfolding apply_update
apply_update_contact dto now t l e = ground arith

moved_status :
    (o : Option LeadStatus) (from : LeadStatus)
    → ((s : LeadStatus) → o ≡ some s → (s ≡ from) ⊎ (may_move from s ≡ true))
    → (or_else o from ≡ from) ⊎ (may_move from (or_else o from) ≡ true)
moved_status none from h = inl refl
moved_status (some s) from h = h s refl

module _ (p : Platform) where
  find_one-ok :
      (id : String) (w : World p) (l : Lead) (w' : World p)
      → find_one p id w ≡ (ok l, w')
      → (find (is_lead id) (p.leads.rows w.leads) ≡ some l) × (w' ≡ w)
  unfolding find_one
  find_one-ok id w l w' e =
      let (o, w1, asked, rest) = >>=-ok _ _ w e in
      let (replied, same) = query-ok _ w asked in
      let (given, same') = or_throw-ok o _ w1 rest in
      (sym (p.leads.find_first_rows _ w.leads o replied) ∙ given, same' ∙ same)

  assert_transition-ok :
      (from : LeadStatus) (o : Option LeadStatus) (w w' : World p)
      → assert_transition p from o w ≡ (ok tt, w')
      → (w' ≡ w) × ((s : LeadStatus) → o ≡ some s → (s ≡ from) ⊎ (may_move from s ≡ true))
  unfolding assert_transition
  assert_transition-ok from none w w' e = (ap (λ r. r.1) (sym e), λ s h. absurd (cc))
  assert_transition-ok from (some s) w w' e =
      let (fine, same) = throw_if-ok _ _ w e in (same, λ t h. moves_or_stays from s t fine h)

  assert_assignee-ok :
      (c : Change String) (w w' : World p)
      → assert_assignee p c w ≡ (ok tt, w')
      → (w' ≡ w)
        × ((a : String)
            → c ≡ to a
            → (a == "") ≡ false
            → any (is_agent a) (p.users.rows w.users) ≡ true)
  unfolding assert_assignee
  assert_assignee-ok keep w w' e = (ap (λ r. r.1) (sym e), λ a h. absurd (cc))
  assert_assignee-ok null w w' e = (ap (λ r. r.1) (sym e), λ a h. absurd (cc))
  assert_assignee-ok (to b) w w' e = elim (if_given-ok (given (some b)) _ w e) [
    | inl (no_id, same) ↦
        (same, λ a h filled. absurd (empty_filled a b (given-none b no_id) h filled))
    | inr (id, is_id, checked) ↦
        let (found, same) = require-ok _ _ _ _ w w' checked in
        (
          same,
          λ a h filled.
              subst (λ i. any (is_agent i) (p.users.rows w.users) ≡ true)
                (same_id a b id (given-some (some b) id is_id).0 h) found,
        )
  ]

  -- What an update that succeeds has done.
  pub record IsUpdated (id : String) (dto : UpdateLeadDto) (now : ℕ) (l : Lead) (w w' : World p)
      : Type 0 where
    pub old : Lead
    pub was : find (is_lead id) (p.leads.rows w.leads) ≡ some old
    pub answered : l ≡ apply_update dto old.contacted_at now old
    pub moved : (l.status ≡ old.status) ⊎ (may_move old.status l.status ≡ true)
    pub contact_kept : (t : ℕ) → old.contacted_at ≡ some t → l.contacted_at ≡ some t
    pub assigned :
        (a : String)
        → dto.assigned_to_id ≡ to a
        → (a == "") ≡ false
        → any (is_agent a) (p.users.rows w.users) ≡ true
    pub stored :
        p.leads.rows w'.leads
        ≡ patch (is_lead id) (apply_update dto old.contacted_at now) (p.leads.rows w.leads)
    pub others : w' ≡ record w { leads = w'.leads }

  -- A lead is updated only if it exists, and the row that is answered is stored in its place. Its
  -- status is the old one or one that the pipeline allows next; a contact date that is set stays;
  -- an assignee that is given and not empty is an agent or an administrator. No other store changes.
  pub update_sound :
      (id : String) (dto : UpdateLeadDto) (now : ℕ) (w : World p) (l : Lead) (w' : World p)
      → update p id dto now w ≡ (ok l, w')
      → IsUpdated id dto now l w w'
  unfolding update
  update_sound id dto now w l w' e =
      let (old, w1, found, rest1) = >>=-ok _ _ w e in
      let (u, w2, allowed, rest2) = >>-ok _ _ w1 rest1 in
      let (v, w3, assigned, rest3) = >>-ok _ _ w2 rest2 in
      let (db, stored, written) = store-ok _ _ _ w3 rest3 in
      let (is_old, same1) = find_one-ok id w old w1 found in
      let moved = assert_transition-ok old.status dto.status w1 w2 allowed in
      let agent = assert_assignee-ok dto.assigned_to_id w2 w3 assigned in
      let same2 = moved.0 ∙ same1 in
      let same3 = agent.0 ∙ same2 in
      let at_w =
        subst
          (λ v.
            p.leads.update (is_lead id) (apply_update dto old.contacted_at now) v.leads
            ≡ answer (l, db))
          same3 stored in
      let ((r, is_r, is_l), patched) = p.leads.update_rows _ _ w.leads (l, db) at_w in
      let l_is =
        is_l ∙ ap (apply_update dto old.contacted_at now) (some-injective (sym is_r ∙ is_old)) in
      let status_is = ap (λ m. m.status) l_is ∙ apply_update-status dto old.contacted_at now old in
      let here = written ∙ ap {A = World p} (λ v. record v { leads = db }) same3 in
      record {
        old = old;
        was = is_old;
        answered = l_is;
        moved =
            subst (λ s. (s ≡ old.status) ⊎ (may_move old.status s ≡ true)) (sym status_is)
              (moved_status dto.status old.status moved.1);
        contact_kept =
            λ t set. ap (λ m. m.contacted_at) l_is ∙ apply_update_contact dto now t old set;
        assigned =
            subst
              (λ v.
                (a : String)
                → dto.assigned_to_id ≡ to a
                → (a == "") ≡ false
                → any (is_agent a) (p.users.rows v.users) ≡ true)
              same2 agent.1;
        stored = ap (λ v. p.leads.rows v.leads) here ∙ patched;
        others =
            here ∙ ap {A = p.leads.Db} (λ d. record w { leads = d }) (sym (ap (λ v. v.leads) here));
      }
