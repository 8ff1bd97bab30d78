-- ===== src/Access/Gates.antt =====
-- What the checks of app/api/admin.py and app/api/deps.py let through, against each other.
use open_whistle.Base.{sym, ap, ◌∙◌, some_inj}
use open_whistle.Base.Outcome.{Outcome}
use mathlib.Core.Path.{subst}
use open_whistle.Base.{
  ℕ, ◌≡◌, ◌≢◌, ◌↔◌, ◌⊎◌, inl, inr, true, false, none, some, arith, ◌==◌, ==→eq, opt_eq→eq,
  opt_eq_refl, Bool-cases, Option-cases, find_sound,
}
use open_whistle.Base.Outcome.{ok, http}
use open_whistle.Models.{Role, User, Report, Db, Settings, get_report}
use open_whistle.Access.{
  can_access_report, get_authorized_report, can_reveal_identity, require_admin,
  require_instance_admin, may_run_the_instance,
}

-- The menu shows the instance's pages to exactly the accounts that the pages let in.
pub may_run_the_instance_iff :
    (s : Settings) (u : User)
    → (may_run_the_instance s u ≡ true) ↔ (require_instance_admin s u ≡ ok tt)
unfolding may_run_the_instance require_instance_admin require_admin
may_run_the_instance_iff s u = (ground arith, ground arith)

-- An identity may be revealed exactly to the assignee of the case or, while it has none, to an
-- admin or a superadmin, who with multi-tenancy belongs to the case's organisation.
pub can_reveal_identity_iff :
    (s : Settings) (u : User) (r : Report)
    → (can_reveal_identity s u r ≡ true) ↔ (
        (r.assigned_to_id ≡ some u.id)
        ⊎ ((r.assigned_to_id ≡ none)
            × (u.role ≢ Role.case_manager)
            × ((s.multi_tenancy_enabled ≡ false) ⊎ (u.org_id ≡ r.org_id))))
unfolding can_reveal_identity
can_reveal_identity_iff s u r = (
  ground (arith, opt_eq→eq r.assigned_to_id (some u.id), opt_eq→eq u.org_id r.org_id),
  ground (arith, opt_eq_refl (some u.id), opt_eq_refl r.org_id),
)

get_authorized_report_cases :
    (s : Settings) (db : Db) (id : ℕ) (u : User)
    → ((r : Report) × (get_authorized_report s db id u ≡ ok r)
        × (get_report db id ≡ some r)
        × (can_access_report s u r ≡ true))
      ⊎ (get_authorized_report s db id u ≡ http 404)
unfolding get_authorized_report
get_authorized_report_cases s db id u = elim (Option-cases (get_report db id)) [
  | inl e ↦ inr (rw e)
  | inr (r, e) ↦ elim (Bool-cases (can_access_report s u r)) [
    | inl a ↦ inl (r, rw (e, a), e, a)
    | inr a ↦ inr (rw (e, a))
  ]
]

-- A case found under an identifier has that identifier.
pub id-get_report : (db : Db) (id : ℕ) (r : Report) → get_report db id ≡ some r → r.id ≡ id
unfolding get_report
id-get_report db id r h = ==→eq r.id id (find_sound (λ (x : Report). x.id == id) db.reports r h)

-- A case that was opened is stored, and its caller may access it.
pub get_authorized_report-ok :
    (s : Settings) (db : Db) (id : ℕ) (u : User) (r : Report)
    → get_authorized_report s db id u ≡ ok r
    → (get_report db id ≡ some r) × (can_access_report s u r ≡ true)
get_authorized_report-ok s db id u r h = elim (get_authorized_report_cases s db id u) [
  | inl (r', e, stored, access) ↦ ground arith
  | inr e ↦ cc
]

ok_inj : {x y : Report} → ◌≡◌ {A = Outcome Report} (ok x) (ok y) → x ≡ y
ok_inj h = cc

ok-not-http : {x : Report} {n : ℕ} → ◌≢◌ {A = Outcome Report} (ok x) (http n)
ok-not-http h = cc

-- What the rule is: a superadmin opens every case. Any other account keeps to its organisation
-- where there are several, and a case manager to the cases assigned to it.
abbrev pub MayOpen : Settings → User → Report → Type 0
MayOpen s u r =
    (u.role ≡ Role.superadmin)
    ⊎ (((s.multi_tenancy_enabled ≡ false) ⊎ (u.org_id ≡ r.org_id))
        × ((u.role ≢ Role.case_manager) ⊎ (r.assigned_to_id ≡ some u.id)))

can_access_report_iff :
    (s : Settings) (u : User) (r : Report) → (can_access_report s u r ≡ true) ↔ MayOpen s u r
unfolding can_access_report
can_access_report_iff s u r = (
  ground (arith, opt_eq→eq u.org_id r.org_id, opt_eq→eq r.assigned_to_id (some u.id)),
  ground (arith, opt_eq_refl r.org_id, opt_eq_refl (some u.id)),
)

-- Asking for a case answers with it exactly if it is stored under the identifier and its caller
-- is a superadmin, or is of its organisation (where there are several) and, as a case manager,
-- its assignee. The answer is 404 exactly if there is no such case.
pub get_authorized_report_iff :
    (s : Settings) (db : Db) (id : ℕ) (u : User) (r : Report)
    → ((get_authorized_report s db id u ≡ ok r) ↔ ((get_report db id ≡ some r) × MayOpen s u r))
      × ((get_authorized_report s db id u ≡ http 404)
          ↔ ((x : Report) → get_report db id ≡ some x → ¬ MayOpen s u x))
unfolding get_authorized_report
get_authorized_report_iff s db id u r = elim (Option-cases (get_report db id)) [
  | inl e ↦ (
    (λ h. absurd (ground (arith, e, h)), λ h. absurd (ground (arith, e, h.0))),
    (λ _ x stored. absurd (ground (arith, e, stored)), λ _. rw e),
  )
  | inr (x, e) ↦ elim (Bool-cases (can_access_report s u x)) [
    | inl a ↦
        let opened : get_authorized_report s db id u ≡ ok x = rw (e, a) in
        let may = (can_access_report_iff s u x).0 a in
        (
          (
            λ h.
                let same : x ≡ r = ok_inj (sym opened ∙ h) in
                (e ∙ ap some same, subst (MayOpen s u) same may),
            λ k. opened ∙ ap ok (some_inj (sym e ∙ k.0)),
          ),
          (λ h. absurd (ok-not-http (sym opened ∙ h)), λ refused. absurd (refused x e may)),
        )
    | inr a ↦
        let shut : get_authorized_report s db id u ≡ http 404 = rw (e, a) in
        let never : (y : Report) → get_report db id ≡ some y → ¬ MayOpen s u y = λ y stored may.
          let same : y ≡ x = some_inj (sym stored ∙ e) in
          let yes = (can_access_report_iff s u x).1 (subst (MayOpen s u) same may) in cc in
        (
          (λ h. absurd (ok-not-http (sym h ∙ shut)), λ k. absurd (never r k.0 k.1)),
          (λ _. never, λ _. shut),
        )
  ]
]
