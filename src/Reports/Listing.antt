-- ===== src/Reports/Listing.antt =====
-- The listing of app/services/report.py (get_reports_paginated), as the queries
-- filter, order and cut the rows. The database's comparison of a column is a parameter.
use mathlib.Core.List.{Permᴰ}
use open_whistle.Base.{
  ℕ, ◌-◌, ◌*◌, min, max, String, Bool, true, false, ◌&&◌, ◌||◌, Option, none, some, List, ltb, ◌==◌,
  if◌then◌else◌, opt_eq, is_some, length, take, drop, keep, any,
}
use open_whistle.Models.{User, Report, Db, Status, status_eq}
use open_whistle.Access.{OrgScope, own_cases_only}

pub data SortField : Type 0 where
  submitted_at case_number category status : SortField

pub record Query : Type 0 where
  pub page : ℕ
  pub per_page : ℕ
  pub status_filter : Option Status
  pub sort_by : SortField
  pub ascending : Bool
  pub assigned_to_id : Option ℕ
  pub location_id : Option ℕ
  pub scope : OrgScope
  pub case_query : Option String
  pub content_ids : List ℕ

-- if value is not None: q.where(column == value)
abbrev pub where_eq : Option ℕ → Option ℕ → Bool
where_eq none column = true
where_eq (some v) column = opt_eq column (some v)

-- if scope_org or org_id is not None: q.where(Report.org_id == org_id), NULL for None
unfoldable pub where_org : OrgScope → Option ℕ → Bool
where_org scope org_id =
    if scope.scope_org || is_some scope.org_id then opt_eq org_id scope.org_id else true

-- admin.py: `_own_cases_only(current_user) or (current_user.id if my_cases else None)`
unfoldable pub assigned_filter : User → Bool → Option ℕ
unfolding own_cases_only
assigned_filter user my_cases = elim (own_cases_only user) [
  | some id ↦ some id
  | none ↦ if my_cases then some user.id else none
]

-- What PostgreSQL does with a column: `strictly_before` of its values, and ILIKE with the needle
-- taken literally between two wildcards. `order` is the ORDER BY of one query: the same rows in some
-- order, which for another page, that is another query, may fall differently where rows tie.
pub record Columns : Type 0 where
  pub strictly_before : SortField → Report → Report → Bool
  pub ilike : String → String → Bool
  pub order : (page : ℕ) → (Report → Report → Bool) → List Report → List Report
  pub permutes :
      (page : ℕ) (before : Report → Report → Bool) (rows : List Report)
      → Permᴰ (order page before rows) rows

module _ (columns : Columns) where
  unfoldable pub selected : Query → Report → Bool
  unfolding where_org
  selected q r =
      (elim q.status_filter [ none ↦ true | some s ↦ status_eq r.status s ])
      && where_eq q.assigned_to_id r.assigned_to_id
      && where_eq q.location_id r.location_id
      && where_org q.scope r.org_id
      && (elim q.case_query [
        | none ↦ true
        | some needle ↦ columns.ilike r.case_number needle || any (λ i. i == r.id) q.content_ids
      ])

  -- order_by(order_expr, Report.id.desc())
  unfoldable pub row_before : Query → Report → Report → Bool
  row_before q a b =
      let forward = columns.strictly_before q.sort_by a b in
      let backward = columns.strictly_before q.sort_by b a in
      if (if q.ascending then forward else backward)
      then true
      else if (if q.ascending then backward else forward)
      then false
      else ltb b.id a.id

  unfoldable pub get_reports_paginated : Query → Db → List Report × ℕ
  unfolding row_before selected
  get_reports_paginated q db =
      let page = max 1 q.page in
      let per_page = max 1 (min 100 q.per_page) in
      let base = keep (selected q) db.reports in
      (
        take per_page (drop ((page - 1) * per_page) (columns.order page (row_before q) base)),
        length base,
      )
