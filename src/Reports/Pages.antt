-- ===== src/Reports/Pages.antt =====
-- The listing against the check of a single case, and its pages against the table.
use open_whistle.Base.{
  ◌≢◌, false, ℕ, zero, suc, ◌+◌, ◌-◌, ◌*◌, ◌≤◌, min, max, ◌≡◌, refl, sym, ap, Bool, true, ◌&&◌,
  Option, none, some, List, [], ◌∷◌, ◌++◌, arith, opt_eq, length, All-of_keep, take, drop, keep,
  All,
}
use mathlib.Core.List.{Perm}
use native.Mathlib.Nat.{zero-add, suc-add}
use open_whistle.Models.{User, Report, Db, Settings}
use open_whistle.Access.{can_access_report, org_scope, own_cases_only}
use open_whistle.Reports.Listing.{
  assigned_filter, Query, Columns, where_eq, where_org, selected, row_before, get_reports_paginated,
}
use open_whistle.Reports.Order.{
  All-perm, length-perm, Distinct, IsSorted, Pairs-keep, sorted_unique,
}
use mathlib.Core.List.Permᴰ

opt_eq_comm : (a b : Option ℕ) → opt_eq a b ≡ opt_eq b a
opt_eq_comm none none = refl
opt_eq_comm none (some b) = refl
opt_eq_comm (some a) none = refl
opt_eq_comm (some a) (some b) = ground arith

-- The filters on assignee and organisation that a caller's lists use pass exactly the reports
-- that the caller may open.
pub where_org-can_access :
    (s : Settings) (u : User) (r : Report)
    → (where_eq (own_cases_only u) r.assigned_to_id && where_org (org_scope s u) r.org_id)
      ≡ can_access_report s u r
unfolding own_cases_only where_org org_scope can_access_report
where_org-can_access s u r = ground (arith, opt_eq_comm u.org_id r.org_id)

-- A narrower choice of assignee stays within the caller's own cases.
narrower :
    (u : User) (my_cases : Bool) (a : Option ℕ)
    → where_eq (assigned_filter u my_cases) a ≡ true
    → where_eq (own_cases_only u) a ≡ true
unfolding assigned_filter own_cases_only
narrower u my_cases a h = ground arith

take-add : (m n : ℕ) (xs : List Report) → take (m + n) xs ≡ take m xs ++ take n (drop m xs)
take-add zero n xs = rw zero-add
take-add (suc m) n [] = rw suc-add (nil_case n)
  where
    nil_case : (k : ℕ) → ◌≡◌ {A = List Report} [] (take k [])
    nil_case zero = refl
    nil_case (suc k) = refl
take-add (suc m) n (x ∷ xs) = rw suc-add (ap (◌∷◌ x) (take-add m n xs))

take_of_length-le : (size : ℕ) (rows : List Report) → length rows ≤ size → take size rows ≡ rows
take_of_length-le zero [] short = refl
take_of_length-le zero (first ∷ rest) short = absurd (omega arith)
take_of_length-le (suc size) [] short = refl
take_of_length-le (suc size) (first ∷ rest) short =
    ap (λ others. first ∷ others) (take_of_length-le size rest (omega arith))

All-drop : (P : Report → Type 0) (n : ℕ) (xs : List Report) → All P xs → All P (drop n xs)
All-drop P zero xs h = h
All-drop P (suc n) [] h = tt
All-drop P (suc n) (x ∷ xs) h = All-drop P n xs h.1

All-take : (P : Report → Type 0) (n : ℕ) (xs : List Report) → All P xs → All P (take n xs)
All-take P zero xs h = tt
All-take P (suc n) [] h = tt
All-take P (suc n) (x ∷ xs) h = (h.0, All-take P n xs h.1)

module _ (columns : Columns) where
  -- Pages 1 to n of a listing, one after the other.
  pub pages : ℕ → Query → Db → List Report
  pages zero q db = []
  pages (suc n) q db =
      pages n q db ++ (get_reports_paginated columns (record q { page = suc n }) db).0

  row_before-page :
      (q : Query) (n : ℕ) (a b : Report)
      → row_before columns (record q { page = n }) a b ≡ row_before columns q a b
  unfolding row_before
  row_before-page q n a b = refl

  kept-page :
      (q : Query) (n : ℕ) (xs : List Report)
      → keep (selected columns (record q { page = n })) xs ≡ keep (selected columns q) xs
  unfolding selected
  kept-page q n xs = refl

  -- The query for a page, its rows ordered.
  abbrev rows_of : ℕ → Query → Db → List Report
  rows_of page q db =
      columns.order page (row_before columns q) (keep (selected columns q) db.reports)

  page_rows :
      (q : Query) (n : ℕ) (db : Db)
      → (get_reports_paginated columns (record q { page = suc n }) db).0
        ≡ take
            (max 1 (min 100 q.per_page))
            (drop (n * max 1 (min 100 q.per_page)) (rows_of (suc n) q db))
  unfolding get_reports_paginated
  page_rows q n db =
      let offset : max 1 (suc n) - 1 ≡ n = omega arith in
      let same : max 1 (suc n) ≡ suc n = omega arith in
      rw (offset, same, kept-page q (suc n) db.reports)

  row_before-tied :
      (q : Query) (x y : Report)
      → row_before columns q x y ≡ false
      → row_before columns q y x ≡ false
      → x.id ≡ y.id
  unfolding row_before
  row_before-tied q x y h k = ground (arith, h, k)

  -- The database answers each page's query in the order that ORDER BY asks for.
  abbrev pub AnswersInOrder : Query → Db → Type 0
  AnswersInOrder q db = (page : ℕ) → IsSorted (row_before columns q) (rows_of page q db)

  one_order :
      (q : Query) (db : Db)
      → AnswersInOrder q db
      → Distinct db.reports
      → (n m : ℕ) → rows_of n q db ≡ rows_of m q db
  one_order q db ordered distinct n m =
      let base = keep (selected columns q) db.reports in
      sorted_unique (row_before columns q) (row_before-tied q) base (rows_of n q db)
        (rows_of m q db) (Pairs-keep (λ x z. x.id ≢ z.id) (selected columns q) db.reports distinct)
        (columns.permutes n (row_before columns q) base)
        (columns.permutes m (row_before columns q) base) (ordered n) (ordered m)

  pages-take :
      (n : ℕ) (q : Query) (db : Db)
      → AnswersInOrder q db
      → Distinct db.reports
      → pages n q db ≡ take (n * max 1 (min 100 q.per_page)) (rows_of 1 q db)
  unfolding pages
  pages-take zero q db ordered distinct =
      let none_yet : 0 * max 1 (min 100 q.per_page) ≡ 0 = omega arith in rw none_yet
  pages-take (suc n) q db ordered distinct =
      let size = max 1 (min 100 q.per_page) in
      let rows = rows_of 1 q db in
      let e : suc n * size ≡ n * size + size = omega arith in
      rw
        (
          pages-take n q db ordered distinct,
          page_rows q n db,
          one_order q db ordered distinct (suc n) 1,
        )
        (rw e (sym (take-add (n * size) size rows)))

  total : (q : Query) (db : Db) → (get_reports_paginated columns q db).1 ≡ length (rows_of 1 q db)
  unfolding get_reports_paginated
  total q db = sym (
      length-perm
        (columns.permutes 1 (row_before columns q) (keep (selected columns q) db.reports)))

  -- If the database orders the rows of each page's query as ORDER BY asks, in whatever way it
  -- breaks the ties that this leaves, the identifiers are distinct and n pages cover the total,
  -- then the first n pages of a listing hold each row that its filters select exactly as often as
  -- the table does.
  pub pages-perm :
      (n : ℕ) (q : Query) (db : Db)
      → AnswersInOrder q db
      → Distinct db.reports
      → (get_reports_paginated columns q db).1 ≤ n * max 1 (min 100 q.per_page)
      → Perm (pages n q db) (keep (selected columns q) db.reports)
  pages-perm n q db ordered distinct h =
      let rows = rows_of 1 q db in
      rw
        (
          pages-take n q db ordered distinct,
          take_of_length-le (n * max 1 (min 100 q.per_page)) rows (omega (arith, total q db)),
        )
        (∣ columns.permutes 1 (row_before columns q) (keep (selected columns q) db.reports) ∣₁)

  selected-scope :
      (q : Query) (r : Report)
      → selected columns q r ≡ true
      → (where_eq q.assigned_to_id r.assigned_to_id ≡ true) × (where_org q.scope r.org_id ≡ true)
  unfolding selected
  selected-scope q r h = ground arith

  -- With the scope and the assignee that the dashboard sets for a caller, every row that it lists
  -- is one that the caller may open.
  pub get_reports_paginated-can_access :
      (s : Settings) (u : User) (my_cases : Bool) (q : Query) (db : Db)
      → q.scope ≡ org_scope s u
      → q.assigned_to_id ≡ assigned_filter u my_cases
      → All (λ r. can_access_report s u r ≡ true) (get_reports_paginated columns q db).0
  unfolding get_reports_paginated
  get_reports_paginated-can_access s u my_cases q db hs ha =
      let may = λ (r : Report). can_access_report s u r ≡ true in
      let base = keep (selected columns q) db.reports in
      let rows = columns.order (max 1 q.page) (row_before columns q) base in
      let size = max 1 (min 100 q.per_page) in
      let start = (max 1 q.page - 1) * size in
      All-take may size (drop start rows) (
        All-drop may start rows (
          All-perm may (Permᴰ.symm (columns.permutes (max 1 q.page) (row_before columns q) base)) (
            All-of_keep may (selected columns q)
              (λ r sel.
                let (mine, org) = selected-scope q r sel in
                let mine' = narrower u my_cases r.assigned_to_id (ground arith) in
                let org' : where_org (org_scope s u) r.org_id ≡ true = ground arith in
                rw (← where_org-can_access s u r) (rw (mine', org')))
              db.reports)))
