-- ===== src/Examples/Reports.antt =====
-- A case of the tests, and the listing of its table.
use mathlib.Core.List.{Permᴰ, Perm}
use mathlib.Core.List.Permᴰ
use open_whistle.Base.{
  Bool, List, if-holds, if◌then◌else◌, keep, arith, false, true, none, max, min, ◌*◌, ◌≤◌,
}
use open_whistle.Reports.Order.{Distinct}
use open_whistle.Reports.Pages.{AnswersInOrder, pages, pages-perm}
use open_whistle.Reports.Listing.{row_before, selected}
use open_whistle.Examples.{
  Db, Sender, settings, carol, morning, evening, morning-IsValid, evening-IsValid, second_case,
  office, glass,
}
use open_whistle.Reports.{
  update_report_status, add_whistleblower_message, add_admin_message, is_valid_transition,
}
use open_whistle.Base.{◌≡◌, refl, true, false, none, some, [], ◌∷◌, ◌++◌, All}
use open_whistle.Base.Outcome.{ok}
use open_whistle.Calendar.{stamp, ordinal, days_before_year, days_before_month, days_in_month}
use open_whistle.Models.{Report, Status}
use open_whistle.Access.{org_scope, can_access_report}
use open_whistle.Reports.Listing.{SortField, Query, Columns, assigned_filter, get_reports_paginated}
use open_whistle.Reports.Pages.{get_reports_paginated-can_access}
use open_whistle.Reports.Lifecycle.{IsCoherent, Step, Reach, Reach-IsCoherent}
use open_whistle.Reports.Monotone.{Keeps, Reach-Keeps}
use open_whistle.Reports.Thread.{IsOrdered, Reach-IsOrdered, add_whistleblower_message-day}

add_whistleblower_message-day_example :
    add_whistleblower_message glass morning second_case "text"
    ≡ add_whistleblower_message glass evening second_case "text"
add_whistleblower_message-day_example =
    add_whistleblower_message-day glass morning evening second_case "text" refl refl refl

abbrev written : Report
written = record second_case {
  messages =
      record {
        sender = Sender.whistleblower;
        content = "text";
        sent_at = record morning { micros = 0 };
      }
      ∷ [];
}

abbrev answered : Report
answered = record written {
  messages =
      written.messages
      ++ record { sender = Sender.office; content = "answer"; sent_at = evening } ∷ [];
}

abbrev moved : Report
moved = record answered { status = Status.in_review }

it_is_written : add_whistleblower_message glass morning second_case "text" ≡ ok written
unfolding add_whistleblower_message
it_is_written = refl

it_is_answered : add_admin_message glass evening written "answer" ≡ ok answered
unfolding add_admin_message stamp ordinal days_before_year days_before_month days_in_month
it_is_answered = refl

it_is_moved : moved ≡ update_report_status evening answered Status.in_review
unfolding update_report_status
it_is_moved = refl

last_step : Step glass answered moved
unfolding is_valid_transition
last_step = Step.set_status evening Status.in_review refl it_is_moved

history : Reach glass second_case moved
history =
    Reach.next
      (Reach.next (Reach.next Reach.here (Step.write morning "text" morning-IsValid it_is_written))
        (Step.reply evening "answer" evening-IsValid it_is_answered))
      last_step

second_case-IsCoherent : IsCoherent second_case
second_case-IsCoherent = record {
  closed_stamped = refl;
  feedback_acknowledged = λ h. cc;
  due_set = refl;
}

Reach-IsCoherent_example : IsCoherent moved
Reach-IsCoherent_example = Reach-IsCoherent glass second_case-IsCoherent history

second_case-IsOrdered : IsOrdered second_case.messages
second_case-IsOrdered = tt

Reach-IsOrdered_example : IsOrdered moved.messages
Reach-IsOrdered_example = Reach-IsOrdered glass second_case-IsOrdered history

Reach-Keeps_example : Keeps second_case moved
Reach-Keeps_example = Reach-Keeps glass history

insert_row : (Report → Report → Bool) → Report → List Report → List Report
insert_row before r [] = r ∷ []
insert_row before r (x ∷ xs) = if before x r then x ∷ insert_row before r xs else r ∷ x ∷ xs

order_rows : (Report → Report → Bool) → List Report → List Report
order_rows before [] = []
order_rows before (x ∷ xs) = insert_row before x (order_rows before xs)

insert_row-perm :
    (before : Report → Report → Bool) (r : Report) (xs : List Report)
    → Permᴰ (insert_row before r xs) (r ∷ xs)
unfolding insert_row
insert_row-perm before r [] = Permᴰ.refl (r ∷ [])
insert_row-perm before r (x ∷ xs) =
    if-holds (λ ys. Permᴰ ys (r ∷ x ∷ xs)) (before x r) (x ∷ insert_row before r xs) (r ∷ x ∷ xs)
      (λ _. Permᴰ.trans (Permᴰ.cons refl (insert_row-perm before r xs)) (Permᴰ.swap refl refl))
      (λ _. Permᴰ.refl (r ∷ x ∷ xs))

order_rows-perm :
    (before : Report → Report → Bool) (xs : List Report) → Permᴰ (order_rows before xs) xs
unfolding order_rows
order_rows-perm before [] = Permᴰ.nil
order_rows-perm before (x ∷ xs) =
    Permᴰ.trans (insert_row-perm before x (order_rows before xs))
      (Permᴰ.cons refl (order_rows-perm before xs))

-- Every row is as good as another; a search finds everything; rows are sorted by insertion.
abbrev columns : Columns
columns = record {
  strictly_before = λ field a b. false;
  ilike = λ text needle. true;
  order = λ page before rows. order_rows before rows;
  permutes = λ page before rows. order_rows-perm before rows;
}

abbrev carols_query : Query
carols_query = record {
  page = 1;
  per_page = 1;
  status_filter = none;
  sort_by = SortField.submitted_at;
  ascending = true;
  assigned_to_id = some 3;
  location_id = none;
  scope = record { scope_org = false; org_id = none };
  case_query = none;
  content_ids = [];
}

-- Carol's case, and one of nobody's.
abbrev carols_office : Db
carols_office = record office {
  reports = second_case ∷ record second_case { id = 9; assigned_to_id = some 3 } ∷ [];
}

carols_scope : carols_query.scope ≡ org_scope settings carol
unfolding org_scope
carols_scope = refl

carols_filter : carols_query.assigned_to_id ≡ assigned_filter carol false
unfolding assigned_filter
carols_filter = refl

lists_carols_case :
    (get_reports_paginated columns carols_query carols_office).0
    ≡ record second_case { id = 9; assigned_to_id = some 3 } ∷ []
unfolding get_reports_paginated order_rows insert_row
lists_carols_case = refl

get_reports_paginated-can_access_example :
    All
      (λ r. can_access_report settings carol r ≡ true)
      (get_reports_paginated columns carols_query carols_office).0
get_reports_paginated-can_access_example =
    get_reports_paginated-can_access columns settings carol false carols_query carols_office
      carols_scope carols_filter

abbrev everything : Query
everything = record carols_query { assigned_to_id = none }

two_pages : (get_reports_paginated columns everything office).1 ≤ 2 * max 1 (min 100 1)
unfolding get_reports_paginated
two_pages = omega arith

newest_first : AnswersInOrder columns everything office
unfolding order_rows insert_row row_before selected
newest_first page = ((refl, tt), (tt, tt))

numbered : Distinct office.reports
numbered = (((λ h. omega (arith, h)), tt), (tt, tt))

pages-perm_example :
    Perm (pages columns 2 everything office) (keep (selected columns everything) office.reports)
pages-perm_example = pages-perm columns 2 everything office newest_first numbered two_pages
