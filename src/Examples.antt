-- ===== src/Examples.antt =====
-- The tests: an office of three accounts with two cases, on which the theorems are applied.
pub mod Cases
pub mod Accounts
pub mod Deadlines
pub mod Reports
pub mod Jobs
pub mod Reporters
pub mod Drafts
pub mod Intake
pub mod SignIns
pub mod Sweeps
use open_whistle.Base.{
  ℕ, zero, suc, ◌+◌, ◌-◌, ◌*◌, ◌/◌, ◌%◌, ◌≤◌, ◌<◌, min, max, String, ◌≡◌, refl, sym, ap, ◌∙◌,
  ◌≡⟨◌⟩◌, ◌∎, ◌≢◌, ◌↔◌, ◌⊎◌, inl, inr, Bool, true, false, not, ◌&&◌, ◌||◌, Option, none, some, List,
  [], ◌∷◌, ◌++◌, map, arith, ltb, leb, ◌==◌, if◌then◌else◌, opt_eq, is_some, ltb→lt, lt→ltb, leb→le,
  le→leb, ==→eq, ==-refl, opt_eq→eq, opt_eq_refl, Bool-cases, Option-cases, length, take, drop,
  keep, find, any, all, length-append, length-keep-le, find_sound, All, All-append, All-keep,
}
use open_whistle.Base.Int.{
  ℤ, pos, negsuc, pos_part, neg_part, sub_ℕ, ◌+ℤ◌, ◌≤ℤ◌, ltb_ℤ, leb_ℤ, floor_div, floor_mod,
}
use open_whistle.Base.Outcome.{
  Outcome, ok, http, raised, ◌>>=◌, ◌>>◌, demand, present, >>=-eq-ok, demand-eq-ok, present-eq-ok,
}
use open_whistle.Calendar.{Datetime, days_in_month, IsValid}
use open_whistle.Models.{Role, User, Status, Sender, Message, Report, DeletionRequest, Db, Settings}
use open_whistle.Reports.{Vault}
use open_whistle.Cases.Deletion.{Redis}

abbrev pub settings : Settings
settings = record { multi_tenancy_enabled = false; demo_mode = false; demo_usernames = [] }

abbrev pub account : ℕ → String → Role → Option ℕ → User
account id username role maker = record {
  id = id;
  username = username;
  password_hash = some "hash";
  totp_enabled = true;
  role = role;
  is_active = true;
  must_change_password = false;
  org_id = some 1;
  created_by_id = maker;
}

abbrev pub alice : User
alice = account 1 "alice" Role.superadmin none

abbrev pub bob : User
bob = account 2 "bob" Role.admin none

abbrev pub carol : User
carol = account 3 "carol" Role.case_manager (some 2)

-- 1 May 2026, 10:00
abbrev pub morning : Datetime
morning = record { year = 2026; month = 5; day = 1; micros = 36000000000 }

-- The same day, 18:30
abbrev pub evening : Datetime
evening = record { year = 2026; month = 5; day = 1; micros = 66600000000 }

pub morning-IsValid : IsValid morning
unfolding days_in_month
morning-IsValid = record {
  year_pos = omega arith;
  month_pos = omega arith;
  month_le = omega arith;
  day_pos = omega arith;
  day_le = omega arith;
  micros_lt = omega arith;
}

pub evening-IsValid : IsValid evening
unfolding days_in_month
evening-IsValid = record {
  year_pos = omega arith;
  month_pos = omega arith;
  month_le = omega arith;
  day_pos = omega arith;
  day_le = omega arith;
  micros_lt = omega arith;
}

abbrev pub fresh_case : ℕ → String → Report
fresh_case id case_number = record {
  id = id;
  case_number = case_number;
  org_id = some 1;
  category = "fraud";
  description = "sealed";
  encrypted_dek = "key";
  status = Status.received;
  location_id = none;
  secure_email = none;
  assigned_to_id = none;
  submitted_at = record { year = 2026; month = 5; day = 1; micros = 0 };
  acknowledged_at = none;
  feedback_due_at = some (record { year = 2026; month = 8; day = 8; micros = 86399999999 });
  feedback_sent_at = none;
  closed_at = none;
  messages = [];
  notes = [];
  deletion_request = none;
}

abbrev pub request : DeletionRequest
request = record { requested_by_id = some 1; requested_by_username = "alice" }

-- Alice has asked for the deletion of the first case.
abbrev pub first_case : Report
first_case = record (fresh_case 7 "OW-2026-00001") { deletion_request = some request }

abbrev pub second_case : Report
second_case = fresh_case 8 "OW-2026-00002"

abbrev pub office : Db
office = record {
  users = alice ∷ bob ∷ carol ∷ [];
  reports = first_case ∷ second_case ∷ [];
  links = [];
  audit = [];
}

abbrev pub redis : Redis
redis = record {
  status_sessions = ("token", 7) ∷ [];
  new_reports = "OW-2026-00001" ∷ [];
  new_messages = "OW-2026-00002" ∷ [];
  ack_reminders = "OW-2026-00001" ∷ [];
  feedback_reminders = [];
}

-- A vault that does not hide anything.
abbrev pub glass : Vault
glass = record {
  encrypt_field = λ key text. text;
  decrypt_field = λ key text. some text;
  round_trip = λ key text. refl;
}
