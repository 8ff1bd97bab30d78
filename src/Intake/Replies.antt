-- ===== src/Intake/Replies.antt =====
-- The reporter's session in app/api/reports.py: opening a case, replying in it, and leaving. A session
-- is a key of Redis that holds the report's identifier until a time; `key` makes it of a cookie's value.
use open_whistle.Base.{
  ℕ, ◌+◌, ◌-◌, max, String, Bool, true, false, ◌||◌, Option, none, some, List, [], ◌∷◌, ltb, ◌==◌,
  if◌then◌else◌, find,
}
use open_whistle.Base.Outcome.{ok}
use text.Mathlib.Text.{◌==◌ as str_eq}
use Prim.Native.String.{[], ◌∷◌}
use open_whistle.Base.Text.{strip, is_empty, characters}
use open_whistle.Calendar.{Datetime}
use open_whistle.Models.{Status, status_eq}
use open_whistle.Reports.{Vault, add_whistleblower_message}
use open_whistle.RateLimit.{Store}
use open_whistle.Intake.{Row, Desk, authenticate_whistleblower}

pub record Session : Type 0 where
  pub report_id : ℕ
  pub expires : ℕ

abbrev pub Sessions : Type 0
Sessions = String → Option Session

abbrev pub put : String → Option Session → Sessions → Sessions
put key session sessions = λ k. if str_eq k key then session else sessions k

unfoldable pub session_at : ℕ → Option Session → Option ℕ
session_at now none = none
session_at now (some s) = if ltb now s.expires then some s.report_id else none

pub record Server : Type 0 where
  pub rows : List Row
  pub sessions : Sessions
  pub counters : Store

-- The cookie that a browser gets, with whether the case was closed; or an error.
pub data Answer : Type 0 where
  opened : (cookie : String) → Answer
  replied : (cookie : String) (closed : Bool) → Answer
  left_out : Answer
  refused : ℕ → Answer

pub record Page : Type 0 where
  pub answer : Answer
  pub server : Server

abbrev pub page : Answer → Server → Page
page a s = record { answer = a; server = s }

-- get_report_by_id
unfoldable pub find_row : List Row → ℕ → Option Row
find_row rows id = find (λ (r : Row). r.report.id == id) rows

unfoldable pub save_row : Row → List Row → List Row
save_row r [] = []
save_row r (q ∷ qs) = (if q.report.id == r.report.id then r else q) ∷ save_row r qs

module _ (d : Desk) (key : String → String) (v : Vault) where
  -- What a session's cookie opens.
  unfoldable pub session_report : ℕ → Option String → Server → Option Row
  unfolding session_at find_row
  session_report now none s = none
  session_report now (some cookie) s = elim (session_at now (s.sessions (key cookie))) [
    | none ↦ none
    | some id ↦ find_row s.rows id
  ]

  unfoldable pub status_post : ℕ → String → String → String → Server → Page
  unfolding authenticate_whistleblower
  status_post now fresh case_number pin s =
      let result = authenticate_whistleblower d now s.rows s.counters case_number pin in
      let counted : Server = record s { counters = result.1 } in
      elim result.0.0 [
        | none ↦ page (refused 401) counted
        | some row ↦ page (opened fresh) (record counted {
          sessions =
              put (key fresh) (some (record { report_id = row.report.id; expires = now + 7200 }))
                s.sessions;
        })
      ]

  -- TTL: -2 for no key, which `max` turns into 1.
  unfoldable pub remaining : ℕ → Option Session → ℕ
  unfolding session_at
  remaining now o = elim o [ none ↦ 1 | some s ↦ max 1 (s.expires - now) ]

  -- The old key is replaced by a fresh one that lives no longer.
  unfoldable pub renew : ℕ → String → String → ℕ → Server → Server
  unfolding remaining
  renew now cookie fresh report_id s =
      let ends = now + remaining now (s.sessions (key cookie)) in
      record s {
        sessions =
            put (key cookie) none (
              put (key fresh) (some (record { report_id = report_id; expires = ends })) s.sessions);
      }

  abbrev pub is_closed : Row → Bool
  is_closed row = status_eq row.report.status Status.closed

  -- The message, and the new key.
  unfoldable pub post_reply : ℕ → Datetime → String → String → String → Row → Server → Page
  unfolding add_whistleblower_message save_row renew strip characters is_empty
  post_reply now moment cookie fresh content row s =
      let stripped = strip content in
      if is_empty stripped || ltb 5000 (characters stripped)
      then page (refused 422) s
      else if is_closed row
      then page (replied fresh true) (renew now cookie fresh row.report.id s)
      else elim (add_whistleblower_message v moment row.report stripped) [
        | ok report ↦ page (replied fresh false) (
            renew now cookie fresh row.report.id
              (record s { rows = save_row (record row { report = report }) s.rows }))
        | _ ↦ page (refused 500) s
      ]

  -- A reply with a session, or else with the case number and PIN, which open one.
  unfoldable pub reply_post :
      ℕ → Datetime → Option String → String → String → String → String → String → Server → Page
  unfolding session_report authenticate_whistleblower post_reply is_empty
  reply_post now moment cookie own fresh content case_number pin s =
      let result = authenticate_whistleblower d now s.rows s.counters case_number pin in
      let counted : Server = record s { counters = result.1 } in
      let given : String = elim cookie [ none ↦ "" | some k ↦ k ] in
      elim (session_report now cookie s) [
        | some row ↦ post_reply now moment given fresh content row s
        | none ↦ if is_empty case_number || is_empty pin then page left_out s else elim result.0.0 [
          | none ↦ page (refused (if result.0.1 == 0 then 401 else 429)) counted
          | some row ↦ post_reply now moment own fresh content row (record counted {
            sessions =
                put (key own) (some (record { report_id = row.report.id; expires = now + 7200 }))
                  s.sessions;
          })
        ]
      ]

  unfoldable pub status_logout : Option String → Server → Server
  status_logout none s = s
  status_logout (some cookie) s = record s { sessions = put (key cookie) none s.sessions }
