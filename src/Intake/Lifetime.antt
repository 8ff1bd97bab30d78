-- ===== src/Intake/Lifetime.antt =====
-- A reply does not prolong the session that it is made in.
use open_whistle.Base.{
  ℕ, ◌+◌, ◌<◌, String, ◌≡◌, refl, sym, ap, ◌∙◌, ◌≢◌, Bool, false, ◌||◌, Option, none, some, arith,
  ltb, if-holds,
}
use open_whistle.Base.Outcome.{ok, http, raised}
use mathlib.Core.Path.{subst}
use text.Mathlib.Text.{◌==◌ as str_eq}
use text.Mathlib.TextEquality.{eq_iff}
use open_whistle.Base.Text.{strip, is_empty, characters}
use open_whistle.Calendar.{Datetime}
use open_whistle.Reports.{Vault, add_whistleblower_message}
use open_whistle.Intake.{Row, Desk}
use open_whistle.Intake.Replies.{
  reply_post, session_report, session_at, Session, Sessions, put, Server, replied, refused, Page,
  page, save_row, remaining, renew, is_closed, post_reply,
}

-- A session under the fresh key alone, of the same report and for as long.
pub record IsReplaced (key : String → String) (cookie fresh : String) (old : Session)
    (report_id : ℕ) (s : Server) : Type 0 where
  pub renewed :
      s.sessions (key fresh) ≡ some (record { report_id = report_id; expires = old.expires })
  pub ended : s.sessions (key cookie) ≡ none

put-here : (k : String) (e : Option Session) (sessions : Sessions) → put k e sessions k ≡ e
put-here k e sessions = rw ((eq_iff k k).1 refl) refl

put-other :
    (k j : String) (e : Option Session) (sessions : Sessions)
    → j ≢ k
    → put k e sessions j ≡ sessions j
put-other k j e sessions other =
    if-holds (λ o. o ≡ sessions j) (str_eq j k) e (sessions j)
      (λ same. absurd (other ((eq_iff j k).0 same))) (λ _. refl)

replied-fresh : {a b : String} {p q : Bool} → replied a p ≡ replied b q → b ≡ a
replied-fresh e = ground (arith, e)

replied-closed : {a b : String} {p q : Bool} → replied a p ≡ replied b q → q ≡ p
replied-closed e = ground (arith, e)

module _ (d : Desk) (key : String → String) (v : Vault) where
  lasts :
      (now : ℕ) (old : Session)
      → now < old.expires
      → now + remaining d key v now (some old) ≡ old.expires
  unfolding remaining
  lasts now old live = omega (arith, live)

  renew-IsReplaced :
      (now : ℕ) (cookie fresh : String) (report_id : ℕ) (old : Session) (s : Server)
      → s.sessions (key cookie) ≡ some old
      → now < old.expires
      → key fresh ≢ key cookie
      → IsReplaced key cookie fresh old report_id (renew d key v now cookie fresh report_id s)
  unfolding renew remaining
  renew-IsReplaced now cookie fresh report_id old s at live other =
      let made : Option Session = some (record {
        report_id = report_id;
        expires = now + remaining d key v now (s.sessions (key cookie));
      }) in
      let stored : Sessions = put (key fresh) made s.sessions in
      record {
        renewed =
            put-other (key cookie) (key fresh) none stored other
            ∙ put-here (key fresh) made s.sessions
            ∙ ap
                (λ o.
                  some (record { report_id = report_id; expires = now + remaining d key v now o }))
                at
            ∙ ap (λ ends. some (record { report_id = report_id; expires = ends }))
                (lasts now old live);
        ended = put-here (key cookie) none stored;
      }

  -- A closed case takes no message.
  post_reply-IsReplaced :
      (now : ℕ) (moment : Datetime) (cookie fresh content : String) (row : Row) (s : Server)
      (old : Session) (given : String) (closed : Bool)
      → s.sessions (key cookie) ≡ some old
      → now < old.expires
      → key fresh ≢ key cookie
      → (post_reply d key v now moment cookie fresh content row s).answer ≡ replied given closed
      → (given ≡ fresh)
        × (closed ≡ is_closed d key v row)
        × IsReplaced key cookie fresh old row.report.id
            (post_reply d key v now moment cookie fresh content row s).server
  unfolding post_reply
  post_reply-IsReplaced now moment cookie fresh content row s old given closed at live other h =
      let stripped = strip content in
      if-holds P (is_empty stripped || ltb 5000 (characters stripped)) _ _
        (λ _ e. absurd (ground (arith, e)))
        (λ _.
          if-holds P (is_closed d key v row) _ _
            (λ is_over e. (
              replied-fresh e,
              replied-closed e ∙ sym is_over,
              renew-IsReplaced now cookie fresh row.report.id old s at live other,
            ))
            (λ is_open.
              elim (add_whistleblower_message v moment row.report stripped)
                as (λ o. P (elim o [
                  | ok report ↦ page (replied fresh false) (
                      renew d key v now cookie fresh row.report.id
                        (record s { rows = save_row (record row { report = report }) s.rows }))
                  | _ ↦ page (refused 500) s
                ])) [
                  | ok report ↦ λ e. (
                    replied-fresh e,
                    replied-closed e ∙ sym is_open,
                    renew-IsReplaced now cookie fresh row.report.id old
                        (record s { rows = save_row (record row { report = report }) s.rows }) at
                        live other,
                  )
                  | http n ↦ λ e. absurd (ground (arith, e))
                  | raised ↦ λ e. absurd (ground (arith, e))
                ]))
        h
    where
      P : Page → Type 0
      P p =
          p.answer ≡ replied given closed
          → (given ≡ fresh)
            × (closed ≡ is_closed d key v row)
            × IsReplaced key cookie fresh old row.report.id p.server

  live :
      (now : ℕ) (cookie : String) (s : Server) (row : Row) (old : Session)
      → session_report d key v now (some cookie) s ≡ some row
      → s.sessions (key cookie) ≡ some old
      → now < old.expires
  unfolding session_report session_at
  live now cookie s row old found at = ground (arith, found, at)

  -- A reply in a live session that is not refused sets the fresh cookie, says whether the case is
  -- closed, and leaves the session under the fresh key alone, for the same report and until the
  -- same second. The two keys are different.
  pub reply_post-IsReplaced :
      (now : ℕ) (moment : Datetime) (cookie own fresh content case_number pin : String) (row : Row)
      (s : Server) (old : Session) (given : String) (closed : Bool)
      → session_report d key v now (some cookie) s ≡ some row
      → s.sessions (key cookie) ≡ some old
      → key fresh ≢ key cookie
      → (reply_post d key v now moment (some cookie) own fresh content case_number pin s).answer
        ≡ replied given closed
      → (given ≡ fresh)
        × (closed ≡ is_closed d key v row)
        × IsReplaced key cookie fresh old row.report.id
            (reply_post d key v now moment (some cookie) own fresh content case_number pin s).server
  unfolding reply_post
  reply_post-IsReplaced now moment cookie own fresh content case_number pin row s old given closed
        found at other h =
      let as_post : reply_post d key v now moment (some cookie) own fresh content case_number pin s
          ≡ post_reply d key v now moment cookie fresh content row s =
        rw (found, reply_post) refl in
      subst
        (λ p.
          (given ≡ fresh)
          × (closed ≡ is_closed d key v row)
          × IsReplaced key cookie fresh old row.report.id p.server)
        (sym as_post)
        (post_reply-IsReplaced now moment cookie fresh content row s old given closed at
          (live now cookie s row old found at) other (ap (λ p. p.answer) (sym as_post) ∙ h))
