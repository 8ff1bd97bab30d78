-- ===== src/SignIn/Account.antt =====
-- A signed-in account in app/api/auth.py and app/api/deps.py: the check of a session, its refresh and
-- its end, the change of one's own password, and the sign-in of a local review.
use open_whistle.Base.{
  ℕ, String, Bool, false, not, ◌&&◌, ◌||◌, Option, none, some, [], ◌∷◌, ◌==◌, if◌then◌else◌,
  is_some, find, any,
}
use open_whistle.Base.Outcome.{Outcome, ok, http, ◌>>=◌, ◌>>◌, demand, present}
use text.Mathlib.Text.{◌==◌ as str_eq}
use Prim.Native.String.{[], ◌∷◌}
use open_whistle.Base.Text.{is_empty}
use open_whistle.Models.{User, Db, AuditAction, get_user, save_user, log}
use open_whistle.RateLimit.{claim_admin_attempt, reset_admin_login_attempts}
use open_whistle.Accounts.{validate_password}
use open_whistle.SignIn.{
  Server, Config, Outside, Claims, verify_password, create_access_token, session_too_old,
  store_session, validate_session, revoke_session, revoke_user_sessions, consume_totp,
}
use open_whistle.SignIn.Routes.{
  account_page, redirect, refreshed, refused, Page, page, with_counters, start_session,
}

module _ (x : Outside) (c : Config) where
  -- `get_signed_in_admin`, with the claims that it notes on the request
  unfoldable pub get_signed_in_admin : ℕ → Option String → Server → Outcome (User × Claims)
  unfolding validate_session session_too_old get_user
  get_signed_in_admin now none s = http 401
  get_signed_in_admin now (some token) s = do
    demand (not (is_empty token) && validate_session x c now token s) 401
    claims ← present (x.decode now token) 401
    demand (not (session_too_old x c now claims)) 401
    user ← present (get_user s.db claims.sub) 401
    demand (user.is_active && user.totp_enabled) 401
    ok (user, claims)

  -- `get_current_admin`: a password that someone else set is replaced first.
  unfoldable pub get_current_admin : ℕ → Option String → Server → Outcome User
  unfolding get_signed_in_admin
  get_current_admin now token s = do
    (user, claims) ← get_signed_in_admin now token s
    demand (not user.must_change_password) 303
    ok user

  unfoldable pub logout : ℕ → Option String → Server → Page
  unfolding revoke_session
  logout now none s = page (redirect "/admin/login") s
  logout now (some token) s = page (redirect "/admin/login") (revoke_session x c now token s).1

  -- The new session comes first; it goes again if the old one is gone by then.
  unfoldable pub finish_refresh : ℕ → String → String → Server → Page
  unfolding revoke_session
  finish_refresh now session_token new_token s =
      let (existed, revoked) = revoke_session x c now session_token s in
      if existed
      then page (refreshed new_token) revoked
      else page (refused 401) (revoke_session x c now new_token revoked).1

  unfoldable pub session_refresh : ℕ → String → Claims → User → String → Server → Page
  unfolding create_access_token store_session finish_refresh
  session_refresh now jti claims current_user session_token s =
      let new_token =
        x.encode (create_access_token x c now current_user.id jti (some claims.auth_time)) in
      if claims.auth_time == 0
      then page (refused 401) s
      else finish_refresh now session_token new_token
          (store_session x c now current_user.id new_token s)

  -- The error of a form that no password or code is needed for.
  unfoldable pub new_password_error : String → String → String → Option String
  unfolding is_empty validate_password
  new_password_error current new confirm =
      if is_empty current
      then some "account.password.error.current_required"
      else if not (str_eq new confirm)
      then some "account.password.error.mismatch"
      else if not (is_some (validate_password new))
      then some "account.password.error.policy"
      else if str_eq new current
      then some "account.password.error.unchanged"
      else none

  abbrev pub is_demo_account : User → Bool
  is_demo_account user =
      c.settings.demo_mode && any (str_eq user.username) c.settings.demo_usernames

  -- The attempt is counted and the form is sound. `new_hash` is bcrypt's of the new password.
  unfoldable pub change_password :
      ℕ → String → String → String → String → User → String → Server → Page
  unfolding verify_password consume_totp save_user log reset_admin_login_attempts
      revoke_user_sessions
  change_password now hash new_hash current digits user session_token s =
      let (valid, checked) =
        consume_totp x c now user.id (s.identities user.id).totp_secret digits s in
      let changed : User = record user {
        password_hash = some new_hash;
        must_change_password = false;
      } in
      let saved : Db = record checked.db { users = save_user changed checked.db.users } in
      let required = if user.must_change_password then "true" else "false" in
      let logged : Db =
        log changed AuditAction.auth_password_changed none (("required", some required) ∷ []) none
          saved in
      let counters =
        reset_admin_login_attempts c.max_login_attempts c.login_lockout_minutes x.casefold
          user.username checked.counters in
      if not (verify_password x c current hash)
      then page (account_page 401 "account.password.error.current") s
      else if not valid
      then page (account_page 401 "mfa.error.invalid") checked
      else page (redirect "/admin/account?password=changed") (
          revoke_user_sessions x c user.id (some session_token)
            (record checked { db = logged; counters = counters }))

  unfoldable pub account_password :
      ℕ → String → String → String → String → String → User → String → Server → Page
  unfolding new_password_error claim_admin_attempt change_password is_empty
  account_password now new_hash current new confirm digits user session_token s =
      let (granted, counters) =
        claim_admin_attempt c.max_login_attempts c.login_lockout_minutes x.casefold now
          user.username s.counters in
      let hash : String = elim user.password_hash [ none ↦ "" | some h ↦ h ] in
      if is_empty hash
      then page (refused 404) s
      else if is_demo_account user
      then page (refused 403) s
      else elim (new_password_error current new confirm) [
        | some error ↦ page (account_page 400 error) s
        | none ↦
            if not granted
            then page (account_page 429 "login.error.locked") (with_counters s counters)
            else change_password now hash new_hash current digits user session_token
                (with_counters s counters)
      ]

  -- `is_reachable`: a POST from a loopback host with no proxy in front. The token of the form is checked.
  unfoldable pub local_review_login : ℕ → String → Bool → Server → Page
  unfolding start_session
  local_review_login now jti is_reachable s =
      if not c.local_review_login || not is_reachable
      then page (refused 404) s
      else elim (find (λ u. str_eq u.username c.demo_admin) s.db.users) [
        | none ↦ page (refused 404) s
        | some user ↦ start_session x c now jti user AuditAction.auth_local_review_login s
      ]
