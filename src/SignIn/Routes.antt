-- ===== src/SignIn/Routes.antt =====
-- Signing in with a password and a code: the routes of app/api/auth.py from the form to the session,
-- and `get_signed_in_admin` of app/api/deps.py. A route answers with a page and leaves a server; the
-- tokens and secrets that it draws are arguments. Mails are sent by background tasks, not modelled.
use open_whistle.Base.{
  ℕ, String, Bool, true, false, not, ◌&&◌, ◌||◌, Option, none, some, List, [], ◌∷◌, ◌++◌, ◌==◌,
  if◌then◌else◌, find, any,
}
use text.Mathlib.Text.{◌==◌ as str_eq}
use Prim.Native.String.{[], ◌∷◌}
use open_whistle.Base.Text.{strip, is_empty}
use open_whistle.Models.{User, Db, AuditAction, case_manager, get_user, save_user, log, log_system}
use open_whistle.RateLimit.{
  Store, claim_admin_attempt, release_admin_attempt, reset_admin_login_attempts,
  record_instance_login_failure,
}
use open_whistle.SignIn.{
  Server, Config, Outside, Identity, Proof, password, directory, demo_code, verify_password,
  create_access_token, store_session, store_totp_pending, consume_totp_pending,
  store_totp_setup_pending, consume_totp_setup_pending, consume_totp, verify_demo_totp,
}

pub data Answer : Type 0 where
  form account_page : (status : ℕ) (error : String) → Answer
  code_form setup_form : (token error : String) → Answer
  setup_redirect redirect : String → Answer
  signed_in : (landing token : String) → Answer
  refreshed : String → Answer
  refused : ℕ → Answer

pub record Page : Type 0 where
  pub answer : Answer
  pub server : Server

abbrev pub page : Answer → Server → Page
page a s = record { answer = a; server = s }

-- What a sign-in draws.
pub record Drawn : Type 0 where
  pub token : String
  pub user_id : ℕ
  pub totp_secret : String

abbrev pub proved : Proof → Server → Server
proved p s = record s { trail = p ∷ s.trail }

abbrev pub with_counters : Server → Store → Server
with_counters s counters = record s { counters = counters }

module _ (x : Outside) (c : Config) where
  unfoldable pub second_factor : ℕ → String → User → Server → Page
  unfolding store_totp_setup_pending store_totp_pending
  second_factor now token user s =
      if not user.is_active
      then page (form 401 "login.error.deactivated") s
      else if not user.totp_enabled
      then page (setup_redirect token) (store_totp_setup_pending x c now token user.id s)
      else page (code_form token "") (store_totp_pending x c now token user.id s)

  unfoldable pub password_failed : ℕ → Server → Server
  unfolding record_instance_login_failure log_system
  password_failed now s =
      let (alert, counters) =
        record_instance_login_failure c.alert_threshold c.alert_minutes now s.counters in
      let db : Db =
        if alert then log_system AuditAction.auth_spraying_suspected [] none s.db else s.db in
      record s { db = db; counters = counters }

  -- The only place where a login becomes a session.
  unfoldable pub start_session : ℕ → String → User → AuditAction → Server → Page
  unfolding create_access_token store_session log
  start_session now jti user action s =
      let token = x.encode (create_access_token x c now user.id jti none) in
      let stored = store_session x c now user.id token s in
      if not user.is_active
      then page (redirect "/admin/login") s
      else page
          (signed_in (if user.must_change_password then "/admin/account" else "/admin/dashboard")
            token)
          (record stored {
            db = log user action none [] none s.db;
            identities = λ u.
                if u == user.id
                then record (s.identities u) { last_login_at = some now }
                else s.identities u;
          })

  -- The account of a directory's user, made at its first sign-in; `none` if the name is taken.
  unfoldable pub provision : Drawn → String → Server → Option (User × Server)
  unfolding log_system
  provision drawn name s =
      let user : User = record {
        id = drawn.user_id;
        username = name;
        password_hash = none;
        totp_enabled = false;
        role = case_manager;
        is_active = true;
        must_change_password = false;
        org_id = c.default_org_id;
        created_by_id = none;
      } in
      let identity : Identity = record {
        totp_secret = drawn.totp_secret;
        ldap_username = some name;
        oidc_sub = none;
        oidc_issuer = none;
        last_login_at = none;
      } in
      let detail : List (String × Option String) =
        ("username", some name) ∷ ("role", some "case_manager") ∷ ("via", some "ldap") ∷ [] in
      let db : Db =
        log_system AuditAction.admin_created detail c.default_org_id
          (record s.db { users = s.db.users ++ user ∷ [] }) in
      let made : Option (User × Server) = some (
        user,
        record s {
          db = db;
          identities = λ u. if u == drawn.user_id then identity else s.identities u;
        },
      ) in
      elim (find
        (λ u. elim (s.identities u.id).ldap_username [ none ↦ false | some n ↦ str_eq n name ])
        s.db.users) [
          | some user ↦ some (user, s)
          | none ↦
              if any (λ u. str_eq (x.lower u.username) (x.lower name)) s.db.users
              then none
              else made
        ]

  unfoldable pub released : ℕ → String → Server → Server
  unfolding release_admin_attempt
  released now username s = with_counters s (
      release_admin_attempt c.max_login_attempts c.login_lockout_minutes x.casefold now username
        s.counters)

  -- The attempt is counted already.
  unfoldable pub login_local : ℕ → Drawn → String → String → Server → Page
  unfolding verify_password password_failed second_factor released
  login_local now drawn username plain s =
      let wrong : Page = page (form 401 "login.error.invalid") (password_failed now s) in
      elim (find (λ u. str_eq u.username username) s.db.users) [
        | none ↦ wrong
        | some user ↦ elim user.password_hash [
          | none ↦ wrong
          | some hash ↦
              if is_empty hash || not (verify_password x c plain hash)
              then wrong
              else second_factor now drawn.token user
                  (released now username (proved (password user plain) s))
        ]
      ]

  unfoldable pub login_directory : ℕ → Drawn → String → String → String → Server → Page
  unfolding provision password_failed second_factor released
  login_directory now drawn username plain name s = elim (provision drawn name s) [
    | none ↦ page (form 401 "login.error.invalid") (password_failed now s)
    | some (user, s) ↦
        second_factor now drawn.token user (
          released now username
            (proved (directory user.id (s.identities user.id) username plain) s))
  ]

  unfoldable pub login_post : ℕ → Drawn → String → String → Server → Page
  unfolding claim_admin_attempt login_local login_directory strip is_empty
  login_post now drawn username plain s =
      let (granted, counters) =
        claim_admin_attempt c.max_login_attempts c.login_lockout_minutes x.casefold now username
          s.counters in
      let counted = with_counters s counters in
      let bound : Option String =
        if c.ldap_enabled then x.authenticate_ldap username plain else none in
      if is_empty (strip username) || is_empty plain
      then page (form 400 "login.error.required") s
      else if not granted
      then page (form 429 "login.error.locked") counted
      else elim bound [
        | some name ↦ login_directory now drawn username plain name counted
        | none ↦ login_local now drawn username plain counted
      ]

  -- The code of a demo account, or one of the authenticator.
  unfoldable pub check_code : ℕ → User → String → Server → Bool × Server
  unfolding verify_demo_totp consume_totp
  check_code now user digits s =
      let secret = (s.identities user.id).totp_secret in
      if c.settings.demo_mode && verify_demo_totp x c digits user.username secret
      then (true, proved (demo_code user digits) s)
      else consume_totp x c now user.id secret digits s

  -- The account of a token that waits for its code.
  unfoldable pub check_login_code : ℕ → String → Drawn → String → User → Server → Page
  unfolding claim_admin_attempt check_code store_totp_pending reset_admin_login_attempts
      start_session
  check_login_code now jti drawn digits user s =
      let (granted, counters) =
        claim_admin_attempt c.max_login_attempts c.login_lockout_minutes x.casefold now
          user.username s.counters in
      let counted = with_counters s counters in
      let (valid, checked) = check_code now user digits counted in
      if not granted
      then page (code_form "" "login.error.locked") counted
      else if not valid
      then page (code_form drawn.token "mfa.error.invalid")
          (store_totp_pending x c now drawn.token user.id checked)
      else start_session now jti user AuditAction.auth_login (
          with_counters checked (
            reset_admin_login_attempts c.max_login_attempts c.login_lockout_minutes x.casefold
              user.username checked.counters))

  unfoldable pub login_mfa_post : ℕ → String → Drawn → String → String → Server → Page
  unfolding consume_totp_pending get_user check_login_code
  login_mfa_post now jti drawn digits temp_token s =
      let (user_id, taken) = consume_totp_pending x c now temp_token s in
      elim user_id [
        | none ↦ page (redirect "/admin/login") taken
        | some id ↦ elim (get_user taken.db id) [
          | none ↦ page (redirect "/admin/login") taken
          | some user ↦ check_login_code now jti drawn digits user taken
        ]
      ]

  unfoldable pub enrol : ℕ → String → Drawn → String → User → Server → Page
  unfolding consume_totp store_totp_setup_pending save_user log start_session
  enrol now jti drawn digits user s =
      let (valid, checked) =
        consume_totp x c now user.id (s.identities user.id).totp_secret digits s in
      let enrolled : User = record user { totp_enabled = true } in
      let saved : Db = record checked.db { users = save_user enrolled checked.db.users } in
      if not user.is_active || user.totp_enabled
      then page (redirect "/admin/login") s
      else if not valid
      then page (setup_form drawn.token "mfa.setup.error.invalid")
          (store_totp_setup_pending x c now drawn.token user.id checked)
      else start_session now jti enrolled AuditAction.auth_login
          (record checked { db = log enrolled AuditAction.auth_totp_setup none [] none saved })

  unfoldable pub mfa_setup_post : ℕ → String → Drawn → String → String → Server → Page
  unfolding consume_totp_setup_pending get_user enrol
  mfa_setup_post now jti drawn digits temp_token s =
      let (user_id, taken) = consume_totp_setup_pending x c now temp_token s in
      elim user_id [
        | none ↦ page (redirect "/admin/login") taken
        | some id ↦ elim (get_user taken.db id) [
          | none ↦ page (redirect "/admin/login") taken
          | some user ↦ enrol now jti drawn digits user taken
        ]
      ]
