-- ===== src/SignIn/Oidc.antt =====
-- Signing in at a provider: app/services/oidc.py and its routes in app/api/auth.py, with the linking of
-- an account to an identity. What the provider's server answers is `Outside.id_token`: the subject and
-- the issuer of a token that verifies, for a code, a verifier and a nonce; `none` stands also for a
-- server that does not answer.
use open_whistle.Base.{
  ℕ, ◌+◌, String, Bool, true, false, not, ◌&&◌, ◌||◌, Option, none, some, [], ◌∷◌, ltb, ◌==◌,
  if◌then◌else◌, is_some, find, any,
}
use open_whistle.Base.Outcome.{ok}
use text.Mathlib.Text.{◌==◌ as str_eq}
use Prim.Native.String.{[], ◌∷◌, ◌++◌ as append}
use open_whistle.Base.Text.{is_empty}
use open_whistle.Models.{User, AuditAction, log}
use open_whistle.SignIn.{Server, Config, Outside, Identity, LoginState, provider}
use open_whistle.SignIn.Routes.{form, redirect, refused, Page, page, proved, second_factor}
use open_whistle.SignIn.Account.{get_current_admin}

-- What a login draws: the state, the nonce and the verifier.
pub record Request : Type 0 where
  pub state : String
  pub nonce : String
  pub code_verifier : String

-- What the provider sends the browser back with.
pub record Callback : Type 0 where
  pub code : String
  pub state : String
  pub failed : Bool

abbrev pub with_identity : ℕ → Identity → Server → Server
with_identity user_id identity s = record s {
  identities = λ u. if u == user_id then identity else s.identities u;
}

abbrev pub opt_is : Option String → String → Bool
opt_is none b = false
opt_is (some a) b = str_eq a b

module _ (x : Outside) (c : Config) where
  unfoldable pub create_authorization_url : ℕ → Request → Bool → String → Server → Server
  create_authorization_url now drawn is_link binding s =
      let key = if is_link then append "link." drawn.state else drawn.state in
      let kept : LoginState = record {
        nonce = drawn.nonce;
        code_verifier = drawn.code_verifier;
        is_link = is_link;
        binding = binding;
        expires = now + 300;
      } in
      record s { login_states = λ k. if str_eq k key then some kept else s.login_states k }

  abbrev pub state_at : ℕ → Option LoginState → Option LoginState
  state_at now none = none
  state_at now (some kept) = if ltb now kept.expires then some kept else none

  -- A state is spent by its first use, whatever comes of it.
  unfoldable pub exchange_code :
      ℕ → Callback → Bool → String → Server → Option (Option String × Option String) × Server
  exchange_code now back is_link binding s =
      let spent = record s {
        login_states = λ k. if str_eq k back.state then none else s.login_states k;
      } in
      let claims : Option (Option String × Option String) =
        elim (state_at now (s.login_states back.state)) [
          | none ↦ none
          | some kept ↦
              if (if is_link then kept.is_link else not kept.is_link) && str_eq kept.binding binding
              then x.id_token back.code kept.code_verifier kept.nonce
              else none
        ] in
      (claims, spent)

  abbrev pub browser_binding : String → String
  browser_binding cookie = x.sha256 (append "login:" cookie)

  -- `printed` is the identifier of the account in text.
  abbrev pub session_binding : String → String → String
  session_binding printed session_token = x.sha256 (append printed (append ":" session_token))

  unfoldable pub oidc_authorize : ℕ → Request → String → Server → Page
  unfolding create_authorization_url
  oidc_authorize now drawn browser s =
      if c.oidc_enabled
      then page (redirect "authorization_endpoint")
          (create_authorization_url now drawn false (browser_binding browser) s)
      else page (refused 404) s

  abbrev pub is_identity : Identity → String → String → Bool
  is_identity i sub issuer = opt_is i.oidc_sub sub && opt_is i.oidc_issuer issuer

  unfoldable pub sign_in_as : ℕ → String → Option String → Option String → Server → Page
  unfolding second_factor
  sign_in_as now token (some sub) (some issuer) s =
      if is_empty sub || is_empty issuer
      then page (form 200 "login.error.sso_identity") s
      else elim (find (λ u. is_identity (s.identities u.id) sub issuer) s.db.users) [
        | none ↦ page (form 200 "login.error.sso_unlinked") s
        | some user ↦
            second_factor x c now token user (proved (provider user.id (s.identities user.id)) s)
      ]
  sign_in_as now token sub issuer s = page (form 200 "login.error.sso_identity") s

  -- The callback of a login; a missing code or state is empty text.
  unfoldable pub oidc_callback : ℕ → String → Callback → String → Server → Page
  unfolding exchange_code sign_in_as
  oidc_callback now token back browser s =
      let binding = if is_empty browser then "" else browser_binding browser in
      let (claims, spent) = exchange_code now back false binding s in
      if not c.oidc_enabled
      then page (refused 404) s
      else if back.failed || is_empty back.code || is_empty back.state
      then page (form 200 "login.error.sso_failed") s
      else elim claims [
        | none ↦ page (form 200 "login.error.sso_expired") spent
        | some (sub, issuer) ↦ sign_in_as now token sub issuer spent
      ]

  unfoldable pub oidc_link : ℕ → Request → String → String → Server → Page
  unfolding create_authorization_url
  oidc_link now drawn printed session_token s =
      if c.oidc_enabled
      then page (redirect "authorization_endpoint")
          (create_authorization_url now drawn true (session_binding printed session_token) s)
      else page (refused 404) s

  -- The unique column refuses an identity that another account has.
  abbrev pub is_taken : User → String → Server → Bool
  is_taken user sub s =
      any (λ u. not (u.id == user.id) && opt_is (s.identities u.id).oidc_sub sub) s.db.users

  unfoldable pub link_identity : User → Option String → Option String → Server → Page
  unfolding log
  link_identity user (some sub) (some issuer) s =
      let linked : Identity = record (s.identities user.id) {
        oidc_sub = some sub;
        oidc_issuer = some issuer;
      } in
      if is_empty sub || is_empty issuer
      then page (redirect "/admin/account?sso=failed") s
      else if is_taken user sub s
      then page (redirect "/admin/account?sso=taken") s
      else page (redirect "/admin/account?sso=linked") (
          with_identity user.id linked (record s {
            db = log user AuditAction.auth_sso_linked none (("issuer", some issuer) ∷ []) none s.db;
          }))
  link_identity user sub issuer s = page (redirect "/admin/account?sso=failed") s

  unfoldable pub oidc_link_callback : ℕ → String → Callback → Option String → Server → Page
  unfolding get_current_admin exchange_code link_identity
  oidc_link_callback now printed back session_token s =
      let token : String = elim session_token [ none ↦ "" | some t ↦ t ] in
      let (claims, spent) = exchange_code now back true (session_binding printed token) s in
      elim (get_current_admin x c now session_token s) [
        | ok user ↦
            if back.failed || is_empty back.code
            then page (redirect "/admin/account?sso=failed") s
            else elim claims [
              | none ↦ page (redirect "/admin/account?sso=failed") spent
              | some (sub, issuer) ↦ link_identity user sub issuer spent
            ]
        | _ ↦ page (form 401 "login.error.sso_link_session") s
      ]

  -- Without a password or a directory login the link is the only way in.
  unfoldable pub oidc_unlink : User → Server → Page
  unfolding log
  oidc_unlink user s =
      let identity = s.identities user.id in
      let has_password : Bool = elim user.password_hash [
        | none ↦ false
        | some h ↦ not (is_empty h)
      ] in
      let directory_login = is_some identity.ldap_username && c.ldap_enabled in
      let unlinked : Identity = record identity { oidc_sub = none; oidc_issuer = none } in
      if not c.oidc_enabled
      then page (refused 404) s
      else if not (is_some identity.oidc_sub)
      then page (redirect "/admin/account?sso=unlinked") s
      else if not has_password && not directory_login
      then page (redirect "/admin/account?sso=only_way_in") s
      else page (redirect "/admin/account?sso=unlinked") (
          with_identity user.id unlinked (record s {
            db =
                log user AuditAction.auth_sso_unlinked none (("issuer", identity.oidc_issuer) ∷ [])
                  none s.db;
          }))
