-- ===== src/SignIn/OwnAccount.antt =====
-- The routes of a signed-in account, and of setting up its authenticator, open no session without both factors.
use open_whistle.Base.{
  ℕ, String, ◌≡◌, refl, sym, inl, inr, true, not, ◌||◌, Option, none, some, arith, ◌==◌,
  if◌then◌else◌, Option-cases, if-holds,
}
use open_whistle.Base.Outcome.{ok}
use open_whistle.SignIn.Routes.{Answer, page, Drawn, enrol, mfa_setup_post, with_counters}
use mathlib.Core.Path.{subst}
use open_whistle.Base.Text.{is_empty}
use open_whistle.Models.{User, AuditAction, get_user}
use open_whistle.RateLimit.{claim_admin_attempt}
use open_whistle.SignIn.{
  entry_at, Server, Config, Outside, Claims, create_access_token, store_session, revoke_session,
  revoke_user_sessions, consume_totp_setup_pending, consume_totp, validate_session, verify_password,
}
use open_whistle.SignIn.Account.{
  get_signed_in_admin, logout, finish_refresh, session_refresh, change_password, account_password,
  new_password_error, is_demo_account,
}
use open_whistle.SignIn.Factors.{
  PassedFirst, PassedBoth, EntryHolds, SessionHolds, IsSound, Proven, Safe,
  store_totp_setup_pending-Proven, store_session-Proven, revoke_session-Proven,
  revoke_user_sessions-Proven, consume_totp_setup_pending-Proven, consume_totp_setup_pending-first,
  consume_totp-Proven, consume_totp-second, consume_totp-first,
}
use open_whistle.SignIn.Gate.{get_signed_in_admin-IsSignedIn}
use open_whistle.SignIn.Proven.{start_session-Safe, get_user-id}

module _ (x : Outside) (c : Config) (sound : IsSound x) where
  enrol-Safe :
      (now : ℕ) (jti : String) (drawn : Drawn) (digits : String) (user : User) (s : Server)
      → PassedFirst x c s.trail user.id
      → Proven x c s
      → Safe x c (enrol x c now jti drawn digits user s)
  unfolding enrol
  enrol-Safe now jti drawn digits user s first h =
      let secret = (s.identities user.id).totp_secret in
      let checked = (consume_totp x c now user.id secret digits s).1 in
      if-holds (Safe x c) (not user.is_active || user.totp_enabled) _ _ (λ _. h)
        (λ _.
          if-holds (Safe x c) (not (consume_totp x c now user.id secret digits s).0) _ _
            (λ _.
              store_totp_setup_pending-Proven x c now drawn.token user.id checked
                (consume_totp-first x c now user.id user.id secret digits s first)
                (consume_totp-Proven x c now user.id secret digits s h))
            (λ e.
              start_session-Safe x c sound now jti (record user { totp_enabled = true })
                AuditAction.auth_login (record checked { db = _ })
                (consume_totp-second x c now user.id digits s first (ground (arith, e)))
                (consume_totp-Proven x c now user.id secret digits s h)))

  pub mfa_setup_post-Safe :
      (now : ℕ) (jti : String) (drawn : Drawn) (digits temp_token : String) (s : Server)
      → Proven x c s
      → Safe x c (mfa_setup_post x c now jti drawn digits temp_token s)
  unfolding mfa_setup_post
  mfa_setup_post-Safe now jti drawn digits temp_token s h =
      let taken = (consume_totp_setup_pending x c now temp_token s).1 in
      elim (Option-cases (consume_totp_setup_pending x c now temp_token s).0) [
        | inl e ↦ rw (e, mfa_setup_post) (consume_totp_setup_pending-Proven x c now temp_token s h)
        | inr (id, e) ↦
            rw (e, mfa_setup_post)
              (elim (Option-cases (get_user taken.db id)) [
                | inl e' ↦
                    rw (e', mfa_setup_post)
                      (consume_totp_setup_pending-Proven x c now temp_token s h)
                | inr (user, e') ↦
                    rw (e', mfa_setup_post)
                      (enrol-Safe now jti drawn digits user taken
                        (subst (PassedFirst x c s.trail) (sym (get_user-id taken.db id user e'))
                          (consume_totp_setup_pending-first x c now id temp_token s h e))
                        (consume_totp_setup_pending-Proven x c now temp_token s h))
              ])
      ]

  pub logout-Safe :
      (now : ℕ) (token : Option String) (s : Server)
      → Proven x c s
      → Safe x c (logout x c now token s)
  unfolding logout
  logout-Safe now none s h = h
  logout-Safe now (some token) s h = revoke_session-Proven x c now token s h

  finish_refresh-Safe :
      (now : ℕ) (session_token new_token : String) (s : Server)
      → Proven x c s
      → Safe x c (finish_refresh x c now session_token new_token s)
  unfolding finish_refresh
  finish_refresh-Safe now session_token new_token s h =
      let revoked = revoke_session x c now session_token s in
      if-holds (Safe x c) revoked.0 _ _ (λ _. revoke_session-Proven x c now session_token s h)
        (λ _.
          revoke_session-Proven x c now new_token revoked.1
            (revoke_session-Proven x c now session_token s h))

  change_password-Safe :
      (now : ℕ) (hash new_hash current digits : String) (user : User) (session_token : String)
      (s : Server)
      → Proven x c s
      → Safe x c (change_password x c now hash new_hash current digits user session_token s)
  unfolding change_password revoke_user_sessions
  change_password-Safe now hash new_hash current digits user session_token s h =
      let secret = (s.identities user.id).totp_secret in
      let kept = consume_totp-Proven x c now user.id secret digits s h in
      if-holds (Safe x c) (not (verify_password x c current hash)) _ _ (λ _. h)
        (λ _.
          if-holds (Safe x c) (not (consume_totp x c now user.id secret digits s).0) _ _ (λ _. kept)
            (λ _.
              revoke_user_sessions-Proven x c user.id (some session_token)
                (consume_totp x c now user.id secret digits s).1 kept))

  pub account_password-Safe :
      (now : ℕ) (new_hash current new confirm digits : String) (user : User)
      (session_token : String) (s : Server)
      → Proven x c s
      → Safe x c (account_password x c now new_hash current new confirm digits user session_token s)
  unfolding account_password
  account_password-Safe now new_hash current new confirm digits user session_token s h =
      let hash : String = elim user.password_hash [ none ↦ "" | some h ↦ h ] in
      let claimed =
        claim_admin_attempt c.max_login_attempts c.login_lockout_minutes x.casefold now
          user.username s.counters in
      if-holds (Safe x c) (is_empty hash) _ _ (λ _. h)
        (λ _.
          if-holds (Safe x c) (is_demo_account x c user) _ _ (λ _. h)
            (λ _.
              elim (new_password_error x c current new confirm)
                as (λ o. Safe x c (elim o [
                  | some error ↦ page (Answer.account_page 400 error) s
                  | none ↦
                      if not claimed.0
                      then page (Answer.account_page 429 "login.error.locked")
                          (with_counters s claimed.1)
                      else change_password x c now hash new_hash current digits user session_token
                          (with_counters s claimed.1)
                ])) [
                  | some error ↦ h
                  | none ↦
                      if-holds (Safe x c) (not claimed.0) _ _ (λ _. h)
                        (λ _.
                          change_password-Safe now hash new_hash current digits user session_token
                            (with_counters s claimed.1) h)
                ]))

  pub live-both :
      (now : ℕ) (token : String) (s : Server) (claims : Claims)
      → Proven x c s
      → validate_session x c now token s ≡ true
      → x.decode now token ≡ some claims
      → PassedBoth x c s.trail claims.sub
  unfolding validate_session entry_at
  live-both now token s claims h live decoded = elim (Option-cases (s.sessions (x.hmac token))) [
    | inl e ↦ absurd (ground (arith, e, live))
    | inr (entry, e) ↦
        let holds : SessionHolds x c s.trail (x.hmac token) entry.user =
          subst (EntryHolds (SessionHolds x c s.trail (x.hmac token))) e
            (h.sessions (x.hmac token)) in
        subst (PassedBoth x c s.trail) (sym (holds.1 token now claims refl decoded)) holds.0
  ]

  pub session_refresh-Safe :
      (now : ℕ) (jti token : String) (s : Server) (user : User) (claims : Claims)
      → get_signed_in_admin x c now (some token) s ≡ ok (user, claims)
      → Proven x c s
      → Safe x c (session_refresh x c now jti claims user token s)
  unfolding session_refresh
  session_refresh-Safe now jti token s user claims e h =
      let signed_in = get_signed_in_admin-IsSignedIn x c now token s user claims e in
      let both =
        subst (PassedBoth x c s.trail) (sym (get_user-id s.db claims.sub user signed_in.found))
          (live-both now token s claims h signed_in.live signed_in.decoded) in
      let fresh = create_access_token x c now user.id jti (some claims.auth_time) in
      if-holds (Safe x c) (claims.auth_time == 0) _ _ (λ _. h)
        (λ _.
          finish_refresh-Safe now token (x.encode fresh)
            (store_session x c now user.id (x.encode fresh) s)
            (store_session-Proven x c now fresh s sound both h))
