-- ===== src/SignIn/BothFactors.antt =====
-- No session without both factors, in every state that signing in reaches.
use open_whistle.Base.{
  refl, ap, find_sound, ℕ, String, ◌≡◌, sym, inl, inr, Bool, true, false, not, ◌&&◌, ◌||◌, Option,
  none, some, arith, if◌then◌else◌, is_some, Option-cases, find, if-holds,
}
use open_whistle.SignIn.Oidc.{
  opt_is, state_at, Request, Callback, create_authorization_url, exchange_code, oidc_authorize,
  sign_in_as, oidc_callback, oidc_link, browser_binding, is_taken, session_binding, link_identity,
  oidc_link_callback, oidc_unlink, is_identity,
}
use text.Mathlib.TextEquality.{eq_iff}
use open_whistle.SignIn.Factors.{
  newest, by_provider, PassedFirst, PassedBoth, EntryHolds, SessionHolds, IsSound, Proven, Safe,
  IsProven-more, revoke_user_sessions-Proven,
}
use open_whistle.SignIn.{Identity, Server, Config, Outside, Claims, provider}
use open_whistle.Base.Outcome.{ok, http, raised}
use open_whistle.SignIn.Routes.{redirect, form, page, proved}
use mathlib.Core.Path.{subst}
use open_whistle.Base.Text.{is_empty}
use open_whistle.Models.{User}
use open_whistle.SignIn.Account.{get_signed_in_admin, local_review_login, get_current_admin}
use open_whistle.SignIn.Gate.{get_signed_in_admin-IsSignedIn}
use open_whistle.SignIn.Steps.{
  Step, signs_in, enters_code, enrols, signs_out, refreshes, changes_password, asks_provider,
  comes_back, asks_link, links, unlinks, reviews, administers, ends_sessions, Reach, here,
  then_step,
}
use open_whistle.SignIn.Proven.{
  second_factor-Safe, get_user-id, login_post-Safe, login_mfa_post-Safe,
}
use open_whistle.SignIn.OwnAccount.{
  mfa_setup_post-Safe, logout-Safe, account_password-Safe, live-both, session_refresh-Safe,
}

module _ (x : Outside) (c : Config) (sound : IsSound x) where
  opt_is-eq : (o : Option String) (b : String) → opt_is o b ≡ true → o ≡ some b
  opt_is-eq none b h = absurd (ground (arith, h))
  opt_is-eq (some a) b h = ap some ((eq_iff a b).0 h)

  is_identity-eq :
      (i : Identity) (sub issuer : String)
      → is_identity x c i sub issuer ≡ true
      → (i.oidc_sub ≡ some sub) × (i.oidc_issuer ≡ some issuer)
  is_identity-eq i sub issuer h = (
    opt_is-eq i.oidc_sub sub (ground (arith, h)),
    opt_is-eq i.oidc_issuer issuer (ground (arith, h)),
  )

  -- The provider answered with the subject and the issuer.
  abbrev Answered : Option String → Option String → Type 0
  Answered sub issuer =
      (back : String) × (verifier : String) × (nonce : String) × (x.id_token back verifier nonce
        ≡ some (sub, issuer))

  sign_in_as-Safe :
      (now : ℕ) (token : String) (sub issuer : Option String) (s : Server)
      → Answered sub issuer
      → Proven x c s
      → Safe x c (sign_in_as x c now token sub issuer s)
  unfolding sign_in_as
  sign_in_as-Safe now token none issuer s a h = h
  sign_in_as-Safe now token (some sub) none s a h = h
  sign_in_as-Safe now token (some sub) (some issuer) s (back, verifier, nonce, a) h =
      if-holds (Safe x c) (is_empty sub || is_empty issuer) _ _ (λ _. h)
        (λ _.
          elim (Option-cases
            (find (λ (u : User). is_identity x c (s.identities u.id) sub issuer) s.db.users)) [
              | inl e ↦ rw (e, sign_in_as) h
              | inr (user, e) ↦
                  let named = is_identity-eq (s.identities user.id) sub issuer (
                    find_sound (λ (u : User). is_identity x c (s.identities u.id) sub issuer)
                      s.db.users user e) in
                  rw (e, sign_in_as)
                    (second_factor-Safe x c sound now token user
                      (proved (provider user.id (s.identities user.id)) s)
                      (newest (by_provider back verifier nonce a named.0 named.1))
                      (IsProven-more x c s.sessions s.totp_pending s.totp_setup
                        (provider user.id (s.identities user.id)) s.trail h))
            ])

  exchange_code-Answered :
      (now : ℕ) (back : Callback) (is_link : Bool) (binding : String) (s : Server)
      (sub issuer : Option String)
      → (exchange_code x c now back is_link binding s).0 ≡ some (sub, issuer)
      → Answered sub issuer
  unfolding exchange_code
  exchange_code-Answered now back is_link binding s sub issuer e =
      elim (Option-cases (state_at x c now (s.login_states back.state))) [
        | inl gone ↦ absurd (ground (arith, gone, e))
        | inr (kept, found) ↦ (back.code, kept.code_verifier, kept.nonce, ground (arith, found, e))
      ]

  claims-Safe :
      (now : ℕ) (token : String) (claims : Option (Option String × Option String)) (spent : Server)
      → ((sub issuer : Option String) → claims ≡ some (sub, issuer) → Answered sub issuer)
      → Proven x c spent
      → Safe x c (elim claims [
        | none ↦ page (form 200 "login.error.sso_expired") spent
        | some (sub, issuer) ↦ sign_in_as x c now token sub issuer spent
      ])
  claims-Safe now token none spent why h = h
  claims-Safe now token (some (sub, issuer)) spent why h =
      sign_in_as-Safe now token sub issuer spent (why sub issuer refl) h

  oidc_callback-Safe :
      (now : ℕ) (token : String) (back : Callback) (browser : String) (s : Server)
      → Proven x c s
      → Safe x c (oidc_callback x c now token back browser s)
  unfolding oidc_callback exchange_code
  oidc_callback-Safe now token back browser s h =
      let binding = if is_empty browser then "" else browser_binding x c browser in
      let (claims, spent) = exchange_code x c now back false binding s in
      if-holds (Safe x c) (not c.oidc_enabled) _ _ (λ _. h)
        (λ _.
          if-holds (Safe x c) (back.failed || is_empty back.code || is_empty back.state) _ _
            (λ _. h)
            (λ _.
              claims-Safe now token claims spent
                (λ sub issuer e. exchange_code-Answered now back false binding s sub issuer e) h))

  link_identity-Safe :
      (user : User) (sub issuer : Option String) (s : Server)
      → Proven x c s
      → Safe x c (link_identity x c user sub issuer s)
  unfolding link_identity
  link_identity-Safe user none issuer s h = h
  link_identity-Safe user (some sub) none s h = h
  link_identity-Safe user (some sub) (some issuer) s h =
      if-holds (Safe x c) (is_empty sub || is_empty issuer) _ _ (λ _. h)
        (λ _. if-holds (Safe x c) (is_taken x c user sub s) _ _ (λ _. h) (λ _. h))

  oidc_unlink-Safe : (user : User) (s : Server) → Proven x c s → Safe x c (oidc_unlink x c user s)
  unfolding oidc_unlink
  oidc_unlink-Safe user s h =
      let has_password : Bool = elim user.password_hash [
        | none ↦ false
        | some h ↦ not (is_empty h)
      ] in
      let directory_login = is_some (s.identities user.id).ldap_username && c.ldap_enabled in
      if-holds (Safe x c) (not c.oidc_enabled) _ _ (λ _. h)
        (λ _.
          if-holds (Safe x c) (not (is_some (s.identities user.id).oidc_sub)) _ _ (λ _. h)
            (λ _.
              if-holds (Safe x c) (not has_password && not directory_login) _ _ (λ _. h) (λ _. h)))

  oidc_link_callback-Safe :
      (now : ℕ) (printed : String) (back : Callback) (session_token : Option String) (s : Server)
      → Proven x c s
      → Safe x c (oidc_link_callback x c now printed back session_token s)
  unfolding oidc_link_callback exchange_code
  oidc_link_callback-Safe now printed back session_token s h =
      let token : String = elim session_token [ none ↦ "" | some t ↦ t ] in
      let (claims, spent) = exchange_code x c now back true (session_binding x c printed token) s in
      elim (get_current_admin x c now session_token s)
        as (λ o. Safe x c (elim o [
          | ok user ↦
              if back.failed || is_empty back.code
              then page (redirect "/admin/account?sso=failed") s
              else elim claims [
                | none ↦ page (redirect "/admin/account?sso=failed") spent
                | some (sub, issuer) ↦ link_identity x c user sub issuer spent
              ]
          | _ ↦ page (form 401 "login.error.sso_link_session") s
        ])) [
          | ok user ↦
              if-holds (Safe x c) (back.failed || is_empty back.code) _ _ (λ _. h)
                (λ _.
                  elim claims
                    as (λ o. Safe x c (elim o [
                      | none ↦ page (redirect "/admin/account?sso=failed") spent
                      | some (sub, issuer) ↦ link_identity x c user sub issuer spent
                    ])) [
                      | none ↦ h
                      | some (sub, issuer) ↦ link_identity-Safe user sub issuer spent h
                    ])
          | http n ↦ h
          | raised ↦ h
        ]

  oidc_authorize-Safe :
      (now : ℕ) (drawn : Request) (browser : String) (s : Server)
      → Proven x c s
      → Safe x c (oidc_authorize x c now drawn browser s)
  unfolding oidc_authorize create_authorization_url
  oidc_authorize-Safe now drawn browser s h =
      if-holds (Safe x c) c.oidc_enabled _ _ (λ _. h) (λ _. h)

  oidc_link-Safe :
      (now : ℕ) (drawn : Request) (printed token : String) (s : Server)
      → Proven x c s
      → Safe x c (oidc_link x c now drawn printed token s)
  unfolding oidc_link create_authorization_url
  oidc_link-Safe now drawn printed token s h =
      if-holds (Safe x c) c.oidc_enabled _ _ (λ _. h) (λ _. h)

  local_review_login-Safe :
      (now : ℕ) (jti : String) (is_reachable : Bool) (s : Server)
      → c.local_review_login ≡ false
      → Proven x c s
      → Safe x c (local_review_login x c now jti is_reachable s)
  unfolding local_review_login
  local_review_login-Safe now jti is_reachable s off h =
      if-holds (Safe x c) (not c.local_review_login || not is_reachable) _ _ (λ _. h)
        (λ on. absurd (ground (arith, on, off)))

  Step-Proven :
      {s t : Server} → c.local_review_login ≡ false → Step x c s t → Proven x c s → Proven x c t
  Step-Proven {s} off (signs_in now drawn username plain) h =
      login_post-Safe x c sound now drawn username plain s h
  Step-Proven {s} off (enters_code now jti drawn digits temp_token) h =
      login_mfa_post-Safe x c sound now jti drawn digits temp_token s h
  Step-Proven {s} off (enrols now jti drawn digits temp_token) h =
      mfa_setup_post-Safe x c sound now jti drawn digits temp_token s h
  Step-Proven {s} off (signs_out now token) h = logout-Safe x c sound now token s h
  Step-Proven {s} off (refreshes {user} {claims} now jti token e) h =
      session_refresh-Safe x c sound now jti token s user claims e h
  Step-Proven {s} off (changes_password {user} now new_hash current new confirm digits token e) h =
      account_password-Safe x c sound now new_hash current new confirm digits user token s h
  Step-Proven {s} off (asks_provider now drawn browser) h =
      oidc_authorize-Safe now drawn browser s h
  Step-Proven {s} off (comes_back now token back browser) h =
      oidc_callback-Safe now token back browser s h
  Step-Proven {s} off (asks_link now drawn printed token) h =
      oidc_link-Safe now drawn printed token s h
  Step-Proven {s} off (links now printed back token) h =
      oidc_link_callback-Safe now printed back token s h
  Step-Proven {s} off (unlinks user) h = oidc_unlink-Safe user s h
  Step-Proven {s} off (reviews now jti is_reachable) h =
      local_review_login-Safe now jti is_reachable s off h
  Step-Proven {s} off (administers db identities) h = h
  Step-Proven {s} off (ends_sessions user_id) h = revoke_user_sessions-Proven x c user_id none s h

  -- Nobody has signed in.
  abbrev pub IsEmpty : Server → Type 0
  IsEmpty s =
      (key : String)
      → (s.sessions key ≡ none) × (s.totp_pending key ≡ none) × (s.totp_setup key ≡ none)

  IsEmpty-Proven : (s : Server) → IsEmpty s → Proven x c s
  IsEmpty-Proven s empty = record {
    sessions = λ k. subst (EntryHolds (SessionHolds x c s.trail k)) (sym (empty k).0) tt;
    totp_pending = λ k. subst (EntryHolds (PassedFirst x c s.trail)) (sym (empty k).1) tt;
    totp_setup = λ k. subst (EntryHolds (PassedFirst x c s.trail)) (sym (empty k).2) tt;
  }

  Reach-Proven :
      {start s : Server}
      → c.local_review_login ≡ false
      → IsEmpty start
      → Reach x c start s
      → Proven x c s
  Reach-Proven {start} off empty here = IsEmpty-Proven start empty
  Reach-Proven off empty (then_step before step) =
      Step-Proven off step (Reach-Proven off empty before)

  -- From a server on which nobody has signed in, with the sign-in of a local review switched off,
  -- and however requests, administrators and the end of sessions interleave: a request is let in
  -- as an account only if two things were presented for it. One is a password that bcrypt accepts
  -- for the account's hash at the time, or a name and password for which the directory answers
  -- with the account's name there, or an identity, the account's at the time, for which the
  -- provider has a token. The other is a code that the authenticator accepts for the account's
  -- secret at the time or, in demo mode, the code of a demo account. HMAC is taken to be
  -- injective, and a token to decode to what was encoded.
  pub signed_in-PassedBoth :
      {start s : Server} {user : User} {claims : Claims} (now : ℕ) (token : String)
      → c.local_review_login ≡ false
      → IsEmpty start
      → Reach x c start s
      → get_signed_in_admin x c now (some token) s ≡ ok (user, claims)
      → PassedBoth x c s.trail user.id
  signed_in-PassedBoth {start} {s} {user} {claims} now token off empty reached e =
      let h = Reach-Proven off empty reached in
      let signed_in = get_signed_in_admin-IsSignedIn x c now token s user claims e in
      subst (PassedBoth x c s.trail) (sym (get_user-id s.db claims.sub user signed_in.found))
        (live-both x c sound now token s claims h signed_in.live signed_in.decoded)
