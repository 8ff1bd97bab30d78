-- ===== src/SignIn/Refresh.antt =====
-- How long a session lasts, and how often a code opens something.
use open_whistle.Base.{
  ℕ, ◌+◌, ◌*◌, ◌≤◌, ◌<◌, min, String, ◌≡◌, refl, sym, ap, ◌∙◌, Bool, true, false, not, ◌&&◌, none,
  some, arith, lt→ltb, ==-refl, some_inj, if-holds,
}
use open_whistle.Base.Outcome.{ok}
use mathlib.Core.Path.{subst}
use text.Mathlib.TextEquality.{eq_iff}
use open_whistle.Models.{User}
use open_whistle.SignIn.{
  is_used, Server, Config, Outside, Claims, create_access_token, session_too_old, consume_totp,
  verify_totp,
}
use open_whistle.SignIn.Account.{get_signed_in_admin}
use open_whistle.SignIn.Gate.{get_signed_in_admin-IsSignedIn}

module _ (x : Outside) (c : Config) where
  -- The claims that a sign-in makes, and those that refreshes make of them.
  pub data Issued (login : ℕ) : Claims → Type 0 where
    at_login :
        (user_id : ℕ) (jti : String) → Issued login (create_access_token x c login user_id jti none)
    refreshed :
        {claims : Claims}
        → Issued login claims
        → (now user_id : ℕ) (jti : String)
        → Issued login (create_access_token x c now user_id jti (some claims.auth_time))

  Issued-auth_time : {login : ℕ} {claims : Claims} → Issued login claims → claims.auth_time ≡ login
  unfolding create_access_token
  Issued-auth_time (at_login user_id jti) = refl
  Issued-auth_time (refreshed issued now user_id jti) = Issued-auth_time issued

  Issued-exp :
      {login : ℕ} {claims : Claims}
      → Issued login claims
      → claims.exp ≤ login + c.session_max_hours * 3600
  unfolding create_access_token
  Issued-exp {login} (at_login user_id jti) = omega arith
  Issued-exp {login} (refreshed {claims} issued now user_id jti) =
      subst
        (λ t.
          min (now + c.access_token_expire_minutes * 60)
            (claims.auth_time + c.session_max_hours * 3600)
          ≤ t + c.session_max_hours * 3600)
        (Issued-auth_time issued) (omega arith)

  too_old-late :
      (now : ℕ) (claims : Claims)
      → session_too_old x c now claims ≡ false
      → now ≤ claims.auth_time + c.session_max_hours * 3600
  unfolding session_too_old
  too_old-late now claims h = ground (arith, h)

  -- A token with the claims of a sign-in, or of any number of refreshes of it, is let in at most
  -- session_max_hours after the sign-in, and expires no later.
  pub Issued-ends :
      {login : ℕ} {claims issued : Claims} (now : ℕ) (token : String) (s : Server) (user : User)
      → Issued login issued
      → x.decode now token ≡ some issued
      → get_signed_in_admin x c now (some token) s ≡ ok (user, claims)
      → (now ≤ login + c.session_max_hours * 3600)
        × (claims.exp ≤ login + c.session_max_hours * 3600)
  Issued-ends {login} {claims} {issued} now token s user made decoded h =
      let signed_in = get_signed_in_admin-IsSignedIn x c now token s user claims h in
      let same : issued ≡ claims = some_inj (sym decoded ∙ signed_in.decoded) in
      let made : Issued login claims = subst (Issued login) same made in
      (
        subst (λ t. now ≤ t + c.session_max_hours * 3600) (Issued-auth_time made)
            (too_old-late now claims signed_in.young),
        Issued-exp made,
      )

  consume_totp-used :
      (now user_id : ℕ) (secret digits : String) (s : Server)
      → (consume_totp x c now user_id secret digits s).0 ≡ true
      → (consume_totp x c now user_id secret digits s).1.used_codes user_id digits ≡ some (now + 90)
  unfolding consume_totp
  consume_totp-used now user_id secret digits s h =
      ground (arith, h, ==-refl user_id, (eq_iff digits digits).1 refl)

  refuses :
      (now user_id : ℕ) (secret digits : String) (s : Server)
      → is_used x c now (s.used_codes user_id digits) ≡ true
      → consume_totp x c now user_id secret digits s ≡ (false, s)
  unfolding consume_totp
  refuses now user_id secret digits s live =
      if-holds (λ (r : Bool × Server). r ≡ (false, s))
        (verify_totp x c now secret digits && not (is_used x c now (s.used_codes user_id digits))) _
        _ (λ e. absurd (ground (arith, live, e))) (λ _. refl)

  -- A code that was accepted for an account is refused for it, with nothing changed, at every
  -- time less than 90 seconds after, on every server that still has the mark of its use, whatever
  -- the secret is by then.
  pub consume_totp-once :
      (now later user_id : ℕ) (secret secret' digits : String) (s t : Server)
      → (consume_totp x c now user_id secret digits s).0 ≡ true
      → t.used_codes user_id digits
        ≡ (consume_totp x c now user_id secret digits s).1.used_codes user_id digits
      → later < now + 90
      → consume_totp x c later user_id secret' digits t ≡ (false, t)
  unfolding consume_totp
  consume_totp-once now later user_id secret secret' digits s t h same soon =
      let used : t.used_codes user_id digits ≡ some (now + 90) =
        same ∙ consume_totp-used now user_id secret digits s h in
      let live : is_used x c later (t.used_codes user_id digits) ≡ true =
        ap (is_used x c later) used ∙ lt→ltb later (now + 90) soon in
      refuses later user_id secret' digits t live
