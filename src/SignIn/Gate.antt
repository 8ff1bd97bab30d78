-- ===== src/SignIn/Gate.antt =====
-- Whom the check of a session lets in.
use open_whistle.Base.{ℕ, String, ◌≡◌, sym, ap, ◌∙◌, true, false, not, ◌&&◌, some, arith}
use open_whistle.Base.Outcome.{ok, demand, present, >>=-eq-ok, demand-eq-ok, present-eq-ok}
use open_whistle.Base.Text.{is_empty}
use open_whistle.Models.{User, get_user}
use open_whistle.SignIn.{Server, Config, Outside, Claims, validate_session, session_too_old}
use open_whistle.SignIn.Account.{get_signed_in_admin}

module _ (x : Outside) (c : Config) where
  -- A live session whose token still holds, of an active account with an authenticator.
  pub record IsSignedIn (now : ℕ) (token : String) (s : Server) (user : User) (claims : Claims)
      : Type 0 where
    pub live : validate_session x c now token s ≡ true
    pub decoded : x.decode now token ≡ some claims
    pub young : session_too_old x c now claims ≡ false
    pub found : get_user s.db claims.sub ≡ some user
    pub active : user.is_active ≡ true
    pub enrolled : user.totp_enabled ≡ true

  pub get_signed_in_admin-IsSignedIn :
      (now : ℕ) (token : String) (s : Server) (user : User) (claims : Claims)
      → get_signed_in_admin x c now (some token) s ≡ ok (user, claims)
      → IsSignedIn now token s user claims
  unfolding get_signed_in_admin
  get_signed_in_admin-IsSignedIn now token s user claims h =
      let (_, a, h₁) =
        >>=-eq-ok (demand (not (is_empty token) && validate_session x c now token s) 401) _ h in
      let (k, b, h₂) = >>=-eq-ok (present (x.decode now token) 401) _ h₁ in
      let (_, d, h₃) = >>=-eq-ok (demand (not (session_too_old x c now k)) 401) _ h₂ in
      let (u, e, h₄) = >>=-eq-ok (present (get_user s.db k.sub) 401) _ h₃ in
      let (_, f, h₅) = >>=-eq-ok (demand (u.is_active && u.totp_enabled) 401) _ h₄ in
      let same_user : u ≡ user = cc in
      let same_claims : k ≡ claims = cc in
      let live = demand-eq-ok (not (is_empty token) && validate_session x c now token s) 401 a in
      let young = demand-eq-ok (not (session_too_old x c now k)) 401 d in
      let able = demand-eq-ok (u.is_active && u.totp_enabled) 401 f in
      record {
        live = ground (arith, live);
        decoded = present-eq-ok (x.decode now token) 401 b ∙ ap some same_claims;
        young = ap (session_too_old x c now) (sym same_claims) ∙ ground (arith, young);
        found =
            ap (λ (j : Claims). get_user s.db j.sub) (sym same_claims)
            ∙ present-eq-ok (get_user s.db k.sub) 401 e
            ∙ ap some same_user;
        active = ap (λ (w : User). w.is_active) (sym same_user) ∙ ground (arith, able);
        enrolled = ap (λ (w : User). w.totp_enabled) (sym same_user) ∙ ground (arith, able);
      }
