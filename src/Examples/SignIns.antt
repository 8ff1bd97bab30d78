-- ===== src/Examples/SignIns.antt =====
-- An account that signs in with its password and a code, and changes the password while another of its
-- browsers refreshes.
use open_whistle.Base.{
  ◌+◌, ◌*◌, ◌≤◌, ◌≡◌, refl, sym, ap, ◌∙◌, inl, inr, Bool, true, false, ◌&&◌, none, some, [], ◌∷◌,
  arith, ◌==◌, if◌then◌else◌, ==→eq, Bool-cases, some_inj,
}
use open_whistle.Base.Outcome.{ok}
use open_whistle.SignIn.Steps.{signs_in, enters_code, Reach, here, then_step}
use open_whistle.SignIn.Factors.{PassedBoth, IsSound}
use open_whistle.SignIn.BothFactors.{signed_in-PassedBoth}
use open_whistle.SignIn.Refresh.{Issued, at_login, Issued-ends, consume_totp-once}
use text.Mathlib.Text.{◌==◌ as str_eq}
use text.Mathlib.TextEquality.{eq_iff}
use Prim.Native.String.{[], ◌∷◌}
use open_whistle.Examples.{alice, office}
use open_whistle.SignIn.{create_access_token, consume_totp, Server, Claims, Config, Outside}
use open_whistle.SignIn.Routes.{Drawn, login_post, login_mfa_post}
use open_whistle.SignIn.Account.{get_signed_in_admin}

abbrev first_claims : Claims
first_claims = record { sub = alice.id; exp = 3600; auth_time = 0; jti = "j" }

abbrev claims_eq : Claims → Bool
claims_eq k = (k.sub == alice.id) && (k.exp == 3600) && (k.auth_time == 0) && str_eq k.jti "j"

-- A JWT library that has one token to give.
abbrev pub libraries : Outside
libraries = record {
  hmac = λ t. t;
  sha256 = λ t. t;
  checkpw = λ plain hashed. true;
  totp_verify = λ secret digits now. str_eq digits "123456";
  encode = λ k. if claims_eq k then "token" else "other";
  decode = λ now t. if str_eq t "token" then some first_claims else none;
  authenticate_ldap = λ username plain. none;
  id_token = λ code verifier nonce. none;
  casefold = λ t. t;
  lower = λ t. t;
}

abbrev pub config : Config
config = record {
  settings = record { multi_tenancy_enabled = false; demo_mode = false; demo_usernames = [] };
  max_login_attempts = 10;
  login_lockout_minutes = 15;
  alert_threshold = 0;
  alert_minutes = 5;
  access_token_expire_minutes = 60;
  session_max_hours = 12;
  demo_totp_secret = "";
  demo_admin = "";
  ldap_enabled = false;
  oidc_enabled = false;
  local_review_login = false;
  default_org_id = none;
}

claims_eq-eq : (k : Claims) → claims_eq k ≡ true → first_claims ≡ k
claims_eq-eq k h =
    let a : k.sub ≡ alice.id = ==→eq k.sub alice.id (ground (arith, h)) in
    let b : k.exp ≡ 3600 = ==→eq k.exp 3600 (ground (arith, h)) in
    let d : k.auth_time ≡ 0 = ==→eq k.auth_time 0 (ground (arith, h)) in
    let e : k.jti ≡ "j" = (eq_iff k.jti "j").0 (ground (arith, h)) in
    ap (λ n. record { sub = n; exp = 3600; auth_time = 0; jti = "j" }) (sym a)
    ∙ ap (λ n. record { sub = k.sub; exp = n; auth_time = 0; jti = "j" }) (sym b)
    ∙ ap (λ n. record { sub = k.sub; exp = k.exp; auth_time = n; jti = "j" }) (sym d)
    ∙ ap (λ t. record { sub = k.sub; exp = k.exp; auth_time = k.auth_time; jti = t }) (sym e)

pub libraries-IsSound : IsSound libraries
libraries-IsSound = record {
  hmac = λ a b e. e;
  encoded = λ now k k' h. elim (Bool-cases (claims_eq k)) [
    | inl same ↦
        some_inj (
          sym h
          ∙ ap
              (λ (b : Bool).
                if str_eq (if b then "token" else "other") "token" then some first_claims else none)
              same)
        ∙ claims_eq-eq k same
    | inr other ↦ absurd (
        ground (
          arith,
          sym (
                ap
                  (λ (b : Bool).
                    if str_eq (if b then "token" else "other") "token"
                    then some first_claims
                    else none)
                  other)
              ∙ h,
        ))
  ];
}

abbrev pub nobody : Server
nobody = record {
  db = record office { users = record alice { password_hash = some "hash" } ∷ [] };
  identities = λ u. record {
    totp_secret = "secret";
    ldap_username = none;
    oidc_sub = none;
    oidc_issuer = none;
    last_login_at = none;
  };
  sessions = λ k. none;
  totp_pending = λ k. none;
  totp_setup = λ k. none;
  used_codes = λ u d. none;
  counters = λ k. none;
  login_states = λ k. none;
  trail = [];
}

abbrev drawn : Drawn
drawn = record { token = "temp"; user_id = 90; totp_secret = "" }

abbrev half_way : Server
unfolding login_post
half_way = (login_post libraries config 0 drawn alice.username "a good password" nobody).server

abbrev inside : Server
unfolding login_mfa_post half_way
inside = (login_mfa_post libraries config 0 "j" drawn "123456" "temp" half_way).server

is_inside :
    (get_signed_in_admin libraries config 100 (some "token") inside)
    ≡ ok (record alice { password_hash = some "hash" }, first_claims)
unfolding get_signed_in_admin inside
is_inside = refl

a_sign_in : Reach libraries config nobody inside
unfolding inside half_way
a_sign_in =
    then_step (then_step here (signs_in 0 drawn alice.username "a good password"))
      (enters_code 0 "j" drawn "123456" "temp")

signed_in-PassedBoth_example : PassedBoth libraries config inside.trail 1
signed_in-PassedBoth_example =
    signed_in-PassedBoth libraries config libraries-IsSound 100 "token" refl
      (λ k. (refl, refl, refl)) a_sign_in is_inside

first-Issued : Issued libraries config 0 first_claims
unfolding create_access_token
first-Issued = at_login 1 "j"

Issued-ends_example : (100 ≤ 0 + 12 * 3600) × (first_claims.exp ≤ 0 + 12 * 3600)
Issued-ends_example =
    Issued-ends libraries config 100 "token" inside (record alice { password_hash = some "hash" })
      first-Issued refl is_inside

abbrev code_used : Server
unfolding consume_totp
code_used = (consume_totp libraries config 0 1 "secret" "123456" nobody).1

code_accepted : (consume_totp libraries config 0 1 "secret" "123456" nobody).0 ≡ true
unfolding consume_totp
code_accepted = refl

code_kept :
    code_used.used_codes 1 "123456"
    ≡ (consume_totp libraries config 0 1 "secret" "123456" nobody).1.used_codes 1 "123456"
unfolding code_used
code_kept = refl

consume_totp-once_example :
    consume_totp libraries config 80 1 "new secret" "123456" code_used ≡ (false, code_used)
consume_totp-once_example =
    consume_totp-once libraries config 0 80 1 "secret" "new secret" "123456" nobody code_used
      code_accepted code_kept (omega arith)
