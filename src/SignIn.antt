-- ===== src/SignIn.antt =====
-- Signing in: the state that app/services/auth.py and app/services/mfa.py keep in Redis and in the
-- accounts, and their operations. Times are whole seconds. A key of Redis is the HMAC of a token, and
-- each prefix is a table of its own. No code reads or
-- writes `trail`: it notes the inputs on which a request was let pass, for a theorem to check again.
pub mod Routes
pub mod Account
pub mod Oidc
pub mod Steps
pub mod Factors
pub mod Proven
pub mod OwnAccount
pub mod BothFactors
pub mod Gate
pub mod Sweep
pub mod Sessions
pub mod Storing
pub mod Renewal
pub mod Swept
pub mod Refresh
use open_whistle.Base.{
  ℕ, zero, suc, ◌+◌, ◌-◌, ◌*◌, ◌/◌, ◌%◌, ◌≤◌, ◌<◌, min, max, String, ◌≡◌, refl, sym, ap, ◌∙◌,
  ◌≡⟨◌⟩◌, ◌∎, ◌≢◌, ◌↔◌, ◌⊎◌, inl, inr, Bool, true, false, not, ◌&&◌, ◌||◌, Option, none, some, List,
  [], ◌∷◌, ◌++◌, map, arith, ltb, leb, ◌==◌, if◌then◌else◌, opt_eq, is_some, ltb→lt, lt→ltb, leb→le,
  le→leb, ==→eq, ==-refl, opt_eq→eq, opt_eq_refl, Bool-cases, Option-cases, length, take, drop,
  keep, find, any, all, length-append, length-keep-le, find_sound, All, All-append, All-keep,
}
use open_whistle.Base.Int.{
  ℤ, pos, negsuc, pos_part, neg_part, sub_ℕ, ◌+ℤ◌, ◌≤ℤ◌, ltb_ℤ, leb_ℤ, floor_div, floor_mod,
}
use open_whistle.Base.Outcome.{
  Outcome, ok, http, raised, ◌>>=◌, ◌>>◌, demand, present, >>=-eq-ok, demand-eq-ok, present-eq-ok,
}
use text.Mathlib.Text.{◌==◌ as str_eq}
use Prim.Native.String.{[], ◌∷◌}
use open_whistle.Base.Text.{characters, bytes, all_characters}
use open_whistle.Models.{User, Db, Settings}
use open_whistle.RateLimit.{Store}

-- A user's identifier under a key, and the second at which the key is gone.
pub record Entry : Type 0 where
  pub user : ℕ
  pub expires : ℕ

abbrev pub Table : Type 0
Table = String → Option Entry

abbrev pub put : String → Option Entry → Table → Table
put key entry table = λ k. if str_eq k key then entry else table k

-- What a key holds at a time.
unfoldable pub entry_at : ℕ → Option Entry → Option ℕ
entry_at now none = none
entry_at now (some e) = if ltb now e.expires then some e.user else none

-- The columns of an account that only signing in reads.
pub record Identity : Type 0 where
  pub totp_secret : String
  pub ldap_username : Option String
  pub oidc_sub : Option String
  pub oidc_issuer : Option String
  pub last_login_at : Option ℕ

-- What a state of an OIDC login keeps: a login's binding is to a browser, a link's to a session.
pub record LoginState : Type 0 where
  pub nonce : String
  pub code_verifier : String
  pub is_link : Bool
  pub binding : String
  pub expires : ℕ

-- What was presented for an account, with what the account was at the time: a password, a name and
-- password of the directory, the identity that a provider named, a code at a second, a demo code.
pub data Proof : Type 0 where
  password : (account : User) (plain : String) → Proof
  directory : (user : ℕ) (account : Identity) (username plain : String) → Proof
  provider : (user : ℕ) (account : Identity) → Proof
  code : (user : ℕ) (account : Identity) (digits : String) (at : ℕ) → Proof
  demo_code : (account : User) (digits : String) → Proof

pub record Server : Type 0 where
  pub db : Db
  pub identities : ℕ → Identity
  pub sessions : Table
  pub totp_pending : Table
  pub totp_setup : Table
  pub used_codes : ℕ → String → Option ℕ
  pub counters : Store
  pub login_states : String → Option LoginState
  pub trail : List Proof

pub record Claims : Type 0 where
  pub sub : ℕ
  pub exp : ℕ
  pub auth_time : ℕ
  pub jti : String

pub record Config : Type 0 where
  pub settings : Settings
  pub max_login_attempts : ℕ
  pub login_lockout_minutes : ℕ
  pub alert_threshold : ℕ
  pub alert_minutes : ℕ
  pub access_token_expire_minutes : ℕ
  pub session_max_hours : ℕ
  pub demo_totp_secret : String
  pub demo_admin : String
  pub ldap_enabled : Bool
  pub oidc_enabled : Bool
  pub local_review_login : Bool
  pub default_org_id : Option ℕ

-- The libraries: HMAC and SHA-256 in hexadecimal, bcrypt, pyotp's check at a time, JWT with the
-- instance's key, the directory, the provider's token endpoint with the check of its ID token, and
-- case folding.
pub record Outside : Type 0 where
  pub hmac : String → String
  pub sha256 : String → String
  pub checkpw : String → String → Bool
  pub totp_verify : String → String → ℕ → Bool
  pub encode : Claims → String
  pub decode : ℕ → String → Option Claims
  pub authenticate_ldap : String → String → Option String
  pub id_token : String → String → String → Option (Option String × Option String)
  pub casefold : String → String
  pub lower : String → String

module _ (x : Outside) (c : Config) where
  -- `_bcrypt_check`
  unfoldable pub verify_password : String → String → Bool
  unfolding bytes
  verify_password plain hashed = if ltb 72 (bytes plain) then false else x.checkpw plain hashed

  -- The claims of a session; the login time survives refreshes.
  unfoldable pub create_access_token : ℕ → ℕ → String → Option ℕ → Claims
  create_access_token now user_id jti auth_time =
      let started : ℕ = elim auth_time [ none ↦ now | some t ↦ t ] in
      record {
        sub = user_id;
        exp = min (now + c.access_token_expire_minutes * 60) (started + c.session_max_hours * 3600);
        auth_time = started;
        jti = jti;
      }

  -- time.time() - session_started_at(claims) > session_max_hours * 3600
  unfoldable pub session_too_old : ℕ → Claims → Bool
  session_too_old now claims = ltb (claims.auth_time + c.session_max_hours * 3600) now

  unfoldable pub seconds_left : ℕ → String → ℕ
  seconds_left now token = elim (x.decode now token) [ none ↦ 0 | some claims ↦ claims.exp - now ]

  -- A session lives as long as its token.
  unfoldable pub store_session : ℕ → ℕ → String → Server → Server
  unfolding seconds_left
  store_session now user_id token s = record s {
    sessions =
        put (x.hmac token)
          (some (record { user = user_id; expires = now + max 1 (seconds_left now token) }))
          s.sessions;
  }

  unfoldable pub validate_session : ℕ → String → Server → Bool
  unfolding entry_at
  validate_session now token s = is_some (entry_at now (s.sessions (x.hmac token)))

  -- With whether it still existed.
  unfoldable pub revoke_session : ℕ → String → Server → Bool × Server
  unfolding validate_session
  revoke_session now token s =
      (validate_session now token s, record s { sessions = put (x.hmac token) none s.sessions })

  -- One table of `_SWEEP`.
  unfoldable pub swept : ℕ → Option String → Table → Table
  swept user_id kept table = λ key.
      let is_theirs : Bool = elim (table key) [ none ↦ false | some e ↦ e.user == user_id ] in
      let is_kept : Bool = elim kept [ none ↦ false | some k ↦ str_eq key k ] in
      if is_theirs && not is_kept then none else table key

  -- Only a session can be kept.
  unfoldable pub revoke_user_sessions : ℕ → Option String → Server → Server
  unfolding swept
  revoke_user_sessions user_id keep s = record s {
    sessions =
        swept user_id (elim keep [ none ↦ none | some token ↦ some (x.hmac token) ]) s.sessions;
    totp_pending = swept user_id none s.totp_pending;
    totp_setup = swept user_id none s.totp_setup;
  }

  unfoldable pub store_totp_pending : ℕ → String → ℕ → Server → Server
  store_totp_pending now token user_id s = record s {
    totp_pending =
        put (x.hmac token) (some (record { user = user_id; expires = now + 300 })) s.totp_pending;
  }

  unfoldable pub consume_totp_pending : ℕ → String → Server → Option ℕ × Server
  unfolding entry_at
  consume_totp_pending now token s = (
    entry_at now (s.totp_pending (x.hmac token)),
    record s { totp_pending = put (x.hmac token) none s.totp_pending },
  )

  unfoldable pub store_totp_setup_pending : ℕ → String → ℕ → Server → Server
  store_totp_setup_pending now token user_id s = record s {
    totp_setup =
        put (x.hmac token) (some (record { user = user_id; expires = now + 600 })) s.totp_setup;
  }

  unfoldable pub consume_totp_setup_pending : ℕ → String → Server → Option ℕ × Server
  unfolding entry_at
  consume_totp_setup_pending now token s = (
    entry_at now (s.totp_setup (x.hmac token)),
    record s { totp_setup = put (x.hmac token) none s.totp_setup },
  )

  -- Six ASCII digits that the authenticator accepts.
  unfoldable pub verify_totp : ℕ → String → String → Bool
  unfolding characters all_characters
  verify_totp now secret digits =
      characters digits == 6
      && all_characters (λ d. leb b'0' d && leb d b'9') digits
      && x.totp_verify secret digits now

  abbrev pub is_used : ℕ → Option ℕ → Bool
  is_used now none = false
  is_used now (some expires) = ltb now expires

  abbrev pub use_code : ℕ → ℕ → String → Server → Server
  use_code now user_id digits s = record s {
    used_codes =
        λ u d. if (u == user_id) && str_eq d digits then some (now + 90) else s.used_codes u d;
    trail = code user_id (s.identities user_id) digits now ∷ s.trail;
  }

  -- SET NX EX 90 of the code, if it verifies.
  unfoldable pub consume_totp : ℕ → ℕ → String → String → Server → Bool × Server
  unfolding verify_totp
  consume_totp now user_id secret digits s =
      if verify_totp now secret digits && not (is_used now (s.used_codes user_id digits))
      then (true, use_code now user_id digits s)
      else (false, s)

  unfoldable pub verify_demo_totp : String → String → String → Bool
  verify_demo_totp digits username secret =
      str_eq digits "000000"
      && any (str_eq username) c.settings.demo_usernames
      && str_eq secret c.demo_totp_secret
