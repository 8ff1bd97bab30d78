-- ===== src/SignIn/Factors.antt =====
-- A session belongs to an account that passed both factors.
use open_whistle.SignIn.{use_code}
use open_whistle.Models.{User}
use open_whistle.SignIn.{
  Identity, verify_totp, is_used, Claims, Entry, Table, put, entry_at, Server, Config, Outside,
  Proof, password, directory, provider, demo_code, code, swept, store_session, revoke_session,
  revoke_user_sessions, store_totp_pending, consume_totp_pending, store_totp_setup_pending,
  consume_totp_setup_pending, consume_totp,
}
use open_whistle.Base.Text.{bytes}
use open_whistle.Base.{
  ◌≤◌, ℕ, String, ◌≡◌, sym, ap, ◌∙◌, Bool, true, false, not, ◌&&◌, Option, none, some, List, ◌∷◌,
  arith, ◌==◌, keep, any, if-holds,
}
use mathlib.Core.Path.{subst}
use text.Mathlib.Text.{◌==◌ as str_eq}
use Prim.Native.String.{◌∷◌}
use open_whistle.SignIn.Routes.{Page}
use text.Mathlib.TextEquality.{eq_iff}

-- Among what was presented is something with the property.
pub data Noted (P : Proof → Type 0) : List Proof → Type 0 where
  newest : {p : Proof} {ps : List Proof} → P p → Noted P (p ∷ ps)
  older : {p : Proof} {ps : List Proof} → Noted P ps → Noted P (p ∷ ps)

module _ (x : Outside) (c : Config) where
  -- The first factor of an account: a password that bcrypt accepts for the stored hash, a bind to
  -- the directory that answers with the account's name there, or a token of the provider with the
  -- account's subject and issuer.
  pub data IsFirst (u : ℕ) : Proof → Type 0 where
    by_password :
        {account : User} {plain hash : String}
        → account.id ≡ u
        → account.password_hash ≡ some hash
        → x.checkpw plain hash ≡ true
        → bytes plain ≤ 72
        → IsFirst u (password account plain)
    by_directory :
        {account : Identity} {username plain name : String}
        → c.ldap_enabled ≡ true
        → x.authenticate_ldap username plain ≡ some name
        → account.ldap_username ≡ some name
        → IsFirst u (directory u account username plain)
    by_provider :
        {account : Identity} {sub issuer : String} (back verifier nonce : String)
        → x.id_token back verifier nonce ≡ some (some sub, some issuer)
        → account.oidc_sub ≡ some sub
        → account.oidc_issuer ≡ some issuer
        → IsFirst u (provider u account)

  -- The second factor: a code that the authenticator accepts for the account's secret at the
  -- time, or, in demo mode, the code 000000 of a demo account.
  pub data IsSecond (u : ℕ) : Proof → Type 0 where
    by_code :
        {account : Identity} {digits : String} {at : ℕ}
        → x.totp_verify account.totp_secret digits at ≡ true
        → IsSecond u (code u account digits at)
    by_demo_code :
        {account : User} {digits : String}
        → account.id ≡ u
        → c.settings.demo_mode ≡ true
        → any (str_eq account.username) c.settings.demo_usernames ≡ true
        → str_eq digits "000000" ≡ true
        → IsSecond u (demo_code account digits)

  abbrev pub PassedFirst : List Proof → ℕ → Type 0
  PassedFirst trail u = Noted (IsFirst u) trail

  abbrev pub PassedBoth : List Proof → ℕ → Type 0
  PassedBoth trail u = PassedFirst trail u × Noted (IsSecond u) trail

abbrev pub EntryHolds : (ℕ → Type 0) → Option Entry → Type 0
EntryHolds P none = Unit
EntryHolds P (some e) = P e.user

abbrev pub TableHolds : (String → ℕ → Type 0) → Table → Type 0
TableHolds P table = (key : String) → EntryHolds (P key) (table key)

-- What the libraries promise here: no two tokens have one HMAC, and a token decodes to what it encodes.
pub record IsSound (x : Outside) : Type 0 where
  pub hmac : (a b : String) → x.hmac a ≡ x.hmac b → a ≡ b
  pub encoded :
      (now : ℕ) (claims claims' : Claims)
      → x.decode now (x.encode claims) ≡ some claims'
      → claims' ≡ claims

module _ (x : Outside) (c : Config) where
  -- Tokens under the key name the account.
  abbrev pub Names : String → ℕ → Type 0
  Names key u =
      (token : String) (now : ℕ) (claims : Claims)
      → x.hmac token ≡ key
      → x.decode now token ≡ some claims
      → claims.sub ≡ u

  abbrev pub SessionHolds : List Proof → String → ℕ → Type 0
  SessionHolds trail key u = PassedBoth x c trail u × Names key u

  -- Whoever waits for a code has passed the first factor, whoever has a session both.
  pub record IsProven (opened pending setup : Table) (trail : List Proof) : Type 0 where
    pub sessions : TableHolds (SessionHolds trail) opened
    pub totp_pending : TableHolds (λ _. PassedFirst x c trail) pending
    pub totp_setup : TableHolds (λ _. PassedFirst x c trail) setup

  abbrev pub Proven : Server → Type 0
  Proven s = IsProven s.sessions s.totp_pending s.totp_setup s.trail

  abbrev pub Safe : Page → Type 0
  Safe p = Proven p.server

EntryHolds-map :
    (P Q : ℕ → Type 0)
    → ((u : ℕ) → P u → Q u)
    → (e : Option Entry) → EntryHolds P e
    → EntryHolds Q e
EntryHolds-map P Q f none h = tt
EntryHolds-map P Q f (some e) h = f e.user h

-- One more proof takes nothing away.
pub IsProven-more :
    (x : Outside) (c : Config) (sessions pending setup : Table) (p : Proof) (trail : List Proof)
    → IsProven x c sessions pending setup trail
    → IsProven x c sessions pending setup (p ∷ trail)
IsProven-more x c sessions pending setup p trail h = record {
  sessions = λ k.
      EntryHolds-map (SessionHolds x c trail k) (SessionHolds x c (p ∷ trail) k)
        (λ u e. ((older e.0.0, older e.0.1), e.1)) (sessions k) (h.sessions k);
  totp_pending = λ k.
      EntryHolds-map (PassedFirst x c trail) (PassedFirst x c (p ∷ trail)) (λ u. older) (pending k)
        (h.totp_pending k);
  totp_setup = λ k.
      EntryHolds-map (PassedFirst x c trail) (PassedFirst x c (p ∷ trail)) (λ u. older) (setup k)
        (h.totp_setup k);
}

pub put-TableHolds :
    (P : String → ℕ → Type 0) (key : String) (e : Option Entry) (table : Table)
    → EntryHolds (P key) e
    → TableHolds P table
    → TableHolds P (put key e table)
put-TableHolds P key e table he h k =
    if-holds (EntryHolds (P k)) (str_eq k key) e (table k)
      (λ same. subst (λ j. EntryHolds (P j) e) (sym ((eq_iff k key).0 same)) he) (λ _. h k)

pub entry_at-holds :
    (P : ℕ → Type 0) (now u : ℕ) (e : Option Entry) → EntryHolds P e → entry_at now e ≡ some u → P u
unfolding entry_at
entry_at-holds P now u none h at = ground (arith, at)
entry_at-holds P now u (some e) h at = subst P (ground (arith, at)) h

module _ (x : Outside) (c : Config) where
  pub swept-TableHolds :
      (P : String → ℕ → Type 0) (u : ℕ) (kept : Option String) (table : Table)
      → TableHolds P table
      → TableHolds P (swept x c u kept table)
  unfolding swept
  swept-TableHolds P u kept table h k =
      if-holds (EntryHolds (P k))
        ((elim (table k) [ none ↦ false | some e ↦ e.user == u ])
          && not (elim kept [ none ↦ false | some kk ↦ str_eq k kk ]))
        none (table k) (λ _. tt) (λ _. h k)

  pub store_totp_pending-Proven :
      (now : ℕ) (token : String) (u : ℕ) (s : Server)
      → PassedFirst x c s.trail u
      → Proven x c s
      → Proven x c (store_totp_pending x c now token u s)
  unfolding store_totp_pending
  store_totp_pending-Proven now token u s first h = record {
    sessions = h.sessions;
    totp_setup = h.totp_setup;
    totp_pending =
        put-TableHolds (λ _. PassedFirst x c s.trail) (x.hmac token) _ s.totp_pending first
          h.totp_pending;
  }

  pub store_totp_setup_pending-Proven :
      (now : ℕ) (token : String) (u : ℕ) (s : Server)
      → PassedFirst x c s.trail u
      → Proven x c s
      → Proven x c (store_totp_setup_pending x c now token u s)
  unfolding store_totp_setup_pending
  store_totp_setup_pending-Proven now token u s first h = record {
    sessions = h.sessions;
    totp_pending = h.totp_pending;
    totp_setup =
        put-TableHolds (λ _. PassedFirst x c s.trail) (x.hmac token) _ s.totp_setup first
          h.totp_setup;
  }

  encode-Names : IsSound x → (claims : Claims) → Names x c (x.hmac (x.encode claims)) claims.sub
  encode-Names sound claims token now claims' same decoded =
      let same_token : token ≡ x.encode claims = sound.hmac token (x.encode claims) same in
      ap (λ k. k.sub)
        (sound.encoded now claims claims' (ap (x.decode now) (sym same_token) ∙ decoded))

  pub store_session-Proven :
      (now : ℕ) (claims : Claims) (s : Server)
      → IsSound x
      → PassedBoth x c s.trail claims.sub
      → Proven x c s
      → Proven x c (store_session x c now claims.sub (x.encode claims) s)
  unfolding store_session
  store_session-Proven now claims s sound both h = record {
    totp_pending = h.totp_pending;
    totp_setup = h.totp_setup;
    sessions =
        put-TableHolds (SessionHolds x c s.trail) (x.hmac (x.encode claims)) _ s.sessions
          (both, encode-Names sound claims) h.sessions;
  }

  pub revoke_session-Proven :
      (now : ℕ) (token : String) (s : Server)
      → Proven x c s
      → Proven x c (revoke_session x c now token s).1
  unfolding revoke_session
  revoke_session-Proven now token s h = record {
    totp_pending = h.totp_pending;
    totp_setup = h.totp_setup;
    sessions =
        put-TableHolds (SessionHolds x c s.trail) (x.hmac token) none s.sessions tt h.sessions;
  }

  pub revoke_user_sessions-Proven :
      (u : ℕ) (keep : Option String) (s : Server)
      → Proven x c s
      → Proven x c (revoke_user_sessions x c u keep s)
  unfolding revoke_user_sessions
  revoke_user_sessions-Proven u keep s h = record {
    sessions = swept-TableHolds (SessionHolds x c s.trail) u _ s.sessions h.sessions;
    totp_pending =
        swept-TableHolds (λ _. PassedFirst x c s.trail) u none s.totp_pending h.totp_pending;
    totp_setup = swept-TableHolds (λ _. PassedFirst x c s.trail) u none s.totp_setup h.totp_setup;
  }

  pub consume_totp_pending-Proven :
      (now : ℕ) (token : String) (s : Server)
      → Proven x c s
      → Proven x c (consume_totp_pending x c now token s).1
  unfolding consume_totp_pending
  consume_totp_pending-Proven now token s h = record {
    sessions = h.sessions;
    totp_setup = h.totp_setup;
    totp_pending =
        put-TableHolds (λ _. PassedFirst x c s.trail) (x.hmac token) none s.totp_pending tt
          h.totp_pending;
  }

  pub consume_totp_pending-first :
      (now u : ℕ) (token : String) (s : Server)
      → Proven x c s
      → (consume_totp_pending x c now token s).0 ≡ some u
      → PassedFirst x c s.trail u
  unfolding consume_totp_pending
  consume_totp_pending-first now u token s h e =
      entry_at-holds (PassedFirst x c s.trail) now u _ (h.totp_pending (x.hmac token)) e

  pub consume_totp_setup_pending-Proven :
      (now : ℕ) (token : String) (s : Server)
      → Proven x c s
      → Proven x c (consume_totp_setup_pending x c now token s).1
  unfolding consume_totp_setup_pending
  consume_totp_setup_pending-Proven now token s h = record {
    sessions = h.sessions;
    totp_pending = h.totp_pending;
    totp_setup =
        put-TableHolds (λ _. PassedFirst x c s.trail) (x.hmac token) none s.totp_setup tt
          h.totp_setup;
  }

  pub consume_totp_setup_pending-first :
      (now u : ℕ) (token : String) (s : Server)
      → Proven x c s
      → (consume_totp_setup_pending x c now token s).0 ≡ some u
      → PassedFirst x c s.trail u
  unfolding consume_totp_setup_pending
  consume_totp_setup_pending-first now u token s h e =
      entry_at-holds (PassedFirst x c s.trail) now u _ (h.totp_setup (x.hmac token)) e

  pub consume_totp-Proven :
      (now u : ℕ) (secret digits : String) (s : Server)
      → Proven x c s
      → Proven x c (consume_totp x c now u secret digits s).1
  unfolding consume_totp
  consume_totp-Proven now u secret digits s h =
      if-holds (λ (r : Bool × Server). Proven x c r.1) _ _ _
        (λ _.
          IsProven-more x c s.sessions s.totp_pending s.totp_setup
            (code u (s.identities u) digits now) s.trail h)
        (λ _. h)

  -- A code that is accepted is the account's second factor, and no first one is forgotten.
  pub consume_totp-second :
      (now u : ℕ) (digits : String) (s : Server)
      → PassedFirst x c s.trail u
      → (consume_totp x c now u (s.identities u).totp_secret digits s).0 ≡ true
      → PassedBoth x c (consume_totp x c now u (s.identities u).totp_secret digits s).1.trail u
  unfolding consume_totp verify_totp
  consume_totp-second now u digits s first =
      let secret = (s.identities u).totp_secret in
      if-holds (λ (r : Bool × Server). r.0 ≡ true → PassedBoth x c r.1.trail u)
        (verify_totp x c now secret digits && not (is_used x c now (s.used_codes u digits)))
        (true, use_code x c now u digits s) (false, s)
        (λ e _. (older first, newest (by_code (ground (arith, e)))))
        (λ _ e. absurd (ground (arith, e)))

  pub consume_totp-first :
      (now u v : ℕ) (secret digits : String) (s : Server)
      → PassedFirst x c s.trail v
      → PassedFirst x c (consume_totp x c now u secret digits s).1.trail v
  unfolding consume_totp
  consume_totp-first now u v secret digits s first =
      if-holds (λ (r : Bool × Server). PassedFirst x c r.1.trail v)
        (verify_totp x c now secret digits && not (is_used x c now (s.used_codes u digits)))
        (true, use_code x c now u digits s) (false, s) (λ _. older first) (λ _. first)
