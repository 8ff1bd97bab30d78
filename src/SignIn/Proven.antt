-- ===== src/SignIn/Proven.antt =====
-- Every request keeps it: no session without both factors.
use open_whistle.Base.{
  refl, ap, none, Option, false, ℕ, String, ◌≡◌, sym, inl, inr, Bool, true, not, ◌&&◌, ◌||◌, some,
  arith, ◌==◌, if◌then◌else◌, ==→eq, ==-refl, Option-cases, find, find_sound, if-holds,
}
use text.Mathlib.TextEquality.{eq_iff}
use open_whistle.SignIn.Factors.{
  IsFirst, IsSecond, newest, older, by_password, by_directory, by_demo_code, SessionHolds, Safe,
  IsSound, PassedFirst, PassedBoth, TableHolds, Proven, IsProven-more, store_totp_pending-Proven,
  store_totp_setup_pending-Proven, store_session-Proven, consume_totp_pending-Proven,
  consume_totp_pending-first, consume_totp-Proven, consume_totp-second, consume_totp-first,
}
use mathlib.Core.Path.{subst}
use text.Mathlib.Text.{◌==◌ as str_eq}
use open_whistle.Base.Text.{strip, is_empty}
use open_whistle.Models.{User, Db, AuditAction, get_user}
use open_whistle.RateLimit.{claim_admin_attempt}
use open_whistle.SignIn.{
  Server, Config, Outside, password, directory, demo_code, create_access_token,
  consume_totp_pending, consume_totp, verify_password, verify_demo_totp,
}
use open_whistle.SignIn.Routes.{
  Drawn, proved, second_factor, password_failed, start_session, provision, login_local,
  login_directory, login_post, check_code, check_login_code, login_mfa_post, released,
  with_counters,
}

pub get_user-id : (db : Db) (id : ℕ) (user : User) → get_user db id ≡ some user → user.id ≡ id
unfolding get_user
get_user-id db id user h = ==→eq user.id id (find_sound (λ (u : User). u.id == id) db.users user h)

module _ (x : Outside) (c : Config) (sound : IsSound x) where
  pub second_factor-Safe :
      (now : ℕ) (token : String) (user : User) (s : Server)
      → PassedFirst x c s.trail user.id
      → Proven x c s
      → Safe x c (second_factor x c now token user s)
  unfolding second_factor
  second_factor-Safe now token user s first h =
      if-holds (Safe x c) (not user.is_active) _ _ (λ _. h)
        (λ _.
          if-holds (Safe x c) (not user.totp_enabled) _ _
            (λ _. store_totp_setup_pending-Proven x c now token user.id s first h)
            (λ _. store_totp_pending-Proven x c now token user.id s first h))

  password_failed-Proven :
      (now : ℕ) (s : Server) → Proven x c s → Proven x c (password_failed x c now s)
  unfolding password_failed
  password_failed-Proven now s h = h

  pub start_session-Safe :
      (now : ℕ) (jti : String) (user : User) (action : AuditAction) (s : Server)
      → PassedBoth x c s.trail user.id
      → Proven x c s
      → Safe x c (start_session x c now jti user action s)
  unfolding start_session
  start_session-Safe now jti user action s both h =
      if-holds (Safe x c) (not user.is_active) _ _ (λ _. h)
        (λ _.
          store_session-Proven x c now (create_access_token x c now user.id jti none) s sound both
            h)

  provision-same :
      (drawn : Drawn) (name : String) (s s' : Server) (user : User)
      → provision x c drawn name s ≡ some (user, s')
      → (s'.sessions ≡ s.sessions)
        × (s'.totp_pending ≡ s.totp_pending)
        × (s'.totp_setup ≡ s.totp_setup)
        × (s'.trail ≡ s.trail)
  unfolding provision
  provision-same drawn name s s' user e = ground (arith, e)

  provision-Proven :
      (drawn : Drawn) (name : String) (s s' : Server) (user : User)
      → Proven x c s
      → provision x c drawn name s ≡ some (user, s')
      → Proven x c s'
  provision-Proven drawn name s s' user h e =
      let (a, b, d, t) = provision-same drawn name s s' user e in
      record {
        sessions =
            subst (λ f. TableHolds (SessionHolds x c f) s'.sessions) (sym t)
              (subst (TableHolds (SessionHolds x c s.trail)) (sym a) h.sessions);
        totp_pending =
            subst (λ f. TableHolds (λ _. PassedFirst x c f) s'.totp_pending) (sym t)
              (subst (TableHolds (λ _. PassedFirst x c s.trail)) (sym b) h.totp_pending);
        totp_setup =
            subst (λ f. TableHolds (λ _. PassedFirst x c f) s'.totp_setup) (sym t)
              (subst (TableHolds (λ _. PassedFirst x c s.trail)) (sym d) h.totp_setup);
      }

  named :
      (o : Option String) (name : String)
      → (elim o [ none ↦ false | some n ↦ str_eq n name ]) ≡ true
      → o ≡ some name
  named none name h = absurd (ground (arith, h))
  named (some n) name h = ap some ((eq_iff n name).0 h)

  provision-named :
      (drawn : Drawn) (name : String) (s s' : Server) (user : User)
      → provision x c drawn name s ≡ some (user, s')
      → (s'.identities user.id).ldap_username ≡ some name
  unfolding provision
  provision-named drawn name s s' user e =
      let mine : User → Bool =
        λ u. elim (s.identities u.id).ldap_username [ none ↦ false | some n ↦ str_eq n name ] in
      elim (Option-cases (find mine s.db.users)) [
        | inl none_yet ↦ ground (arith, none_yet, e, ==-refl drawn.user_id)
        | inr (u, found) ↦ ground (
          arith,
          found,
          e,
          named (s.identities u.id).ldap_username name (find_sound mine s.db.users u found),
        )
      ]

  login_directory-Safe :
      (now : ℕ) (drawn : Drawn) (username plain name : String) (s : Server)
      → c.ldap_enabled ≡ true
      → x.authenticate_ldap username plain ≡ some name
      → Proven x c s
      → Safe x c (login_directory x c now drawn username plain name s)
  unfolding login_directory released
  login_directory-Safe now drawn username plain name s on bound h =
      elim (Option-cases (provision x c drawn name s)) [
        | inl e ↦ rw (e, login_directory) (password_failed-Proven now s h)
        | inr ((user, s'), e) ↦
            rw (e, login_directory)
              (second_factor-Safe now drawn.token user
                (released x c now username
                  (proved (directory user.id (s'.identities user.id) username plain) s'))
                (newest (by_directory on bound (provision-named drawn name s s' user e)))
                (IsProven-more x c s'.sessions s'.totp_pending s'.totp_setup
                  (directory user.id (s'.identities user.id) username plain) s'.trail
                  (provision-Proven drawn name s s' user h e)))
      ]

  accepted :
      (user : User) (plain hash : String)
      → user.password_hash ≡ some hash
      → verify_password x c plain hash ≡ true
      → IsFirst x c user.id (password user plain)
  unfolding verify_password
  accepted user plain hash stored passed =
      by_password refl stored (ground (arith, passed)) (ground (arith, passed))

  login_local-Safe :
      (now : ℕ) (drawn : Drawn) (username plain : String) (s : Server)
      → Proven x c s
      → Safe x c (login_local x c now drawn username plain s)
  unfolding login_local released
  login_local-Safe now drawn username plain s h =
      elim (Option-cases (find (λ (u : User). str_eq u.username username) s.db.users)) [
        | inl e ↦ rw (e, login_local) (password_failed-Proven now s h)
        | inr (user, e) ↦
            rw (e, login_local)
              (elim (Option-cases user.password_hash) [
                | inl e' ↦ rw (e', login_local) (password_failed-Proven now s h)
                | inr (hash, e') ↦
                    rw (e', login_local)
                      (if-holds (Safe x c) (is_empty hash || not (verify_password x c plain hash)) _
                        _ (λ _. password_failed-Proven now s h)
                        (λ passed.
                          second_factor-Safe now drawn.token user
                            (released x c now username (proved (password user plain) s))
                            (newest (accepted user plain hash e' (ground (arith, passed))))
                            (IsProven-more x c s.sessions s.totp_pending s.totp_setup
                              (password user plain) s.trail h)))
              ])
      ]

  bound-Safe :
      (now : ℕ) (drawn : Drawn) (username plain : String) (bound : Option String) (s : Server)
      → ((name : String)
          → bound ≡ some name
          → (c.ldap_enabled ≡ true) × (x.authenticate_ldap username plain ≡ some name))
      → Proven x c s
      → Safe x c (elim bound [
        | some name ↦ login_directory x c now drawn username plain name s
        | none ↦ login_local x c now drawn username plain s
      ])
  bound-Safe now drawn username plain (some name) s why h =
      let (on, answered) = why name refl in
      login_directory-Safe now drawn username plain name s on answered h
  bound-Safe now drawn username plain none s why h = login_local-Safe now drawn username plain s h

  pub login_post-Safe :
      (now : ℕ) (drawn : Drawn) (username plain : String) (s : Server)
      → Proven x c s
      → Safe x c (login_post x c now drawn username plain s)
  unfolding login_post
  login_post-Safe now drawn username plain s h =
      let counters =
        (claim_admin_attempt c.max_login_attempts c.login_lockout_minutes x.casefold now username
          s.counters).1 in
      if-holds (Safe x c) (is_empty (strip username) || is_empty plain) _ _ (λ _. h)
        (λ _.
          if-holds (Safe x c)
            (not
              (claim_admin_attempt c.max_login_attempts c.login_lockout_minutes x.casefold now
                username s.counters).0)
            _ _ (λ _. h)
            (λ _.
              bound-Safe now drawn username plain
                (if c.ldap_enabled then x.authenticate_ldap username plain else none)
                (with_counters s counters) (λ name e. ground (arith, e)) h))

  check_code-Proven :
      (now : ℕ) (user : User) (digits : String) (s : Server)
      → Proven x c s
      → Proven x c (check_code x c now user digits s).1
  unfolding check_code
  check_code-Proven now user digits s h =
      if-holds (λ (r : Bool × Server). Proven x c r.1)
        (c.settings.demo_mode
          && verify_demo_totp x c digits user.username (s.identities user.id).totp_secret)
        (true, proved (demo_code user digits) s)
        (consume_totp x c now user.id (s.identities user.id).totp_secret digits s)
        (λ _.
          IsProven-more x c s.sessions s.totp_pending s.totp_setup (demo_code user digits) s.trail
            h)
        (λ _. consume_totp-Proven x c now user.id _ digits s h)

  check_code-first :
      (now : ℕ) (user : User) (digits : String) (s : Server)
      → PassedFirst x c s.trail user.id
      → PassedFirst x c (check_code x c now user digits s).1.trail user.id
  unfolding check_code
  check_code-first now user digits s first =
      if-holds (λ (r : Bool × Server). PassedFirst x c r.1.trail user.id)
        (c.settings.demo_mode
          && verify_demo_totp x c digits user.username (s.identities user.id).totp_secret)
        (true, proved (demo_code user digits) s)
        (consume_totp x c now user.id (s.identities user.id).totp_secret digits s)
        (λ _. older first) (λ _. consume_totp-first x c now user.id user.id _ digits s first)

  demo_accepted :
      (user : User) (digits secret : String)
      → (c.settings.demo_mode && verify_demo_totp x c digits user.username secret) ≡ true
      → IsSecond x c user.id (demo_code user digits)
  unfolding verify_demo_totp
  demo_accepted user digits secret passed =
      by_demo_code refl (ground (arith, passed)) (ground (arith, passed)) (ground (arith, passed))

  check_code-second :
      (now : ℕ) (user : User) (digits : String) (s : Server)
      → PassedFirst x c s.trail user.id
      → (check_code x c now user digits s).0 ≡ true
      → PassedBoth x c (check_code x c now user digits s).1.trail user.id
  unfolding check_code
  check_code-second now user digits s first =
      if-holds (λ (r : Bool × Server). r.0 ≡ true → PassedBoth x c r.1.trail user.id)
        (c.settings.demo_mode
          && verify_demo_totp x c digits user.username (s.identities user.id).totp_secret)
        (true, proved (demo_code user digits) s)
        (consume_totp x c now user.id (s.identities user.id).totp_secret digits s)
        (λ demo _. (older first, newest (demo_accepted user digits _ demo)))
        (λ _ e. consume_totp-second x c now user.id digits s first e)

  check_login_code-Safe :
      (now : ℕ) (jti : String) (drawn : Drawn) (digits : String) (user : User) (s : Server)
      → PassedFirst x c s.trail user.id
      → Proven x c s
      → Safe x c (check_login_code x c now jti drawn digits user s)
  unfolding check_login_code
  check_login_code-Safe now jti drawn digits user s first h =
      let counted =
        with_counters s
          (claim_admin_attempt c.max_login_attempts c.login_lockout_minutes x.casefold now
            user.username s.counters).1 in
      let checked = (check_code x c now user digits counted).1 in
      if-holds (Safe x c)
        (not
          (claim_admin_attempt c.max_login_attempts c.login_lockout_minutes x.casefold now
            user.username s.counters).0)
        _ _ (λ _. h)
        (λ _.
          if-holds (Safe x c) (not (check_code x c now user digits counted).0) _ _
            (λ _.
              store_totp_pending-Proven x c now drawn.token user.id checked
                (check_code-first now user digits counted first)
                (check_code-Proven now user digits counted h))
            (λ e.
              start_session-Safe now jti user AuditAction.auth_login (with_counters checked _)
                (check_code-second now user digits counted first (ground (arith, e)))
                (check_code-Proven now user digits counted h)))

  pub login_mfa_post-Safe :
      (now : ℕ) (jti : String) (drawn : Drawn) (digits temp_token : String) (s : Server)
      → Proven x c s
      → Safe x c (login_mfa_post x c now jti drawn digits temp_token s)
  unfolding login_mfa_post
  login_mfa_post-Safe now jti drawn digits temp_token s h =
      let taken = (consume_totp_pending x c now temp_token s).1 in
      elim (Option-cases (consume_totp_pending x c now temp_token s).0) [
        | inl e ↦ rw (e, login_mfa_post) (consume_totp_pending-Proven x c now temp_token s h)
        | inr (id, e) ↦
            rw (e, login_mfa_post)
              (elim (Option-cases (get_user taken.db id)) [
                | inl e' ↦
                    rw (e', login_mfa_post) (consume_totp_pending-Proven x c now temp_token s h)
                | inr (user, e') ↦
                    rw (e', login_mfa_post)
                      (check_login_code-Safe now jti drawn digits user taken
                        (subst (PassedFirst x c s.trail) (sym (get_user-id taken.db id user e'))
                          (consume_totp_pending-first x c now id temp_token s h e))
                        (consume_totp_pending-Proven x c now temp_token s h))
              ])
      ]
