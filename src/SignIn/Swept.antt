-- ===== src/SignIn/Swept.antt =====
-- After the sweep of a password change, every session of the account that a browser has descends from
-- the one that changed it, or from a later sign-in.
use open_whistle.Base.{
  ℕ, String, ◌≡◌, sym, ap, ◌∙◌, ◌≢◌, inl, inr, Bool, true, false, not, ◌&&◌, Option, none, some,
  arith, ◌==◌, ==-refl, keep, some_inj, if-either,
}
use open_whistle.SignIn.Sweep.{checked, stored, Origin, World, Later, Descends, kept}
use text.Mathlib.Text.{◌==◌ as str_eq}
use mathlib.Core.Path.{subst}
use text.Mathlib.TextEquality.{eq_iff}
use open_whistle.SignIn.{swept, revoke_user_sessions, Entry, Server, Config, Outside}
use open_whistle.SignIn.Factors.{IsSound}
use open_whistle.SignIn.Sessions.{HasSession}
use open_whistle.SignIn.Storing.{IsSwept}
use open_whistle.SignIn.Renewal.{Later-IsSwept}

module _ (x : Outside) (c : Config) (user_id : ℕ) (sound : IsSound x) where
  -- The refreshes under way are as refreshes are, and every token was issued before.
  pub record IsOrderly (w : World) : Type 0 where
    pub origins : (token : String) (o : Origin) → w.origin token ≡ some o → o ≡ Origin.before
    pub theirs :
        (token : String) (e : Entry)
        → w.origin token ≢ none
        → w.server.sessions (x.hmac token) ≡ some e
        → e.user ≡ user_id
    pub stored_theirs :
        (i : ℕ) (old token : String) (e : Entry)
        → w.refreshes i ≡ stored old token
        → w.server.sessions (x.hmac token) ≡ some e
        → e.user ≡ user_id
    pub checked_issued : (i : ℕ) (old : String) → w.refreshes i ≡ checked old → w.origin old ≢ none
    pub stored_issued :
        (i : ℕ) (old token : String) → w.refreshes i ≡ stored old token → w.origin old ≢ none
    pub unissued :
        (i : ℕ) (old token : String) → w.refreshes i ≡ stored old token → w.origin token ≡ none
    pub apart :
        (i j : ℕ) (old old' token : String)
        → w.refreshes i ≡ stored old token
        → w.refreshes j ≡ stored old' token
        → i ≡ j

  is_kept :
      (o : Option Entry) (e : Entry) (same : Bool)
      → o ≡ some e
      → e.user ≡ user_id
      → ((elim o [ none ↦ false | some e ↦ e.user == user_id ]) && not same) ≡ false
      → same ≡ true
  is_kept none e same h u stays = ground (arith, h)
  is_kept (some e') e same h u stays =
      let theirs : (e'.user == user_id) ≡ true =
        subst (λ n. (n == user_id) ≡ true) (sym (ap (λ r. r.user) (some_inj h) ∙ u))
          (==-refl user_id) in
      ground (arith, stays, theirs)

  swept-HasSession :
      (keep t : String) (s : Server)
      → HasSession x c user_id sound (revoke_user_sessions x c user_id (some keep) s) t
      → t ≡ keep
  unfolding revoke_user_sessions swept
  swept-HasSession keep t s (e, h, u) = elim (if-either _ none (s.sessions (x.hmac t)) (some e) h) [
    | inl (_, h) ↦ absurd (ground (arith, h))
    | inr (stays, found) ↦ sound.hmac t keep (
        (eq_iff (x.hmac t) (x.hmac keep)).0
          (is_kept (s.sessions (x.hmac t)) e (str_eq (x.hmac t) (x.hmac keep)) found u stays))
  ]

  swept-entry :
      (keep t : String) (s : Server) (e : Entry)
      → (revoke_user_sessions x c user_id (some keep) s).sessions (x.hmac t) ≡ some e
      → s.sessions (x.hmac t) ≡ some e
  unfolding revoke_user_sessions swept
  swept-entry keep t s e h = elim (if-either _ none (s.sessions (x.hmac t)) (some e) h) [
    | inl (_, h) ↦ absurd (ground (arith, h))
    | inr (_, h) ↦ h
  ]

  abbrev pub after_sweep : String → World → World
  after_sweep keep w = record w { server = revoke_user_sessions x c user_id (some keep) w.server }

  after_sweep-IsSwept :
      (keep : String) (w : World)
      → IsOrderly w
      → IsSwept x c user_id sound keep (after_sweep keep w)
  after_sweep-IsSwept keep w h = record {
    sessions = λ t has.
        inl (subst (Descends w.origin keep) (sym (swept-HasSession keep t w.server has)) kept);
    theirs = λ t e issued found. h.theirs t e issued (swept-entry keep t w.server e found);
    stored_theirs =
        λ i o t e at found. h.stored_theirs i o t e at (swept-entry keep t w.server e found);
    checked_issued = h.checked_issued;
    stored_issued = h.stored_issued;
    unissued = h.unissued;
    apart = h.apart;
  }

  -- When the sessions of an account but one are swept, while refreshes are under way that hold
  -- tokens as refreshes do: in every later state, a token that a browser was given and that has a
  -- session of the account is the kept one, comes from a sign-in after the sweep, or was renewed
  -- from such a token. HMAC is taken to be injective.
  pub revoke_user_sessions-Descends :
      {w' : World} (keep token : String) (w : World)
      → IsOrderly w
      → Later x c user_id (after_sweep keep w) w'
      → w'.origin token ≢ none
      → HasSession x c user_id sound w'.server token
      → Descends w'.origin keep token
  revoke_user_sessions-Descends keep token w orderly later issued has =
      let h = Later-IsSwept x c user_id sound keep later (after_sweep-IsSwept keep w orderly) in
      elim (h.sessions token has) [
        | inl d ↦ d
        | inr (i, old, under_way) ↦ absurd (issued (h.unissued i old token under_way))
      ]
