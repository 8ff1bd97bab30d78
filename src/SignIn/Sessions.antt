-- ===== src/SignIn/Sessions.antt =====
-- The keys of sessions under the commands of a refresh, and the refreshes under way.
use open_whistle.Base.{
  ℕ, String, ◌≡◌, refl, sym, ap, ◌∙◌, ◌≢◌, ◌⊎◌, inl, inr, Option, none, some, arith, ◌==◌, ==→eq,
  ==-refl, Option-cases, some_inj, if-either, if-holds,
}
use open_whistle.SignIn.Sweep.{Refresh, idle, checked, stored, Origin, update, issue}
use text.Mathlib.Text.{◌==◌ as str_eq}
use text.Mathlib.TextEquality.{eq_iff}
use open_whistle.SignIn.{
  Entry, entry_at, Server, Config, Outside, store_session, validate_session, revoke_session,
}
use open_whistle.SignIn.Routes.{Page, Answer}
use open_whistle.SignIn.Account.{finish_refresh}
use open_whistle.SignIn.Factors.{IsSound}

pub update-cases :
    (r : ℕ → Refresh) (i j : ℕ) (v z : Refresh)
    → update r i v j ≡ z
    → ((j ≡ i) × (v ≡ z)) ⊎ (r j ≡ z)
update-cases r i j v z h = elim (if-either (j == i) v (r j) z h) [
  | inl (e, same) ↦ inl (==→eq j i e, same)
  | inr (_, same) ↦ inr same
]

pub update-here : (r : ℕ → Refresh) (i : ℕ) (v z : Refresh) → v ≡ z → update r i v i ≡ z
update-here r i v z e =
    if-holds (λ q. q ≡ z) (i == i) v (r i) (λ _. e)
      (λ other. absurd (ground (arith, other, ==-refl i)))

pub update-keep :
    (r : ℕ → Refresh) (i j : ℕ) (v z : Refresh) → r j ≡ z → r i ≢ z → update r i v j ≡ z
update-keep r i j v z h other =
    if-holds (λ q. q ≡ z) (j == i) v (r j) (λ e. absurd (other (ap r (sym (==→eq j i e)) ∙ h)))
      (λ _. h)

pub idle-stored : (old token : String) → idle ≢ stored old token
idle-stored old token e = ground (arith, e)

pub checked-stored : (t old token : String) → checked t ≢ stored old token
checked-stored t old token e = ground (arith, e)

pub stored-old : {a b t u : String} → stored a t ≡ stored b u → a ≡ b
stored-old e = ground (arith, e)

pub stored-new : {a b t u : String} → stored a t ≡ stored b u → t ≡ u
stored-new e = ground (arith, e)

pub issue-some :
    (origin : String → Option Origin) (token t : String) (o : Origin)
    → origin t ≢ none
    → issue token o origin t ≢ none
issue-some origin token t o h e = h (elim (if-either (str_eq t token) (some o) (origin t) none e) [
  | inl (_, e) ↦ absurd (ground (arith, e))
  | inr (_, e) ↦ e
])

pub issue-none :
    (origin : String → Option Origin) (token t : String) (o : Origin)
    → origin t ≡ none
    → t ≢ token
    → issue token o origin t ≡ none
issue-none origin token t o h other =
    if-holds (λ r. r ≡ none) (str_eq t token) (some o) (origin t)
      (λ e. absurd (other ((eq_iff t token).0 e))) (λ _. h)

module _ (x : Outside) (c : Config) (user_id : ℕ) (sound : IsSound x) where
  abbrev pub HasSession : Server → String → Type 0
  HasSession s token = (e : Entry) × (s.sessions (x.hmac token) ≡ some e) × (e.user ≡ user_id)

  pub store_session-HasSession :
      (now : ℕ) (token t : String) (s : Server)
      → HasSession (store_session x c now user_id token s) t
      → (t ≡ token) ⊎ HasSession s t
  unfolding store_session
  store_session-HasSession now token t s (e, h, u) =
      elim (if-either (str_eq (x.hmac t) (x.hmac token)) _ _ _ h) [
        | inl (same, _) ↦ inl (sound.hmac t token ((eq_iff (x.hmac t) (x.hmac token)).0 same))
        | inr (_, h) ↦ inr (e, h, u)
      ]

  pub store_session-theirs :
      (now : ℕ) (token t : String) (s : Server) (e : Entry)
      → (s.sessions (x.hmac t) ≡ some e → e.user ≡ user_id)
      → (store_session x c now user_id token s).sessions (x.hmac t) ≡ some e
      → e.user ≡ user_id
  unfolding store_session
  store_session-theirs now token t s e theirs h =
      elim (if-either (str_eq (x.hmac t) (x.hmac token)) _ _ _ h) [
        | inl (_, same) ↦ ap (λ r. r.user) (sym (some_inj same))
        | inr (_, h) ↦ theirs h
      ]

  pub store_session-own :
      (now : ℕ) (token : String) (s : Server) (e : Entry)
      → (store_session x c now user_id token s).sessions (x.hmac token) ≡ some e
      → e.user ≡ user_id
  unfolding store_session
  store_session-own now token s e h =
      elim (if-either (str_eq (x.hmac token) (x.hmac token)) _ _ _ h) [
        | inl (_, same) ↦ ap (λ r. r.user) (sym (some_inj same))
        | inr (other, _) ↦
            absurd (ground (arith, other, (eq_iff (x.hmac token) (x.hmac token)).1 refl))
      ]

  pub revoke_session-entry :
      (now : ℕ) (token t : String) (s : Server) (e : Entry)
      → (revoke_session x c now token s).1.sessions (x.hmac t) ≡ some e
      → s.sessions (x.hmac t) ≡ some e
  unfolding revoke_session
  revoke_session-entry now token t s e h =
      elim (if-either (str_eq (x.hmac t) (x.hmac token)) _ _ _ h) [
        | inl (_, h) ↦ absurd (ground (arith, h))
        | inr (_, h) ↦ h
      ]

  pub finish_refresh-entry :
      (now : ℕ) (old new_token t : String) (s : Server) (e : Entry)
      → (finish_refresh x c now old new_token s).server.sessions (x.hmac t) ≡ some e
      → s.sessions (x.hmac t) ≡ some e
  unfolding finish_refresh
  finish_refresh-entry now old new_token t s e =
      if-holds
        (λ (p : Page). p.server.sessions (x.hmac t) ≡ some e → s.sessions (x.hmac t) ≡ some e)
        (revoke_session x c now old s).0 _ _ (λ _ h. revoke_session-entry now old t s e h)
        (λ _ h.
          revoke_session-entry now old t s e
            (revoke_session-entry now new_token t (revoke_session x c now old s).1 e h))

  pub revoke_session-HasSession :
      (now : ℕ) (token t : String) (s : Server)
      → HasSession (revoke_session x c now token s).1 t
      → HasSession s t × (t ≢ token)
  unfolding revoke_session
  revoke_session-HasSession now token t s (e, h, u) =
      elim (if-either (str_eq (x.hmac t) (x.hmac token)) _ _ _ h) [
        | inl (_, h) ↦ absurd (ground (arith, h))
        | inr (other, h) ↦ (
          (e, h, u),
          λ same.
              absurd (ground (arith, other, (eq_iff (x.hmac t) (x.hmac token)).1 (ap x.hmac same))),
        )
      ]

  pub finish_refresh-renewed :
      (now : ℕ) (old new_token t : String) (s : Server)
      → (finish_refresh x c now old new_token s).answer ≡ Answer.refreshed new_token
      → HasSession (finish_refresh x c now old new_token s).server t
      → HasSession s t
  unfolding finish_refresh
  finish_refresh-renewed now old new_token t s =
      if-holds
        (λ (p : Page).
          p.answer ≡ Answer.refreshed new_token → HasSession p.server t → HasSession s t)
        (revoke_session x c now old s).0 _ _ (λ _ _ h. (revoke_session-HasSession now old t s h).0)
        (λ _ refused h. absurd (ground (arith, refused)))

  -- A refresh that renews found a session under the old token.
  pub finish_refresh-found :
      (now : ℕ) (old new_token : String) (s : Server)
      → (finish_refresh x c now old new_token s).answer ≡ Answer.refreshed new_token
      → (e : Entry) × (s.sessions (x.hmac old) ≡ some e)
  unfolding finish_refresh revoke_session validate_session entry_at
  finish_refresh-found now old new_token s h = elim (Option-cases (s.sessions (x.hmac old))) [
    | inl e ↦ absurd (ground (arith, h, e))
    | inr found ↦ found
  ]

  pub finish_refresh-failed :
      (now : ℕ) (old new_token t : String) (s : Server)
      → (finish_refresh x c now old new_token s).answer ≡ Answer.refused 401
      → HasSession (finish_refresh x c now old new_token s).server t
      → HasSession s t × (t ≢ new_token)
  unfolding finish_refresh
  finish_refresh-failed now old new_token t s =
      if-holds
        (λ (p : Page).
          p.answer ≡ Answer.refused 401 → HasSession p.server t → HasSession s t × (t ≢ new_token))
        (revoke_session x c now old s).0 _ _ (λ _ ok h. absurd (ground (arith, ok)))
        (λ _ _ h.
          let (h, other) =
            revoke_session-HasSession now new_token t (revoke_session x c now old s).1 h in
          ((revoke_session-HasSession now old t s h).0, other))
