-- ===== src/SignIn/Storing.antt =====
-- The first two commands of a refresh keep what holds after a sweep.
use open_whistle.Base.{ℕ, String, ◌≡◌, sym, ap, ◌∙◌, ◌≢◌, ◌⊎◌, inl, inr, none, some, arith, keep}
use open_whistle.SignIn.Sweep.{idle, checked, stored, Origin, World, update, IsFresh, Descends}
use mathlib.Core.Path.{subst}
use open_whistle.SignIn.{Entry, Config, Outside, store_session}
use open_whistle.SignIn.Factors.{IsSound}
use open_whistle.SignIn.Sessions.{
  update-cases, update-here, update-keep, idle-stored, checked-stored, stored-old, stored-new,
  HasSession, store_session-HasSession, store_session-theirs, store_session-own,
}

module _ (x : Outside) (c : Config) (user_id : ℕ) (sound : IsSound x) where
  -- Every session descends, or is the new one of a refresh under way; a refresh is of a token that a
  -- browser has, and its new token is its own and nobody's yet.
  pub record IsSwept (keep : String) (w : World) : Type 0 where
    pub sessions :
        (token : String)
        → HasSession x c user_id sound w.server token
        → Descends w.origin keep token
          ⊎ ((i : ℕ) × (old : String) × (w.refreshes i ≡ stored old token))
    pub theirs :
        (token : String) (e : Entry)
        → w.origin token ≢ none
        → w.server.sessions (x.hmac token) ≡ some e
        → e.user ≡ user_id
    pub stored_theirs :
        (i : ℕ) (old token : String) (e : Entry)
        → w.refreshes i ≡ stored old token
        → w.server.sessions (x.hmac token) ≡ some e
        → e.user ≡ user_id
    pub checked_issued : (i : ℕ) (old : String) → w.refreshes i ≡ checked old → w.origin old ≢ none
    pub stored_issued :
        (i : ℕ) (old token : String) → w.refreshes i ≡ stored old token → w.origin old ≢ none
    pub unissued :
        (i : ℕ) (old token : String) → w.refreshes i ≡ stored old token → w.origin token ≡ none
    pub apart :
        (i j : ℕ) (old old' token : String)
        → w.refreshes i ≡ stored old token
        → w.refreshes j ≡ stored old' token
        → i ≡ j

  pub checks-IsSwept :
      (keep : String) (w : World) (i : ℕ) (token : String) {o : Origin}
      → w.refreshes i ≡ idle
      → w.origin token ≡ some o
      → IsSwept keep w
      → IsSwept keep (record w { refreshes = update w.refreshes i (checked token) })
  checks-IsSwept keep w i token at issued h =
      let earlier : (j : ℕ) (old t : String)
          → update w.refreshes i (checked token) j ≡ stored old t
          → w.refreshes j ≡ stored old t =
        λ j old t e. elim (update-cases w.refreshes i j (checked token) (stored old t) e) [
          | inl (_, e) ↦ absurd (checked-stored token old t e)
          | inr e ↦ e
        ] in
      record {
        sessions = λ t has. elim (h.sessions t has) [
          | inl d ↦ inl d
          | inr (j, old, e) ↦ inr (
            j,
            old,
            update-keep w.refreshes i j (checked token) (stored old t) e
                (λ e'. idle-stored old t (sym at ∙ e')),
          )
        ];
        theirs = h.theirs;
        stored_theirs = λ j old t e under_way found.
            h.stored_theirs j old t e (earlier j old t under_way) found;
        checked_issued = λ j old e.
            elim (update-cases w.refreshes i j (checked token) (checked old) e) [
              | inl (_, e) ↦ λ none_issued. absurd (ground (arith, issued, none_issued, e))
              | inr e ↦ h.checked_issued j old e
            ];
        stored_issued = λ j old t e. h.stored_issued j old t (earlier j old t e);
        unissued = λ j old t e. h.unissued j old t (earlier j old t e);
        apart =
            λ j k old old' t e e'. h.apart j k old old' t (earlier j old t e) (earlier k old' t e');
      }

  pub stores-IsSwept :
      (keep : String) (w : World) (i now : ℕ) (old token : String)
      → w.refreshes i ≡ checked old
      → IsFresh w token
      → IsSwept keep w
      → IsSwept keep (record w {
        server = store_session x c now user_id token w.server;
        refreshes = update w.refreshes i (stored old token);
      })
  stores-IsSwept keep w i now old token at fresh h = record {
    sessions = λ t has. elim (store_session-HasSession x c user_id sound now token t w.server has) [
      | inl same ↦ inr (
        i,
        old,
        update-here w.refreshes i (stored old token) (stored old t) (ap (stored old) (sym same)),
      )
      | inr has ↦ elim (h.sessions t has) [
        | inl d ↦ inl d
        | inr (j, old', e) ↦ inr (
          j,
          old',
          update-keep w.refreshes i j (stored old token) (stored old' t) e
              (λ e'. checked-stored old old' t (sym at ∙ e')),
        )
      ]
    ];
    theirs = λ t e issued at_t.
        store_session-theirs x c user_id sound now token t w.server e (h.theirs t e issued) at_t;
    stored_theirs = λ j o t e under_way found.
        elim (update-cases w.refreshes i j (stored old token) (stored o t) under_way) [
          | inl (_, same) ↦ store_session-own x c user_id sound now token w.server e (
              subst
                (λ q. (store_session x c now user_id token w.server).sessions (x.hmac q) ≡ some e)
                (sym (stored-new same)) found)
          | inr under_way ↦
              store_session-theirs x c user_id sound now token t w.server e
                (h.stored_theirs j o t e under_way) found
        ];
    checked_issued = λ j o e. elim (update-cases w.refreshes i j (stored old token) (checked o) e) [
      | inl (_, e) ↦ absurd (checked-stored o old token (sym e))
      | inr e ↦ h.checked_issued j o e
    ];
    stored_issued = λ j o t e.
        elim (update-cases w.refreshes i j (stored old token) (stored o t) e) [
          | inl (_, e) ↦ subst (λ q. w.origin q ≢ none) (stored-old e) (h.checked_issued i old at)
          | inr e ↦ h.stored_issued j o t e
        ];
    unissued = λ j o t e. elim (update-cases w.refreshes i j (stored old token) (stored o t) e) [
      | inl (_, e) ↦ ap w.origin (sym (stored-new e)) ∙ fresh.issued
      | inr e ↦ h.unissued j o t e
    ];
    apart = λ j k o o' t e e'.
        elim (update-cases w.refreshes i j (stored old token) (stored o t) e) [
          | inl (ji, e) ↦ elim (update-cases w.refreshes i k (stored old token) (stored o' t) e') [
            | inl (ki, _) ↦ ji ∙ sym ki
            | inr e' ↦ absurd (fresh.stored k o' (e' ∙ ap (stored o') (sym (stored-new e))))
          ]
          | inr e ↦ elim (update-cases w.refreshes i k (stored old token) (stored o' t) e') [
            | inl (_, e') ↦ absurd (fresh.stored j o (e ∙ ap (stored o) (sym (stored-new e'))))
            | inr e' ↦ h.apart j k o o' t e e'
          ]
        ];
  }
