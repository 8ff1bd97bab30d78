-- ===== src/SignIn/Renewal.antt =====
-- The steps of a refresh keep what holds after a sweep.
use open_whistle.Base.{
  ℕ, String, ◌≡◌, refl, sym, ap, ◌∙◌, ◌≢◌, inl, inr, none, some, arith, ◌==◌, ==→eq, Bool-cases,
  keep, if-holds,
}
use open_whistle.SignIn.Sweep.{
  Refresh, idle, checked, stored, sign_in, renewal, World, update, issue, IsFresh, Step, checks,
  stores, renews, fails, signs_in, signs_out, Later, here, then_step, Descends, signed_in, renewed,
  Descends-issue,
}
use text.Mathlib.Text.{◌==◌ as str_eq}
use mathlib.Core.Path.{subst}
use text.Mathlib.TextEquality.{eq_iff}
use open_whistle.SignIn.{Entry, Config, Outside, store_session, revoke_session}
use open_whistle.SignIn.Routes.{Answer}
use open_whistle.SignIn.Account.{finish_refresh}
use open_whistle.SignIn.Factors.{IsSound}
use open_whistle.SignIn.Sessions.{
  update-cases, update-here, idle-stored, stored-new, issue-some, issue-none,
  store_session-HasSession, store_session-theirs, store_session-own, revoke_session-entry,
  finish_refresh-entry, revoke_session-HasSession, finish_refresh-renewed, finish_refresh-found,
  finish_refresh-failed,
}
use open_whistle.SignIn.Storing.{IsSwept, checks-IsSwept, stores-IsSwept}

module _ (x : Outside) (c : Config) (user_id : ℕ) (sound : IsSound x) where
  -- A refresh ends: its place is free, and nothing else changes of the refreshes.
  ended : (r : ℕ → Refresh) (i j : ℕ) (z : Refresh) → idle ≢ z → update r i idle j ≡ z → r j ≡ z
  ended r i j z other e = elim (update-cases r i j idle z e) [
    | inl (_, e) ↦ absurd (other e)
    | inr e ↦ e
  ]

  idle-checked : (old : String) → idle ≢ checked old
  idle-checked old e = ground (arith, e)

  -- The old session of a renewal was there, and no refresh under way stored it.
  renewed_from :
      (keep : String) (w : World) (i now : ℕ) (old token : String)
      → w.refreshes i ≡ stored old token
      → (finish_refresh x c now old token w.server).answer ≡ Answer.refreshed token
      → IsSwept x c user_id sound keep w
      → Descends w.origin keep old
  renewed_from keep w i now old token at answer h =
      let issued = h.stored_issued i old token at in
      let (e, found) = finish_refresh-found x c user_id sound now old token w.server answer in
      elim (h.sessions old (e, found, h.theirs old e issued found)) [
        | inl d ↦ d
        | inr (j, o, under_way) ↦ absurd (issued (h.unissued j o old under_way))
      ]

  renewed_theirs :
      (keep : String) (w : World) (i now : ℕ) (old token t : String) (e : Entry)
      → w.refreshes i ≡ stored old token
      → IsSwept x c user_id sound keep w
      → issue token (renewal old) w.origin t ≢ none
      → w.server.sessions (x.hmac t) ≡ some e
      → e.user ≡ user_id
  renewed_theirs keep w i now old token t e at h issued found = elim (Bool-cases (str_eq t token)) [
    | inl same ↦
        h.stored_theirs i old t e (at ∙ ap (stored old) (sym ((eq_iff t token).0 same))) found
    | inr other ↦
        h.theirs t e
          (λ none_issued. issued (
            if-holds (λ r. r ≡ none) (str_eq t token) (some (renewal old)) (w.origin t)
              (λ same. absurd (ground (arith, same, other))) (λ _. none_issued)))
          found
  ]

  renews-IsSwept :
      (keep : String) (w : World) (i now : ℕ) (old token : String)
      → w.refreshes i ≡ stored old token
      → (finish_refresh x c now old token w.server).answer ≡ Answer.refreshed token
      → IsSwept x c user_id sound keep w
      → IsSwept x c user_id sound keep (record {
        server = (finish_refresh x c now old token w.server).server;
        origin = issue token (renewal old) w.origin;
        refreshes = update w.refreshes i idle;
      })
  renews-IsSwept keep w i now old token at answer h =
      let unissued_token = h.unissued i old token at in
      let old_descends : Descends w.origin keep old =
        renewed_from keep w i now old token at answer h in
      let token_descends : Descends (issue token (renewal old) w.origin) keep token =
        renewed
          (if-holds (λ r. r ≡ some (renewal old)) (str_eq token token) (some (renewal old))
            (w.origin token) (λ _. refl)
            (λ other. absurd (ground (arith, other, (eq_iff token token).1 refl))))
          (Descends-issue token (renewal old) unissued_token old_descends) in
      record {
        sessions = λ t has.
            elim (h.sessions t
              (finish_refresh-renewed x c user_id sound now old token t w.server answer has)) [
                | inl d ↦ inl (Descends-issue token (renewal old) unissued_token d)
                | inr (j, o, e) ↦ elim (Bool-cases (j == i)) [
                  | inl ji ↦ inl (
                      subst (Descends (issue token (renewal old) w.origin) keep)
                        (stored-new (sym at ∙ ap w.refreshes (sym (==→eq j i ji)) ∙ e))
                        token_descends)
                  | inr other ↦ inr (
                    j,
                    o,
                    if-holds (λ q. q ≡ stored o t) (j == i) idle (w.refreshes j)
                        (λ ji. absurd (ground (arith, ji, other))) (λ _. e),
                  )
                ]
              ];
        theirs = λ t e issued at_t.
            renewed_theirs keep w i now old token t e at h issued
              (finish_refresh-entry x c user_id sound now old token t w.server e at_t);
        stored_theirs = λ j o t e under_way found.
            h.stored_theirs j o t e (ended w.refreshes i j (stored o t) (idle-stored o t) under_way)
              (finish_refresh-entry x c user_id sound now old token t w.server e found);
        checked_issued = λ j o e.
            issue-some w.origin token o (renewal old)
              (h.checked_issued j o (ended w.refreshes i j (checked o) (idle-checked o) e));
        stored_issued = λ j o t e.
            issue-some w.origin token o (renewal old)
              (h.stored_issued j o t (ended w.refreshes i j (stored o t) (idle-stored o t) e));
        unissued = λ j o t e.
            let under_way = ended w.refreshes i j (stored o t) (idle-stored o t) e in
            issue-none w.origin token t (renewal old) (h.unissued j o t under_way) (λ same.
              let ij : i ≡ j = h.apart i j old o t (at ∙ ap (stored old) (sym same)) under_way in
              idle-stored o t (
                sym (update-here w.refreshes i idle idle refl)
                ∙ ap (update w.refreshes i idle) ij
                ∙ e));
        apart = λ j k o o' t e e'.
            h.apart j k o o' t (ended w.refreshes i j (stored o t) (idle-stored o t) e)
              (ended w.refreshes i k (stored o' t) (idle-stored o' t) e');
      }

  fails-IsSwept :
      (keep : String) (w : World) (i now : ℕ) (old token : String)
      → w.refreshes i ≡ stored old token
      → (finish_refresh x c now old token w.server).answer ≡ Answer.refused 401
      → IsSwept x c user_id sound keep w
      → IsSwept x c user_id sound keep (record w {
        server = (finish_refresh x c now old token w.server).server;
        refreshes = update w.refreshes i idle;
      })
  fails-IsSwept keep w i now old token at answer h = record {
    sessions = λ t has.
        let (has, other) =
          finish_refresh-failed x c user_id sound now old token t w.server answer has in
        elim (h.sessions t has) [
          | inl d ↦ inl d
          | inr (j, o, e) ↦ elim (Bool-cases (j == i)) [
            | inl ji ↦
                absurd (other (sym (stored-new (sym at ∙ ap w.refreshes (sym (==→eq j i ji)) ∙ e))))
            | inr away ↦ inr (
              j,
              o,
              if-holds (λ q. q ≡ stored o t) (j == i) idle (w.refreshes j)
                  (λ ji. absurd (ground (arith, ji, away))) (λ _. e),
            )
          ]
        ];
    theirs = λ t e issued at_t.
        h.theirs t e issued
          (finish_refresh-entry x c user_id sound now old token t w.server e at_t);
    stored_theirs = λ j o t e under_way found.
        h.stored_theirs j o t e (ended w.refreshes i j (stored o t) (idle-stored o t) under_way)
          (finish_refresh-entry x c user_id sound now old token t w.server e found);
    checked_issued =
        λ j o e. h.checked_issued j o (ended w.refreshes i j (checked o) (idle-checked o) e);
    stored_issued =
        λ j o t e. h.stored_issued j o t (ended w.refreshes i j (stored o t) (idle-stored o t) e);
    unissued = λ j o t e. h.unissued j o t (ended w.refreshes i j (stored o t) (idle-stored o t) e);
    apart = λ j k o o' t e e'.
        h.apart j k o o' t (ended w.refreshes i j (stored o t) (idle-stored o t) e)
          (ended w.refreshes i k (stored o' t) (idle-stored o' t) e');
  }

  signs_in-IsSwept :
      (keep : String) (w : World) (now : ℕ) (token : String)
      → IsFresh w token
      → IsSwept x c user_id sound keep w
      → IsSwept x c user_id sound keep (record w {
        server = store_session x c now user_id token w.server;
        origin = issue token sign_in w.origin;
      })
  signs_in-IsSwept keep w now token fresh h = record {
    sessions = λ t has. elim (store_session-HasSession x c user_id sound now token t w.server has) [
      | inl same ↦ inl (
          signed_in (
            if-holds (λ r. r ≡ some sign_in) (str_eq t token) (some sign_in) (w.origin t)
              (λ _. refl) (λ other. absurd (ground (arith, other, (eq_iff t token).1 same)))))
      | inr has ↦ elim (h.sessions t has) [
        | inl d ↦ inl (Descends-issue token sign_in fresh.issued d)
        | inr under_way ↦ inr under_way
      ]
    ];
    theirs = λ t e issued found. elim (Bool-cases (str_eq t token)) [
      | inl same ↦ store_session-own x c user_id sound now token w.server e (
          subst (λ q. (store_session x c now user_id token w.server).sessions (x.hmac q) ≡ some e)
            ((eq_iff t token).0 same) found)
      | inr other ↦
          store_session-theirs x c user_id sound now token t w.server e
            (h.theirs t e (λ none_issued. issued (
              if-holds (λ r. r ≡ none) (str_eq t token) (some sign_in) (w.origin t)
                (λ same. absurd (ground (arith, same, other))) (λ _. none_issued))))
            found
    ];
    stored_theirs = λ j o t e under_way found.
        store_session-theirs x c user_id sound now token t w.server e
          (h.stored_theirs j o t e under_way) found;
    checked_issued = λ j o e. issue-some w.origin token o sign_in (h.checked_issued j o e);
    stored_issued = λ j o t e. issue-some w.origin token o sign_in (h.stored_issued j o t e);
    unissued = λ j o t e.
        issue-none w.origin token t sign_in (h.unissued j o t e)
          (λ same. fresh.stored j o (e ∙ ap (stored o) same));
    apart = h.apart;
  }

  signs_out-IsSwept :
      (keep : String) (w : World) (now : ℕ) (token : String)
      → IsSwept x c user_id sound keep w
      → IsSwept x c user_id sound keep
          (record w { server = (revoke_session x c now token w.server).1 })
  signs_out-IsSwept keep w now token h = record {
    sessions = λ t has.
        h.sessions t (revoke_session-HasSession x c user_id sound now token t w.server has).0;
    theirs = λ t e issued found.
        h.theirs t e issued (revoke_session-entry x c user_id sound now token t w.server e found);
    stored_theirs = λ j o t e under_way found.
        h.stored_theirs j o t e under_way
          (revoke_session-entry x c user_id sound now token t w.server e found);
    checked_issued = h.checked_issued;
    stored_issued = h.stored_issued;
    unissued = h.unissued;
    apart = h.apart;
  }

  Step-IsSwept :
      {v w : World} (keep : String)
      → Step x c user_id v w
      → IsSwept x c user_id sound keep v
      → IsSwept x c user_id sound keep w
  Step-IsSwept {v} keep (checks i now token at issued live) h =
      checks-IsSwept x c user_id sound keep v i token at issued h
  Step-IsSwept {v} keep (stores {old} {new_token} i now at fresh) h =
      stores-IsSwept x c user_id sound keep v i now old new_token at fresh h
  Step-IsSwept {v} keep (renews {old} {new_token} i now at answer) h =
      renews-IsSwept keep v i now old new_token at answer h
  Step-IsSwept {v} keep (fails {old} {new_token} i now at answer) h =
      fails-IsSwept keep v i now old new_token at answer h
  Step-IsSwept {v} keep (signs_in {token} now fresh) h = signs_in-IsSwept keep v now token fresh h
  Step-IsSwept {v} keep (signs_out now token) h = signs_out-IsSwept keep v now token h

  pub Later-IsSwept :
      {v w : World} (keep : String)
      → Later x c user_id v w
      → IsSwept x c user_id sound keep v
      → IsSwept x c user_id sound keep w
  Later-IsSwept keep here h = h
  Later-IsSwept keep (then_step earlier step) h =
      Step-IsSwept keep step (Later-IsSwept keep earlier h)
