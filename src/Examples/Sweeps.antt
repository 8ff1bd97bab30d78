-- ===== src/Examples/Sweeps.antt =====
-- An account changes its password in one browser while another one, with an older session, refreshes.
use open_whistle.Base.{
  ℕ, String, ◌≡◌, refl, sym, ap, ◌∙◌, ◌≢◌, inl, inr, Bool, ◌||◌, none, some, arith, ◌==◌,
  if◌then◌else◌, ==→eq, some_inj, if-either,
}
use mathlib.Core.Path.{subst}
use text.Mathlib.Text.{◌==◌ as str_eq}
use open_whistle.SignIn.{Entry, revoke_user_sessions}
use open_whistle.SignIn.Account.{finish_refresh}
use open_whistle.SignIn.Sweep.{
  idle, checked, stored, before, World, fails, Later, here, then_step, Descends,
}
use open_whistle.SignIn.Sessions.{stored-old, stored-new, idle-stored, HasSession}
use open_whistle.SignIn.Swept.{IsOrderly, after_sweep, revoke_user_sessions-Descends}
use open_whistle.Examples.SignIns.{libraries, config, libraries-IsSound, nobody}

abbrev known : String → Bool
known t = str_eq t "mine" || str_eq t "older"

abbrev two_browsers : World
two_browsers = record {
  server = record nobody {
    sessions = λ k.
        if known k || str_eq k "next" then some (record { user = 1; expires = 9000 }) else none;
  };
  origin = λ t. if known t then some before else none;
  refreshes = λ i. if i == 0 then stored "older" "next" else idle;
}

-- The one refresh under way.
under_way :
    (i : ℕ) (old token : String)
    → two_browsers.refreshes i ≡ stored old token
    → (i ≡ 0) × (stored "older" "next" ≡ stored old token)
under_way i old token h =
    elim (if-either (i == 0) (stored "older" "next") idle (stored old token) h) [
      | inl (e, same) ↦ (==→eq i 0 e, same)
      | inr (_, e) ↦ absurd (idle-stored old token e)
    ]

session_theirs : (k : String) (e : Entry) → two_browsers.server.sessions k ≡ some e → e.user ≡ 1
session_theirs k e h = elim (if-either (known k || str_eq k "next") _ _ _ h) [
  | inl (_, same) ↦ ap (λ r. r.user) (sym (some_inj same))
  | inr (_, e) ↦ absurd (ground (arith, e))
]

two_browsers-IsOrderly : IsOrderly libraries config 1 libraries-IsSound two_browsers
two_browsers-IsOrderly = record {
  origins = λ t o h. elim (if-either (known t) (some before) none (some o) h) [
    | inl (_, e) ↦ sym (some_inj e)
    | inr (_, e) ↦ absurd (ground (arith, e))
  ];
  theirs = λ t e issued h. session_theirs t e h;
  stored_theirs = λ i o t e at h. session_theirs t e h;
  checked_issued = λ i old h.
      elim (if-either (i == 0) (stored "older" "next") idle (checked old) h) [
        | inl (_, e) ↦ absurd (ground (arith, e))
        | inr (_, e) ↦ absurd (ground (arith, e))
      ];
  stored_issued = λ i o t h.
      let same = (under_way i o t h).1 in
      subst (λ q. two_browsers.origin q ≢ none) (stored-old same) (λ e. absurd (ground (arith, e)));
  unissued = λ i o t h. ap two_browsers.origin (sym (stored-new (under_way i o t h).1));
  apart = λ i j o o' t h h'. (under_way i o t h).0 ∙ sym (under_way j o' t h').0;
}

abbrev afterwards : World
unfolding finish_refresh revoke_user_sessions
afterwards = record (after_sweep libraries config 1 libraries-IsSound "mine" two_browsers) {
  server =
      (finish_refresh libraries config 100 "older" "next"
        (revoke_user_sessions libraries config 1 (some "mine") two_browsers.server)).server;
  refreshes = λ j. if j == 0 then idle else two_browsers.refreshes j;
}

refused_refresh :
    Later libraries config 1
      (after_sweep libraries config 1 libraries-IsSound "mine" two_browsers)
      afterwards
unfolding afterwards
refused_refresh = then_step here (fails 0 100 refl refl)

still_there : HasSession libraries config 1 libraries-IsSound afterwards.server "mine"
unfolding afterwards
still_there = (record { user = 1; expires = 9000 }, refl, refl)

mine_issued : afterwards.origin "mine" ≢ none
unfolding afterwards
mine_issued e = ground (arith, e)

revoke_user_sessions-Descends_example : Descends afterwards.origin "mine" "mine"
revoke_user_sessions-Descends_example =
    revoke_user_sessions-Descends libraries config 1 libraries-IsSound "mine" "mine" two_browsers
      two_browsers-IsOrderly refused_refresh mine_issued still_there
