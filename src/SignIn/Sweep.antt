-- ===== src/SignIn/Sweep.antt =====
-- A password change ends the sessions of an account while its browsers refresh theirs: the sweep of
-- app/services/auth.py against the three commands of `session_refresh`, in any order.
use open_whistle.Base.{
  ℕ, String, ◌≡◌, sym, ap, ◌∙◌, ◌≢◌, true, Option, none, some, arith, ◌==◌, if◌then◌else◌, if-holds,
}
use text.Mathlib.Text.{◌==◌ as str_eq}
use open_whistle.SignIn.Routes.{Answer}
use text.Mathlib.TextEquality.{eq_iff}
use open_whistle.SignIn.{Server, Config, Outside, store_session, validate_session, revoke_session}
use open_whistle.SignIn.Account.{finish_refresh}

-- A refresh: its session was checked, or the new one is stored.
pub data Refresh : Type 0 where
  idle : Refresh
  checked : (session_token : String) → Refresh
  stored : (session_token new_token : String) → Refresh

-- Where a token that a browser was given comes from.
pub data Origin : Type 0 where
  before : Origin
  sign_in : Origin
  renewal : (session_token : String) → Origin

pub record World : Type 0 where
  pub server : Server
  pub origin : String → Option Origin
  pub refreshes : ℕ → Refresh

abbrev pub update : (ℕ → Refresh) → ℕ → Refresh → ℕ → Refresh
update refreshes i r j = if j == i then r else refreshes j

abbrev pub issue : String → Origin → (String → Option Origin) → String → Option Origin
issue token o origin t = if str_eq t token then some o else origin t

-- Nobody has the token yet.
pub record IsFresh (w : World) (token : String) : Type 0 where
  pub issued : w.origin token ≡ none
  pub stored : (i : ℕ) (old : String) → w.refreshes i ≢ stored old token

module _ (x : Outside) (c : Config) (user_id : ℕ) where
  pub data Step (w : World) : World → Type 0 where
    checks :
        {o : Origin} (i now : ℕ) (token : String)
        → w.refreshes i ≡ idle
        → w.origin token ≡ some o
        → validate_session x c now token w.server ≡ true
        → Step w (record w { refreshes = update w.refreshes i (checked token) })
    stores :
        {old new_token : String} (i now : ℕ)
        → w.refreshes i ≡ checked old
        → IsFresh w new_token
        → Step w (record w {
          server = store_session x c now user_id new_token w.server;
          refreshes = update w.refreshes i (stored old new_token);
        })
    renews :
        {old new_token : String} (i now : ℕ)
        → w.refreshes i ≡ stored old new_token
        → (finish_refresh x c now old new_token w.server).answer ≡ Answer.refreshed new_token
        → Step w (record {
          server = (finish_refresh x c now old new_token w.server).server;
          origin = issue new_token (renewal old) w.origin;
          refreshes = update w.refreshes i idle;
        })
    fails :
        {old new_token : String} (i now : ℕ)
        → w.refreshes i ≡ stored old new_token
        → (finish_refresh x c now old new_token w.server).answer ≡ Answer.refused 401
        → Step w (record w {
          server = (finish_refresh x c now old new_token w.server).server;
          refreshes = update w.refreshes i idle;
        })
    signs_in :
        {token : String} (now : ℕ)
        → IsFresh w token
        → Step w (record w {
          server = store_session x c now user_id token w.server;
          origin = issue token sign_in w.origin;
        })
    signs_out :
        (now : ℕ) (token : String)
        → Step w (record w { server = (revoke_session x c now token w.server).1 })

  pub data Later (start : World) : World → Type 0 where
    here : Later start start
    then_step : {v w : World} → Later start v → Step v w → Later start w

-- The session that changed the password, those signed in since, and what they were renewed to.
pub data Descends (origin : String → Option Origin) (keep : String) : String → Type 0 where
  kept : Descends origin keep keep
  signed_in : {token : String} → origin token ≡ some sign_in → Descends origin keep token
  renewed :
      {old token : String}
      → origin token ≡ some (renewal old)
      → Descends origin keep old
      → Descends origin keep token

issue-other :
    (origin : String → Option Origin) (token fresh : String) (o : Origin) {p : Origin}
    → origin fresh ≡ none
    → origin token ≡ some p
    → issue fresh o origin token ≡ some p
issue-other origin token fresh o {p} unissued e =
    if-holds (λ r. r ≡ some p) (str_eq token fresh) (some o) (origin token)
      (λ same.
        absurd (ground (arith, sym unissued ∙ ap origin (sym ((eq_iff token fresh).0 same)) ∙ e)))
      (λ _. e)

pub Descends-issue :
    {origin : String → Option Origin} {keep token : String} (fresh : String) (o : Origin)
    → origin fresh ≡ none
    → Descends origin keep token
    → Descends (issue fresh o origin) keep token
Descends-issue fresh o unissued kept = kept
Descends-issue {origin} fresh o unissued (signed_in {token} e) =
    signed_in (issue-other origin token fresh o unissued e)
Descends-issue {origin} fresh o unissued (renewed {old} {token} e d) =
    renewed (issue-other origin token fresh o unissued e) (Descends-issue fresh o unissued d)
