-- ===== src/SignIn/Steps.antt =====
-- Signing in as a step relation: a request of any browser at any time, and what administrators do to
-- the accounts meanwhile.
use open_whistle.Base.{ℕ, String, ◌≡◌, Bool, Option, none, some}
use open_whistle.Base.Outcome.{ok}
use open_whistle.Models.{User, Db}
use open_whistle.SignIn.{Server, Config, Outside, Identity, Claims, revoke_user_sessions}
use open_whistle.SignIn.Routes.{Drawn, login_post, login_mfa_post, mfa_setup_post}
use open_whistle.SignIn.Account.{
  get_signed_in_admin, logout, session_refresh, account_password, local_review_login,
}
use open_whistle.SignIn.Oidc.{
  Request, Callback, oidc_authorize, oidc_callback, oidc_link, oidc_link_callback, oidc_unlink,
}

module _ (x : Outside) (c : Config) where
  pub data Step (s : Server) : Server → Type 0 where
    signs_in :
        (now : ℕ) (drawn : Drawn) (username plain : String)
        → Step s (login_post x c now drawn username plain s).server
    enters_code :
        (now : ℕ) (jti : String) (drawn : Drawn) (digits temp_token : String)
        → Step s (login_mfa_post x c now jti drawn digits temp_token s).server
    enrols :
        (now : ℕ) (jti : String) (drawn : Drawn) (digits temp_token : String)
        → Step s (mfa_setup_post x c now jti drawn digits temp_token s).server
    signs_out : (now : ℕ) (token : Option String) → Step s (logout x c now token s).server
    refreshes :
        {user : User} {claims : Claims} (now : ℕ) (jti token : String)
        → get_signed_in_admin x c now (some token) s ≡ ok (user, claims)
        → Step s (session_refresh x c now jti claims user token s).server
    changes_password :
        {user : User} {claims : Claims} (now : ℕ)
        (new_hash current new confirm digits token : String)
        → get_signed_in_admin x c now (some token) s ≡ ok (user, claims)
        → Step s (account_password x c now new_hash current new confirm digits user token s).server
    asks_provider :
        (now : ℕ) (drawn : Request) (browser : String)
        → Step s (oidc_authorize x c now drawn browser s).server
    comes_back :
        (now : ℕ) (token : String) (back : Callback) (browser : String)
        → Step s (oidc_callback x c now token back browser s).server
    asks_link :
        (now : ℕ) (drawn : Request) (printed token : String)
        → Step s (oidc_link x c now drawn printed token s).server
    links :
        (now : ℕ) (printed : String) (back : Callback) (token : Option String)
        → Step s (oidc_link_callback x c now printed back token s).server
    unlinks : (user : User) → Step s (oidc_unlink x c user s).server
    reviews :
        (now : ℕ) (jti : String) (is_reachable : Bool)
        → Step s (local_review_login x c now jti is_reachable s).server
    -- accounts made, changed and deactivated, with the sessions that this ends
    administers :
        (db : Db) (identities : ℕ → Identity)
        → Step s (record s { db = db; identities = identities })
    ends_sessions : (user_id : ℕ) → Step s (revoke_user_sessions x c user_id none s)

  pub data Reach (start : Server) : Server → Type 0 where
    here : Reach start start
    then_step : {s t : Server} → Reach start s → Step s t → Reach start t
