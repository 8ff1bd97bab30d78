-- ===== src/Accounts.antt =====
-- The account routes of app/api/admin.py over app/services/users.py. `current_user` is the row that
-- the session dependency loaded. Passwords and secrets are texts that the caller supplies as they
-- were drawn; the sessions that a route ends are returned as the account's identifier.
pub mod Keys
pub mod Availability
use open_whistle.Base.Text.{bytes}
use open_whistle.Base.Text.{all_characters}
use open_whistle.Base.Text.{characters}
use open_whistle.Base.{
  ℕ, zero, suc, ◌+◌, ◌-◌, ◌*◌, ◌/◌, ◌%◌, ◌≤◌, ◌<◌, min, max, String, ◌≡◌, refl, sym, ap, ◌∙◌,
  ◌≡⟨◌⟩◌, ◌∎, ◌≢◌, ◌↔◌, ◌⊎◌, inl, inr, Bool, true, false, not, ◌&&◌, ◌||◌, Option, none, some, List,
  [], ◌∷◌, ◌++◌, map, arith, ltb, leb, ◌==◌, if◌then◌else◌, opt_eq, is_some, ltb→lt, lt→ltb, leb→le,
  le→leb, ==→eq, ==-refl, opt_eq→eq, opt_eq_refl, Bool-cases, Option-cases, length, take, drop,
  keep, find, any, all, length-append, length-keep-le, find_sound, All, All-append, All-keep,
}
use open_whistle.Base.Int.{
  ℤ, pos, negsuc, pos_part, neg_part, sub_ℕ, ◌+ℤ◌, ◌≤ℤ◌, ltb_ℤ, leb_ℤ, floor_div, floor_mod,
}
use open_whistle.Base.Outcome.{
  Outcome, ok, http, raised, ◌>>=◌, ◌>>◌, demand, present, >>=-eq-ok, demand-eq-ok, present-eq-ok,
}
use text.Mathlib.Text.{◌==◌ as str_eq}
use open_whistle.Base.Text.{strip}
use open_whistle.Models.{
  Role, User, Db, Settings, AuditAction, AuditLog, is_superadmin, is_privileged, get_user,
  save_user, log,
}
use open_whistle.Access.{require_admin, require_superadmin, require_may_manage, require_same_org}

unfoldable pub parse_role : String → Option Role
parse_role text =
    if str_eq text "case_manager"
    then some Role.case_manager
    else if str_eq text "admin"
    then some Role.admin
    else if str_eq text "superadmin"
    then some Role.superadmin
    else none

unfoldable pub role_value : Role → String
role_value Role.case_manager = "case_manager"
role_value Role.admin = "admin"
role_value Role.superadmin = "superadmin"

abbrev pub can_administer : User → Bool
can_administer u = is_privileged u.role && u.is_active

unfoldable pub count_active_privileged_admins : Db → ℕ
count_active_privileged_admins db = length (keep can_administer db.users)

abbrev pub store : User → Db → Db
store user db = record db { users = save_user user db.users }

unfoldable pub update_user_role : User → Role → User
update_user_role user new_role = record user { role = new_role }

unfoldable pub deactivate : User → User
deactivate user = record user { is_active = false }

unfoldable pub reactivate : User → User
reactivate user = record user { is_active = true }

-- An organisation: its identifier and whether it is active.
pub record Organisation : Type 0 where
  pub id : ℕ
  pub is_active : Bool

abbrev get_organisation : List Organisation → Option ℕ → Option Organisation
get_organisation orgs none = none
get_organisation orgs (some id) = find (λ o. o.id == id) orgs

abbrev or_else : Option ℕ → Option ℕ → Option ℕ
or_else none b = b
or_else (some a) b = some a

-- ^[A-Za-z0-9._@ -]{3,64}$
abbrev is_username_character : ℕ → Bool
is_username_character c =
    (leb b'A' c && leb c b'Z')
    || (leb b'a' c && leb c b'z')
    || (leb b'0' c && leb c b'9')
    || (c == b'.')
    || (c == b'_')
    || (c == b'@')
    || (c == b' ')
    || (c == b'-')

-- services/auth.py `validate_password`; ValueError if it is too short or too long.
unfoldable pub validate_password : String → Option String
unfolding characters bytes
validate_password password =
    if ltb (characters password) 12
    then none
    else if ltb 72 (bytes password)
    then none
    else some password

-- The trimmed username; ValueError if it is not allowed.
unfoldable pub validate_username : String → Option String
unfolding strip characters all_characters
validate_username username =
    let candidate = strip username in
    if leb 3 (characters candidate)
      && leb (characters candidate) 64
      && all_characters is_username_character candidate
    then some candidate
    else none

-- `lower` is PostgreSQL's and Python's, which agree on the characters that a username may have.
unfoldable pub get_user_by_username_ci : (String → String) → Db → String → Option User
unfolding strip
get_user_by_username_ci lower db username =
    find (λ u. str_eq (lower u.username) (lower (strip username))) db.users

-- The form of a new account: the organisation chosen (`none`: the field is empty; `some none`: no
-- UUID), and what the row is given: a fresh identifier and the password's hash.
pub record NewAccount : Type 0 where
  pub username : String
  pub password : String
  pub role : String
  pub chosen_org : Option (Option ℕ)
  pub fresh_id : ℕ
  pub password_hash : String

abbrev pub new_user : NewAccount → User → Role → ℕ → User
new_user form creator role target_org = record {
  id = form.fresh_id;
  username = strip form.username;
  password_hash = some form.password_hash;
  totp_enabled = false;
  role = role;
  is_active = true;
  must_change_password = true;
  org_id = some target_org;
  created_by_id = some creator.id;
}

module _ (s : Settings) where
  unfoldable pub new_account_org :
      List Organisation → Option ℕ → User → Option (Option ℕ) → Outcome ℕ
  new_account_org orgs default_org creator chosen =
      let own = get_organisation orgs (or_else creator.org_id default_org) in
      let org : Option Organisation = elim chosen [
        | none ↦ own
        | some id ↦
            if s.multi_tenancy_enabled && is_superadmin creator.role
            then get_organisation orgs id
            else own
      ] in
      present org 422 >>= λ o. demand o.is_active 422 >> ok o.id

  unfoldable pub create_user :
      (String → String) → List Organisation → Option ℕ → Db → User → NewAccount → Outcome Db
  unfolding require_admin validate_username validate_password get_user_by_username_ci parse_role
      role_value new_account_org log
  create_user lower orgs default_org db current_user form = do
    require_admin current_user
    demand
        (is_some (validate_username form.username)
          && not (is_some (get_user_by_username_ci lower db form.username))
          && is_some (validate_password form.password))
        422
    role ← present (parse_role form.role) 422
    demand (not (is_superadmin role && not (is_superadmin current_user.role))) 403
    target_org ← new_account_org orgs default_org current_user form.chosen_org
    let user = new_user form current_user role target_org
    let detail = ("username", some user.username) ∷ ("role", some (role_value role)) ∷ []
    ok (
        log current_user AuditAction.admin_created none detail (some user.org_id)
          (record db { users = db.users ++ user ∷ [] }))

  unfoldable pub change_user_role : Db → User → ℕ → String → Outcome Db
  unfolding require_admin get_user require_may_manage parse_role role_value update_user_role
      count_active_privileged_admins save_user log
  change_user_role db current_user user_id role = do
    require_admin current_user
    target ← present (get_user db user_id) 404
    require_may_manage s current_user target
    new_role ← present (parse_role role) 422
    demand (not (target.id == current_user.id)) 403
    demand (not (is_superadmin new_role && not (is_superadmin current_user.role))) 403
    demand
        (not (
          is_privileged target.role
          && not (is_privileged new_role)
          && target.is_active
          && leb (count_active_privileged_admins db) 1))
        422
    let detail =
        ("username", some target.username)
        ∷ ("old", some (role_value target.role))
        ∷ ("new", some (role_value new_role))
        ∷ []
    ok (
        log current_user AuditAction.admin_role_changed none detail (some target.org_id)
          (store (update_user_role target new_role) db))

  -- With the identifier of the account whose sessions end.
  unfoldable pub deactivate_user : Db → User → ℕ → Outcome (Db × ℕ)
  unfolding require_admin get_user require_may_manage deactivate count_active_privileged_admins
      save_user log
  deactivate_user db current_user user_id = do
    require_admin current_user
    target ← present (get_user db user_id) 404
    demand (not (target.id == current_user.id)) 400
    require_may_manage s current_user target
    demand
        (not (
          is_privileged target.role
          && target.is_active
          && leb (count_active_privileged_admins db) 1))
        422
    ok (
      log current_user AuditAction.admin_deactivated none (("username", some target.username) ∷ [])
          (some target.org_id) (store (deactivate target) db),
      target.id,
    )

  unfoldable pub reactivate_user : Db → User → ℕ → Outcome Db
  unfolding require_admin get_user require_may_manage reactivate save_user log
  reactivate_user db current_user user_id = do
    require_admin current_user
    target ← present (get_user db user_id) 404
    require_may_manage s current_user target
    ok (
        log current_user AuditAction.admin_reactivated none
          (("username", some target.username) ∷ []) (some target.org_id)
          (store (reactivate target) db))

  -- The account starts over: its authenticator is gone, and if it has a local password the
  -- superadmin who set the temporary one counts as its maker.
  unfoldable pub reset_totp : User → User → String → User
  reset_totp caller target temporary_hash =
      let enrolled_anew = record target { totp_enabled = false } in
      if is_some target.password_hash
      then record enrolled_anew {
        password_hash = some temporary_hash;
        must_change_password = true;
        created_by_id = some caller.id;
      }
      else enrolled_anew

  unfoldable pub reset_user_totp : Db → User → ℕ → String → Outcome (Db × ℕ)
  unfolding require_superadmin get_user require_same_org reset_totp save_user log
  reset_user_totp db current_user user_id temporary_hash = do
    require_superadmin current_user
    target ← present (get_user db user_id) 404
    require_same_org s current_user target.org_id
    demand (not (target.id == current_user.id)) 400
    demand (not (s.demo_mode && any (λ name. str_eq target.username name) s.demo_usernames)) 403
    let reset = if is_some target.password_hash then "true" else "false"
    let detail = ("username", some target.username) ∷ ("password_reset", some reset) ∷ []
    ok (
      log current_user AuditAction.admin_totp_reset none detail (some target.org_id)
          (store (reset_totp current_user target temporary_hash) db),
      target.id,
    )
