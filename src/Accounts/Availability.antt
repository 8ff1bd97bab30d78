-- ===== src/Accounts/Availability.antt =====
-- The account requests, and the accounts that can administer the instance.
use open_whistle.Accounts.{
  validate_password, new_user, validate_username, get_user_by_username_ci, new_account_org,
  require_superadmin, require_may_manage, require_admin, Organisation, NewAccount, can_administer,
  count_active_privileged_admins, update_user_role, deactivate, reactivate, create_user,
  change_user_role, deactivate_user, reactivate_user, reset_user_totp, reset_totp, parse_role,
}
use open_whistle.Base.{
  keep-append, ℕ, ◌≤◌, String, ◌≡◌, refl, Bool, true, false, not, ◌&&◌, Option, none, List, [], ◌∷◌,
  ◌++◌, arith, leb, ◌==◌, is_some, length, keep, length-append,
}
use open_whistle.Base.Outcome.{ok, demand, present, >>=-eq-ok, present-eq-ok}
use open_whistle.Models.{
  Role, User, Db, Settings, is_superadmin, is_privileged, get_user, save_user, log,
}
use open_whistle.Accounts.Keys.{IsKeyed, count, Keeps, Keeps-save, IsKeyed-append}

two :
    (old new : Role) (active : Bool) (n : ℕ)
    → demand (not (is_privileged old && not (is_privileged new) && active && leb n 1)) 422 ≡ ok tt
    → (is_privileged old && active) ≡ true
    → (is_privileged new && active) ≡ false
    → 2 ≤ n
two old new active n h before after = ground arith

two_left :
    (old : Role) (active : Bool) (n : ℕ)
    → demand (not (is_privileged old && active && leb n 1)) 422 ≡ ok tt
    → (is_privileged old && active) ≡ true
    → 2 ≤ n
two_left old active n h before = ground arith

module _ (s : Settings) where
  change_user_role-Keeps :
      (db db' : Db) (u : User) (id : ℕ) (role : String)
      → change_user_role s db u id role ≡ ok db'
      → Keeps db.users db'.users
  unfolding change_user_role update_user_role count_active_privileged_admins count log
  change_user_role-Keeps db db' u id role h =
      let (_, _, h₁) = >>=-eq-ok (require_admin u) _ h in
      let (t, found, h₂) = >>=-eq-ok (present (get_user db id) 404) _ h₁ in
      let (_, _, h₃) = >>=-eq-ok (require_may_manage s u t) _ h₂ in
      let (r, parsed, h₄) = >>=-eq-ok (present (parse_role role) 422) _ h₃ in
      let (_, _, h₅) = >>=-eq-ok (demand (not (t.id == u.id)) 403) _ h₄ in
      let (_, _, h₆) =
        >>=-eq-ok (demand (not (is_superadmin r && not (is_superadmin u.role))) 403) _ h₅ in
      let (_, last, h₇) =
        >>=-eq-ok
          (demand
            (not (
              is_privileged t.role
              && not (is_privileged r)
              && t.is_active
              && leb (length (keep can_administer db.users)) 1))
            422)
          _ h₆ in
      let new = update_user_role t r in
      let saved : db'.users ≡ save_user new db.users = ground arith in
      rw saved (
        Keeps-save db id t new (present-eq-ok (get_user db id) 404 found) refl
          (two t.role r t.is_active (count db.users) last))

  deactivate_user-Keeps :
      (db : Db) (u : User) (id : ℕ) (res : Db × ℕ)
      → deactivate_user s db u id ≡ ok res
      → Keeps db.users res.0.users
  unfolding deactivate_user deactivate count_active_privileged_admins count log
  deactivate_user-Keeps db u id res h =
      let (_, _, h₁) = >>=-eq-ok (require_admin u) _ h in
      let (t, found, h₂) = >>=-eq-ok (present (get_user db id) 404) _ h₁ in
      let (_, _, h₃) = >>=-eq-ok (demand (not (t.id == u.id)) 400) _ h₂ in
      let (_, _, h₄) = >>=-eq-ok (require_may_manage s u t) _ h₃ in
      let (_, last, h₅) =
        >>=-eq-ok
          (demand
            (not (
              is_privileged t.role && t.is_active && leb (length (keep can_administer db.users)) 1))
            422)
          _ h₄ in
      let new = deactivate t in
      let saved : res.0.users ≡ save_user new db.users = ground arith in
      rw saved (
        Keeps-save db id t new (present-eq-ok (get_user db id) 404 found) refl
          (λ before _. two_left t.role t.is_active (count db.users) last before))

  reactivate_user-Keeps :
      (db db' : Db) (u : User) (id : ℕ)
      → reactivate_user s db u id ≡ ok db'
      → Keeps db.users db'.users
  unfolding reactivate_user reactivate log
  reactivate_user-Keeps db db' u id h =
      let (_, _, h₁) = >>=-eq-ok (require_admin u) _ h in
      let (t, found, h₂) = >>=-eq-ok (present (get_user db id) 404) _ h₁ in
      let (_, _, h₃) = >>=-eq-ok (require_may_manage s u t) _ h₂ in
      let saved : db'.users ≡ save_user (reactivate t) db.users = ground arith in
      rw saved (
        Keeps-save db id t (reactivate t) (present-eq-ok (get_user db id) 404 found) refl
          (λ before after. ground arith))

  reset_user_totp-Keeps :
      (db : Db) (u : User) (id : ℕ) (hash : String) (res : Db × ℕ)
      → reset_user_totp s db u id hash ≡ ok res
      → Keeps db.users res.0.users
  unfolding reset_user_totp reset_totp log
  reset_user_totp-Keeps db u id hash res h =
      let (_, _, h₁) = >>=-eq-ok (require_superadmin u) _ h in
      let (t, found, h₂) = >>=-eq-ok (present (get_user db id) 404) _ h₁ in
      let new = reset_totp s u t hash in
      let saved : res.0.users ≡ save_user new db.users = ground arith in
      rw saved (
        Keeps-save db id t new (present-eq-ok (get_user db id) 404 found) (ground arith)
          (λ before after. ground arith))

  Keeps-append :
      (db : Db) (new : User) → get_user db new.id ≡ none → Keeps db.users (db.users ++ new ∷ [])
  unfolding get_user count
  Keeps-append db new fresh = record {
    keyed = λ k. IsKeyed-append new db.users fresh k;
    available = λ k n.
        rw
          (
            keep-append can_administer db.users (new ∷ []),
            length-append (keep can_administer db.users) (keep can_administer (new ∷ [])),
          )
          (omega arith);
  }

  create_user-ok :
      (lower : String → String) (orgs : List Organisation) (default_org : Option ℕ) (db db' : Db)
      (u : User) (form : NewAccount)
      → create_user s lower orgs default_org db u form ≡ ok db'
      → (r : Role) × (org : ℕ) × (db'.users ≡ db.users ++ new_user form u r org ∷ [])
  unfolding create_user log
  create_user-ok lower orgs default_org db db' u form h =
      let (_, _, h₁) = >>=-eq-ok (require_admin u) _ h in
      let (_, _, h₂) =
        >>=-eq-ok
          (demand
            (is_some (validate_username form.username)
              && not (is_some (get_user_by_username_ci lower db form.username))
              && is_some (validate_password form.password))
            422)
          _ h₁ in
      let (r, parsed, h₃) = >>=-eq-ok (present (parse_role form.role) 422) _ h₂ in
      let (_, _, h₄) =
        >>=-eq-ok (demand (not (is_superadmin r && not (is_superadmin u.role))) 403) _ h₃ in
      let (org, _, h₅) = >>=-eq-ok (new_account_org s orgs default_org u form.chosen_org) _ h₄ in
      (r, org, ground arith)

-- A successful request to the accounts.
pub data Request (s : Settings) (db db' : Db) : Type 0 where
  create :
      (lower : String → String) (orgs : List Organisation) (default_org : Option ℕ) (u : User)
      (form : NewAccount)
      → get_user db form.fresh_id ≡ none
      → create_user s lower orgs default_org db u form ≡ ok db'
      → Request s db db'
  change_role :
      (u : User) (id : ℕ) (role : String)
      → change_user_role s db u id role ≡ ok db'
      → Request s db db'
  deactivated :
      (u : User) (id : ℕ) (ended : ℕ)
      → deactivate_user s db u id ≡ ok (db', ended)
      → Request s db db'
  reactivated : (u : User) (id : ℕ) → reactivate_user s db u id ≡ ok db' → Request s db db'
  reset :
      (u : User) (id : ℕ) (hash : String) (ended : ℕ)
      → reset_user_totp s db u id hash ≡ ok (db', ended)
      → Request s db db'

pub data Requests (s : Settings) (db : Db) : Db → Type 0 where
  none_yet : Requests s db db
  then_one : {db₁ db₂ : Db} → Requests s db db₁ → Request s db₁ db₂ → Requests s db db₂

Request-Keeps : (s : Settings) (db db' : Db) → Request s db db' → Keeps db.users db'.users
Request-Keeps s db db' (create lower orgs default_org u form fresh h) =
    let (r, org, saved) = create_user-ok s lower orgs default_org db db' u form h in
    rw saved (Keeps-append s db (new_user form u r org) fresh)
Request-Keeps s db db' (change_role u id role h) = change_user_role-Keeps s db db' u id role h
Request-Keeps s db db' (deactivated u id ended h) = deactivate_user-Keeps s db u id (db', ended) h
Request-Keeps s db db' (reactivated u id h) = reactivate_user-Keeps s db db' u id h
Request-Keeps s db db' (reset u id hash ended h) =
    reset_user_totp-Keeps s db u id hash (db', ended) h

Requests-Keeps : {s : Settings} {db db' : Db} → Requests s db db' → Keeps db.users db'.users
Requests-Keeps none_yet = record { keyed = λ k. k; available = λ k n. n }
Requests-Keeps {s} (then_one {db₁} {db₂} before last) =
    let first = Requests-Keeps before in
    let next = Request-Keeps s db₁ db₂ last in
    record {
      keyed = λ k. next.keyed (first.keyed k);
      available = λ k n. next.available (first.keyed k) (first.available k n);
    }

-- While identifiers are unique and an active admin or superadmin exists, no sequence of
-- successful account requests, each new account under a fresh identifier, leaves the instance
-- without one, and identifiers stay unique.
pub Requests-available :
    {s : Settings} {db db' : Db}
    → IsKeyed db.users
    → 1 ≤ count_active_privileged_admins db
    → Requests s db db'
    → IsKeyed db'.users × (1 ≤ count_active_privileged_admins db')
unfolding count_active_privileged_admins count
Requests-available k n requests =
    let keeps = Requests-Keeps requests in (keeps.keyed k, keeps.available k n)
