-- ===== src/Accounts/Keys.antt =====
-- The table of accounts: a row saved under its key, and the count of those that can administer.
use open_whistle.Base.{
  ℕ, ◌+◌, ◌≤◌, ◌≡◌, refl, sym, ap, inl, inr, true, false, none, some, List, [], ◌∷◌, ◌++◌, arith,
  ◌==◌, if◌then◌else◌, ==→eq, Bool-cases, length, keep, find, find_sound, All, All-append,
}
use open_whistle.Accounts.{can_administer, count_active_privileged_admins}
use mathlib.Core.Path.{subst}
use open_whistle.Models.{User, Db, get_user, save_user}

-- The primary key of the table.
abbrev pub IsKeyed : List User → Type 0
IsKeyed [] = Unit
IsKeyed (u ∷ us) = All (λ x. (x.id == u.id) ≡ false) us × IsKeyed us

abbrev counted : User → ℕ
counted u = if can_administer u then 1 else 0

unfoldable pub count : List User → ℕ
count us = length (keep can_administer us)

absent : (u : User) (us : List User) → All (λ x. (x.id == u.id) ≡ false) us → save_user u us ≡ us
unfolding save_user
absent u [] h = refl
absent u (x ∷ us) h = rw (h.0, absent u us h.1)

-- Saving a changed row counts it anew, and no other.
count-save_user :
    (old new : User) (us : List User)
    → IsKeyed us
    → new.id ≡ old.id
    → find (λ u. u.id == old.id) us ≡ some old
    → count (save_user new us) + counted old ≡ count us + counted new
unfolding count save_user
count-save_user old new [] k e h = cc
count-save_user old new (x ∷ us) k e h = elim (Bool-cases (x.id == old.id)) [
  | inl same ↦
      let here : x ≡ old = ground arith in
      let key : x.id ≡ new.id = cc (ap (λ (u : User). u.id) here) in
      let apart : All (λ (y : User). (y.id == new.id) ≡ false) us = rw (← key) k.0 in
      ground (arith, absent new us apart)
  | inr other ↦ ground (arith, count-save_user old new us k.1 e (ground arith))
]

-- What a request may do to the accounts: keep the primary keys and one account that can administer.
pub record Keeps (us us' : List User) : Type 0 where
  pub keyed : IsKeyed us → IsKeyed us'
  pub available : IsKeyed us → 1 ≤ count us → 1 ≤ count us'

pub count-lem : (db : Db) → count_active_privileged_admins db ≡ count db.users
unfolding count count_active_privileged_admins
count-lem db = refl

pub found_id :
    (db : Db) (id : ℕ) (u : User)
    → get_user db id ≡ some u
    → (u.id ≡ id) × (find (λ x. x.id == u.id) db.users ≡ some u)
unfolding get_user
found_id db id u h =
    let same : u.id ≡ id = ==→eq u.id id (find_sound (λ (x : User). x.id == id) db.users u h) in
    (same, subst (λ (k : ℕ). find (λ x. x.id == k) db.users ≡ some u) (sym same) h)

ids_saved :
    (new : User) (key : ℕ) (us : List User)
    → All (λ x. (x.id == key) ≡ false) us
    → All (λ x. (x.id == key) ≡ false) (save_user new us)
unfolding save_user
ids_saved new key [] h = tt
ids_saved new key (x ∷ us) h = (ground arith, ids_saved new key us h.1)

IsKeyed-saved : (new : User) (us : List User) → IsKeyed us → IsKeyed (save_user new us)
unfolding save_user
IsKeyed-saved new [] k = tt
IsKeyed-saved new (x ∷ us) k =
    let same : (if x.id == new.id then new else x).id ≡ x.id = ground arith in
    (rw same (ids_saved new x.id us k.0), IsKeyed-saved new us k.1)

-- A row saved in place of one that could administer must still be able to, unless two could.
pub Keeps-save :
    (db : Db) (id : ℕ) (old new : User)
    → get_user db id ≡ some old
    → new.id ≡ old.id
    → (can_administer old ≡ true → can_administer new ≡ false → 2 ≤ count db.users)
    → Keeps db.users (save_user new db.users)
Keeps-save db id old new h e two =
    let (same, found) = found_id db id old h in
    record {
      keyed = λ k. IsKeyed-saved new db.users k;
      available = λ k n. ground (arith, count-save_user old new db.users k e found, two);
    }

pub IsKeyed-append :
    (new : User) (us : List User)
    → find (λ x. x.id == new.id) us ≡ none
    → IsKeyed us
    → IsKeyed (us ++ new ∷ [])
IsKeyed-append new [] h k = (tt, tt)
IsKeyed-append new (x ∷ us) h k = (
  All-append (λ (y : User). (y.id == x.id) ≡ false) us (new ∷ []) k.0 (ground arith, tt),
  IsKeyed-append new us (ground arith) k.1,
)
