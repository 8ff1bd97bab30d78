-- ===== src/Makers.antt =====
-- Who made whom: `_one_made_the_other` of app/api/admin.py, for the four-eyes deletion.
pub mod Ancestry
use open_whistle.Base.{
  ℕ, zero, suc, ◌+◌, Bool, false, ◌||◌, Option, none, some, List, [], ◌∷◌, ◌==◌, if◌then◌else◌,
  length, any,
}
use open_whistle.Base.Outcome.{Outcome, ok, ◌>>=◌, or_raise}
use open_whistle.Models.{Db, get_user}

abbrev pub contains : List ℕ → ℕ → Bool
contains seen id = any (λ y. y == id) seen

-- select(_User.created_by_id).where(_User.id == current)
unfoldable pub created_by : Db → ℕ → Option ℕ
unfolding get_user
created_by db id = elim (get_user db id) [ none ↦ none | some u ↦ u.created_by_id ]

-- The loop of `makers`; `none` means that the fuel ran out.
unfoldable pub makers_loop : Db → ℕ → Option ℕ → List ℕ → Option (List ℕ)
makers_loop db zero current seen = none
makers_loop db (suc fuel) none seen = some seen
makers_loop db (suc fuel) (some id) seen =
    let rest = makers_loop db fuel (created_by db id) (id ∷ seen) in
    if contains seen id then some seen else rest

-- Every round but the last two sees another account.
unfoldable pub makers : Db → ℕ → Option (List ℕ)
unfolding makers_loop
makers db start = makers_loop db (length db.users + 2) (some start) []

unfoldable pub one_made_the_other : Db → Option ℕ → ℕ → Outcome Bool
unfolding makers
one_made_the_other db none b = ok false
one_made_the_other db (some a) b = or_raise (makers db b) >>= λ of_b.
    or_raise (makers db a) >>= λ of_a. ok (contains of_b a || contains of_a b)
