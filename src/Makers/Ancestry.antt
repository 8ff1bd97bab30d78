-- ===== src/Makers/Ancestry.antt =====
-- The walk through `created_by_id` against the chain of makers.
use open_whistle.Base.{
  ℕ, zero, suc, ◌+◌, ◌≤◌, ◌<◌, ◌≡◌, refl, ◌↔◌, ◌⊎◌, inl, inr, Bool, true, false, not, ◌||◌, Option,
  none, some, List, [], ◌∷◌, arith, ◌==◌, Bool-cases, Option-cases, length, keep, find,
  length-keep-le,
}
use open_whistle.Base.Outcome.{ok}
use open_whistle.Models.{User, Db, get_user}
use open_whistle.Makers.{contains, created_by, makers_loop, makers, one_made_the_other}

-- The maker of an account, n steps up.
abbrev pub maker : Db → ℕ → ℕ → Option ℕ
maker db zero id = some id
maker db (suc n) id = elim (created_by db id) [ none ↦ none | some m ↦ maker db n m ]

module _ (db : Db) where
  -- The makers of those seen are seen, or next in line.
  IsClosed : List ℕ → Option ℕ → Type 0
  IsClosed seen current =
      (y m : ℕ)
      → contains seen y ≡ true
      → created_by db y ≡ some m
      → (contains seen m ≡ true) ⊎ (current ≡ some m)

  closed_step :
      (seen : List ℕ) (id : ℕ) → IsClosed seen (some id) → IsClosed (id ∷ seen) (created_by db id)
  unfolding IsClosed
  closed_step seen id c y m h e = ground (arith, c y m)

  closed :
      (fuel : ℕ) (current : Option ℕ) (seen found : List ℕ)
      → IsClosed seen current
      → makers_loop db fuel current seen ≡ some found
      → IsClosed found none
  unfolding makers_loop IsClosed
  closed zero current seen found c h = cc
  closed (suc fuel) none seen found c h = λ y m k e. ground (arith, c y m)
  closed (suc fuel) (some id) seen found c h = elim (Bool-cases (contains seen id)) [
    | inl again ↦ λ y m k e. ground (arith, c y m)
    | inr new ↦
        closed fuel (created_by db id) (id ∷ seen) found (closed_step seen id c) (ground arith)
  ]

  grows :
      (fuel : ℕ) (current : Option ℕ) (seen found : List ℕ) (y : ℕ)
      → makers_loop db fuel current seen ≡ some found
      → (contains seen y ≡ true) ⊎ (current ≡ some y)
      → contains found y ≡ true
  unfolding makers_loop
  grows zero current seen found y h s = cc
  grows (suc fuel) none seen found y h s = ground arith
  grows (suc fuel) (some id) seen found y h s =
      ground (arith, grows fuel (created_by db id) (id ∷ seen) found y)

  -- Up from a seen account, everything is seen.
  upwards :
      (n : ℕ) (found : List ℕ) (y x : ℕ)
      → IsClosed found none
      → contains found y ≡ true
      → maker db n y ≡ some x
      → contains found x ≡ true
  unfolding IsClosed
  upwards zero found y x c h e = ground arith
  upwards (suc n) found y x c h e = elim (Option-cases (created_by db y)) [
    | inl top ↦ ground arith
    | inr (m, up) ↦ upwards n found m x c (ground (arith, c y m)) (ground arith)
  ]

  sound :
      (fuel : ℕ) (current : Option ℕ) (seen found : List ℕ) (y : ℕ)
      → makers_loop db fuel current seen ≡ some found
      → contains found y ≡ true
      → (contains seen y ≡ true) ⊎ ((id n : ℕ) × (current ≡ some id) × (maker db n id ≡ some y))
  unfolding makers_loop
  sound zero current seen found y h s = cc
  sound (suc fuel) none seen found y h s = inl (ground arith)
  sound (suc fuel) (some id) seen found y h s = elim (Bool-cases (contains seen id)) [
    | inl again ↦ inl (ground arith)
    | inr new ↦ elim (sound fuel (created_by db id) (id ∷ seen) found y (ground arith) s) [
      | inl k ↦ elim (Bool-cases (id == y)) [
        | inl e ↦ inr (id, 0, refl, ground arith)
        | inr e ↦ inl (ground arith)
      ]
      | inr (m, n, up, path) ↦ inr (id, suc n, refl, ground arith)
    ]
  ]

  -- The accounts that the walk returns are the start itself, its maker, its maker's maker and so
  -- on: all of them and no other.
  pub makers_iff :
      (start : ℕ) (found : List ℕ) (x : ℕ)
      → makers db start ≡ some found
      → (contains found x ≡ true) ↔ ((n : ℕ) × (maker db n start ≡ some x))
  unfolding makers IsClosed
  makers_iff start found x h =
      let fuel = length db.users + 2 in
      (
        λ member. elim (sound fuel (some start) [] found x h member) [
          | inl k ↦ cc
          | inr (id, n, e, path) ↦ (n, ground arith)
        ],
        λ w.
            upwards w.0 found start x (closed fuel (some start) [] found (λ y m k e. cc) h)
              (grows fuel (some start) [] found start h (inr refl)) w.1,
      )

  -- The accounts not seen yet.
  unseen : List ℕ → List User → ℕ
  unseen seen us = length (keep (λ u. not (contains seen u.id)) us)

  unseen-le : (seen : List ℕ) (id : ℕ) (us : List User) → unseen (id ∷ seen) us ≤ unseen seen us
  unfolding unseen
  unseen-le seen id [] = omega arith
  unseen-le seen id (u ∷ us) = ground (arith, unseen-le seen id us)

  unseen-lt :
      (seen : List ℕ) (id : ℕ) (us : List User) (u : User)
      → find (λ x. x.id == id) us ≡ some u
      → contains seen id ≡ false
      → unseen (id ∷ seen) us < unseen seen us
  unfolding unseen
  unseen-lt seen id [] u h n = cc
  unseen-lt seen id (x ∷ us) u h n = ground (arith, unseen-lt seen id us u, unseen-le seen id us)

  created_by-none : (id : ℕ) → get_user db id ≡ none → created_by db id ≡ none
  unfolding created_by
  created_by-none id h = rw (h, created_by)

  found_row :
      (id : ℕ) (u : User) → get_user db id ≡ some u → find (λ x. x.id == id) db.users ≡ some u
  unfolding get_user
  found_row id u h = h

  unseen-le-length : (us : List User) → unseen [] us ≤ length us
  unfolding unseen
  unseen-le-length us = length-keep-le (λ u. not (contains [] u.id)) us

  ended : (fuel : ℕ) (seen : List ℕ) → 1 ≤ fuel → makers_loop db fuel none seen ≡ some seen
  unfolding makers_loop
  ended zero seen h = absurd (omega arith)
  ended (suc fuel) seen h = refl

  total :
      (fuel : ℕ) (current : Option ℕ) (seen : List ℕ)
      → unseen seen db.users + 2 ≤ fuel
      → (found : List ℕ) × (makers_loop db fuel current seen ≡ some found)
  unfolding makers_loop
  total zero current seen h = absurd (omega arith)
  total (suc fuel) none seen h = (seen, refl)
  total (suc fuel) (some id) seen h = elim (Bool-cases (contains seen id)) [
    | inl again ↦ (seen, rw again)
    | inr new ↦ elim (Option-cases (get_user db id)) [
      | inl gone ↦
          (id ∷ seen, rw (new, created_by-none id gone) (ended fuel (id ∷ seen) (omega arith)))
      | inr (u, row) ↦
          let (found, e) =
            total fuel (created_by db id) (id ∷ seen)
              (omega (arith, unseen-lt seen id db.users u (found_row id u row) new)) in
          (found, rw new e)
    ]
  ]

  -- The walk to the makers ends from every account, also where the rows form a cycle.
  pub makers_total : (start : ℕ) → (found : List ℕ) × (makers db start ≡ some found)
  unfolding makers
  makers_total start =
      total (length db.users + 2) (some start) [] (omega (arith, unseen-le-length db.users))

  -- For two accounts the check always has an answer, and says yes exactly when one is the other's
  -- maker, directly or through others, or both are one account.
  pub one_made_the_other_iff :
      (a b : ℕ)
      → (answer : Bool) × (one_made_the_other db (some a) b ≡ ok answer)
        × ((answer ≡ true) ↔ ((n : ℕ) × ((maker db n b ≡ some a) ⊎ (maker db n a ≡ some b))))
  unfolding one_made_the_other
  one_made_the_other_iff a b =
      let (of_b, eb) = makers_total b in
      let (of_a, ea) = makers_total a in
      let ib = makers_iff b of_b a eb in
      let ia = makers_iff a of_a b ea in
      (
        contains of_b a || contains of_a b,
        rw (eb, ea),
        (
          λ h. elim (Bool-cases (contains of_b a)) [
            | inl y ↦ (let w = ib.0 y in (w.0, inl w.1))
            | inr y ↦ (let w = ia.0 (ground arith) in (w.0, inr w.1))
          ],
          λ w. elim w.1 [
            | inl p ↦ rw (ib.1 (w.0, p))
            | inr p ↦ (let y = ia.1 (w.0, p) in ground arith)
          ],
        ),
      )
