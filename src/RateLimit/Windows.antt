-- ===== src/RateLimit/Windows.antt =====
-- What one call on a counter does to the lock and to the alert.
use open_whistle.RateLimit.{
  count_login_failure, is_reached, bump, alert_once, Key, key_eq, Counter, Store, get, is_live, add,
  settle, claim, record_instance_login_failure,
}
use open_whistle.Base.{
  ℕ, ◌+◌, ◌*◌, ◌≤◌, ◌<◌, String, ◌≡◌, refl, sym, ap, ◌∙◌, inl, inr, Bool, true, false, Option, none,
  some, List, [], ◌∷◌, arith, ◌==◌, is_some, lt→ltb, ==-refl, Bool-cases, Option-cases, All,
}
use open_whistle.Base.Int.{ℤ, pos, negsuc, ◌+ℤ◌, ltb_ℤ}
use text.Mathlib.TextEquality.{eq_iff}
use mathlib.Core.Path.{subst}

key_eq_refl : (k : Key) → key_eq k k ≡ true
key_eq_refl (Key.whistleblower a) = ground (arith, eq_iff a a)
key_eq_refl (Key.admin a) = ground (arith, eq_iff a a)
key_eq_refl (Key.failed_logins a) = ==-refl a
key_eq_refl Key.spray_alerted = refl
key_eq_refl Key.setup_token = refl

up_and_down : (v : ℤ) → v +ℤ pos 1 +ℤ negsuc 0 ≡ v
up_and_down (pos n) = ground arith
up_and_down (negsuc n) = ground arith

get-is_live :
    (now : ℕ) (cell : Option Counter) (c : Counter)
    → get now cell ≡ some c
    → is_live now c.expires ≡ true
unfolding get
get-is_live now none c h = cc
get-is_live now (some d) c h = ground arith

get-live : (now : ℕ) (c : Counter) → is_live now c.expires ≡ true → get now (some c) ≡ some c
unfolding get
get-live now c h = rw h refl

add-eq :
    (now : ℕ) (by : ℤ) (cell cell' : Option Counter)
    → get now cell ≡ cell'
    → add now by cell ≡ bump by cell'
unfolding add
add-eq now by cell cell' h = ap (bump by) h

-- Taking back one count leaves a counter that was there as it was.
add-add :
    (now : ℕ) (cell : Option Counter) (c : Counter)
    → get now cell ≡ some c
    → get now (some (add now (negsuc 0) (some (add now (pos 1) cell)))) ≡ some c
unfolding bump
add-add now cell c there =
    let alive = get-is_live now cell c there in
    let up = bump (pos 1) (some c) in
    let back : bump (negsuc 0) (some up) ≡ c = rw (up_and_down c.value) refl in
    rw (add-eq now (pos 1) cell (some c) there) (
      rw (add-eq now (negsuc 0) (some up) (some up) (get-live now up alive))
        (rw back (get-live now c alive)))

module _ (limit lockout : ℕ) (casefold : String → String) where
  too_few : ltb_ℤ (pos limit) (pos 1) ≡ true → 1 ≤ limit → ⊥
  too_few over h = ground arith

  settle-refused :
      (now : ℕ) (cell : Option Counter)
      → 1 ≤ limit
      → (settle limit lockout casefold now
          (add now (pos 1) cell).value
          (some (add now (pos 1) cell))).0
        ≡ false
      → get now
          (settle limit lockout casefold now
            (add now (pos 1) cell).value
            (some (add now (pos 1) cell))).1
        ≡ get now cell
  unfolding settle bump
  settle-refused now cell h refused =
      let first : get now cell ≡ none → ltb_ℤ (pos limit) (add now (pos 1) cell).value ≡ true → ⊥ =
        λ free over.
          let one : (add now (pos 1) cell).value ≡ pos 1 =
            ap (λ (c : Counter). c.value) (add-eq now (pos 1) cell none free) in
          absurd (too_few (subst (λ v. ltb_ℤ (pos limit) v ≡ true) one over) h) in
      elim (Bool-cases (ltb_ℤ (pos limit) (add now (pos 1) cell).value)) [
        | inl e ↦ rw e (elim (Option-cases (get now cell)) [
          | inl none_there ↦ absurd (first none_there e)
          | inr (c, there) ↦ add-add now cell c there ∙ sym there
        ])
        | inr e ↦ cc
      ]

  -- With a limit of at least one, an attempt that is refused leaves every counter, with its
  -- expiry, as it was at that time.
  pub claim-refused :
      (now : ℕ) (key : Key) (redis redis' : Store)
      → 1 ≤ limit
      → claim limit lockout casefold now key redis ≡ (false, redis')
      → (get now (redis' key) ≡ get now (redis key))
        × ((k : Key) → key_eq k key ≡ false → redis' k ≡ redis k)
  unfolding claim
  claim-refused now key redis redis' h refused =
      let after = ap (λ (r : Bool × Store). r.1) refused in
      rw (← after) (
        rw (key_eq_refl key)
            (settle-refused now (redis key) h (ap (λ (r : Bool × Store). r.0) refused)),
        λ k other. rw other refl,
      )

unfoldable pub alerts : ℕ → ℕ → List ℕ → Store → List Bool
unfolding record_instance_login_failure
alerts threshold minutes [] redis = []
alerts threshold minutes (now ∷ later) redis =
    let (alert, after) = record_instance_login_failure threshold minutes now redis in
    alert ∷ alerts threshold minutes later after

-- The mark of an alert stands until its second.
IsMarked : ℕ → Store → Type 0
IsMarked end redis = redis Key.spray_alerted ≡ some (record { value = pos 1; expires = some end })

alert_once-IsMarked :
    (minutes end now : ℕ) (enough : Bool) (redis : Store)
    → IsMarked end redis
    → now < end
    → ((alert_once minutes now enough redis).0 ≡ false)
      × IsMarked end (alert_once minutes now enough redis).1
unfolding alert_once IsMarked
alert_once-IsMarked minutes end now false redis m h = (refl, m)
alert_once-IsMarked minutes end now true redis m h =
    let there : is_some (get now (redis Key.spray_alerted)) ≡ true = ap is_some (
      ap (get now) m
      ∙ get-live now (record { value = pos 1; expires = some end }) (lt→ltb now end h)) in
    rw there (refl, m)

failure-IsMarked :
    (threshold minutes end now : ℕ) (redis : Store)
    → IsMarked end redis
    → now < end
    → ((record_instance_login_failure threshold minutes now redis).0 ≡ false)
      × IsMarked end (record_instance_login_failure threshold minutes now redis).1
unfolding record_instance_login_failure IsMarked
failure-IsMarked threshold minutes end now redis m h = elim (Bool-cases (threshold == 0)) [
  | inl e ↦ rw e (refl, m)
  | inr e ↦ rw e (
      let counted = count_login_failure minutes now redis in
      alert_once-IsMarked minutes end now (is_reached threshold minutes now counted) counted
        (unfold count_login_failure in m) h)
]

alert_once-marks :
    (minutes now : ℕ) (enough : Bool) (redis : Store)
    → (alert_once minutes now enough redis).0 ≡ true
    → IsMarked (now + minutes * 60) (alert_once minutes now enough redis).1
unfolding alert_once IsMarked
alert_once-marks minutes now false redis h = cc
alert_once-marks minutes now true redis h =
    elim (Bool-cases (is_some (get now (redis Key.spray_alerted)))) [
      | inl e ↦ cc
      | inr e ↦ rw e refl
    ]

failure-marks :
    (threshold minutes now : ℕ) (redis : Store)
    → (record_instance_login_failure threshold minutes now redis).0 ≡ true
    → IsMarked (now + minutes * 60) (record_instance_login_failure threshold minutes now redis).1
unfolding record_instance_login_failure
failure-marks threshold minutes now redis raised_one = elim (Bool-cases (threshold == 0)) [
  | inl e ↦ cc
  | inr e ↦
      let counted = count_login_failure minutes now redis in
      let branch : record_instance_login_failure threshold minutes now redis
          ≡ alert_once minutes now (is_reached threshold minutes now counted) counted =
        rw e refl in
      rw branch (
        alert_once-marks minutes now (is_reached threshold minutes now counted) counted
          (subst (λ (r : Bool × Store). r.0 ≡ true) branch raised_one))
]

alerts-marked :
    (threshold minutes end : ℕ) (times : List ℕ) (redis : Store)
    → IsMarked end redis
    → All (λ now. now < end) times
    → All (λ b. b ≡ false) (alerts threshold minutes times redis)
unfolding alerts
alerts-marked threshold minutes end [] redis m h = tt
alerts-marked threshold minutes end (now ∷ later) redis m h =
    let (quiet, m') = failure-IsMarked threshold minutes end now redis m h.0 in
    (quiet, alerts-marked threshold minutes end later _ m' h.1)

-- After a failure that raised an alert, no failure within the window of minutes from it raises
-- another.
pub alerts-once :
    (threshold minutes now : ℕ) (times : List ℕ) (redis : Store)
    → (record_instance_login_failure threshold minutes now redis).0 ≡ true
    → All (λ later. later < now + minutes * 60) times
    → All
        (λ b. b ≡ false)
        (alerts threshold minutes times
          (record_instance_login_failure threshold minutes now redis).1)
alerts-once threshold minutes now times redis raised_one h =
    alerts-marked threshold minutes (now + minutes * 60) times _
      (failure-marks threshold minutes now redis raised_one) h
