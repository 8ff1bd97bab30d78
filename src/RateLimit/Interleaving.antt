-- ===== src/RateLimit/Interleaving.antt =====
-- Attempts that run at the same time: each is an INCR and a second command, and the commands of
-- different attempts come in any order.
use open_whistle.Base.{
  ℕ, ◌+◌, ◌-◌, ◌*◌, ◌≤◌, String, ◌≡◌, refl, ap, inl, inr, Bool, true, false, Option, none, some,
  List, [], ◌∷◌, ◌++◌, arith, if◌then◌else◌, is_some, Bool-cases, length, keep, length-append,
  length-keep-le,
}
use open_whistle.Base.Int.{ℤ, pos, negsuc, sub_ℕ, ltb_ℤ, leb_ℤ}
use mathlib.Core.Path.{subst}
use open_whistle.RateLimit.{bump, prolong, Counter, get, add, expire, settle, give_back}

-- The counter; the attempts that were counted since its last deletion, allowed and not given back;
-- the counts that INCR has answered since then to attempts that are still under way; how many
-- attempts from before the deletion may still take one off the counter, and how many it was right
-- after the deletion.
pub record Race : Type 0 where
  pub cell : Option Counter
  pub granted : ℕ
  pub under_way : List ℤ
  pub earlier : ℕ
  pub carried : ℕ

abbrev within : ℕ → ℤ → Bool
within limit count = leb_ℤ count (pos limit)

-- The counter shows `n`, less `m` that earlier attempts took off; no key shows 0.
abbrev Shows : Option Counter → ℕ → ℕ → Type 0
Shows none n m = (n ≡ 0) × (m ≡ 0)
Shows (some c) n m = c.value ≡ sub_ℕ n m

add-up :
    (now n m : ℕ) (cell : Option Counter)
    → get now cell ≡ cell
    → Shows cell n m
    → (add now (pos 1) cell).value ≡ sub_ℕ (n + 1) m
unfolding add bump
add-up now n m none live h = rw (h.0, h.1) refl
add-up now n m (some c) live h = rw (live, h) (ground arith)

-- One taken off by an attempt of `n`.
add-down :
    (now n m : ℕ) (cell : Option Counter)
    → get now cell ≡ cell
    → 1 ≤ n
    → Shows cell n m
    → (add now (negsuc 0) cell).value ≡ sub_ℕ (n - 1) m
unfolding add bump
add-down now n m none live p h = absurd (omega (arith, p, h.0))
add-down now n m (some c) live p h = rw (live, h) (ground arith)

-- One taken off by an earlier attempt.
add-down_late :
    (now n m : ℕ) (cell : Option Counter)
    → get now cell ≡ cell
    → Shows cell n m
    → (add now (negsuc 0) cell).value ≡ sub_ℕ n (m + 1)
unfolding add bump
add-down_late now n m none live h = rw (h.0, h.1) refl
add-down_late now n m (some c) live h = rw (live, h) (ground arith)

expire-Shows :
    (now seconds n m : ℕ) (cell : Option Counter)
    → get now cell ≡ cell
    → Shows cell n m
    → Shows (expire now seconds cell) n m
unfolding expire prolong
expire-Shows now seconds n m none live h = h
expire-Shows now seconds n m (some c) live h = rw live h

module _ (limit lockout : ℕ) (casefold : String → String) where
  -- One command at a time at which the counter has not expired.
  pub data Command (a : Race) : Race → Type 0 where
    count_one :
        (now : ℕ)
        → get now a.cell ≡ a.cell
        → Command a (record a {
          cell = some (add now (pos 1) a.cell);
          under_way = (add now (pos 1) a.cell).value ∷ a.under_way;
        })
    refuse :
        (now : ℕ) (before after : List ℤ) (count : ℤ)
        → get now a.cell ≡ a.cell
        → a.under_way ≡ before ++ count ∷ after
        → (settle limit lockout casefold now count a.cell).0 ≡ false
        → Command a (record a {
          cell = (settle limit lockout casefold now count a.cell).1;
          under_way = before ++ after;
        })
    allow :
        (now : ℕ) (before after : List ℤ) (count : ℤ)
        → get now a.cell ≡ a.cell
        → a.under_way ≡ before ++ count ∷ after
        → (settle limit lockout casefold now count a.cell).0 ≡ true
        → Command a (record a {
          cell = (settle limit lockout casefold now count a.cell).1;
          granted = a.granted + 1;
          under_way = before ++ after;
        })
    given_back :
        (now : ℕ)
        → get now a.cell ≡ a.cell
        → 1 ≤ a.granted
        → Command a (record a {
          cell = give_back limit lockout casefold now a.cell;
          granted = a.granted - 1;
        })
    -- the same commands of an attempt that was counted before the last deletion
    refuse_late :
        (now : ℕ) (count : ℤ)
        → get now a.cell ≡ a.cell
        → 1 ≤ a.earlier
        → (settle limit lockout casefold now count a.cell).0 ≡ false
        → Command a (record a {
          cell = (settle limit lockout casefold now count a.cell).1;
          earlier = a.earlier - 1;
        })
    allow_late :
        (now : ℕ) (count : ℤ)
        → get now a.cell ≡ a.cell
        → 1 ≤ a.earlier
        → (settle limit lockout casefold now count a.cell).0 ≡ true
        → Command a (record a { cell = (settle limit lockout casefold now count a.cell).1 })
    given_back_late :
        (now : ℕ)
        → get now a.cell ≡ a.cell
        → 1 ≤ a.earlier
        → Command a (record a {
          cell = give_back limit lockout casefold now a.cell;
          earlier = a.earlier - 1;
        })
    -- the DEL of reset_admin_login_attempts, by an attempt that was allowed
    delete :
        1 ≤ a.granted + a.earlier
        → Command a (record {
          cell = none;
          granted = 0;
          under_way = [];
          earlier = a.granted + length a.under_way + a.earlier - 1;
          carried = a.granted + length a.under_way + a.earlier - 1;
        })

  pub data Commands : Race → Type 0 where
    start : Commands (record { cell = none; granted = 0; under_way = []; earlier = 0; carried = 0 })
    then_one : {a b : Race} → Commands a → Command a b → Commands b

  record IsCounted (a : Race) : Type 0 where
    slack : ℕ
    counts : Shows a.cell (a.granted + length a.under_way) slack
    spent : slack + a.earlier ≤ a.carried
    bounded : a.granted + length (keep (within limit) a.under_way) ≤ limit + a.carried

  length-split :
      (before after : List ℤ) (count : ℤ)
      → length (before ++ count ∷ after) ≡ length (before ++ after) + 1
  length-split before after count =
      omega (arith, length-append before (count ∷ after), length-append before after)

  length-keep-split :
      (before after : List ℤ) (count : ℤ)
      → length (keep (within limit) (before ++ count ∷ after))
        ≡ length (keep (within limit) (before ++ after)) + (if within limit count then 1 else 0)
  length-keep-split [] after count = ground arith
  length-keep-split (x ∷ xs) after count = ground (arith, length-keep-split xs after count)

  settle-refused :
      (now n m : ℕ) (count : ℤ) (cell : Option Counter)
      → get now cell ≡ cell
      → 1 ≤ n
      → Shows cell n m
      → (settle limit lockout casefold now count cell).0 ≡ false
      → Shows (settle limit lockout casefold now count cell).1 (n - 1) m
        × (within limit count ≡ false)
  unfolding settle
  settle-refused now n m count cell live p h refused = elim (Bool-cases (ltb_ℤ (pos limit) count)) [
    | inl e ↦ rw e (add-down now n m cell live p h, ground arith)
    | inr e ↦ cc
  ]

  settle-refused_late :
      (now n m : ℕ) (count : ℤ) (cell : Option Counter)
      → get now cell ≡ cell
      → Shows cell n m
      → (settle limit lockout casefold now count cell).0 ≡ false
      → Shows (settle limit lockout casefold now count cell).1 n (m + 1)
  unfolding settle
  settle-refused_late now n m count cell live h refused =
      elim (Bool-cases (ltb_ℤ (pos limit) count)) [
        | inl e ↦ rw e (add-down_late now n m cell live h)
        | inr e ↦ cc
      ]

  settle-allowed :
      (now n m : ℕ) (count : ℤ) (cell : Option Counter)
      → get now cell ≡ cell
      → Shows cell n m
      → (settle limit lockout casefold now count cell).0 ≡ true
      → Shows (settle limit lockout casefold now count cell).1 n m × (within limit count ≡ true)
  unfolding settle
  settle-allowed now n m count cell live h allowed = elim (Bool-cases (ltb_ℤ (pos limit) count)) [
    | inl e ↦ cc
    | inr e ↦ rw e (expire-Shows now (lockout * 60) n m cell live h, ground arith)
  ]

  give_back-Shows :
      (now n m : ℕ) (cell : Option Counter)
      → get now cell ≡ cell
      → 1 ≤ n
      → Shows cell n m
      → Shows (give_back limit lockout casefold now cell) (n - 1) m
  unfolding give_back
  give_back-Shows now n m none live p h = absurd (omega (arith, p, h.0))
  give_back-Shows now n m (some c) live p h =
      let there : is_some (get now (some c)) ≡ true = rw live refl in
      rw there (add-down now n m (some c) live p h)

  -- A counter that is gone stays gone.
  give_back-Shows_late :
      (now n m : ℕ) (cell : Option Counter)
      → get now cell ≡ cell
      → Shows cell n m
      → (k : ℕ) × (k ≤ m + 1) × Shows (give_back limit lockout casefold now cell) n k
  unfolding give_back
  give_back-Shows_late now n m none live h = (m, omega arith, h)
  give_back-Shows_late now n m (some c) live h =
      let there : is_some (get now (some c)) ≡ true = rw live refl in
      (m + 1, omega arith, rw there (add-down_late now n m (some c) live h))

  -- What of the attempts under way is within the limit, when one of them goes.
  pick :
      (a : Race) (before after : List ℤ) (count : ℤ) (b : Bool)
      → a.under_way ≡ before ++ count ∷ after
      → within limit count ≡ b
      → (length a.under_way ≡ length (before ++ after) + 1)
        × (length (keep (within limit) a.under_way)
            ≡ length (keep (within limit) (before ++ after)) + (if b then 1 else 0))
  pick a before after count b split e = (
    rw split (length-split before after count),
    subst
        (λ b.
          length (keep (within limit) a.under_way)
          ≡ length (keep (within limit) (before ++ after)) + (if b then 1 else 0))
        e (rw split (length-keep-split before after count)),
  )

  Command-IsCounted : {a b : Race} → IsCounted a → Command a b → IsCounted b
  Command-IsCounted {a} i (count_one now live) =
      let n = a.granted + length a.under_way in
      let m = i.slack in
      let counted = add-up now n m a.cell live i.counts in
      let counted_le : within limit (sub_ℕ (n + 1) m) ≡ true → n + 1 ≤ limit + m =
        λ h. ground (arith, h) in
      record {
        slack = m;
        counts = rw counted (ap (λ k. sub_ℕ k m) (omega arith));
        spent = i.spent;
        bounded = elim (Bool-cases (within limit (add now (pos 1) a.cell).value)) [
          | inl e ↦ rw e (
              omega (
                arith,
                counted_le (subst (λ v. within limit v ≡ true) counted e),
                length-keep-le (within limit) a.under_way,
                i.spent,
              ))
          | inr e ↦ rw e i.bounded
        ];
      }
  Command-IsCounted {a} i (refuse now before after count live split refused) =
      let size : length a.under_way ≡ length (before ++ after) + 1 =
        rw split (length-split before after count) in
      let (shown, over) =
        settle-refused now (a.granted + length a.under_way) i.slack count a.cell live
          (omega (arith, size)) i.counts refused in
      record {
        slack = i.slack;
        counts =
            subst (λ k. Shows (settle limit lockout casefold now count a.cell).1 k i.slack)
              (omega (arith, size)) shown;
        spent = i.spent;
        bounded = omega (arith, (pick a before after count false split over).1, i.bounded);
      }
  Command-IsCounted {a} i (allow now before after count live split allowed) =
      let (shown, under) =
        settle-allowed now (a.granted + length a.under_way) i.slack count a.cell live i.counts
          allowed in
      let (size, kept) = pick a before after count true split under in
      record {
        slack = i.slack;
        counts =
            subst (λ k. Shows (settle limit lockout casefold now count a.cell).1 k i.slack)
              (omega (arith, size)) shown;
        spent = i.spent;
        bounded = omega (arith, kept, i.bounded);
      }
  Command-IsCounted {a} i (given_back now live some_granted) = record {
    slack = i.slack;
    counts =
        subst (λ k. Shows (give_back limit lockout casefold now a.cell) k i.slack)
          (omega (arith, some_granted))
          (give_back-Shows now (a.granted + length a.under_way) i.slack a.cell live
            (omega (arith, some_granted)) i.counts);
    spent = i.spent;
    bounded = omega (arith, i.bounded);
  }
  Command-IsCounted {a} i (refuse_late now count live some_earlier refused) = record {
    slack = i.slack + 1;
    counts =
        settle-refused_late now (a.granted + length a.under_way) i.slack count a.cell live i.counts
          refused;
    spent = omega (arith, i.spent, some_earlier);
    bounded = i.bounded;
  }
  Command-IsCounted {a} i (allow_late now count live some_earlier allowed) = record {
    slack = i.slack;
    counts =
        (settle-allowed now (a.granted + length a.under_way) i.slack count a.cell live i.counts
          allowed).0;
    spent = i.spent;
    bounded = i.bounded;
  }
  Command-IsCounted {a} i (given_back_late now live some_earlier) =
      let (m, le, shown) =
        give_back-Shows_late now (a.granted + length a.under_way) i.slack a.cell live i.counts in
      record {
        slack = m;
        counts = shown;
        spent = omega (arith, i.spent, some_earlier, le);
        bounded = i.bounded;
      }
  Command-IsCounted {a} i (delete some_allowed) = record {
    slack = 0;
    counts = (refl, refl);
    spent = omega arith;
    bounded = omega arith;
  }

  Commands-IsCounted : {a : Race} → Commands a → IsCounted a
  Commands-IsCounted start = record {
    slack = 0;
    counts = (refl, refl);
    spent = omega arith;
    bounded = omega arith;
  }
  Commands-IsCounted (then_one before last) = Command-IsCounted (Commands-IsCounted before) last

  -- However the commands of attempts at the same time interleave, the deletion of the counter by
  -- successful attempts included, while the counter does not expire: of the attempts counted
  -- since the last deletion, those allowed and not given back are no more than the limit and the
  -- attempts carried over it, which are those that were then under way or allowed and not given
  -- back, less the successful one. Before the first deletion none are.
  pub Commands-bounded : {a : Race} → Commands a → a.granted ≤ limit + a.carried
  Commands-bounded commands = omega (arith, (Commands-IsCounted commands).bounded)
