-- ===== src/Base/Strip.antt =====
-- Trimming a text twice.
use Prim.Native.Nat.{ℕ, zero, suc, ◌≤◌}
use Prim.Native.Char.{code}
use Prim.Native.String.{String, [], ◌∷◌}
use mathlib.Core.Path.{◌≡◌, refl, ap, ◌∙◌}
use mathlib.Core.Logic.{inl, inr}
use mathlib.Core.Bool.{false, ◌&&◌}
use native.Mathlib.Omega.{arith}
use open_whistle.Base.Tests.{Bool-cases}
use open_whistle.Base.Text.{is_space, is_empty, lstrip, rstrip, strip, characters, truncate}

-- No space at the left end.
IsTrimmed : String → Type 0
IsTrimmed [] = Unit
IsTrimmed (c ∷ s) = is_space (code c) ≡ false

lstrip-IsTrimmed : (s : String) → IsTrimmed (lstrip s)
unfolding lstrip IsTrimmed
lstrip-IsTrimmed [] = tt
lstrip-IsTrimmed (c ∷ s) = elim (Bool-cases (is_space (code c))) [
  | inl e ↦ rw e (lstrip-IsTrimmed s)
  | inr e ↦ rw e e
]

lstrip-eq_self : (s : String) → IsTrimmed s → lstrip s ≡ s
unfolding lstrip IsTrimmed
lstrip-eq_self [] h = refl
lstrip-eq_self (c ∷ s) h = rw h refl

rstrip-IsTrimmed : (s : String) → IsTrimmed s → IsTrimmed (rstrip s)
unfolding rstrip IsTrimmed
rstrip-IsTrimmed [] h = tt
rstrip-IsTrimmed (c ∷ s) h = rw h h

rstrip_idem : (s : String) → rstrip (rstrip s) ≡ rstrip s
unfolding rstrip
rstrip_idem [] = refl
rstrip_idem (c ∷ s) = elim (Bool-cases (is_space (code c) && is_empty (rstrip s))) [
  | inl e ↦ rw e refl
  | inr e ↦ rw e (rw (rstrip_idem s, e) refl)
]

pub strip_idem : (s : String) → strip (strip s) ≡ strip s
unfolding strip
strip_idem s =
    ap rstrip
      (lstrip-eq_self (rstrip (lstrip s)) (rstrip-IsTrimmed (lstrip s) (lstrip-IsTrimmed s)))
    ∙ rstrip_idem (lstrip s)

pub truncate-eq_self : (n : ℕ) (s : String) → characters s ≤ n → truncate n s ≡ s
unfolding truncate characters
truncate-eq_self zero [] h = refl
truncate-eq_self zero (c ∷ s) h = absurd (omega (arith, h))
truncate-eq_self (suc n) [] h = refl
truncate-eq_self (suc n) (c ∷ s) h = ap (λ rest. c ∷ rest) (truncate-eq_self n s (omega (arith, h)))
