-- ===== src/Reports/Order.antt =====
-- Rows in the order of a comparison that leaves rows with distinct identifiers no ties: the order_by
-- of get_reports_paginated in app/services/report.py.
use open_whistle.Base.{
  suc, if◌then◌else◌, ◌≡◌, refl, sym, ap, ◌∙◌, ◌≢◌, inl, inr, Bool, true, false, List, [], ◌∷◌,
  keep, All, All-keep, length,
}
use mathlib.Core.Path.{subst}
use mathlib.Core.List.{Memᴰ, Permᴰ}
use mathlib.Core.List.Memᴰ
use mathlib.Core.List.Permᴰ
use open_whistle.Models.{Report}

pub All-perm : (P : Report → Type 0) {xs ys : List Report} → Permᴰ xs ys → All P xs → All P ys
All-perm P Permᴰ.nil h = h
All-perm P (Permᴰ.cons e d) (p, h) = (subst P e p, All-perm P d h)
All-perm P (Permᴰ.swap e e') (p, (p', h)) = (subst P e' p', (subst P e p, h))
All-perm P (Permᴰ.trans d d') h = All-perm P d' (All-perm P d h)

pub length-perm : {xs ys : List Report} → Permᴰ xs ys → length xs ≡ length ys
length-perm Permᴰ.nil = refl
length-perm (Permᴰ.cons e d) = ap suc (length-perm d)
length-perm (Permᴰ.swap e e') = refl
length-perm (Permᴰ.trans d d') = length-perm d ∙ length-perm d'

lookup : (P : Report → Type 0) {x : Report} (xs : List Report) → All P xs → Memᴰ x xs → P x
lookup P [] h m = absurd (Memᴰ.not-nil m)
lookup P (y ∷ ys) (p, h) (Memᴰ.head e) = subst P (sym e) p
lookup P (y ∷ ys) (p, h) (Memᴰ.tail m) = lookup P ys h m

both :
    (P Q R : Report → Type 0) (xs : List Report)
    → ((z : Report) → P z → Q z → R z)
    → All P xs
    → All Q xs
    → All R xs
both P Q R [] f h k = tt
both P Q R (x ∷ xs) f (p, h) (q, k) = (f x p q, both P Q R xs f h k)

mem_all : (xs : List Report) → All (λ z. Memᴰ z xs) xs
mem_all [] = tt
mem_all (x ∷ xs) = (
  Memᴰ.head refl,
  both (λ z. Memᴰ z xs) (λ z. Memᴰ z xs) (λ z. Memᴰ z (x ∷ xs)) xs (λ z m _. Memᴰ.tail m)
      (mem_all xs) (mem_all xs),
)

-- Each row is related to those after it.
abbrev pub Pairs : (Report → Report → Type 0) → List Report → Type 0
Pairs R [] = Unit
Pairs R (x ∷ xs) = All (R x) xs × Pairs R xs

-- No two rows have one identifier.
abbrev pub Distinct : List Report → Type 0
Distinct = Pairs (λ x z. x.id ≢ z.id)

-- No row is before an earlier one.
abbrev pub IsSorted : (Report → Report → Bool) → List Report → Type 0
IsSorted before = Pairs (λ x z. before z x ≡ false)

Pairs-perm :
    (R : Report → Report → Type 0) {xs ys : List Report}
    → ((x z : Report) → R x z → R z x)
    → Permᴰ xs ys
    → Pairs R xs
    → Pairs R ys
Pairs-perm R flip Permᴰ.nil h = h
Pairs-perm R flip (Permᴰ.cons {l₂ = l} e d) (h, t) =
    (subst (λ c. All (R c) l) e (All-perm (R _) d h), Pairs-perm R flip d t)
Pairs-perm R flip (Permᴰ.swap {a} {b} {a'} {b'} {l} e e') ((p, h), (h', t)) = (
  subst (λ c. All (R c) (b' ∷ l)) e' (subst (R b) e (flip a b p), h'),
  (subst (λ c. All (R c) l) e h, t),
)
Pairs-perm R flip (Permᴰ.trans d d') h = Pairs-perm R flip d' (Pairs-perm R flip d h)

pub Pairs-keep :
    (R : Report → Report → Type 0) (p : Report → Bool) (xs : List Report)
    → Pairs R xs
    → Pairs R (keep p xs)
Pairs-keep R p [] h = tt
Pairs-keep R p (x ∷ xs) (h, t) =
    elim (p x) as (λ b. Pairs R (if b then x ∷ keep p xs else keep p xs)) [
      | true ↦ (All-keep (R x) p xs h, Pairs-keep R p xs t)
      | false ↦ Pairs-keep R p xs t
    ]

module _ (before : Report → Report → Bool)
    (tied : (x y : Report) → before x y ≡ false → before y x ≡ false → x.id ≡ y.id) where
  -- What remains when the first row goes.
  rest :
      (x y : Report) (xs ys : List Report)
      → x ≡ y
      → All (λ z. x.id ≢ z.id) xs
      → All (λ z. Memᴰ z (y ∷ ys)) xs
      → All (λ z. Memᴰ z ys) xs
  rest x y xs ys same =
      both (λ z. x.id ≢ z.id) (λ z. Memᴰ z (y ∷ ys)) (λ z. Memᴰ z ys) xs
        (λ z other m. elim (Memᴰ.cases_cons m) [
          | inl e ↦ absurd (other (ap (λ (r : Report). r.id) (same ∙ sym e)))
          | inr m' ↦ m'
        ])

  same_rows :
      (xs ys : List Report)
      → IsSorted before xs
      → IsSorted before ys
      → Distinct xs
      → Distinct ys
      → All (λ z. Memᴰ z ys) xs
      → All (λ z. Memᴰ z xs) ys
      → xs ≡ ys
  same_rows [] [] sx sy dx dy mx my = refl
  same_rows [] (y ∷ ys) sx sy dx dy mx my = absurd (Memᴰ.not-nil my.0)
  same_rows (x ∷ xs) [] sx sy dx dy mx my = absurd (Memᴰ.not-nil mx.0)
  same_rows (x ∷ xs) (y ∷ ys) sx sy dx dy mx my =
      let same : x ≡ y = elim (Memᴰ.cases_cons mx.0) [
        | inl e ↦ e
        | inr m ↦ elim (Memᴰ.cases_cons my.0) [
          | inl e ↦ sym e
          | inr m' ↦ absurd (
              lookup (λ z. x.id ≢ z.id) xs dx.0 m'
                (tied x y (lookup (λ z. before z y ≡ false) ys sy.0 m)
                  (lookup (λ z. before z x ≡ false) xs sx.0 m')))
        ]
      ] in
      let others : xs ≡ ys =
        same_rows xs ys sx.1 sy.1 dx.1 dy.1 (rest x y xs ys same dx.0 mx.1)
          (rest y x ys xs (sym same) dy.0 my.1) in
      cc

  -- Two sorted orders of the same distinct rows are one.
  pub sorted_unique :
      (base xs ys : List Report)
      → Distinct base
      → Permᴰ xs base
      → Permᴰ ys base
      → IsSorted before xs
      → IsSorted before ys
      → xs ≡ ys
  sorted_unique base xs ys distinct d d' sx sy =
      let other : (x z : Report) → x.id ≢ z.id → z.id ≢ x.id = λ x z h e. h (sym e) in
      let across : Permᴰ xs ys = Permᴰ.trans d (Permᴰ.symm d') in
      same_rows xs ys sx sy (Pairs-perm (λ x z. x.id ≢ z.id) other (Permᴰ.symm d) distinct)
        (Pairs-perm (λ x z. x.id ≢ z.id) other (Permᴰ.symm d') distinct)
        (All-perm (λ z. Memᴰ z ys) (Permᴰ.symm across) (mem_all ys))
        (All-perm (λ z. Memᴰ z xs) across (mem_all xs))
