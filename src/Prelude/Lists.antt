-- ===== src/Prelude/Lists.antt =====
-- Lists measured by native numbers, and tests and predicates over their members.
use Prim.Native.Nat.{ℕ, suc, ◌+◌, ◌≤◌}
use mathlib.Core.Path.{◌≡◌, refl}
use mathlib.Core.Logic.{◌↔◌, ◌⊎◌, inl, inr}
use mathlib.Core.Bool.{Bool, true, false, ◌||◌}
use mathlib.Core.Option.{Option, none, some}
use mathlib.Core.List.{List, [], ◌∷◌, ◌++◌}
use native.Mathlib.Omega.{arith}
use vsat_frequency_managemen.Prelude.Tests.{if◌then◌else◌, ltb, Bool-cases, not_both}

module _ {ℓ} {A : Type ℓ} where
  abbrev pub length : List A → ℕ
  length [] = 0
  length (x ∷ xs) = suc (length xs)

  -- `any(p(x) for x in xs)`
  abbrev pub any : (A → Bool) → List A → Bool
  any p [] = false
  any p (x ∷ xs) = p x || any p xs

  -- `[x for x in xs if p(x)]`
  abbrev pub keep : (A → Bool) → List A → List A
  keep p [] = []
  keep p (x ∷ xs) = let rest = keep p xs in if p x then x ∷ rest else rest

  -- `next((x for x in xs if p(x)), None)`
  abbrev pub first : (A → Bool) → List A → Option A
  first p [] = none
  first p (x ∷ xs) = let rest = first p xs in if p x then some x else rest

  -- A predicate of every member, by recursion.
  abbrev pub All {κ} : (A → Type κ) → List A → Type κ
  All P [] = Unit
  All P (x ∷ xs) = P x × All P xs

  -- A relation of every member to every later one.
  abbrev pub Pairs {κ} : (A → A → Type κ) → List A → Type κ
  Pairs R [] = Unit
  Pairs R (x ∷ xs) = All (R x) xs × Pairs R xs

  pub length-append : (xs ys : List A) → length (xs ++ ys) ≡ length xs + length ys
  length-append [] ys = omega arith
  length-append (x ∷ xs) ys = omega (arith, length-append xs ys)

module _ {ℓ κ} {A : Type ℓ} (P : A → Type κ) where
  pub All-append : (xs ys : List A) → All P xs → All P ys → All P (xs ++ ys)
  All-append [] ys hx hy = hy
  All-append (x ∷ xs) ys hx hy = (hx.0, All-append xs ys hx.1 hy)

  pub All-split : (xs ys : List A) → All P (xs ++ ys) → All P xs × All P ys
  All-split [] ys h = (tt, h)
  All-split (x ∷ xs) ys h = let rest = All-split xs ys h.1 in ((h.0, rest.0), rest.1)

  pub All-keep : (p : A → Bool) (xs : List A) → All P xs → All P (keep p xs)
  All-keep p [] h = tt
  All-keep p (x ∷ xs) h = ground (arith, All-keep p xs h.1)

module _ {ℓ κ} {A : Type ℓ} {P Q : A → Type κ} (f : (a : A) → P a → Q a) where
  pub All-map : (xs : List A) → All P xs → All Q xs
  All-map [] h = tt
  All-map (x ∷ xs) h = (f x h.0, All-map xs h.1)

pub All-both {ℓ κ} :
    {A : Type ℓ} (P Q : A → Type κ) (xs : List A) → All P xs → All Q xs → All (λ a. P a × Q a) xs
All-both P Q [] h k = tt
All-both P Q (x ∷ xs) h k = ((h.0, k.0), All-both P Q xs h.1 k.1)

-- `max(x, *xs)` and `min(x, *xs)` of numbers.
unfoldable pub maximum : ℕ → List ℕ → ℕ
maximum x [] = x
maximum x (y ∷ ys) = maximum (if ltb x y then y else x) ys

unfoldable pub minimum : ℕ → List ℕ → ℕ
minimum x [] = x
minimum x (y ∷ ys) = minimum (if ltb y x then y else x) ys

pub maximum-le :
    (x : ℕ) (xs : List ℕ) (n : ℕ) → (maximum x xs ≤ n) ↔ ((x ≤ n) × All (λ y. y ≤ n) xs)
unfolding maximum
maximum-le x [] n = (λ h. (h, tt), λ h. h.0)
maximum-le x (y ∷ ys) n = ground (arith, maximum-le (if ltb x y then y else x) ys n)

pub minimum-ge :
    (x : ℕ) (xs : List ℕ) (n : ℕ) → (n ≤ minimum x xs) ↔ ((n ≤ x) × All (λ y. n ≤ y) xs)
unfolding minimum
minimum-ge x [] n = (λ h. (h, tt), λ h. h.0)
minimum-ge x (y ∷ ys) n = ground (arith, minimum-ge (if ltb y x then y else x) ys n)

-- Membership as a value: where the member stands.
module _ {A : Type 0} where
  abbrev pub In : A → List A → Type 0
  In a [] = ⊥
  In a (x ∷ xs) = (a ≡ x) ⊎ In a xs

  pub All-In {κ} : (P : A → Type κ) (xs : List A) → All P xs → (a : A) → In a xs → P a
  All-In P [] h a i = elim i [ ]
  All-In P (x ∷ xs) h a (inl e) = rw e h.0
  All-In P (x ∷ xs) h a (inr i) = All-In P xs h.1 a i

  pub In-All {κ} : (P : A → Type κ) (xs : List A) → ((a : A) → In a xs → P a) → All P xs
  In-All P [] f = tt
  In-All P (x ∷ xs) f = (f x (inl refl), In-All P xs (λ a i. f a (inr i)))

  pub All-self : (xs : List A) → All (λ a. In a xs) xs
  All-self xs = In-All (λ a. In a xs) xs (λ a i. i)

module _ {ℓ} {A : Type ℓ} (p : A → Bool) where
  pub keep_passes : (xs : List A) → All (λ x. p x ≡ true) (keep p xs)
  keep_passes [] = tt
  keep_passes (x ∷ xs) = elim (Bool-cases (p x)) [
    | inl e ↦ rw e (e, keep_passes xs)
    | inr e ↦ rw e (keep_passes xs)
  ]

  pub All-keep_back {κ} :
      (P : A → Type κ) (xs : List A) → All P (keep p xs) → All (λ x. p x ≡ true → P x) xs
  All-keep_back P [] h = tt
  All-keep_back P (x ∷ xs) h = elim (Bool-cases (p x)) [
    | inl e ↦
        let kept : P x × All P (keep p xs) = rw e at h in ((λ _. kept.0), All-keep_back P xs kept.1)
    | inr e ↦
        let kept : All P (keep p xs) = rw e at h in
        ((λ t. not_both (p x) t e), All-keep_back P xs kept)
  ]

  pub All-keep_forth {κ} :
      (P : A → Type κ) (xs : List A) → All (λ x. p x ≡ true → P x) xs → All P (keep p xs)
  All-keep_forth P [] h = tt
  All-keep_forth P (x ∷ xs) h = by_flag (p x) _ h.0 (All-keep_forth P xs h.1)
    where
      by_flag :
          (b : Bool) (kept : List A)
          → (b ≡ true → P x)
          → All P kept
          → All P (if b then x ∷ kept else kept)
      by_flag true kept here rest = (here refl, rest)
      by_flag false kept here rest = rest

  pub first-none : (xs : List A) → All (λ x. p x ≡ false) xs → first p xs ≡ none
  first-none [] h = refl
  first-none (x ∷ xs) h = rw h.0 (first-none xs h.1)
