-- ===== src/Prelude/Found.antt =====
-- What Boolean tests say: of numbers, of two conditions, and of some member of a list.
use vsat_frequency_managemen.Prelude.{
  Bool, List, [], any, arith, false, inl, inr, refl, true, ℕ, ◌&&◌, ◌==◌, ◌||◌, ◌↔◌, ◌∷◌, ◌≡◌, ◌⊎◌,
}

pub equal_iff : (m n : ℕ) → ((m == n) ≡ true) ↔ (m ≡ n)
equal_iff m n = (λ e. ground arith, λ e. ground arith)

-- One of the list has the property.
abbrev pub AtLeastOne : {A : Type 0} → (A → Type 0) → List A → Type 0
AtLeastOne P [] = ⊥
AtLeastOne P (x ∷ xs) = P x ⊎ AtLeastOne P xs

pub or_iff : (a b : Bool) → (a || b ≡ true) ↔ ((a ≡ true) ⊎ (b ≡ true))
or_iff true b = (λ h. inl refl, λ h. refl)
or_iff false b = (λ h. inr h, λ h. elim h [ inl e ↦ cc | inr e ↦ e ])

pub and_iff : (a b : Bool) → (a && b ≡ true) ↔ ((a ≡ true) × (b ≡ true))
and_iff a b = (λ h. ground arith, λ h. ground arith)

pub any-AtLeastOne :
    {A : Type 0} (p : A → Bool) (P : A → Type 0)
    → ((x : A) → (p x ≡ true) ↔ P x)
    → (xs : List A) → (any p xs ≡ true) ↔ AtLeastOne P xs
any-AtLeastOne p P meant [] = (λ h. cc, λ h. absurd h)
any-AtLeastOne p P meant (x ∷ xs) =
    let split = or_iff (p x) (any p xs) in
    let rest = any-AtLeastOne p P meant xs in
    (
      λ h. elim (split.0 h) [ inl e ↦ inl ((meant x).0 e) | inr e ↦ inr (rest.0 e) ],
      λ h. split.1 (elim h as (λ _. (p x ≡ true) ⊎ (any p xs ≡ true)) [
        | inl e ↦ inl ((meant x).1 e)
        | inr e ↦ inr (rest.1 e)
      ]),
    )
