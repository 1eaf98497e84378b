-- ===== src/Prelude/Table.antt =====
-- `Pairs` under the changes that a table makes to its rows.
use vsat_frequency_managemen.Prelude.{
  All, All-append, All-keep, All-split, Bool, Bool-cases, In, List, Pairs, [], any, arith, false,
  first, inl, inr, keep, refl, some, sym, true, ◌++◌, ◌∷◌, ◌≡◌,
}

module _ {ℓ κ} {A : Type ℓ} (P : A → Type κ) where
  pub All-replace :
      (done : List A) (a b : A) (todo : List A)
      → P b
      → All P (done ++ a ∷ todo)
      → All P (done ++ b ∷ todo)
  All-replace [] a b todo h hs = (h, hs.1)
  All-replace (d ∷ done) a b todo h hs = (hs.0, All-replace done a b todo h hs.1)

  pub All-without :
      (done : List A) (a : A) (todo : List A) → All P (done ++ a ∷ todo) → All P (done ++ todo)
  All-without [] a todo hs = hs.1
  All-without (d ∷ done) a todo hs = (hs.0, All-without done a todo hs.1)

module _ {ℓ κ} {A : Type ℓ} (R : A → A → Type κ) (sym_R : (a b : A) → R a b → R b a) where
  pub Pairs-snoc : (xs : List A) (a : A) → All (R a) xs → Pairs R xs → Pairs R (xs ++ a ∷ [])
  Pairs-snoc [] a h hs = (tt, tt)
  Pairs-snoc (x ∷ xs) a h hs =
      (All-append (R x) xs (a ∷ []) hs.0 (sym_R a x h.0, tt), Pairs-snoc xs a h.1 hs.1)

  pub Pairs-replace :
      (done : List A) (a b : A) (todo : List A)
      → All (R b) (done ++ todo)
      → Pairs R (done ++ a ∷ todo)
      → Pairs R (done ++ b ∷ todo)
  Pairs-replace [] a b todo h hs = (h, hs.1)
  Pairs-replace (d ∷ done) a b todo h hs =
      (All-replace (R d) done a b todo (sym_R b d h.0) hs.0, Pairs-replace done a b todo h.1 hs.1)

module _ {ℓ κ} {A : Type ℓ} (R : A → A → Type κ) (p : A → Bool) where
  -- A part of a list keeps a relation of its members.
  pub Pairs-keep : (xs : List A) → Pairs R xs → Pairs R (keep p xs)
  Pairs-keep [] h = tt
  Pairs-keep (x ∷ xs) h = ground (arith, Pairs-keep xs h.1, All-keep (R x) p xs h.0)

module _ {ℓ} {A : Type ℓ} (p : A → Bool) where
  pub any-false : (xs : List A) → any p xs ≡ false → All (λ x. p x ≡ false) xs
  any-false [] h = tt
  any-false (x ∷ xs) h = ground (arith, any-false xs)

module _ {A : Type 0} (p : A → Bool) where
  -- What `next` finds is a member that passes the test.
  pub first_found : (xs : List A) (a : A) → first p xs ≡ some a → In a xs × (p a ≡ true)
  first_found [] a e = cc
  first_found (x ∷ xs) a e = elim (Bool-cases (p x)) [
    | inl t ↦
        let same : some x ≡ some a = rw t at e in let xa : x ≡ a = cc in (inl (sym xa), rw (← xa) t)
    | inr f ↦ let (i, t) = first_found xs a (rw f at e) in (inr i, t)
  ]

module _ {ℓ κ} {A : Type ℓ} (R : A → A → Type κ) (sym_R : (a b : A) → R a b → R b a) where
  -- A member of a list is related to all the others.
  pub Pairs-middle :
      (done : List A) (a : A) (todo : List A)
      → Pairs R (done ++ a ∷ todo)
      → All (R a) (done ++ todo)
  Pairs-middle [] a todo h = h.0
  Pairs-middle (d ∷ done) a todo h =
      let (before, after) = All-split (R d) done (a ∷ todo) h.0 in
      (sym_R d a after.0, Pairs-middle done a todo h.1)

module _ {ℓ} {A : Type ℓ} (p : A → Bool) where
  pub none-any : (xs : List A) → All (λ x. p x ≡ false) xs → any p xs ≡ false
  none-any [] h = refl
  none-any (x ∷ xs) h = ground (arith, none-any xs h.1)
