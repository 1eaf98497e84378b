-- ===== src/Prelude/Sort.antt =====
-- `sorted(xs, key=...)`: Python's sort is stable, and insertion sort is the reference for a
-- stable sort. `le` is the order of the keys.
use vsat_frequency_managemen.Prelude.{
  All, All-In, All-self, Bool, Bool-cases, In, List, Pairs, [], any, ap, arith, false,
  if◌then◌else◌, inl, inr, refl, true, ◌||◌, ◌∙◌, ◌∷◌, ◌≡◌,
}

module _ {ℓ} {A : Type ℓ} (le : A → A → Bool) where
  -- Before the first member that is not smaller, so equal members keep their order when the list
  -- is inserted from its end.
  unfoldable pub insert : A → List A → List A
  insert a [] = a ∷ []
  insert a (x ∷ xs) = let rest = x ∷ insert a xs in if le a x then a ∷ x ∷ xs else rest

  unfoldable pub sorted : List A → List A
  unfolding insert
  sorted [] = []
  sorted (x ∷ xs) = insert x (sorted xs)

module _ {ℓ κ} {A : Type ℓ} (le : A → A → Bool) (P : A → Type κ) where
  pub All-insert : (a : A) (xs : List A) → P a → All P xs → All P (insert le a xs)
  unfolding insert
  All-insert a [] h hs = (h, tt)
  All-insert a (x ∷ xs) h hs = ground (arith, All-insert a xs h hs.1)

  pub All-insert_back : (a : A) (xs : List A) → All P (insert le a xs) → P a × All P xs
  unfolding insert
  All-insert_back a [] h = h
  All-insert_back a (x ∷ xs) h = ground (arith, All-insert_back a xs)

  pub All-sorted : (xs : List A) → All P xs → All P (sorted le xs)
  unfolding sorted
  All-sorted [] h = tt
  All-sorted (x ∷ xs) h = All-insert x (sorted le xs) h.0 (All-sorted xs h.1)

  pub All-sorted_back : (xs : List A) → All P (sorted le xs) → All P xs
  unfolding sorted
  All-sorted_back [] h = tt
  All-sorted_back (x ∷ xs) h =
      let (hx, hs) = All-insert_back x (sorted le xs) h in (hx, All-sorted_back xs hs)

module _ {ℓ κ} {A : Type ℓ} (le : A → A → Bool) (R : A → A → Type κ) where
  -- A symmetric relation of the members does not depend on their order.
  pub Pairs-insert :
      (sym_R : (a b : A) → R a b → R b a) (a : A) (xs : List A)
      → All (R a) xs
      → Pairs R xs
      → Pairs R (insert le a xs)
  unfolding insert
  Pairs-insert sym_R a [] h hs = (tt, tt)
  Pairs-insert sym_R a (x ∷ xs) h hs =
      let rest : Pairs R (insert le a xs) = Pairs-insert sym_R a xs h.1 hs.1 in
      let head = All-insert le (R x) a xs (sym_R a x h.0) hs.0 in ground arith

  pub Pairs-insert_back :
      (sym_R : (a b : A) → R a b → R b a) (a : A) (xs : List A)
      → Pairs R (insert le a xs)
      → All (R a) xs × Pairs R xs
  unfolding insert
  Pairs-insert_back sym_R a [] h = (tt, tt)
  Pairs-insert_back sym_R a (x ∷ xs) h =
      ground (arith, Pairs-insert_back sym_R a xs, All-insert_back le (R x) a xs, sym_R x a)

  pub Pairs-sorted :
      (sym_R : (a b : A) → R a b → R b a) (xs : List A) → Pairs R xs → Pairs R (sorted le xs)
  unfolding sorted
  Pairs-sorted sym_R [] h = tt
  Pairs-sorted sym_R (x ∷ xs) h =
      Pairs-insert sym_R x (sorted le xs) (All-sorted le (R x) xs h.0) (Pairs-sorted sym_R xs h.1)

  pub Pairs-sorted_back :
      (sym_R : (a b : A) → R a b → R b a) (xs : List A) → Pairs R (sorted le xs) → Pairs R xs
  unfolding sorted
  Pairs-sorted_back sym_R [] h = tt
  Pairs-sorted_back sym_R (x ∷ xs) h =
      let (head, rest) = Pairs-insert_back sym_R x (sorted le xs) h in
      (All-sorted_back le (R x) xs head, Pairs-sorted_back sym_R xs rest)

module _ {ℓ} {A : Type ℓ} (le : A → A → Bool) where
  abbrev pub IsSorted : List A → Type 0
  IsSorted = Pairs (λ a b. le a b ≡ true)

  module _ (total : (a b : A) → le a b ≡ false → le b a ≡ true)
      (trans : (a b c : A) → le a b ≡ true → le b c ≡ true → le a c ≡ true) where
    All-le :
        (a x : A) (xs : List A)
        → le a x ≡ true
        → All (λ b. le x b ≡ true) xs
        → All (λ b. le a b ≡ true) xs
    All-le a x [] h hs = tt
    All-le a x (y ∷ xs) h hs = (trans a x y h hs.0, All-le a x xs h hs.1)

    pub insert-IsSorted : (a : A) (xs : List A) → IsSorted xs → IsSorted (insert le a xs)
    unfolding insert
    insert-IsSorted a [] h = (tt, tt)
    insert-IsSorted a (x ∷ xs) h = elim (Bool-cases (le a x)) [
      | inl e ↦ rw e ((e, All-le a x xs e h.0), h)
      | inr e ↦
          rw e (All-insert le (λ b. le x b ≡ true) a xs (total a x e) h.0, insert-IsSorted a xs h.1)
    ]

    -- A sort by a total order puts the list in that order.
    pub sorted-IsSorted : (xs : List A) → IsSorted (sorted le xs)
    unfolding sorted
    sorted-IsSorted [] = tt
    sorted-IsSorted (x ∷ xs) = insert-IsSorted x (sorted le xs) (sorted-IsSorted xs)

module _ {ℓ} {A : Type ℓ} (le : A → A → Bool) (p : A → Bool) where
  any-insert : (a : A) (xs : List A) → any p (insert le a xs) ≡ (p a || any p xs)
  unfolding insert
  any-insert a [] = refl
  any-insert a (x ∷ xs) = elim (Bool-cases (le a x)) [
    | inl e ↦ rw e refl
    | inr e ↦ rw e (swapped (p x) (p a) _ _ (any-insert a xs))
  ]
    where
      swapped : (a b c d : Bool) → d ≡ (b || c) → (a || d) ≡ (b || (a || c))
      swapped a b c d h = ground arith

  -- A test of the members does not depend on their order.
  pub any-sorted : (xs : List A) → any p (sorted le xs) ≡ any p xs
  unfolding sorted
  any-sorted [] = refl
  any-sorted (x ∷ xs) = any-insert x (sorted le xs) ∙ ap (λ b. p x || b) (any-sorted xs)

module _ {A : Type 0} (le : A → A → Bool) where
  -- A sort loses no member.
  pub In-sorted : (a : A) (xs : List A) → In a xs → In a (sorted le xs)
  In-sorted a xs i =
      All-In (λ x. In x (sorted le xs)) xs
        (All-sorted_back le (λ x. In x (sorted le xs)) xs (All-self (sorted le xs))) a i
