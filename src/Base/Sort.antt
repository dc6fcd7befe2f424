-- ===== src/Base/Sort.antt =====
-- Go's `sort.SliceStable`, as a stable insertion sort by the `less` of the caller. Where `less` is a strict
-- weak order, there is only one stable sort; where it is not, Go promises nothing of the order.
use knowledge_mesh.Base.{
  if◌then◌else◌, Bool-cases, All, Member, ◌≡◌, refl, inl, inr, Bool, true, false, List, [], ◌∷◌,
  arith, sym,
}
use mathlib.Core.Path.{subst}

module _ {A : Type 0} (less : A → A → Bool) where
  abbrev insert : A → List A → List A
  insert x [] = x ∷ []
  insert x (y ∷ ys) = let rest = insert x ys in if less y x then y ∷ rest else x ∷ y ∷ ys

  abbrev pub slice_stable : List A → List A
  slice_stable [] = []
  slice_stable (x ∷ xs) = insert x (slice_stable xs)

  -- One pass that keeps the earliest of the least values.
  unfoldable pub least : A → List A → A
  least x [] = x
  least x (y ∷ ys) = let best = least y ys in if less best x then best else x

  least_lower : (x y : A) (ys : List A) → less (least y ys) x ≡ true → least x (y ∷ ys) ≡ least y ys
  unfolding least
  least_lower x y ys h = rw h

  least_kept : (x y : A) (ys : List A) → less (least y ys) x ≡ false → least x (y ∷ ys) ≡ x
  unfolding least
  least_kept x y ys h = rw h

  -- The first of the sorted values is the one that a single pass finds.
  pub slice_stable-head :
      (x : A) (xs : List A) → (rest : List A) × (slice_stable (x ∷ xs) ≡ least x xs ∷ rest)
  unfolding least
  slice_stable-head x [] = ([], refl)
  slice_stable-head x (y ∷ ys) = put_first (slice_stable (y ∷ ys)) (slice_stable-head y ys)
    where
      put_first :
          (sorted : List A)
          → (rest : List A) × (sorted ≡ least y ys ∷ rest)
          → (rest : List A) × (insert x sorted ≡ least x (y ∷ ys) ∷ rest)
      put_first sorted (r, e) = rw e (elim (Bool-cases (less (least y ys) x)) [
        | inl below ↦ (insert x r, rw below)
        | inr kept ↦ (least y ys ∷ r, rw kept)
      ])

  pub Member-least : (x : A) (xs : List A) → Member (least x xs) (x ∷ xs)
  unfolding least
  Member-least x [] = inl refl
  Member-least x (y ∷ ys) = elim (Bool-cases (less (least y ys) x)) [
    | inl below ↦
        subst (λ b. Member b (x ∷ y ∷ ys)) (sym (least_lower x y ys below))
          (inr (Member-least y ys))
    | inr kept ↦ inl (least_kept x y ys kept)
  ]

  -- `less` is irreflexive, and what it does not separate hangs together, on the values of `Good`.
  module _ (Good : A → Type 0)
      (asym : (a b : A) → Good a → Good b → less a b ≡ true → less b a ≡ false)
      (not_less_trans : (a b c : A)
        → Good a
        → Good b
        → Good c
        → less a b ≡ false
        → less b c ≡ false
        → less a c ≡ false) where
    not_less_self : (a : A) → Good a → less a a ≡ false
    not_less_self a g = elim (Bool-cases (less a a)) [
      | inl below ↦ asym a a g g below
      | inr kept ↦ kept
    ]

    least-Good : (x : A) (xs : List A) → Good x → All Good xs → Good (least x xs)
    unfolding least
    least-Good x [] g gs = g
    least-Good x (y ∷ ys) g gs = ground (arith, least-Good y ys gs.0 gs.1)

    none_below :
        (b x : A) (zs : List A)
        → Good b
        → Good x
        → less b x ≡ false
        → All Good zs
        → All (λ a. less a b ≡ false) zs
        → All (λ a. less a x ≡ false) zs
    none_below b x [] gb gx h gs ls = tt
    none_below b x (z ∷ zs) gb gx h gs ls =
        (not_less_trans z b x gs.0 gb gx ls.0 h, none_below b x zs gb gx h gs.1 ls.1)

    -- Nothing in the list is less than it.
    pub least-minimal :
        (x : A) (xs : List A)
        → Good x
        → All Good xs
        → All (λ a. less a (least x xs) ≡ false) (x ∷ xs)
    unfolding least
    least-minimal x [] g gs = (not_less_self x g, tt)
    least-minimal x (y ∷ ys) g gs =
        let b : A = least y ys in
        let gb : Good b = least-Good y ys gs.0 gs.1 in
        let low : All (λ a. less a b ≡ false) (y ∷ ys) = least-minimal y ys gs.0 gs.1 in
        elim (Bool-cases (less b x)) [
          | inl below ↦
              subst (λ c. All (λ a. less a c ≡ false) (x ∷ y ∷ ys)) (sym (least_lower x y ys below))
                (asym b x gb g below, low)
          | inr kept ↦
              subst (λ c. All (λ a. less a c ≡ false) (x ∷ y ∷ ys)) (sym (least_kept x y ys kept))
                (not_less_self x g, none_below b x (y ∷ ys) gb g kept gs low)
        ]
