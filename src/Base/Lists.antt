-- ===== src/Base/Lists.antt =====
-- Lists measured by native numbers, Boolean searches, and predicates by recursion.
use Prim.Native.Nat.{ℕ, suc, ◌+◌, ◌≤◌}
use knowledge_mesh.Base.Tests.{if◌then◌else◌, Bool-cases}
use mathlib.Core.Bool.{Bool, true, false}
use mathlib.Core.List.{List, [], ◌∷◌, ◌++◌}
use mathlib.Core.Logic.{◌⊎◌, inl, inr}
use mathlib.Core.Option.{Option, none, some}
use mathlib.Core.Path.{◌≡◌, subst, sym}
use native.Mathlib.Omega.{arith}

abbrev pub All {ℓ κ} : {A : Type ℓ} → (A → Type κ) → List A → Type κ
All P [] = Unit
All P (x ∷ xs) = P x × All P xs

-- The list holds a value with the property.
abbrev pub Any {ℓ} : {A : Type ℓ} → (A → Type 0) → List A → Type 0
Any P [] = ⊥
Any P (x ∷ xs) = P x ⊎ Any P xs

abbrev pub Member : {A : Type 0} → A → List A → Type 0
Member a = Any λ x. a ≡ x

module _ {ℓ} {A : Type ℓ} where
  abbrev pub length : List A → ℕ
  length [] = 0
  length (x ∷ xs) = suc (length xs)

  -- The loop `for x { if !keep(x) { continue }; out = append(out, x) }`.
  abbrev pub select : (A → Bool) → List A → List A
  select keep [] = []
  select keep (x ∷ xs) = let rest = select keep xs in if keep x then x ∷ rest else rest

  -- The loop `for x { if test(x) { return true } }; return false`.
  abbrev pub any : (A → Bool) → List A → Bool
  any test [] = false
  any test (x ∷ xs) = let rest = any test xs in if test x then true else rest

  -- The loop `for x { if test(x) { return x } }`.
  abbrev pub find : (A → Bool) → List A → Option A
  find test [] = none
  find test (x ∷ xs) = let rest = find test xs in if test x then some x else rest

  -- `xs[0]`, where the code has made sure that there is one.
  abbrev pub head_or : List A → A → A
  head_or [] d = d
  head_or (x ∷ xs) d = x

  pub length-append : (xs ys : List A) → length (xs ++ ys) ≡ length xs + length ys
  length-append [] ys = omega arith
  length-append (x ∷ xs) ys = omega (arith, length-append xs ys)

  pub length-select-le : (keep : A → Bool) (xs : List A) → length (select keep xs) ≤ length xs
  length-select-le keep [] = omega arith
  length-select-le keep (x ∷ xs) = ground (arith, length-select-le keep xs)

  -- What a search returns passes the test.
  pub find-eq-some : (test : A → Bool) (xs : List A) {a : A} → find test xs ≡ some a → test a ≡ true
  find-eq-some test [] h = cc
  find-eq-some test (x ∷ xs) {a} h = ground (arith, find-eq-some test xs {a = a})

module _ {A : Type 0} (keep : A → Bool) where
  pub Member-select :
      (xs : List A) {a : A} → Member a (select keep xs) → Member a xs × (keep a ≡ true)
  Member-select [] m = absurd m
  Member-select (x ∷ xs) {a} m = ground (arith, Member-select xs {a = a})

  pub select-Member :
      (xs : List A) {a : A} → Member a xs → keep a ≡ true → Member a (select keep xs)
  select-Member [] m k = absurd m
  select-Member (x ∷ xs) {a} m k = ground (arith, select-Member xs {a = a})

  pub select-eq-nil : (xs : List A) → select keep xs ≡ [] → All (λ x. keep x ≡ false) xs
  select-eq-nil [] h = tt
  select-eq-nil (x ∷ xs) h = ground (arith, select-eq-nil xs)

  pub All-select {κ} : (P : A → Type κ) (xs : List A) → All P xs → All P (select keep xs)
  All-select P [] h = tt
  All-select P (x ∷ xs) h = elim (Bool-cases (keep x)) [
    | inl kept ↦ rw kept (h.0, All-select P xs h.1)
    | inr left ↦ rw left (All-select P xs h.1)
  ]

pub All-member {κ} :
    {A : Type 0} (P : A → Type κ) (xs : List A) {a : A} → All P xs → Member a xs → P a
All-member P [] h m = absurd m
All-member P (x ∷ xs) h (inl e) = subst P (sym e) h.0
All-member P (x ∷ xs) h (inr m) = All-member P xs h.1 m
