-- ===== src/Control/Sellers/Chosen.antt =====
-- Rows that pass a test, for the DELETE and the INSERTs of postgres_seller.go.
use knowledge_mesh.Base.{
  ◌≡◌, List, [], ◌∷◌, ◌++◌, ap, refl, if◌then◌else◌, select, ◌≢◌, Bool, not, Bool-cases, inl, inr,
}
use knowledge_mesh.Base.Text.{Text, is_empty}

pub append-nil : {A : Type 0} (xs : List A) → xs ++ [] ≡ xs
append-nil [] = refl
append-nil (x ∷ xs) = ap (λ rest. x ∷ rest) (append-nil xs)

pub append_assoc : {A : Type 0} (xs ys zs : List A) → (xs ++ ys) ++ zs ≡ xs ++ (ys ++ zs)
append_assoc [] ys zs = refl
append_assoc (x ∷ xs) ys zs = ap (λ rest. x ∷ rest) (append_assoc xs ys zs)

-- The id that a model is inserted with: its own one, or else the new one that comes with it.
pub data IsWanted (own new : Text) : Text → Type 0 where
  has_own_id : own ≢ [] → IsWanted own new own
  gets_new_id : own ≡ [] → IsWanted own new new

pub own_or_new-IsWanted : (own new : Text) → IsWanted own new (if is_empty own then new else own)
own_or_new-IsWanted [] new = gets_new_id refl
own_or_new-IsWanted (c ∷ own) new = has_own_id λ h. cc

module _ {A : Type 0} (keep : A → Bool) where
  pub select-append : (xs ys : List A) → select keep (xs ++ ys) ≡ select keep xs ++ select keep ys
  select-append [] ys = refl
  select-append (x ∷ xs) ys = elim (Bool-cases (keep x)) [
    | inl e ↦ rw e (ap (λ rest. x ∷ rest) (select-append xs ys))
    | inr e ↦ rw e (select-append xs ys)
  ]

  pub select-select : (xs : List A) → select keep (select keep xs) ≡ select keep xs
  select-select [] = refl
  select-select (x ∷ xs) = elim (Bool-cases (keep x)) [
    | inl e ↦ rw e (rw e (ap (λ rest. x ∷ rest) (select-select xs)))
    | inr e ↦ rw e (select-select xs)
  ]

  pub select-rejected : (xs : List A) → select keep (select (λ x. not (keep x)) xs) ≡ []
  select-rejected [] = refl
  select-rejected (x ∷ xs) = elim (Bool-cases (keep x)) [
    | inl e ↦ rw e (select-rejected xs)
    | inr e ↦ rw e (rw e (select-rejected xs))
  ]
