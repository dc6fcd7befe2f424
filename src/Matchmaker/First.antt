-- ===== src/Matchmaker/First.antt =====
-- internal/matchmaker/matchmaker.go: which of several equally good sellers `Service.Match` returns.
use knowledge_mesh.Base.{
  Bool-cases, All, select, All-select, ◌≡◌, refl, ap, ◌∙◌, ◌⊎◌, inl, inr, Bool, true, false, List,
  [], ◌∷◌, ◌++◌, arith,
}
use knowledge_mesh.Base.Float.{Float, IsOrdered}
use knowledge_mesh.Base.Result.{ok, ok_injective}
use knowledge_mesh.Base.Sort.{least}
use knowledge_mesh.Matchmaker.{is_candidate, less, match}
use knowledge_mesh.Matchmaker.Choice.{
  IsEligible, Beats, HasNumbers, is_candidate-IsEligible, less_of_Beats, pick, match-eq-pick,
  match_sound, pick_minimal,
}
use knowledge_mesh.Types.{SellerNode, InferenceRequest}
use mathlib.Core.Path.{subst}

module _ {A : Type 0} (keep : A → Bool) where
  -- The value stands in the list so that what is kept on its two sides is given.
  record IsSplit (xs before after : List A) (a : A) : Type 0 where
    front : List A
    back : List A
    place : xs ≡ front ++ (a ∷ back)
    kept_front : select keep front ≡ before
    kept_back : select keep back ≡ after

  passed-IsSplit :
      {xs before after : List A} (x a : A)
      → keep x ≡ false
      → IsSplit xs before after a
      → IsSplit (x ∷ xs) before after a
  passed-IsSplit x a e h = record {
    front = x ∷ h.front;
    back = h.back;
    place = ap (λ later. x ∷ later) h.place;
    kept_front = rw e h.kept_front;
    kept_back = h.kept_back;
  }

  kept-IsSplit :
      (xs : List A) (x a : A) (before after : List A)
      → keep x ≡ true
      → x ∷ select keep xs ≡ before ++ (a ∷ after)
      → ((bs : List A) → select keep xs ≡ bs ++ (a ∷ after) → IsSplit xs bs after a)
      → IsSplit (x ∷ xs) before after a
  kept-IsSplit xs x a [] after e h later = record {
    front = [];
    back = xs;
    place = (let p : x ≡ a = cc in ap (λ first. first ∷ xs) p);
    kept_front = refl;
    kept_back = cc;
  }
  kept-IsSplit xs x a (b ∷ before) after e h later =
      let p : x ≡ b = cc in
      let q : select keep xs ≡ before ++ (a ∷ after) = cc in
      let k = later before q in
      record {
        front = x ∷ k.front;
        back = k.back;
        place = ap (λ rest. x ∷ rest) k.place;
        kept_front = rw e (ap (λ rest. x ∷ rest) k.kept_front ∙ ap (λ first. first ∷ before) p);
        kept_back = k.kept_back;
      }

  select-IsSplit :
      (xs before after : List A) (a : A)
      → select keep xs ≡ before ++ (a ∷ after)
      → IsSplit xs before after a
  select-IsSplit [] [] after a h = cc
  select-IsSplit [] (b ∷ before) after a h = cc
  select-IsSplit (x ∷ xs) before after a h = elim (Bool-cases (keep x)) [
    | inr e ↦ passed-IsSplit x a e (select-IsSplit xs before after a (rw e at h))
    | inl e ↦
        kept-IsSplit xs x a before after e (rw e at h) (λ bs k. select-IsSplit xs bs after a k)
  ]

  All-unselect :
      (P : A → Type 0) (xs : List A) → All P (select keep xs) → All (λ a. (keep a ≡ false) ⊎ P a) xs
  All-unselect P [] h = tt
  All-unselect P (x ∷ xs) h = elim (Bool-cases (keep x)) [
    | inr e ↦ (inl e, All-unselect P xs (rw e at h))
    | inl e ↦ let k : P x × All P (select keep xs) = rw e at h in (inr k.0, All-unselect P xs k.1)
  ]

All-weaken :
    {A : Type 0} (P Q : A → Type 0) (xs : List A) → ((a : A) → P a → Q a) → All P xs → All Q xs
All-weaken P Q [] f h = tt
All-weaken P Q (x ∷ xs) f (p, rest) = (f x p, All-weaken P Q xs f rest)

All-back :
    {A : Type 0} (P : A → Type 0) (xs : List A) (s : A) (ys : List A)
    → All P (xs ++ (s ∷ ys))
    → All P ys
All-back P [] s ys (p, rest) = rest
All-back P (x ∷ xs) s ys (p, rest) = All-back P xs s ys rest

module _ {F : Type 0} ⦃f : Float F⦄ where
  -- The seller stands in the list so that it beats every eligible one before it, and no eligible one
  -- after it beats it.
  pub record IsFirstBest (req : InferenceRequest F) (sellers : List (SellerNode F))
      (s : SellerNode F) : Type 0 where
    pub before : List (SellerNode F)
    pub after : List (SellerNode F)
    pub place : sellers ≡ before ++ (s ∷ after)
    pub eligible : IsEligible req s
    pub earlier : All (λ a. (¬ IsEligible req a) ⊎ Beats s a) before
    pub later : All (λ a. (¬ IsEligible req a) ⊎ (¬ Beats a s)) after

  less-Beats : (a b : SellerNode F) → less a b ≡ true → Beats a b
  unfolding less
  less-Beats a b h = elim (Bool-cases (f.eq a.price b.price)) [
    | inl e ↦ inr (e, ground (arith, h, e))
    | inr e ↦ inl (ground (arith, h, e))
  ]

  -- Everything before the earliest of the least is above it.
  least-split :
      (x : SellerNode F) (xs : List (SellerNode F))
      → (before : List (SellerNode F)) × (after : List (SellerNode F)) × (x ∷ xs
          ≡ before ++ (least less x xs ∷ after))
        × All (λ a. less (least less x xs) a ≡ true) before
  unfolding least
  least-split x [] = ([], [], refl, tt)
  least-split x (y ∷ ys) = elim (Bool-cases (less (least less y ys) x)) [
    | inr e ↦ rw e ([], y ∷ ys, refl, tt)
    | inl e ↦
        let (before, after, place, above) = least-split y ys in
        rw e (x ∷ before, after, ap (λ rest. x ∷ rest) place, (e, above))
  ]

  ineligible :
      (req : InferenceRequest F) (s : SellerNode F)
      → is_candidate req s ≡ false
      → ¬ IsEligible req s
  ineligible req s h e = cc (h, (is_candidate-IsEligible req s).1 e)

  -- If no price and no reputation is NaN, the seller that is returned is eligible, and of the eligible
  -- ones it is the first among the best: it is cheaper than each one before it, or as cheap and of a
  -- higher reputation, and none after it is so of it.
  pub match-IsFirstBest :
      IsOrdered F
      → (req : InferenceRequest F) (sellers : List (SellerNode F)) (s : SellerNode F)
      → All HasNumbers sellers
      → match req sellers ≡ ok s
      → IsFirstBest req sellers s
  match-IsFirstBest ordered req sellers s numbers h =
      let cs : List (SellerNode F) = select (is_candidate req) sellers in
      let picked : pick cs ≡ ok s = rw (← match-eq-pick req sellers) h in
      let minimal : All (λ a. less a s ≡ false) cs =
        pick_minimal ordered cs (All-select (is_candidate req) HasNumbers sellers numbers) picked in
      let (before, after, place, above) = pick-split cs picked in
      let k = select-IsSplit (is_candidate req) sellers before after s place in
      record {
        before = k.front;
        after = k.back;
        place = k.place;
        eligible = (match_sound req sellers h).1;
        earlier =
            All-weaken _ _ k.front
              (λ a. elim [ inl e ↦ inl (ineligible req a e) | inr e ↦ inr (less-Beats s a e) ])
              (All-unselect (is_candidate req) (λ a. less s a ≡ true) k.front
                (rw k.kept_front above));
        later =
            All-weaken _ _ k.back
              (λ a. elim [
                | inl e ↦ inl (ineligible req a e)
                | inr e ↦ inr (λ b. cc (e, less_of_Beats ordered a s b))
              ])
              (All-unselect (is_candidate req) (λ a. less a s ≡ false) k.back
                (rw k.kept_back (All-back _ before s after (rw place at minimal))));
      }
    where
      pick-split :
          (cs : List (SellerNode F)) {t : SellerNode F}
          → pick cs ≡ ok t
          → (before : List (SellerNode F)) × (after : List (SellerNode F)) × (cs
              ≡ before ++ (t ∷ after))
            × All (λ a. less t a ≡ true) before
      pick-split [] h = cc
      pick-split (x ∷ xs) {t} h =
          subst
            (λ u.
              (before : List (SellerNode F)) × (after : List (SellerNode F)) × (x ∷ xs
                ≡ before ++ (u ∷ after))
              × All (λ a. less u a ≡ true) before)
            (ok_injective h) (least-split x xs)
