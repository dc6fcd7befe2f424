-- ===== src/Matchmaker/Choice.antt =====
-- internal/matchmaker/matchmaker.go: which seller `Service.Match` returns.
use knowledge_mesh.Base.{
  Any, any, ◌≡◌, ◌↔◌, ◌⊎◌, true, false, List, [], ◌∷◌, arith, All, Member, select, Member-select,
  select-Member, refl, All-select, All-member,
}
use knowledge_mesh.Base.Float.{Float, IsNumber, IsOrdered}
use knowledge_mesh.Base.Result.{Result, ok, err, ok_injective}
use knowledge_mesh.Base.Sort.{slice_stable, least, slice_stable-head, Member-least, least-minimal}
use knowledge_mesh.Base.Text.{Text, text_beq_iff, to_lower, equal_fold, trim_space}
use knowledge_mesh.Matchmaker.{
  has_skill, is_candidate, less, MatchError, no_seller_match, match, first_candidate,
}
use knowledge_mesh.Types.{Skill, SellerNode, InferenceRequest}
use mathlib.Core.Path.{subst}

module _ {F : Type 0} ⦃f : Float F⦄ where
  -- The seller is on duty, within the price limit if the request has one, and has the skill up to
  -- letter case and outer white space.
  pub record IsEligible (req : InferenceRequest F) (s : SellerNode F) : Type 0 where
    pub duty : s.on_duty ≡ true
    pub within : (f.lt f.nought req.max_price ≡ false) ⊎ (f.lt req.max_price s.price ≡ false)
    pub skilled :
        Any
          (λ (k : Skill F). to_lower (trim_space k.name) ≡ to_lower (trim_space req.skill.name))
          s.skills

  -- `a` is strictly better than `b`: cheaper, or of the same price and a higher reputation.
  abbrev pub Beats : SellerNode F → SellerNode F → Type 0
  Beats a b =
      (f.lt a.price b.price ≡ true)
      ⊎ ((f.eq a.price b.price ≡ true) × (f.lt b.reputation a.reputation ≡ true))

  -- Neither the price nor the reputation is NaN.
  abbrev pub HasNumbers : SellerNode F → Type 0
  HasNumbers s = IsNumber s.price × IsNumber s.reputation

  any_skill :
      (w : Text) (ks : List (Skill F))
      → any (λ (k : Skill F). equal_fold (trim_space k.name) (trim_space w)) ks ≡ true
      → Any (λ (k : Skill F). to_lower (trim_space k.name) ≡ to_lower (trim_space w)) ks
  any_skill w [] h = cc
  any_skill w (k ∷ ks) h =
      ground (
        arith,
        text_beq_iff (to_lower (trim_space k.name)) (to_lower (trim_space w)),
        any_skill w ks,
      )

  skill_any :
      (w : Text) (ks : List (Skill F))
      → Any (λ (k : Skill F). to_lower (trim_space k.name) ≡ to_lower (trim_space w)) ks
      → any (λ (k : Skill F). equal_fold (trim_space k.name) (trim_space w)) ks ≡ true
  skill_any w [] h = absurd h
  skill_any w (k ∷ ks) h =
      ground (
        arith,
        text_beq_iff (to_lower (trim_space k.name)) (to_lower (trim_space w)),
        skill_any w ks,
      )

  pub is_candidate-IsEligible :
      (req : InferenceRequest F) (s : SellerNode F) → (is_candidate req s ≡ true) ↔ IsEligible req s
  unfolding is_candidate has_skill
  is_candidate-IsEligible req s = (
    λ h. ground (arith, any_skill req.skill.name s.skills),
    λ e. ground (arith, e.skilled, skill_any req.skill.name s.skills),
  )

  module _ (ordered : IsOrdered F) where
    less-asym :
        (a b : SellerNode F) → HasNumbers a → HasNumbers b → less a b ≡ true → less b a ≡ false
    unfolding less
    less-asym a b (pa, ra) (pb, rb) h = ground (
      arith,
      ordered.not_lt_of_eq a.price b.price,
      ordered.not_lt_of_eq b.price a.price,
      ordered.eq_of_not_lt b.price a.price pb pa,
      ordered.lt_asym a.price b.price pa pb,
      ordered.lt_asym b.reputation a.reputation rb ra,
    )

    less-not_trans :
        (a b c : SellerNode F)
        → HasNumbers a
        → HasNumbers b
        → HasNumbers c
        → less a b ≡ false
        → less b c ≡ false
        → less a c ≡ false
    unfolding less
    less-not_trans a b c (pa, ra) (pb, rb) (pc, rc) h k = ground (
      arith,
      ordered.not_lt_of_eq a.price b.price,
      ordered.not_lt_of_eq b.price c.price,
      ordered.not_lt_of_eq a.price c.price,
      ordered.eq_of_not_lt a.price b.price pa pb,
      ordered.eq_of_not_lt b.price c.price pb pc,
      ordered.not_lt_trans a.price b.price c.price pa pb pc,
      ordered.not_lt_trans c.price a.price b.price pc pa pb,
      ordered.not_lt_trans b.price c.price a.price pb pc pa,
      ordered.not_lt_trans c.reputation b.reputation a.reputation rc rb ra,
      ordered.lt_asym a.price b.price pa pb,
    )

    pub less_of_Beats : (a b : SellerNode F) → Beats a b → less a b ≡ true
    unfolding less
    less_of_Beats a b h = ground (arith, ordered.not_lt_of_eq a.price b.price)

  -- The choice by a single pass over the candidates, with no sorting.
  abbrev pub pick : List (SellerNode F) → Result MatchError (SellerNode F)
  pick [] = err no_seller_match
  pick (x ∷ xs) = ok (least less x xs)

  first_candidate-eq-pick :
      (cs : List (SellerNode F)) → first_candidate (slice_stable less cs) ≡ pick cs
  first_candidate-eq-pick [] = refl
  first_candidate-eq-pick (x ∷ xs) = rw (slice_stable-head less x xs).1

  -- Sorting the candidates and taking the first of them gives what one pass gives that keeps the
  -- earliest of the best candidates; and the call fails exactly when there is no candidate.
  pub match-eq-pick :
      (req : InferenceRequest F) (sellers : List (SellerNode F))
      → match req sellers ≡ pick (select (is_candidate req) sellers)
  unfolding match
  match-eq-pick req sellers = first_candidate-eq-pick (select (is_candidate req) sellers)

  pick-Member : (cs : List (SellerNode F)) {s : SellerNode F} → pick cs ≡ ok s → Member s cs
  pick-Member [] h = cc
  pick-Member (x ∷ xs) {s} h =
      subst (λ t. Member t (x ∷ xs)) (ok_injective h) (Member-least less x xs)

  -- Whatever seller is returned is one of those offered, is on duty, is within the price limit of the
  -- request, and has the wanted skill.
  pub match_sound :
      (req : InferenceRequest F) (sellers : List (SellerNode F)) {s : SellerNode F}
      → match req sellers ≡ ok s
      → Member s sellers × IsEligible req s
  match_sound req sellers {s} h =
      let m : Member s sellers × (is_candidate req s ≡ true) =
        Member-select (is_candidate req) sellers
          (pick-Member (select (is_candidate req) sellers) (rw (← match-eq-pick req sellers) h)) in
      (m.0, (is_candidate-IsEligible req s).0 m.1)

  pick-ok :
      (cs : List (SellerNode F)) (s : SellerNode F)
      → Member s cs
      → (t : SellerNode F) × (pick cs ≡ ok t)
  pick-ok [] s m = absurd m
  pick-ok (x ∷ xs) s m = (least less x xs, refl)

  -- A seller is found whenever one that is offered is eligible: the call does not fail.
  pub match_complete :
      (req : InferenceRequest F) (sellers : List (SellerNode F)) (s : SellerNode F)
      → Member s sellers
      → IsEligible req s
      → (t : SellerNode F) × (match req sellers ≡ ok t)
  match_complete req sellers s m e = rw (match-eq-pick req sellers) (
      pick-ok (select (is_candidate req) sellers) s
        (select-Member (is_candidate req) sellers m ((is_candidate-IsEligible req s).1 e)))

  module _ (ordered : IsOrdered F) where
    pub pick_minimal :
        (cs : List (SellerNode F)) {s : SellerNode F}
        → All HasNumbers cs
        → pick cs ≡ ok s
        → All (λ a. less a s ≡ false) cs
    pick_minimal [] n h = tt
    pick_minimal (x ∷ xs) {s} n h =
        subst (λ t. All (λ a. less a t ≡ false) (x ∷ xs)) (ok_injective h)
          (least-minimal less HasNumbers (less-asym ordered) (less-not_trans ordered) x xs n.0 n.1)

    -- If no price and no reputation is NaN, no eligible seller is cheaper than the chosen one, or as
    -- cheap and of a higher reputation.
    pub match_best :
        (req : InferenceRequest F) (sellers : List (SellerNode F)) (s other : SellerNode F)
        → All HasNumbers sellers
        → match req sellers ≡ ok s
        → Member other sellers
        → IsEligible req other
        → ¬ Beats other s
    match_best req sellers s other n h m e b =
        let cs : List (SellerNode F) = select (is_candidate req) sellers in
        let kept : less other s ≡ false =
          All-member (λ a. less a s ≡ false) cs
            (pick_minimal cs (All-select (is_candidate req) HasNumbers sellers n)
              (rw (← match-eq-pick req sellers) h))
            (select-Member (is_candidate req) sellers m
              ((is_candidate-IsEligible req other).1 e)) in
        cc (kept, less_of_Beats ordered other s b)
