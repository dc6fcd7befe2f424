-- ===== src/Matchmaker.antt =====
-- internal/matchmaker/matchmaker.go: the choice of a seller for an inference request.
pub mod Choice
pub mod First
mod Examples
use knowledge_mesh.Base.{if◌then◌else◌, select, any, Bool, false, not, ◌&&◌, List, [], ◌∷◌}
use knowledge_mesh.Base.Float.{Float}
use knowledge_mesh.Base.Result.{Result, ok, err}
use knowledge_mesh.Base.Sort.{slice_stable}
use knowledge_mesh.Base.Text.{Text, equal_fold, trim_space}
use knowledge_mesh.Types.{Skill, SellerNode, InferenceRequest}

pub data MatchError : Type 0 where
  no_seller_match : MatchError

module _ {F : Type 0} ⦃f : Float F⦄ where
  unfoldable pub has_skill : SellerNode F → Text → Bool
  has_skill seller wanted =
      any (λ (skill : Skill F). equal_fold (trim_space skill.name) (trim_space wanted))
        seller.skills

  -- The three `continue`s of the loop over the sellers.
  unfoldable pub is_candidate : InferenceRequest F → SellerNode F → Bool
  is_candidate req seller =
      if not seller.on_duty
      then false
      else if f.lt f.nought req.max_price && f.lt req.max_price seller.price
      then false
      else has_skill seller req.skill.name

  -- The order for `sort.SliceStable`: the lower price first, then the higher reputation. It is an order, and
  -- Go promises a sorted result, where no price and no reputation is NaN.
  unfoldable pub less : SellerNode F → SellerNode F → Bool
  less a b =
      if not (f.eq a.price b.price) then f.lt a.price b.price else f.lt b.reputation a.reputation

  abbrev first_candidate : List (SellerNode F) → Result MatchError (SellerNode F)
  first_candidate [] = err no_seller_match
  first_candidate (best ∷ rest) = ok best

  -- `Service.Match`, of sellers without NaN: with one, Go returns some candidate that need not be this one.
  unfoldable pub match : InferenceRequest F → List (SellerNode F) → Result MatchError (SellerNode F)
  match req sellers = first_candidate (slice_stable less (select (is_candidate req) sellers))
