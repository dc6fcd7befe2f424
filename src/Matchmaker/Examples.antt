-- ===== src/Matchmaker/Examples.antt =====
-- Two sellers and a request, for the theorems on the matchmaker.
use knowledge_mesh.Base.{Member, ℕ, ◌≡◌, refl, inl, inr, true, some, List, [], ◌∷◌}
use knowledge_mesh.Base.Float.{Micros, Micros-IsOrdered, micros_float}
use knowledge_mesh.Base.Result.{ok}
use knowledge_mesh.Base.Text.{
  Text, codes, text_beq, is_space, lower, trim_left, trim_right, trim_space,
}
use knowledge_mesh.Matchmaker.{has_skill, is_candidate, less, match}
use knowledge_mesh.Matchmaker.Choice.{IsEligible, Beats, match_sound, match_complete, match_best}
use knowledge_mesh.Matchmaker.First.{IsFirstBest, match-IsFirstBest}
use knowledge_mesh.Types.{Skill, SellerNode, InferenceRequest, no_limits, no_node, no_skill}

abbrev chat : Skill Micros
chat = record no_skill { name = codes "Chat" }

abbrev seller : Text → ℕ → ℕ → SellerNode Micros
seller peer price reputation = record no_node {
  peer_id = peer;
  skills = chat ∷ [];
  price = some price;
  reputation = some reputation;
  on_duty = true;
}

abbrev dear : SellerNode Micros
dear = seller (codes "p1") 30 900

abbrev cheap : SellerNode Micros
cheap = seller (codes "p2") 20 500

abbrev offered : List (SellerNode Micros)
offered = dear ∷ cheap ∷ []

abbrev wanted : InferenceRequest Micros
wanted = record {
  request_id = codes "r1";
  buyer_peer_id = [];
  model_name = [];
  model_type = [];
  tuning_tier = [];
  skill = record no_skill { name = codes " chat " };
  input = codes "hello";
  max_price = some 40;
  token_limits = no_limits;
}

chosen : match wanted offered ≡ ok cheap
unfolding match is_candidate has_skill less trim_space trim_left trim_right is_space lower text_beq
chosen = refl

dear-IsEligible : IsEligible wanted dear
unfolding trim_space lower
dear-IsEligible = record { duty = refl; within = inr refl; skilled = inl refl }

match-IsFirstBest_example : IsFirstBest wanted offered cheap
match-IsFirstBest_example =
    match-IsFirstBest Micros-IsOrdered wanted offered cheap ((refl, refl), ((refl, refl), tt))
      chosen

match_sound_example : Member cheap offered × IsEligible wanted cheap
match_sound_example = match_sound wanted offered chosen

match_complete_example : (t : SellerNode Micros) × (match wanted offered ≡ ok t)
match_complete_example = match_complete wanted offered dear (inl refl) dear-IsEligible

match_best_example : ¬ Beats dear cheap
match_best_example =
    match_best Micros-IsOrdered wanted offered cheap dear ((refl, refl), ((refl, refl), tt)) chosen
      (inl refl) dear-IsEligible
