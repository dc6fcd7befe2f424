-- ===== src/Seller/Examples.antt =====
-- A registry with one seller, for the theorems on it.
use knowledge_mesh.Base.{◌≡◌, refl, true, [], ◌∷◌, none, some, ◌++◌}
use knowledge_mesh.Base.Float.{micros_float, Micros}
use knowledge_mesh.Base.Int.{pos}
use knowledge_mesh.Base.Result.{ok}
use knowledge_mesh.Base.Text.{Text, codes}
use knowledge_mesh.Buyer.Limits.{WithinLimits}
use knowledge_mesh.Buyer.Manager.{reset_if_bucket_changed, exceeds, count_request}
use knowledge_mesh.Control.Matching.{build_seller_node}
use knowledge_mesh.Control.Sellers.{SellerProfile}
use knowledge_mesh.Seller.Engines.{Vendors}
use knowledge_mesh.Seller.Inference.{
  InferenceService, new_inference_service_for_seller, seller_node_from_control,
}
use knowledge_mesh.Seller.Inference.Consistent.{seller_node_from_control_lem}
use knowledge_mesh.Seller.Registry.{File, holds, writes, refuse_tokens, consume_tokens}
use knowledge_mesh.Seller.Registry.Command.{uses_ollama, run}
use knowledge_mesh.Seller.Registry.Consistent.{run-FileKeeps}
use knowledge_mesh.Seller.Registry.Kept.{FileKeeps}
use knowledge_mesh.Seller.Registry.Limits.{consume_tokens-WithinLimits}
use knowledge_mesh.Seller.Sandbox.{new_runner, passthrough}
use knowledge_mesh.Types.{SellerNode, no_limits, no_metadata, no_node, InferenceRequest, no_skill}

abbrev plain : Text → Text
plain w = w

abbrev node_1 : SellerNode Micros
node_1 = record no_node {
  peer_id = codes "p1";
  on_duty = true;
  token_limits = record no_limits { hourly_tokens = pos 100 };
  metadata = record no_metadata {
    peer_id = codes "p1";
    on_duty = true;
    token_limits = record no_limits { hourly_tokens = pos 100 };
  };
}

abbrev registry : File Micros
registry = holds (
    record {
      username = codes "sam";
      email = codes "s@mesh";
      password_hash = codes "pw";
      metadata = node_1;
    }
    ∷ [])

run-FileKeeps_example :
    FileKeeps
      (run plain
        (uses_ollama (codes "p1") (record { base_url = []; models = [] }))
        writes
        registry).1
run-FileKeeps_example =
    run-FileKeeps plain (uses_ollama (codes "p1") (record { base_url = []; models = [] })) writes
      registry
      (record { same_peer = refl; same_duty = refl; same_limits = refl; one_backend = tt }, tt)

counted :
    consume_tokens (pos 40) 7300 node_1
    ≡ ok (record node_1 {
      usage = count_request (reset_if_bucket_changed node_1.usage 7300) (pos 40);
    })
unfolding consume_tokens refuse_tokens exceeds reset_if_bucket_changed
counted = refl

consume_tokens-WithinLimits_example :
    (node_1.on_duty ≡ true)
    × WithinLimits node_1.token_limits
        (count_request (reset_if_bucket_changed node_1.usage 7300) (pos 40))
consume_tokens-WithinLimits_example = consume_tokens-WithinLimits (pos 40) 7300 node_1 counted

abbrev echo_vendors : Vendors
echo_vendors = record {
  chat_completion = λ cfg model prompt. some (model ++ prompt);
  create_message = λ cfg model prompt. some prompt;
  ollama_generate = λ cfg model prompt. none;
}

abbrev question : InferenceRequest Micros
question = record {
  request_id = codes "r1";
  buyer_peer_id = [];
  model_name = [];
  model_type = [];
  tuning_tier = [];
  skill = no_skill;
  input = codes "hi there";
  max_price = some 0;
  token_limits = no_limits;
}

abbrev service_1 : InferenceService Micros
service_1 =
    new_inference_service_for_seller echo_vendors node_1 (some (new_runner passthrough (pos 0)))
      true

abbrev profile_1 : SellerProfile Micros
profile_1 = record {
  seller_id = codes "s1";
  name = codes "sam";
  email = codes "s@mesh";
  on_duty = true;
  peer_id = codes "p1";
  listen_addrs = [];
  ollama = none;
  models = [];
}

seller_node_from_control_lem_example :
    seller_node_from_control (codes "p1") profile_1
    ≡ record (build_seller_node (codes "p1") true [] []) { ollama = none }
seller_node_from_control_lem_example = seller_node_from_control_lem (codes "p1") profile_1
