-- ===== src/Seller/Inference.antt =====
-- internal/seller/inference.go and control_node.go: the answer of a seller's node to a request, and the
-- node that stands for its profile.
pub mod Consistent
use knowledge_mesh.Base.{
  if◌then◌else◌, length, Bool, true, false, not, ◌&&◌, Option, none, some, head_or, List, [], ◌∷◌,
}
use knowledge_mesh.Base.Float.{Float}
use knowledge_mesh.Base.Int.{ℤ, pos, add64}
use knowledge_mesh.Base.Result.{Result, ok, err}
use knowledge_mesh.Base.Text.{Text, codes, trim_space, is_empty, fields}
use knowledge_mesh.Control.Db.{SellerModelRecord}
use knowledge_mesh.Control.Matching.{skill_of, first_limits}
use knowledge_mesh.Control.Sellers.{SellerProfile}
use knowledge_mesh.Seller.Engines.{GenerateError, Vendors, model_engine_of_node, generate}
use knowledge_mesh.Seller.Sandbox.{SandboxError, Runner, run_prompt}
use knowledge_mesh.Types.{
  SellerNode, InferenceRequest, InferenceResponse, no_usage, no_response, Skill, no_node, no_skill,
}

unfoldable pub estimate_tokens : Text → ℤ
estimate_tokens v = if is_empty (trim_space v) then pos 0 else pos (length (fields v))

-- InferenceService; `reports` is whether it has a control client and a token.
pub record InferenceService (F : Type 0) : Type 0 where
  pub seller_peer_id : Text
  pub runner : Option Runner
  pub engine : Text → InferenceRequest F → Result GenerateError Text
  pub reports : Bool

-- What PostSellerInferenceTracking is called with.
pub record TrackingReport : Type 0 where
  pub request_id : Text
  pub total_tokens : ℤ
  pub success : Bool

-- The response, whether an error is returned with it, and the report of the deferred function.
pub record Handled (F : Type 0) : Type 0 where
  pub response : InferenceResponse F
  pub failed : Bool
  pub report : Option TrackingReport

module _ {F : Type 0} ⦃f : Float F⦄ where
  abbrev pub answer_to : Text → InferenceRequest F → InferenceResponse F
  answer_to peer req = record no_response {
    request_id = req.request_id;
    seller_peer_id = peer;
    model_name = req.model_name;
    model_type = req.model_type;
    tuning_tier = req.tuning_tier;
  }

  unfoldable pub error_response : Text → InferenceRequest F → InferenceResponse F
  error_response peer req = record (answer_to peer req) {
    status = codes "error";
    success = false;
    error = codes "inference failed";
  }

  unfoldable pub success_response : Text → InferenceRequest F → Text → InferenceResponse F
  unfolding estimate_tokens
  success_response peer req output = record (answer_to peer req) {
    status = codes "success";
    output = output;
    success = true;
    token_usage = record no_usage {
      input_tokens = estimate_tokens req.input;
      output_tokens = estimate_tokens output;
      total_tokens = add64 (estimate_tokens req.input) (estimate_tokens output);
    };
  }

  -- The returned pair, and the deferred report of it.
  abbrev pub returned_with :
      InferenceService F → InferenceRequest F → InferenceResponse F → Bool → Handled F
  returned_with svc req response failed = record {
    response = response;
    failed = failed;
    report =
        if svc.reports
        then some (record {
          request_id = req.request_id;
          total_tokens = response.token_usage.total_tokens;
          success = not failed && response.success;
        })
        else none;
  }

  abbrev pub after_engine :
      InferenceService F → InferenceRequest F → Result GenerateError Text → Handled F
  after_engine svc req (err e) = returned_with svc req (error_response svc.seller_peer_id req) true
  after_engine svc req (ok output) =
      returned_with svc req (success_response svc.seller_peer_id req output) false

  abbrev pub after_sandbox :
      InferenceService F → InferenceRequest F → Result SandboxError Text → Handled F
  after_sandbox svc req (err e) = returned_with svc req (error_response svc.seller_peer_id req) true
  after_sandbox svc req (ok prompt) = after_engine svc req (svc.engine prompt req)

  abbrev pub handle_with : InferenceService F → InferenceRequest F → Option Runner → Handled F
  handle_with svc req none = returned_with svc req no_response true
  handle_with svc req (some r) = after_sandbox svc req (run_prompt r req.input)

  -- HandleInference
  unfoldable pub handle_inference : InferenceService F → InferenceRequest F → Handled F
  unfolding error_response success_response run_prompt
  handle_inference svc req = handle_with svc req svc.runner

  -- NewInferenceServiceForSeller
  unfoldable pub new_inference_service_for_seller :
      Vendors → SellerNode F → Option Runner → Bool → InferenceService F
  unfolding generate model_engine_of_node
  new_inference_service_for_seller vendors node runner reports = record {
    seller_peer_id = node.peer_id;
    runner = runner;
    engine = generate vendors (model_engine_of_node node);
    reports = reports;
  }

  abbrev pub skills_of_profile : List (SellerModelRecord F) → List (Skill F)
  skills_of_profile [] = []
  skills_of_profile (m ∷ rest) =
      let skills = skills_of_profile rest in if not m.active then skills else skill_of m ∷ skills

  -- SellerNodeFromControl
  unfoldable pub seller_node_from_control : Text → SellerProfile F → SellerNode F
  seller_node_from_control peer prof =
      let skills = skills_of_profile prof.models in
      let first : Skill F = head_or skills no_skill in
      record no_node {
        peer_id = peer;
        skills = skills;
        model_name = first.model_name;
        model_type = first.model_type;
        tuning_tier = first.tuning_tier;
        price = first.price;
        reputation = f.one;
        on_duty = prof.on_duty;
        token_limits = first_limits prof.models;
        ollama = prof.ollama;
      }
