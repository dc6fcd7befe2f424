-- ===== src/Seller/Inference/Consistent.antt =====
-- internal/seller/inference.go and control_node.go: what a seller's node answers and reports, and its
-- agreement with the control pane.
use knowledge_mesh.Base.{
  ◌≡◌, ◌⊎◌, true, false, some, [], if◌then◌else◌, Bool-cases, refl, ap, inl, inr, Option, none,
  List, ◌∷◌,
}
use knowledge_mesh.Base.Float.{Float}
use knowledge_mesh.Base.Int.{pos, add64}
use knowledge_mesh.Base.Result.{ok, Result}
use knowledge_mesh.Base.Text.{Text}
use knowledge_mesh.Control.Db.{SellerModelRecord}
use knowledge_mesh.Control.Matching.{skill_of, active_skills, build_seller_node}
use knowledge_mesh.Control.Sellers.{SellerProfile}
use knowledge_mesh.Seller.Inference.{
  estimate_tokens, InferenceService, Handled, TrackingReport, skills_of_profile,
  seller_node_from_control,
}
use knowledge_mesh.Seller.Sandbox.{Runner, run_prompt}
use knowledge_mesh.Types.{InferenceRequest, Skill, InferenceResponse}

module _ {F : Type 0} ⦃f : Float F⦄ where
  -- A successful answer comes from the engine, which was given what the sandbox made of the input.
  pub record IsServed (svc : InferenceService F) (req : InferenceRequest F) (h : Handled F)
      : Type 0 where
    pub runner : Runner
    pub prompt : Text
    pub has_runner : svc.runner ≡ some runner
    pub sandboxed : run_prompt runner req.input ≡ ok prompt
    pub generated : svc.engine prompt req ≡ ok h.response.output
    pub succeeded_flag : h.response.success ≡ true
    pub no_error : h.failed ≡ false
    pub usage :
        h.response.token_usage.total_tokens
        ≡ add64 (estimate_tokens req.input) (estimate_tokens h.response.output)

  -- A failed one has no output and no tokens, and an error is returned with it.
  pub record IsFailed (h : Handled F) : Type 0 where
    pub failed_flag : h.response.success ≡ false
    pub with_error : h.failed ≡ true
    pub no_output : h.response.output ≡ []
    pub no_tokens : h.response.token_usage.total_tokens ≡ pos 0

  -- What PostSellerInferenceTracking is told of a response.
  abbrev pub report_of :
      InferenceService F → InferenceRequest F → InferenceResponse F → Option TrackingReport
  report_of svc req response =
      if svc.reports
      then some (record {
        request_id = req.request_id;
        total_tokens = response.token_usage.total_tokens;
        success = response.success;
      })
      else none

  abbrev pub IsHandled : InferenceService F → InferenceRequest F → Handled F → Type 0
  IsHandled svc req h =
      (IsServed svc req h ⊎ IsFailed h) × (h.report ≡ report_of svc req h.response)

  skills_of_profile_lem :
      (models : List (SellerModelRecord F)) → skills_of_profile models ≡ active_skills models
  unfolding active_skills
  skills_of_profile_lem [] = refl
  skills_of_profile_lem (m ∷ rest) = elim (Bool-cases m.active) [
    | inl e ↦
        rw e (ap (λ (skills : List (Skill F)). skill_of m ∷ skills) (skills_of_profile_lem rest))
    | inr e ↦ rw e (skills_of_profile_lem rest)
  ]

  -- The node that a seller makes of its profile is the one that the control pane matches for the same
  -- peer id, models and duty, less the listen addresses and with the Ollama settings of the profile.
  pub seller_node_from_control_lem :
      (peer : Text) (prof : SellerProfile F)
      → seller_node_from_control peer prof
        ≡ record (build_seller_node peer prof.on_duty prof.models []) { ollama = prof.ollama }
  unfolding seller_node_from_control build_seller_node
  seller_node_from_control_lem peer prof = rw (skills_of_profile_lem prof.models) refl
