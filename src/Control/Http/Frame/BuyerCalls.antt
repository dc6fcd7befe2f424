-- ===== src/Control/Http/Frame/BuyerCalls.antt =====
-- internal/control: what a request of a buyer keeps of the database.
use knowledge_mesh.Base.{ℕ, ap}
use knowledge_mesh.Base.Float.{Float}
use knowledge_mesh.Base.Text.{Text}
use knowledge_mesh.Control.Db.{Db}
use knowledge_mesh.Control.Frames.{
  check_can_spend-Keeps, find_seller_id-Keeps, list_seller_nodes-Keeps,
}
use knowledge_mesh.Control.Frames.Writes.{append_buyer_tracking-Keeps, insert_inference_match-Keeps}
use knowledge_mesh.Control.Http.{HttpRequest}
use knowledge_mesh.Control.Http.Buyers.{
  acknowledged, InferenceTrackingReq, InferenceCompleteReq, phase_or_event, with_request_id,
  handle_buyer_tracking, handle_buyer_complete, match_for_buyer, handle_buyer_match,
}
use knowledge_mesh.Control.Http.Frame.{
  Actor, answer-Keeps, attempt-Keeps, or_refuse-Keeps, require-Keeps, then-Keeps, buyer_actor,
  actor, from_result-Keeps,
}
use knowledge_mesh.Control.Http.Frame.Allowed.{buyer_then-Keeps, Allows}
use knowledge_mesh.Control.Http.Routes.{
  buyer_match, buyer_tracking, buyer_complete, HttpServer, serve,
}
use knowledge_mesh.Control.Matching.{estimate_tokens_for_match}
use knowledge_mesh.Control.Session.Frame.{Keeps, IsPreorder}
use knowledge_mesh.Types.{InferenceRequest}

module _ {F : Type 0} {P : Db F → Db F → Type 0} ⦃order : IsPreorder P⦄ ⦃f : Float F⦄
    (pane : HttpServer F) (uuid : ℕ → Text) where
  match_for_buyer-Keeps :
      (who : Actor) (may : Allows P who) (buyer : Text) (req : InferenceRequest F)
      → Keeps P (match_for_buyer buyer req)
  unfolding match_for_buyer
  match_for_buyer-Keeps who may buyer req =
      then-Keeps _ _ (attempt-Keeps _ _ (check_can_spend-Keeps buyer _)) λ _.
        then-Keeps _ _ (attempt-Keeps _ _ list_seller_nodes-Keeps) λ nodes.
          then-Keeps _ _ (from_result-Keeps _) λ sel.
            then-Keeps _ _ (attempt-Keeps _ _ (find_seller_id-Keeps sel.peer_id)) λ seller.
              then-Keeps _ _
                (attempt-Keeps _ _ (
                  insert_inference_match-Keeps req.request_id buyer seller sel.peer_id
                    (estimate_tokens_for_match req.input)
                    λ db row. may.matching db req.request_id row))
                λ _. answer-Keeps _

  -- The calls of buyers.
  pub serve_buyer_match-Keeps :
      (r : HttpRequest (InferenceRequest F))
      → Allows P (actor pane uuid (buyer_match r))
      → Keeps P (serve pane uuid (buyer_match r))
  unfolding serve handle_buyer_match
  serve_buyer_match-Keeps r may = then-Keeps _ _ (require-Keeps _ 405) λ _.
      buyer_then-Keeps pane.jwt pane.secret r.authorization _ λ buyer e.
        then-Keeps _ _ (or_refuse-Keeps r.body 400) λ req.
          match_for_buyer-Keeps (actor pane uuid (buyer_match r)) may buyer
            (with_request_id buyer (uuid 0) req)

  pub serve_buyer_tracking-Keeps :
      (r : HttpRequest InferenceTrackingReq)
      → Allows P (actor pane uuid (buyer_tracking r))
      → Keeps P (serve pane uuid (buyer_tracking r))
  unfolding serve handle_buyer_tracking
  serve_buyer_tracking-Keeps r may = then-Keeps _ _ (require-Keeps _ 405) λ _.
      buyer_then-Keeps pane.jwt pane.secret r.authorization _ λ buyer e.
        then-Keeps _ _ (or_refuse-Keeps r.body 400) λ body.
          then-Keeps _ _ (require-Keeps _ 400) λ _.
            then-Keeps _ _
              (attempt-Keeps _ _ (
                append_buyer_tracking-Keeps (uuid 0) buyer body.request_id
                  (phase_or_event body.phase) body.meta may.ledger))
              λ _. answer-Keeps acknowledged

  pub serve_buyer_complete-Keeps :
      (r : HttpRequest InferenceCompleteReq)
      → Allows P (actor pane uuid (buyer_complete r))
      → Keeps P (serve pane uuid (buyer_complete r))
  unfolding serve handle_buyer_complete actor
  serve_buyer_complete-Keeps r may = then-Keeps _ _ (require-Keeps _ 405) λ _.
      buyer_then-Keeps pane.jwt pane.secret r.authorization _ λ buyer e.
        then-Keeps _ _ (or_refuse-Keeps r.body 400) λ body.
          then-Keeps _ _ (require-Keeps _ 400) λ _.
            then-Keeps _ _
              (attempt-Keeps _ _ (
                may.settling (uuid 0) (uuid 1) buyer body.request_id body.total_tokens body.success
                  (ap (buyer_actor pane) e)))
              λ _. answer-Keeps acknowledged
