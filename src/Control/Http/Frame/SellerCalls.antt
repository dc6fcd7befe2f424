-- ===== src/Control/Http/Frame/SellerCalls.antt =====
-- internal/control: what a request of a seller keeps of the database.
use knowledge_mesh.Base.{◌≡◌, Bool, ℕ, refl, ap, Option, List}
use knowledge_mesh.Base.Float.{Float}
use knowledge_mesh.Base.Text.{Text}
use knowledge_mesh.Control.Db.{SellerModelRecord, Db}
use knowledge_mesh.Control.Frames.{get_match_seller-Keeps, get_seller_profile-Keeps}
use knowledge_mesh.Control.Frames.Writes.{
  append_seller_tracking-Keeps, update_seller-Keeps, replace_seller_models-Keeps,
}
use knowledge_mesh.Control.Http.{◌>>=◌, HttpRequest, attempt, decoded}
use knowledge_mesh.Control.Http.Buyers.{acknowledged, InferenceCompleteReq, always}
use knowledge_mesh.Control.Http.Frame.{
  Actor, as_seller, answer-Keeps, attempt-Keeps, or_refuse-Keeps, require-Keeps, then-Keeps,
  serve_rules, seller_actor, actor,
}
use knowledge_mesh.Control.Http.Frame.Allowed.{seller_then-Keeps, Allows}
use knowledge_mesh.Control.Http.Routes.{
  seller_tracking, seller_me, seller_duty, seller_models_put, seller_model_patch, seller_presence,
  seller_ollama, HttpServer, serve,
}
use knowledge_mesh.Control.Http.Sellers.{
  PresenceReq, ModelPatch, numbered, answer_profile, handle_seller_me, handle_seller_duty,
  handle_seller_models_put, handle_seller_model_patch, handle_seller_presence, handle_seller_ollama,
  handle_seller_tracking,
}
use knowledge_mesh.Control.Sellers.{
  set_seller_duty, set_seller_presence, set_seller_ollama_config, replace_seller_models,
}
use knowledge_mesh.Control.Session.{Exec}
use knowledge_mesh.Control.Session.Frame.{Keeps, IsPreorder}
use knowledge_mesh.Types.{OllamaSellerConfig}

module _ {F : Type 0} {P : Db F → Db F → Type 0} ⦃order : IsPreorder P⦄ ⦃f : Float F⦄
    (pane : HttpServer F) (uuid : ℕ → Text) where
  -- The calls of sellers.
  pub serve_seller_tracking-Keeps :
      (r : HttpRequest InferenceCompleteReq)
      → Allows P (actor pane uuid (seller_tracking r))
      → Keeps P (serve pane uuid (seller_tracking r))
  unfolding serve handle_seller_tracking
  serve_seller_tracking-Keeps r may = then-Keeps _ _ (require-Keeps _ 405) λ _.
      then-Keeps _ _ (or_refuse-Keeps _ 401) λ seller.
        then-Keeps _ _ (or_refuse-Keeps r.body 400) λ body.
          then-Keeps _ _ (require-Keeps _ 400) λ _.
            then-Keeps _ _ (attempt-Keeps _ _ (get_match_seller-Keeps body.request_id)) λ owner.
              then-Keeps _ _ (require-Keeps _ 403) λ _.
                then-Keeps _ _
                  (attempt-Keeps _ _ (
                    append_seller_tracking-Keeps (uuid 0) seller body.request_id body.total_tokens
                      body.success body.meta may.ledger))
                  λ _. answer-Keeps acknowledged

  answer_profile-Keeps :
      (seller : Text) (status : ℕ) → Keeps P (answer_profile {F = F} seller status)
  answer_profile-Keeps seller status = search serve_rules depth 12

  pub serve_seller_me-Keeps : (r : HttpRequest (Unit {0})) → Keeps P (serve pane uuid (seller_me r))
  unfolding serve handle_seller_me
  serve_seller_me-Keeps r = then-Keeps _ _ (require-Keeps _ 405) λ _.
      seller_then-Keeps pane.jwt pane.secret r.authorization _
        λ seller e. answer_profile-Keeps seller 401

  -- A body, one write, and the profile.
  write_then-Keeps :
      {B : Type 0} (body : Option B) (seller : Text) (m : B → Exec (Db F) (Unit {0}))
      → ((b : B) → Keeps P (m b))
      → Keeps P (
          decoded body >>= λ (b : B).
          attempt (always 400) (m b) >>= λ (_ : Unit {0}). answer_profile {F = F} seller 500)
  write_then-Keeps body seller m h =
      then-Keeps _ _ (or_refuse-Keeps body 400)
        λ b. then-Keeps _ _ (attempt-Keeps _ _ (h b)) λ _. answer_profile-Keeps seller 500

  pub serve_seller_duty-Keeps :
      (r : HttpRequest Bool)
      → Allows P (actor pane uuid (seller_duty r))
      → Keeps P (serve pane uuid (seller_duty r))
  unfolding serve handle_seller_duty set_seller_duty actor
  serve_seller_duty-Keeps r may = then-Keeps _ _ (require-Keeps _ 405) λ _.
      seller_then-Keeps pane.jwt pane.secret r.authorization _ λ seller e.
        write_then-Keeps r.body seller (set_seller_duty seller) λ on.
          update_seller-Keeps seller (λ u. record u { on_duty = on })
            (may.changing seller (λ u. record u { on_duty = on }) (ap (seller_actor pane) e)
              λ u. refl)

  pub serve_seller_presence-Keeps :
      (r : HttpRequest PresenceReq)
      → Allows P (actor pane uuid (seller_presence r))
      → Keeps P (serve pane uuid (seller_presence r))
  unfolding serve handle_seller_presence set_seller_presence actor
  serve_seller_presence-Keeps r may = then-Keeps _ _ (require-Keeps _ 405) λ _.
      seller_then-Keeps pane.jwt pane.secret r.authorization _ λ seller e.
        write_then-Keeps r.body seller
          (λ (body : PresenceReq). set_seller_presence seller body.peer_id body.listen_addrs)
          λ body.
            update_seller-Keeps seller _
              (may.changing seller _ (ap (seller_actor pane) e) λ u. refl)

  pub serve_seller_ollama-Keeps :
      (r : HttpRequest (Option OllamaSellerConfig))
      → Allows P (actor pane uuid (seller_ollama r))
      → Keeps P (serve pane uuid (seller_ollama r))
  unfolding serve handle_seller_ollama set_seller_ollama_config actor
  serve_seller_ollama-Keeps r may = then-Keeps _ _ (require-Keeps _ 405) λ _.
      seller_then-Keeps pane.jwt pane.secret r.authorization _ λ seller e.
        write_then-Keeps r.body seller (set_seller_ollama_config seller) λ cfg.
          update_seller-Keeps seller _ (may.changing seller _ (ap (seller_actor pane) e) λ u. refl)

  replace-Keeps :
      (who : Actor) (seller : Text) (models : List (Text × SellerModelRecord F))
      → Allows P who
      → who ≡ as_seller seller
      → Keeps P (replace_seller_models pane.as_uuid seller models)
  replace-Keeps who seller models may e =
      replace_seller_models-Keeps pane.as_uuid seller models (may.deleting seller e)
        (may.adding seller e)

  pub serve_seller_models_put-Keeps :
      (r : HttpRequest (List (SellerModelRecord F)))
      → Allows P (actor pane uuid (seller_models_put r))
      → Keeps P (serve pane uuid (seller_models_put r))
  unfolding serve handle_seller_models_put actor
  serve_seller_models_put-Keeps r may = then-Keeps _ _ (require-Keeps _ 405) λ _.
      seller_then-Keeps pane.jwt pane.secret r.authorization _ λ seller e.
        write_then-Keeps r.body seller
          (λ (models : List (SellerModelRecord F)).
            replace_seller_models pane.as_uuid seller (numbered uuid 0 models))
          λ models. replace-Keeps _ seller (numbered uuid 0 models) may (ap (seller_actor pane) e)

  pub serve_seller_model_patch-Keeps :
      (r : HttpRequest (ModelPatch F))
      → Allows P (actor pane uuid (seller_model_patch r))
      → Keeps P (serve pane uuid (seller_model_patch r))
  unfolding serve handle_seller_model_patch actor
  serve_seller_model_patch-Keeps r may = then-Keeps _ _ (require-Keeps _ 405) λ _.
      seller_then-Keeps pane.jwt pane.secret r.authorization _ λ seller e.
        then-Keeps _ _ (require-Keeps _ 400) λ _.
          then-Keeps _ _ (or_refuse-Keeps r.body 400) λ patch.
            then-Keeps _ _ (attempt-Keeps _ _ (get_seller_profile-Keeps seller)) λ prof.
              then-Keeps _ _ (or_refuse-Keeps _ 404) λ models.
                then-Keeps _ _
                  (attempt-Keeps _ _ (
                    replace-Keeps _ seller (numbered uuid 0 models) may (ap (seller_actor pane) e)))
                  λ _. answer_profile-Keeps seller 500
