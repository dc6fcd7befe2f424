-- ===== src/Control/Http/Frame/Calls.antt =====
-- internal/control: what a whole request keeps of the database.
use knowledge_mesh.Base.{ℕ, refl}
use knowledge_mesh.Base.Float.{Float}
use knowledge_mesh.Base.Text.{Text}
use knowledge_mesh.Control.Db.{Db}
use knowledge_mesh.Control.Frames.Writes.{register_buyer-Keeps, register_seller-Keeps}
use knowledge_mesh.Control.Http.{HttpRequest}
use knowledge_mesh.Control.Http.Buyers.{
  RegisterReq, LoginReq, handle_buyer_register, handle_buyer_login,
}
use knowledge_mesh.Control.Http.Frame.{
  answer-Keeps, attempt-Keeps, or_refuse-Keeps, require-Keeps, then-Keeps, serve_rules, actor,
}
use knowledge_mesh.Control.Http.Frame.Allowed.{Allows}
use knowledge_mesh.Control.Http.Frame.BuyerCalls.{
  serve_buyer_match-Keeps, serve_buyer_tracking-Keeps, serve_buyer_complete-Keeps,
}
use knowledge_mesh.Control.Http.Frame.SellerCalls.{
  serve_seller_tracking-Keeps, serve_seller_me-Keeps, serve_seller_duty-Keeps,
  serve_seller_presence-Keeps, serve_seller_ollama-Keeps, serve_seller_models_put-Keeps,
  serve_seller_model_patch-Keeps,
}
use knowledge_mesh.Control.Http.Routes.{
  Call, buyer_register, seller_register, buyer_login, seller_login, buyer_match, buyer_tracking,
  buyer_complete, seller_tracking, seller_me, seller_duty, seller_models_put, seller_model_patch,
  seller_presence, seller_ollama, HttpServer, serve,
}
use knowledge_mesh.Control.Http.Sellers.{handle_seller_register, handle_seller_login}
use knowledge_mesh.Control.Session.Frame.{Keeps, IsPreorder}

module _ {F : Type 0} {P : Db F → Db F → Type 0} ⦃order : IsPreorder P⦄ ⦃f : Float F⦄
    (pane : HttpServer F) (uuid : ℕ → Text) where
  -- The calls without a token.
  serve_buyer_register-Keeps :
      (r : HttpRequest RegisterReq)
      → Allows P (actor pane uuid (buyer_register r))
      → Keeps P (serve pane uuid (buyer_register r))
  unfolding serve handle_buyer_register actor
  serve_buyer_register-Keeps r may = then-Keeps _ _ (require-Keeps _ 405) λ _.
      then-Keeps _ _ (or_refuse-Keeps r.body 400) λ body.
        then-Keeps _ _
          (attempt-Keeps _ _ (
            register_buyer-Keeps pane.hash_of (uuid 0) body.name body.email body.password
              (may.joining_buyer (uuid 0) refl) (may.opening_buyer (uuid 0) refl)))
          λ id. answer-Keeps _

  serve_seller_register-Keeps :
      (r : HttpRequest RegisterReq)
      → Allows P (actor pane uuid (seller_register r))
      → Keeps P (serve pane uuid (seller_register r))
  unfolding serve handle_seller_register actor
  serve_seller_register-Keeps r may = then-Keeps _ _ (require-Keeps _ 405) λ _.
      then-Keeps _ _ (or_refuse-Keeps r.body 400) λ body.
        then-Keeps _ _
          (attempt-Keeps _ _ (
            register_seller-Keeps pane.hash_of (uuid 0) body.name body.email body.password
              (may.joining_seller (uuid 0) refl) (may.opening_seller (uuid 0) refl)))
          λ id. answer-Keeps _

  serve_buyer_login-Keeps : (r : HttpRequest LoginReq) → Keeps P (serve pane uuid (buyer_login r))
  unfolding serve handle_buyer_login
  serve_buyer_login-Keeps r = search serve_rules depth 20

  serve_seller_login-Keeps : (r : HttpRequest LoginReq) → Keeps P (serve pane uuid (seller_login r))
  unfolding serve handle_seller_login
  serve_seller_login-Keeps r = search serve_rules depth 20

  pub serve-Keeps : (c : Call F) → Allows P (actor pane uuid c) → Keeps P (serve pane uuid c)
  serve-Keeps (buyer_register r) may = serve_buyer_register-Keeps r may
  serve-Keeps (seller_register r) may = serve_seller_register-Keeps r may
  serve-Keeps (buyer_login r) may = serve_buyer_login-Keeps r
  serve-Keeps (seller_login r) may = serve_seller_login-Keeps r
  serve-Keeps (buyer_match r) may = serve_buyer_match-Keeps pane uuid r may
  serve-Keeps (buyer_tracking r) may = serve_buyer_tracking-Keeps pane uuid r may
  serve-Keeps (buyer_complete r) may = serve_buyer_complete-Keeps pane uuid r may
  serve-Keeps (seller_tracking r) may = serve_seller_tracking-Keeps pane uuid r may
  serve-Keeps (seller_me r) may = serve_seller_me-Keeps pane uuid r
  serve-Keeps (seller_duty r) may = serve_seller_duty-Keeps pane uuid r may
  serve-Keeps (seller_models_put r) may = serve_seller_models_put-Keeps pane uuid r may
  serve-Keeps (seller_model_patch r) may = serve_seller_model_patch-Keeps pane uuid r may
  serve-Keeps (seller_presence r) may = serve_seller_presence-Keeps pane uuid r may
  serve-Keeps (seller_ollama r) may = serve_seller_ollama-Keeps pane uuid r may
