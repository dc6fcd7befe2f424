-- ===== src/Control/Http/Routes.antt =====
-- buyer_http.go: the routes of Handler. A request is a constructor for its route, which carries what the
-- handler reads.
use knowledge_mesh.Base.{ℕ, Bool, Option, List}
use knowledge_mesh.Base.Float.{Float}
use knowledge_mesh.Base.Int.{ℤ}
use knowledge_mesh.Base.Text.{Text}
use knowledge_mesh.Control.Db.{SellerModelRecord, Db}
use knowledge_mesh.Control.Http.{HttpRequest, Serve}
use knowledge_mesh.Control.Http.Buyers.{
  Answer, RegisterReq, LoginReq, InferenceTrackingReq, InferenceCompleteReq, handle_buyer_register,
  handle_buyer_login, handle_buyer_tracking, handle_buyer_complete, handle_buyer_match,
}
use knowledge_mesh.Control.Http.Sellers.{
  PresenceReq, ModelPatch, handle_seller_register, handle_seller_login, handle_seller_me,
  handle_seller_duty, handle_seller_models_put, handle_seller_model_patch, handle_seller_presence,
  handle_seller_ollama, handle_seller_tracking,
}
use knowledge_mesh.Control.Http.Tokens.{Jwt}
use knowledge_mesh.Types.{OllamaSellerConfig, InferenceRequest}

pub data Call (F : Type 0) : Type 0 where
  buyer_register seller_register : HttpRequest RegisterReq → Call F
  buyer_login seller_login : HttpRequest LoginReq → Call F
  buyer_match : HttpRequest (InferenceRequest F) → Call F
  buyer_tracking : HttpRequest InferenceTrackingReq → Call F
  buyer_complete seller_tracking : HttpRequest InferenceCompleteReq → Call F
  seller_me : HttpRequest (Unit {0}) → Call F
  seller_duty : HttpRequest Bool → Call F
  seller_models_put : HttpRequest (List (SellerModelRecord F)) → Call F
  seller_model_patch : HttpRequest (ModelPatch F) → Call F
  seller_presence : HttpRequest PresenceReq → Call F
  seller_ollama : HttpRequest (Option OllamaSellerConfig) → Call F

-- HTTPServer, with what it uses of bcrypt, of golang-jwt, of PostgreSQL's `::uuid` and of Go's floats.
pub record HttpServer (F : Type 0) : Type 0 where
  pub secret : Text
  pub jwt : Jwt
  pub hash_of : Text → Option Text
  pub fits_hash : Text → Text → Bool
  pub as_uuid : Text → Option Text
  pub int_of : F → ℤ

module _ {F : Type 0} ⦃f : Float F⦄ where
  -- Handler; `uuid` is the sequence of the new ids that the request may need.
  unfoldable pub serve : HttpServer F → (ℕ → Text) → Call F → Serve (Db F) (Answer F)
  serve pane uuid (buyer_register r) = handle_buyer_register pane.hash_of (uuid 0) r
  serve pane uuid (seller_register r) = handle_seller_register pane.hash_of (uuid 0) r
  serve pane uuid (buyer_login r) = handle_buyer_login pane.jwt pane.secret pane.fits_hash r
  serve pane uuid (seller_login r) = handle_seller_login pane.jwt pane.secret pane.fits_hash r
  serve pane uuid (buyer_match r) = handle_buyer_match pane.jwt pane.secret (uuid 0) r
  serve pane uuid (buyer_tracking r) = handle_buyer_tracking pane.jwt pane.secret (uuid 0) r
  serve pane uuid (buyer_complete r) =
      handle_buyer_complete pane.jwt pane.secret (uuid 0) (uuid 1) r
  serve pane uuid (seller_tracking r) = handle_seller_tracking pane.jwt pane.secret (uuid 0) r
  serve pane uuid (seller_me r) = handle_seller_me pane.jwt pane.secret r
  serve pane uuid (seller_duty r) = handle_seller_duty pane.jwt pane.secret r
  serve pane uuid (seller_models_put r) =
      handle_seller_models_put pane.jwt pane.secret pane.as_uuid uuid r
  serve pane uuid (seller_model_patch r) =
      handle_seller_model_patch pane.jwt pane.secret pane.int_of pane.as_uuid uuid r
  serve pane uuid (seller_presence r) = handle_seller_presence pane.jwt pane.secret r
  serve pane uuid (seller_ollama r) = handle_seller_ollama pane.jwt pane.secret r
