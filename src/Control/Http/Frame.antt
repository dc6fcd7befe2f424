-- ===== src/Control/Http/Frame.antt =====
-- internal/control: what the handlers keep of the database, for any relation that the calls of the store
-- in them stand in.
pub mod Allowed
pub mod BuyerCalls
pub mod SellerCalls
pub mod Calls
use knowledge_mesh.Base.{ℕ, ◌≡◌, refl, Bool, true, false, Option, none, some}
use knowledge_mesh.Base.Float.{Float}
use knowledge_mesh.Base.Result.{Result, ok, err}
use knowledge_mesh.Base.Text.{Text}
use knowledge_mesh.Control.Frames.{
  check_can_spend-Keeps, find_seller_id-Keeps, get_match_seller-Keeps, get_seller_profile-Keeps,
  login_buyer-Keeps, login_seller-Keeps, list_seller_nodes-Keeps,
}
use knowledge_mesh.Control.Http.{
  ◌>>=◌, Serve, answer, refuse, from_result, proceed, attempt, or_refuse, require,
}
use knowledge_mesh.Control.Http.Routes.{
  Call, buyer_register, seller_register, buyer_login, seller_login, buyer_match, buyer_tracking,
  buyer_complete, seller_tracking, seller_me, seller_duty, seller_models_put, seller_model_patch,
  seller_presence, seller_ollama, HttpServer,
}
use knowledge_mesh.Control.Http.Tokens.{parse_buyer_token, parse_seller_token, bearer_token}
use knowledge_mesh.Control.Session.{StoreError, Session, Exec}
use knowledge_mesh.Control.Session.Frame.{Keeps, IsPreorder}

pub data Actor : Type 0 where
  nobody : Actor
  as_buyer as_seller new_buyer new_seller : Text → Actor

module _ {S : Type 0} {P : S → S → Type 0} ⦃order : IsPreorder P⦄ where
  pub answer-Keeps : {A : Type 0} (a : A) → Keeps P (answer {S = S} a)
  unfolding answer
  answer-Keeps a = record { kept = λ s. order.same s.db }

  pub refuse-Keeps : {A : Type 0} (status : ℕ) → Keeps P (refuse {S = S} {A = A} status)
  unfolding refuse
  refuse-Keeps status = record { kept = λ s. order.same s.db }

  pub from_result-Keeps : {A : Type 0} (r : Result ℕ A) → Keeps P (from_result {S = S} r)
  unfolding from_result
  from_result-Keeps r = record { kept = λ s. order.same s.db }

  pub attempt-Keeps :
      {A : Type 0} (to_status : StoreError → ℕ) (m : Exec S A)
      → Keeps P m
      → Keeps P (attempt to_status m)
  unfolding attempt
  attempt-Keeps to_status m h = record { kept = λ s. h.kept s }

  pub or_refuse-Keeps :
      {A : Type 0} (o : Option A) (status : ℕ) → Keeps P (or_refuse {S = S} o status)
  unfolding or_refuse
  or_refuse-Keeps none status = refuse-Keeps status
  or_refuse-Keeps (some a) status = answer-Keeps a

  pub require-Keeps : (b : Bool) (status : ℕ) → Keeps P (require {S = S} b status)
  unfolding require
  require-Keeps true status = answer-Keeps tt
  require-Keeps false status = refuse-Keeps status

module _ {S : Type 0} (P : S → S → Type 0) ⦃order : IsPreorder P⦄ where
  proceed-kept :
      {A B : Type 0} (k : A → Serve S B)
      → ((a : A) → Keeps P (k a))
      → (before : S) (r : Result ℕ A × Session S) → P before r.1.db
      → P before (proceed r.0 k r.1).1.db
  unfolding proceed
  proceed-kept k h before (ok a, s) p = order.next _ _ _ p ((h a).kept s)
  proceed-kept k h before (err e, s) p = p

module _ {S : Type 0} {P : S → S → Type 0} ⦃order : IsPreorder P⦄ where
  pub then-Keeps :
      {A B : Type 0} (m : Serve S A) (k : A → Serve S B)
      → Keeps P m
      → ((a : A) → Keeps P (k a))
      → Keeps P (m >>= k)
  unfolding ◌>>=◌
  then-Keeps m k h i = record { kept = λ s. proceed-kept P k i s.db (m s) (h.kept s) }

  pub given-Keeps :
      {A B : Type 0} (o : Option A) (status : ℕ) (k : A → Serve S B)
      → ((a : A) → o ≡ some a → Keeps P (k a))
      → Keeps P (or_refuse o status >>= k)
  unfolding ◌>>=◌ or_refuse proceed answer refuse
  given-Keeps none status k h = record { kept = λ s. order.same s.db }
  given-Keeps (some a) status k h = record { kept = λ s. (h a refl).kept s }

pub ruleset serve_rules = (
  answer-Keeps, refuse-Keeps, from_result-Keeps, attempt-Keeps, or_refuse-Keeps, require-Keeps,
  then-Keeps, check_can_spend-Keeps, find_seller_id-Keeps, get_match_seller-Keeps,
  get_seller_profile-Keeps, login_buyer-Keeps, login_seller-Keeps, list_seller_nodes-Keeps,
)

module _ {F : Type 0} ⦃f : Float F⦄ (pane : HttpServer F) where
  abbrev pub buyer_actor : Option Text → Actor
  buyer_actor none = nobody
  buyer_actor (some buyer) = as_buyer buyer

  abbrev pub seller_actor : Option Text → Actor
  seller_actor none = nobody
  seller_actor (some seller) = as_seller seller

  abbrev pub buyer_token : Text → Option Text
  buyer_token authorization = parse_buyer_token pane.jwt pane.secret (bearer_token authorization)

  abbrev pub seller_token : Text → Option Text
  seller_token authorization = parse_seller_token pane.jwt pane.secret (bearer_token authorization)

  -- For whom a request is served: the account of its token, or the account that it makes.
  unfoldable pub actor : (ℕ → Text) → Call F → Actor
  actor uuid (buyer_register r) = new_buyer (uuid 0)
  actor uuid (seller_register r) = new_seller (uuid 0)
  actor uuid (buyer_login r) = nobody
  actor uuid (seller_login r) = nobody
  actor uuid (buyer_match r) = buyer_actor (buyer_token r.authorization)
  actor uuid (buyer_tracking r) = buyer_actor (buyer_token r.authorization)
  actor uuid (buyer_complete r) = buyer_actor (buyer_token r.authorization)
  actor uuid (seller_tracking r) = seller_actor (seller_token r.authorization)
  actor uuid (seller_me r) = seller_actor (seller_token r.authorization)
  actor uuid (seller_duty r) = seller_actor (seller_token r.authorization)
  actor uuid (seller_models_put r) = seller_actor (seller_token r.authorization)
  actor uuid (seller_model_patch r) = seller_actor (seller_token r.authorization)
  actor uuid (seller_presence r) = seller_actor (seller_token r.authorization)
  actor uuid (seller_ollama r) = seller_actor (seller_token r.authorization)
