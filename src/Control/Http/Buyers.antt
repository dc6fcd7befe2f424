-- ===== src/Control/Http/Buyers.antt =====
-- buyer_http.go and inference_http.go: the handlers for buyers.
use knowledge_mesh.Base.{if◌then◌else◌, ℕ, Bool, not, Option, List, ◌++◌}
use knowledge_mesh.Base.Assoc.{Assoc}
use knowledge_mesh.Base.Float.{Float}
use knowledge_mesh.Base.Int.{ℤ}
use knowledge_mesh.Base.Result.{Result, ok, err}
use knowledge_mesh.Base.Text.{Text, codes, to_lower, trim_space, is_empty}
use knowledge_mesh.Control.Accounts.{clean_email, register_buyer, login_buyer}
use knowledge_mesh.Control.Billing.{check_can_spend, settle_inference_match}
use knowledge_mesh.Control.Db.{Json, Db}
use knowledge_mesh.Control.Http.{
  ◌>>=◌, ◌>>◌, post_method, same_method, HttpRequest, Serve, answer, from_result, attempt,
  or_refuse, decoded, require,
}
use knowledge_mesh.Control.Http.Tokens.{Jwt, issue_buyer_token, parse_buyer_token, bearer_token}
use knowledge_mesh.Control.Matching.{
  estimate_tokens_for_match, list_seller_nodes, find_seller_id, insert_inference_match,
}
use knowledge_mesh.Control.Sellers.{SellerProfile}
use knowledge_mesh.Control.Session.{
  buyer_exists, StoreError, insufficient_balance, quota_exceeded, match_not_found, duplicate_match,
}
use knowledge_mesh.Control.Tracking.{append_buyer_tracking}
use knowledge_mesh.Matchmaker.{MatchError, no_seller_match, match}
use knowledge_mesh.Types.{InferenceRequest}

-- The bodies of the answers of all handlers.
pub data Answer (F : Type 0) : Type 0 where
  registered : Text → Text → Text → Answer F
  buyer_session : Text → Text → Text → Text → Answer F
  seller_session : Text → Text → Text → Text → SellerProfile F → Answer F
  profile : SellerProfile F → Answer F
  matched : Text → Text → Text → List Text → F → F → Answer F
  acknowledged : Answer F

pub record RegisterReq : Type 0 where
  pub name : Text
  pub email : Text
  pub password : Text

pub record LoginReq : Type 0 where
  pub email : Text
  pub password : Text

pub record InferenceTrackingReq : Type 0 where
  pub request_id : Text
  pub phase : Text
  pub meta : Assoc Json

-- inferenceCompleteReq, and sellerInferenceTrackingReq, which has the same fields.
pub record InferenceCompleteReq : Type 0 where
  pub request_id : Text
  pub total_tokens : ℤ
  pub success : Bool
  pub meta : Assoc Json

-- The statuses that the handlers give to the errors of the store.
abbrev pub register_status : StoreError → ℕ
register_status buyer_exists = 409
register_status _ = 400

abbrev pub spend_status : StoreError → ℕ
spend_status insufficient_balance = 402
spend_status quota_exceeded = 402
spend_status _ = 400

abbrev pub record_status : StoreError → ℕ
record_status duplicate_match = 409
record_status _ = 500

abbrev pub settle_status : StoreError → ℕ
settle_status match_not_found = 404
settle_status e = spend_status e

abbrev pub always : ℕ → StoreError → ℕ
always status e = status

abbrev pub match_result : {A : Type 0} → Result MatchError A → Result ℕ A
match_result (ok a) = ok a
match_result (err no_seller_match) = err 404

abbrev pub phase_or_event : Text → Text
phase_or_event phase =
    let p = trim_space (to_lower phase) in if is_empty p then codes "event" else p

module _ {F : Type 0} where
  abbrev pub with_request_id : Text → Text → InferenceRequest F → InferenceRequest F
  with_request_id buyer uuid req =
      if is_empty (trim_space req.request_id)
      then record req { request_id = codes "req-" ++ (buyer ++ (codes "-" ++ uuid)) }
      else req

  -- handleBuyerRegister
  unfoldable pub handle_buyer_register :
      (Text → Option Text) → Text → HttpRequest RegisterReq → Serve (Db F) (Answer F)
  handle_buyer_register hash_of new_id r = do
    require (same_method r.method post_method) 405
    body ← decoded r.body
    id ← attempt register_status (register_buyer hash_of new_id body.name body.email body.password)
    answer (registered id (clean_email body.email) (trim_space body.name))

  module _ (jwt : Jwt) (secret : Text) where
    -- handleBuyerLogin
    unfoldable pub handle_buyer_login :
        (Text → Text → Bool) → HttpRequest LoginReq → Serve (Db F) (Answer F)
    handle_buyer_login fits_hash r = do
      require (same_method r.method post_method) 405
      body ← decoded r.body
      user ← attempt (always 401) (login_buyer fits_hash body.email body.password)
      token ← or_refuse (issue_buyer_token jwt secret user.0 user.2 user.1) 500
      answer (buyer_session token user.0 user.1 user.2)

    -- The id in the request's token, or 401.
    unfoldable pub authorized_buyer : Text → Serve (Db F) Text
    authorized_buyer authorization =
        or_refuse (parse_buyer_token jwt secret (bearer_token authorization)) 401

    -- handleBuyerInferenceTracking
    unfoldable pub handle_buyer_tracking :
        Text → HttpRequest InferenceTrackingReq → Serve (Db F) (Answer F)
    unfolding authorized_buyer
    handle_buyer_tracking new_id r = do
      require (same_method r.method post_method) 405
      buyer ← authorized_buyer r.authorization
      body ← decoded r.body
      require (not (is_empty (trim_space body.request_id))) 400
      attempt (always 500)
          (append_buyer_tracking new_id buyer body.request_id (phase_or_event body.phase) body.meta)
      answer acknowledged

    -- handleBuyerInferenceComplete, with the ids of the two entries that it may write
    unfoldable pub handle_buyer_complete :
        Text → Text → HttpRequest InferenceCompleteReq → Serve (Db F) (Answer F)
    unfolding authorized_buyer
    handle_buyer_complete tid1 tid2 r = do
      require (same_method r.method post_method) 405
      buyer ← authorized_buyer r.authorization
      body ← decoded r.body
      require (not (is_empty (trim_space body.request_id))) 400
      attempt settle_status
          (settle_inference_match tid1 tid2 buyer body.request_id body.total_tokens body.success)
      answer acknowledged

module _ {F : Type 0} ⦃f : Float F⦄ where
  -- What the match handler does for an authorized buyer.
  unfoldable pub match_for_buyer : Text → InferenceRequest F → Serve (Db F) (Answer F)
  match_for_buyer buyer req = do
    attempt spend_status (check_can_spend buyer (estimate_tokens_for_match req.input))
    nodes ← attempt (always 500) list_seller_nodes
    sel ← from_result (match_result (match req nodes))
    seller ← attempt (always 500) (find_seller_id sel.peer_id)
    attempt record_status (
        insert_inference_match req.request_id buyer seller sel.peer_id
          (estimate_tokens_for_match req.input))
    answer (matched req.request_id seller sel.peer_id sel.listen_addrs sel.price sel.reputation)

  -- handleBuyerInferenceMatch
  unfoldable pub handle_buyer_match :
      Jwt → Text → Text → HttpRequest (InferenceRequest F) → Serve (Db F) (Answer F)
  unfolding match_for_buyer authorized_buyer
  handle_buyer_match jwt secret uuid r = do
    require (same_method r.method post_method) 405
    buyer ← authorized_buyer jwt secret r.authorization
    req ← decoded r.body
    match_for_buyer buyer (with_request_id buyer uuid req)
