-- ===== src/Control/Http/Sellers.antt =====
-- seller_http.go and inference_http.go: the handlers for sellers. The ids that new rows may need come as a
-- sequence.
use mathlib.Core.Option
use knowledge_mesh.Base.{if◌then◌else◌, ℕ, suc, Bool, not, Option, none, some, List, [], ◌∷◌}
use knowledge_mesh.Base.Int.{ℤ}
use knowledge_mesh.Base.Text.{Text, text_beq, trim_space, is_empty}
use knowledge_mesh.Control.Accounts.{clean_email, register_seller, login_seller}
use knowledge_mesh.Control.Db.{SellerModelRecord, Db}
use knowledge_mesh.Control.Http.{
  ◌>>=◌, ◌>>◌, get_method, post_method, put_method, patch_method, same_method, HttpRequest, Serve,
  answer, refuse, attempt, or_refuse, decoded, require,
}
use knowledge_mesh.Control.Http.Buyers.{
  Answer, registered, seller_session, profile, acknowledged, RegisterReq, LoginReq,
  InferenceCompleteReq, always,
}
use knowledge_mesh.Control.Http.Tokens.{Jwt, issue_seller_token, parse_seller_token, bearer_token}
use knowledge_mesh.Control.Sellers.{
  get_seller_profile, set_seller_duty, set_seller_presence, set_seller_ollama_config,
  replace_seller_models,
}
use knowledge_mesh.Control.Session.{StoreError, seller_exists}
use knowledge_mesh.Control.Tracking.{get_match_seller, append_seller_tracking}
use knowledge_mesh.Types.{OllamaSellerConfig}

pub record PresenceReq : Type 0 where
  pub peer_id : Text
  pub listen_addrs : List Text

-- The members of a patch that have the type the handler asks for.
pub record ModelPatch (F : Type 0) : Type 0 where
  pub active : Option Bool
  pub name : Option Text
  pub version : Option Text
  pub skill_name : Option Text
  pub model_name : Option Text
  pub model_type : Option Text
  pub tuning_tier : Option Text
  pub hourly_tokens : Option F
  pub daily_tokens : Option F
  pub total_tokens : Option F
  pub rate_per_token : Option F

abbrev pub seller_register_status : StoreError → ℕ
seller_register_status seller_exists = 409
seller_register_status _ = 400

abbrev pub given_or : {A : Type 0} → Option A → A → A
given_or none old = old
given_or (some new) old = new

module _ {F : Type 0} where
  abbrev pub numbered :
      (ℕ → Text) → ℕ → List (SellerModelRecord F) → List (Text × SellerModelRecord F)
  numbered uuid n [] = []
  numbered uuid n (m ∷ rest) = (uuid n, m) ∷ numbered uuid (suc n) rest

  -- The members of the patch merged into a model; `int_of` is Go's conversion of a float to an int.
  unfoldable pub patched : (F → ℤ) → ModelPatch F → SellerModelRecord F → SellerModelRecord F
  patched int_of patch m = record m {
    active = given_or patch.active m.active;
    name = given_or patch.name m.name;
    version = given_or patch.version m.version;
    skill_name = given_or patch.skill_name m.skill_name;
    model_name = given_or patch.model_name m.model_name;
    model_type = given_or patch.model_type m.model_type;
    tuning_tier = given_or patch.tuning_tier m.tuning_tier;
    hourly_tokens = given_or (Option.map int_of patch.hourly_tokens) m.hourly_tokens;
    daily_tokens = given_or (Option.map int_of patch.daily_tokens) m.daily_tokens;
    total_tokens = given_or (Option.map int_of patch.total_tokens) m.total_tokens;
    rate_per_token = given_or patch.rate_per_token m.rate_per_token;
  }

  -- The first model with the id, changed in place; none has it: `none`.
  unfoldable pub change_model :
      Text
      → (SellerModelRecord F → SellerModelRecord F)
      → List (SellerModelRecord F)
      → Option (List (SellerModelRecord F))
  change_model id change [] = none
  change_model id change (m ∷ rest) =
      let changed = Option.map (λ ms. m ∷ ms) (change_model id change rest) in
      if text_beq m.id id then some (change m ∷ rest) else changed

  -- handleSellerRegister
  unfoldable pub handle_seller_register :
      (Text → Option Text) → Text → HttpRequest RegisterReq → Serve (Db F) (Answer F)
  handle_seller_register hash_of new_id r = do
    require (same_method r.method post_method) 405
    body ← decoded r.body
    id ←
        attempt seller_register_status
          (register_seller hash_of new_id body.name body.email body.password)
    answer (registered id (clean_email body.email) (trim_space body.name))

  -- The answer of most handlers: the profile after the change.
  abbrev pub answer_profile : Text → ℕ → Serve (Db F) (Answer F)
  answer_profile seller status = do
    prof ← attempt (always status) (get_seller_profile seller)
    answer (profile prof)

  module _ (jwt : Jwt) (secret : Text) where
    -- handleSellerLogin
    unfoldable pub handle_seller_login :
        (Text → Text → Bool) → HttpRequest LoginReq → Serve (Db F) (Answer F)
    handle_seller_login fits_hash r = do
      require (same_method r.method post_method) 405
      body ← decoded r.body
      user ← attempt (always 401) (login_seller fits_hash body.email body.password)
      token ← or_refuse (issue_seller_token jwt secret user.0 user.2 user.1) 500
      prof ← attempt (always 500) (get_seller_profile user.0)
      answer (seller_session token user.0 user.1 user.2 prof)

    -- sellerIDFromRequest, or 401
    unfoldable pub authorized_seller : Text → Serve (Db F) Text
    authorized_seller authorization =
        let tok = bearer_token authorization in
        if is_empty tok then refuse 401 else or_refuse (parse_seller_token jwt secret tok) 401

    -- handleSellerMe
    unfoldable pub handle_seller_me : HttpRequest (Unit {0}) → Serve (Db F) (Answer F)
    unfolding authorized_seller
    handle_seller_me r = do
      require (same_method r.method get_method) 405
      seller ← authorized_seller r.authorization
      answer_profile seller 401

    -- handleSellerDuty
    unfoldable pub handle_seller_duty : HttpRequest Bool → Serve (Db F) (Answer F)
    unfolding authorized_seller
    handle_seller_duty r = do
      require (same_method r.method put_method) 405
      seller ← authorized_seller r.authorization
      on ← decoded r.body
      attempt (always 400) (set_seller_duty seller on)
      answer_profile seller 500

    -- handleSellerModelsPut
    unfoldable pub handle_seller_models_put :
        (Text → Option Text)
        → (ℕ → Text)
        → HttpRequest (List (SellerModelRecord F))
        → Serve (Db F) (Answer F)
    unfolding authorized_seller
    handle_seller_models_put as_uuid uuid r = do
      require (same_method r.method put_method) 405
      seller ← authorized_seller r.authorization
      models ← decoded r.body
      attempt (always 400) (replace_seller_models as_uuid seller (numbered uuid 0 models))
      answer_profile seller 500

    -- handleSellerModelPatch
    unfoldable pub handle_seller_model_patch :
        (F → ℤ)
        → (Text → Option Text)
        → (ℕ → Text)
        → HttpRequest (ModelPatch F)
        → Serve (Db F) (Answer F)
    unfolding authorized_seller change_model patched
    handle_seller_model_patch int_of as_uuid uuid r = do
      require (same_method r.method patch_method) 405
      seller ← authorized_seller r.authorization
      require (not (is_empty (trim_space r.path_id))) 400
      patch ← decoded r.body
      prof ← attempt (always 401) (get_seller_profile seller)
      models ←
          or_refuse (change_model (trim_space r.path_id) (patched int_of patch) prof.models) 404
      attempt (always 500) (replace_seller_models as_uuid seller (numbered uuid 0 models))
      answer_profile seller 500

    -- handleSellerPresence
    unfoldable pub handle_seller_presence : HttpRequest PresenceReq → Serve (Db F) (Answer F)
    unfolding authorized_seller
    handle_seller_presence r = do
      require (same_method r.method post_method) 405
      seller ← authorized_seller r.authorization
      body ← decoded r.body
      attempt (always 400) (set_seller_presence seller body.peer_id body.listen_addrs)
      answer_profile seller 500

    -- handleSellerOllama
    unfoldable pub handle_seller_ollama :
        HttpRequest (Option OllamaSellerConfig) → Serve (Db F) (Answer F)
    unfolding authorized_seller
    handle_seller_ollama r = do
      require (same_method r.method put_method) 405
      seller ← authorized_seller r.authorization
      cfg ← decoded r.body
      attempt (always 400) (set_seller_ollama_config seller cfg)
      answer_profile seller 500

    -- handleSellerInferenceTracking
    unfoldable pub handle_seller_tracking :
        Text → HttpRequest InferenceCompleteReq → Serve (Db F) (Answer F)
    handle_seller_tracking new_id r = do
      require (same_method r.method post_method) 405
      seller ← or_refuse (parse_seller_token jwt secret (bearer_token r.authorization)) 401
      body ← decoded r.body
      require (not (is_empty (trim_space body.request_id))) 400
      match_seller ← attempt (always 404) (get_match_seller body.request_id)
      require (text_beq match_seller seller) 403
      attempt (always 500) (
          append_seller_tracking new_id seller body.request_id body.total_tokens body.success
            body.meta)
      answer acknowledged
