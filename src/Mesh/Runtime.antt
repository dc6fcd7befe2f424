-- ===== src/Mesh/Runtime.antt =====
-- internal/mesh/runtime.go and internal/buyer/session.go: an inference for a buyer. The client of the
-- control pane and the network are parameters; what is asked of them is kept as a list, in its order.
pub mod Orderly
pub mod Uncounted
use knowledge_mesh.Base.{
  if◌then◌else◌, ℕ, Bool, false, not, ◌&&◌, Option, none, some, List, [], ◌∷◌, ◌++◌,
}
use knowledge_mesh.Base.Float.{Float}
use knowledge_mesh.Base.Int.{ℤ, pos, ltb_ℤ}
use knowledge_mesh.Base.Result.{Result, ok, err, or_fail, ◌>>=◌}
use knowledge_mesh.Base.Text.{Text, codes, trim_space, is_empty}
use knowledge_mesh.Buyer.{BuyerError, invalid_session, State, Store, Preferences}
use knowledge_mesh.Buyer.Manager.{
  get_account_by_session, check_limits, consume_usage, establish_control_session,
}
use knowledge_mesh.Seller.Inference.{estimate_tokens}
use knowledge_mesh.Types.{InferenceRequest, InferenceResponse}

-- The answer to PostInferenceMatch
pub record InferenceMatchReply (F : Type 0) : Type 0 where
  pub request_id : Text
  pub seller_id : Text
  pub seller_peer_id : Text
  pub seller_listen_addrs : List Text
  pub price : F

-- What the control pane and the network answer. A reply that does not decode is `none`.
pub record Remote (F : Type 0) : Type 0 where
  pub has_control : Bool
  pub host_id : Text
  pub post_inference_match : Text → InferenceRequest F → Option (InferenceMatchReply F)
  pub decodes_peer : Text → Bool
  pub connects : Text → List Text → Bool
  pub marshals : InferenceRequest F → Bool
  pub send_request : Text → InferenceRequest F → Option (Option (InferenceResponse F))
  pub register_buyer : Text → Text → Text → Option Text
  pub login_buyer : Text → Text → Option (Text × Text × Text × Text)

pub data RunError : Type 0 where
  of_buyer : BuyerError → RunError
  no_control match_refused bad_peer_id dial_failed not_marshalled send_failed bad_reply : RunError
  name_required registration_refused login_refused : RunError

pub data Action (F : Type 0) : Type 0 where
  asks_match : InferenceRequest F → Action F
  tracks_started tracks_completed : Text → Action F
  sends : Text → InferenceRequest F → Action F
  completes : Text → ℤ → Bool → Action F

pub record Outcome (F : Type 0) : Type 0 where
  pub answer : Result RunError (InferenceResponse F)
  pub store : Store F
  pub actions : List (Action F)

module _ {F : Type 0} where
  -- GetState
  unfoldable pub get_state : Text → Store F → Result BuyerError (State F)
  unfolding get_account_by_session
  get_state session s = get_account_by_session session s >>= λ account. ok account.state

  -- Runtime.Register, of whose answer the caller reads the buyer's id. The local store has no part in it.
  unfoldable pub runtime_register : Remote F → Text → Text → Text → Result RunError Text
  runtime_register remote name email password =
      if not remote.has_control
      then err no_control
      else if is_empty (trim_space name)
      then err name_required
      else or_fail (remote.register_buyer (trim_space name) email password) registration_refused

  -- Runtime.Login
  unfoldable pub runtime_login :
      (Text → Text)
      → Preferences F
      → Remote F
      → Text
      → Text
      → Store F
      → Result RunError (State F) × Store F
  unfolding establish_control_session
  runtime_login hash no_preferences remote user password s =
      if not remote.has_control
      then (err no_control, s)
      else elim (remote.login_buyer user password) [
        | none ↦ (err login_refused, s)
        | some reply ↦
            elim (establish_control_session hash no_preferences reply.2 reply.3 reply.1 reply.0 s) [
              | err e ↦ (err (of_buyer e), s)
              | ok done_login ↦ (ok done_login.0, done_login.1)
            ]
      ]

  abbrev pub stopped : RunError → List (Action F) → Store F → Outcome F
  stopped e actions s = record { answer = err e; store = s; actions = actions }

  -- The tokens that are billed: those of the response, or the estimate if a success has none.
  unfoldable pub billed : ℤ → InferenceResponse F → ℤ
  billed est resp =
      if resp.success && not (ltb_ℤ (pos 0) resp.token_usage.total_tokens)
      then est
      else resp.token_usage.total_tokens

  -- `_, _ = r.Buyer.ConsumeUsage(…)`: an error is dropped.
  abbrev pub store_after : Store F → Result BuyerError (State F × Store F) → Store F
  store_after s (err e) = s
  store_after s (ok (state, s')) = s'

  unfoldable pub count_locally :
      Text → ℤ → ℕ → F → InferenceRequest F → InferenceResponse F → Store F → Store F
  count_locally session est now price req resp s =
      if resp.success
      then store_after s (
          consume_usage session
            (record {
              request_id = req.request_id;
              prompt = req.input;
              tokens = billed est resp;
              price = price;
              requested_at = now;
            })
            s)
      else s

  abbrev pub after_send :
      Text
      → ℤ
      → ℕ
      → InferenceMatchReply F
      → InferenceRequest F
      → List (Action F)
      → Store F
      → Option (Option (InferenceResponse F))
      → Outcome F
  after_send session est now m req before s none =
      stopped send_failed (before ++ (completes req.request_id (pos 0) false ∷ [])) s
  after_send session est now m req before s (some none) =
      stopped bad_reply (before ++ (completes req.request_id (pos 0) false ∷ [])) s
  after_send session est now m req before s (some (some resp)) = record {
    answer = ok resp;
    store = count_locally session est now m.price req resp s;
    actions =
        before
        ++ (tracks_completed req.request_id
            ∷ completes req.request_id (billed est resp) resp.success
            ∷ []);
  }

  abbrev pub matched_request :
      Remote F → InferenceMatchReply F → InferenceRequest F → InferenceRequest F
  matched_request remote m req = record req {
    request_id = m.request_id;
    buyer_peer_id = remote.host_id;
  }

  abbrev pub after_match :
      Remote F
      → Text
      → ℤ
      → ℕ
      → InferenceRequest F
      → Store F
      → Option (InferenceMatchReply F)
      → Outcome F
  after_match remote session est now req s none = stopped match_refused (asks_match req ∷ []) s
  after_match remote session est now req s (some m) =
      let sent_req = matched_request remote m req in
      let asked : List (Action F) = asks_match req ∷ tracks_started m.request_id ∷ [] in
      if not (remote.decodes_peer m.seller_peer_id)
      then stopped bad_peer_id asked s
      else if not (remote.connects m.seller_peer_id m.seller_listen_addrs)
      then stopped dial_failed asked s
      else if not (remote.marshals sent_req)
      then stopped not_marshalled asked s
      else after_send session est now m sent_req (asked ++ (sends m.seller_peer_id sent_req ∷ [])) s
          (remote.send_request m.seller_peer_id sent_req)

module _ {F : Type 0} ⦃f : Float F⦄ where
  -- What RunInference fills in from the buyer's preferences; `new_id` is used for a request without an id.
  unfoldable pub filled_request : State F → Text → InferenceRequest F → InferenceRequest F
  filled_request st new_id req = record req {
    skill = record (req.skill) {
      name =
          if not (is_empty req.skill.name)
          then req.skill.name
          else if not (is_empty st.preferences.preferred_skill)
          then st.preferences.preferred_skill
          else codes "chat";
    };
    max_price =
        if f.lt f.nought st.preferences.max_price_per_request && f.eq req.max_price f.nought
        then st.preferences.max_price_per_request
        else req.max_price;
    buyer_peer_id = st.buyer_id;
    request_id = if is_empty req.request_id then new_id else req.request_id;
  }

  abbrev pub after_state :
      Remote F
      → Text
      → ℤ
      → ℕ
      → Text
      → InferenceRequest F
      → Store F
      → Result BuyerError (State F)
      → Outcome F
  after_state remote session est now new_id req s (err e) = stopped (of_buyer e) [] s
  after_state remote session est now new_id req s (ok st) =
      let filled = filled_request st new_id req in
      if not remote.has_control
      then stopped no_control [] s
      else after_match remote session est now filled s (remote.post_inference_match session filled)

  abbrev pub after_check :
      Remote F
      → Text
      → ℤ
      → ℕ
      → Text
      → InferenceRequest F
      → Store F
      → Result BuyerError (Unit {0})
      → Outcome F
  after_check remote session est now new_id req s (err e) = stopped (of_buyer e) [] s
  after_check remote session est now new_id req s (ok u) =
      after_state remote session est now new_id req s (get_state session s)

  -- RunInference at the time `now`; estimateTokens is the function of internal/seller/inference.go.
  unfoldable pub run_inference :
      Remote F → Text → InferenceRequest F → ℕ → Text → Store F → Outcome F
  run_inference remote session req now new_id s =
      if is_empty (trim_space session)
      then stopped (of_buyer invalid_session) [] s
      else after_check remote session (estimate_tokens req.input) now new_id req s
          (check_limits session (estimate_tokens req.input) now s)
