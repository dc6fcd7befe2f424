-- ===== src/Api/Inference.antt =====
-- internal/api/server.go: the handlers of inferences, the mock, and the routes of Handler.
use knowledge_mesh.Api.{
  OpenAiChatCompletionsRequest, AnthropicMessagesRequest, BuyerRegisterBody, BuyerLoginBody,
  ReplyBody, healthy, chat_completion, anthropic_message, Reply, ApiRequest,
}
use knowledge_mesh.Api.Prompt.{flatten_messages, flatten_anthropic_messages, parse_session}
use knowledge_mesh.Api.Server.{
  ApiServer, replied, write_openai_error, write_anthropic_error, not_allowed, invalid_json,
  model_or_mock, openai_response, anthropic_response, ask_mesh, handle_buyer_register,
  handle_buyer_login, handle_models,
}
use knowledge_mesh.Base.{if◌then◌else◌, ℕ, true, not, Option, none, some, [], ◌++◌}
use knowledge_mesh.Base.Float.{Float}
use knowledge_mesh.Base.Int.{add64}
use knowledge_mesh.Base.Text.{Text, codes}
use knowledge_mesh.Control.Http.{Method, post_method, same_method}
use knowledge_mesh.Seller.Inference.{estimate_tokens}
use knowledge_mesh.Types.{InferenceRequest, InferenceResponse, no_limits, no_usage, no_response}

-- A request by its route
pub data ApiCall : Type 0 where
  healthz : ApiCall
  buyer_register : ApiRequest BuyerRegisterBody → ApiCall
  buyer_login : ApiRequest BuyerLoginBody → ApiCall
  list_models : Method → ApiCall
  chat_completions : ApiRequest OpenAiChatCompletionsRequest → ApiCall
  anthropic_messages : ApiRequest AnthropicMessagesRequest → ApiCall

module _ {F : Type 0} ⦃f : Float F⦄ where
  unfoldable pub run_mock_inference : InferenceRequest F → InferenceResponse F
  run_mock_inference req =
      let output = codes "mock-result:" ++ req.input in
      record no_response {
        request_id = req.request_id;
        seller_peer_id = codes "local-seller";
        status = codes "success";
        model_name = req.model_name;
        model_type = req.model_type;
        tuning_tier = req.tuning_tier;
        output = output;
        success = true;
        token_usage = record no_usage {
          input_tokens = estimate_tokens req.input;
          output_tokens = estimate_tokens output;
          total_tokens = add64 (estimate_tokens req.input) (estimate_tokens output);
        };
      }

module _ {S E F : Type 0} ⦃f : Float F⦄ where
  -- The request that both handlers make of a model and a prompt.
  unfoldable pub internal_request : ApiServer S E F → Text → Text → InferenceRequest F
  internal_request server model prompt = record {
    request_id = codes "req-" ++ server.unix_nano;
    buyer_peer_id = [];
    model_name = model;
    model_type = codes "llm";
    tuning_tier = codes "base";
    skill = record {
      name = codes "chat";
      model_name = model;
      model_type = codes "llm";
      tuning_tier = codes "base";
      price = f.nought;
    };
    input = prompt;
    max_price = f.nought;
    token_limits = no_limits;
  }

  abbrev pub inferred :
      ApiServer S E F
      → (ℕ → Text → Reply)
      → (InferenceResponse F → ReplyBody)
      → InferenceRequest F
      → Option Text
      → S
      → Reply × S
  inferred server write_error body req session s = elim server.mesh [
    | none ↦ (replied 200 (body (run_mock_inference req)), s)
    | some mesh ↦ ask_mesh mesh write_error body req session s
  ]

  unfoldable pub handle_chat_completions :
      ApiServer S E F → ApiRequest OpenAiChatCompletionsRequest → S → Reply × S
  handle_chat_completions server r s =
      if not (same_method r.method post_method) then (not_allowed, s) else elim r.body [
        | none ↦ (write_openai_error 400 invalid_json, s)
        | some req ↦
            inferred server write_openai_error
              (λ resp. chat_completion (openai_response server.unix resp))
              (internal_request server (model_or_mock req.model) (flatten_messages req.messages))
              (parse_session r) s
      ]

  unfoldable pub handle_anthropic_messages :
      ApiServer S E F → ApiRequest AnthropicMessagesRequest → S → Reply × S
  handle_anthropic_messages server r s =
      if not (same_method r.method post_method) then (not_allowed, s) else elim r.body [
        | none ↦ (write_anthropic_error 400 invalid_json, s)
        | some req ↦
            inferred server write_anthropic_error
              (λ resp. anthropic_message (anthropic_response resp))
              (internal_request server (model_or_mock req.model)
                (flatten_anthropic_messages req.messages))
              (parse_session r) s
      ]

  unfoldable pub handler : ApiServer S E F → ApiCall → S → Reply × S
  handler server healthz s = (replied 200 healthy, s)
  handler server (buyer_register r) s = handle_buyer_register server r s
  handler server (buyer_login r) s = handle_buyer_login server r s
  handler server (list_models method) s = handle_models server method s
  handler server (chat_completions r) s = handle_chat_completions server r s
  handler server (anthropic_messages r) s = handle_anthropic_messages server r s
