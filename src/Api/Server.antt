-- ===== src/Api/Server.antt =====
-- internal/api/server.go: the handlers of a server, which is a mock if it has no runtime.
use knowledge_mesh.Api.{
  BuyerRegisterBody, BuyerLoginBody, OpenAiChatCompletionsResponse, AnthropicMessagesResponse,
  ReplyBody, plain_error, openai_error, anthropic_error, buyer_registered, buyer_logged_in,
  model_list, Reply, ApiRequest, MeshRuntime,
}
use knowledge_mesh.Base.{if◌then◌else◌, ℕ, not, Option, none, some, [], ◌∷◌, ◌++◌}
use knowledge_mesh.Base.Int.{ℤ, pos}
use knowledge_mesh.Base.Result.{Result, ok, err}
use knowledge_mesh.Base.Text.{Text, codes, trim_space, is_empty}
use knowledge_mesh.Control.Http.{Method, get_method, post_method, same_method}
use knowledge_mesh.Types.{InferenceRequest, InferenceResponse}

-- The server, and what the clock gives a request: its number as a text, and the seconds.
pub record ApiServer (S E F : Type 0) : Type 0 where
  pub mesh : Option (MeshRuntime S E F)
  pub unix_nano : Text
  pub unix : ℤ

abbrev pub replied : ℕ → ReplyBody → Reply
replied status body = record { status = status; body = body }

-- `w.WriteHeader` is called with the status where it is not 200.
abbrev pub write_openai_error : ℕ → Text → Reply
write_openai_error status msg = replied status (openai_error msg)

abbrev pub write_anthropic_error : ℕ → Text → Reply
write_anthropic_error status msg = replied status (anthropic_error msg)

abbrev pub not_allowed : Reply
not_allowed = replied 405 (plain_error (codes "method not allowed"))

abbrev pub not_enabled : Reply
not_enabled = replied 501 (plain_error (codes "buyer API not enabled"))

abbrev pub invalid_json : Text
invalid_json = codes "invalid JSON body"

abbrev pub mock_model : Text
mock_model = codes "kmg-mock-1"

abbrev pub model_or_mock : Text → Text
model_or_mock model = if is_empty (trim_space model) then mock_model else model

unfoldable pub openai_response :
    {F : Type 0} → ℤ → InferenceResponse F → OpenAiChatCompletionsResponse
openai_response created resp = record {
  id = codes "chatcmpl-" ++ resp.request_id;
  object = codes "chat.completion";
  created = created;
  model = resp.model_name;
  choices =
      record {
        index = pos 0;
        message = record { role = codes "assistant"; content = resp.output };
        finish_reason = codes "stop";
      }
      ∷ [];
  usage = record {
    prompt_tokens = resp.token_usage.input_tokens;
    completion_tokens = resp.token_usage.output_tokens;
    total_tokens = resp.token_usage.total_tokens;
  };
}

unfoldable pub anthropic_response : {F : Type 0} → InferenceResponse F → AnthropicMessagesResponse
anthropic_response resp = record {
  id = codes "msg_" ++ resp.request_id;
  kind = codes "message";
  role = codes "assistant";
  content = record { block_type = codes "text"; text = resp.output } ∷ [];
  model = resp.model_name;
  stop_reason = codes "end_turn";
  usage = record {
    input_tokens = resp.token_usage.input_tokens;
    output_tokens = resp.token_usage.output_tokens;
  };
}

abbrev pub failure_text : {F : Type 0} → InferenceResponse F → Text
failure_text resp = if is_empty resp.error then codes "inference failed" else resp.error

abbrev pub after_login : {S E : Type 0} → Result E (Text × Text) × S → Reply × S
after_login (err e, s) = (write_openai_error 401 (codes "invalid credentials"), s)
after_login (ok ids, s) = (replied 200 (buyer_logged_in ids.0 ids.1), s)

abbrev pub name_or_username : BuyerRegisterBody → Text
name_or_username body =
    let name = trim_space body.name in if is_empty name then trim_space body.username else name

module _ {S E F : Type 0} where
  abbrev pub error_status : MeshRuntime S E F → E → ℕ
  error_status mesh e = if mesh.is_invalid_session e then 401 else 502

  -- What a handler makes of the runtime's answer, by its own way to write errors and responses.
  unfoldable pub after_inference :
      MeshRuntime S E F
      → (ℕ → Text → Reply)
      → (InferenceResponse F → ReplyBody)
      → Result E (InferenceResponse F) × S
      → Reply × S
  after_inference mesh write_error body (err e, s) =
      (write_error (error_status mesh e) (mesh.error_text e), s)
  after_inference mesh write_error body (ok resp, s) =
      if not resp.success
      then (write_error 502 (failure_text resp), s)
      else (replied 200 (body resp), s)

  unfoldable pub ask_mesh :
      MeshRuntime S E F
      → (ℕ → Text → Reply)
      → (InferenceResponse F → ReplyBody)
      → InferenceRequest F
      → Option Text
      → S
      → Reply × S
  unfolding after_inference
  ask_mesh mesh write_error body req none s =
      (write_error 401 (codes "missing X-Session-ID or Bearer token"), s)
  ask_mesh mesh write_error body req (some session) s =
      after_inference mesh write_error body (mesh.run_inference session req s)

  abbrev pub after_register : MeshRuntime S E F → Result E Text × S → Reply × S
  after_register mesh (err e, s) = (write_openai_error 400 (mesh.error_text e), s)
  after_register mesh (ok buyer_id, s) = (replied 201 (buyer_registered buyer_id), s)

  unfoldable pub handle_buyer_register :
      ApiServer S E F → ApiRequest BuyerRegisterBody → S → Reply × S
  handle_buyer_register server r s =
      if not (same_method r.method post_method) then (not_allowed, s) else elim server.mesh [
        | none ↦ (not_enabled, s)
        | some mesh ↦ elim r.body [
          | none ↦ (write_openai_error 400 invalid_json, s)
          | some body ↦
              let name = name_or_username body in
              if is_empty name
              then (write_openai_error 400 (codes "name or username is required"), s)
              else after_register mesh (mesh.register name body.email body.password s)
        ]
      ]

  unfoldable pub handle_buyer_login : ApiServer S E F → ApiRequest BuyerLoginBody → S → Reply × S
  handle_buyer_login server r s =
      if not (same_method r.method post_method) then (not_allowed, s) else elim server.mesh [
        | none ↦ (not_enabled, s)
        | some mesh ↦ elim r.body [
          | none ↦ (write_openai_error 400 invalid_json, s)
          | some body ↦ after_login (mesh.login body.user body.password s)
        ]
      ]

  unfoldable pub handle_models : ApiServer S E F → Method → S → Reply × S
  handle_models server method s =
      if not (same_method method get_method) then (not_allowed, s) else (
        replied 200 (
            model_list (
              record {
                id = mock_model;
                object = codes "model";
                created = server.unix;
                owned_by = codes "knowledgeMesh";
              }
              ∷ [])),
        s,
      )
