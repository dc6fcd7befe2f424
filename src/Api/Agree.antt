-- ===== src/Api/Agree.antt =====
-- internal/api/server.go: the two handlers of inferences compared.
use mathlib.Core.Option
use knowledge_mesh.Api.{
  OpenAiChatMessage, plain_text, AnthropicMessage, OpenAiChatCompletionsRequest,
  AnthropicMessagesRequest, ReplyBody, chat_completion, anthropic_message, Reply, ApiRequest,
  MeshRuntime,
}
use knowledge_mesh.Api.Cases.{output_of}
use knowledge_mesh.Api.Inference.{inferred, handle_chat_completions, handle_anthropic_messages}
use knowledge_mesh.Api.Prompt.{
  join_lines, unless_blank, chat_lines, flatten_messages, anthropic_lines,
  flatten_anthropic_messages, parse_session,
}
use knowledge_mesh.Api.Server.{
  ApiServer, write_openai_error, write_anthropic_error, openai_response, anthropic_response,
  after_inference, ask_mesh,
}
use knowledge_mesh.Base.{
  if◌then◌else◌, ◌≡◌, refl, ap, Bool, true, false, not, Option, none, some, List, [], ◌∷◌, map,
}
use knowledge_mesh.Base.Float.{Float}
use knowledge_mesh.Base.Int.{ℤ}
use knowledge_mesh.Base.Result.{Result, ok, err}
use knowledge_mesh.Base.Text.{Text}
use knowledge_mesh.Control.Http.{post_method, same_method}
use knowledge_mesh.Types.{InferenceRequest, InferenceResponse}

-- A chat as an Anthropic message: the contents are texts, and the rest is kept.
abbrev pub as_message : OpenAiChatMessage → AnthropicMessage
as_message m = record { role = m.role; content = plain_text m.content }

abbrev pub as_messages_request : ℤ → OpenAiChatCompletionsRequest → AnthropicMessagesRequest
as_messages_request max_tokens body = record {
  model = body.model;
  max_tokens = max_tokens;
  messages = map as_message body.messages;
}

abbrev pub as_anthropic :
    ℤ → ApiRequest OpenAiChatCompletionsRequest → ApiRequest AnthropicMessagesRequest
as_anthropic max_tokens r = record {
  method = r.method;
  session_id = r.session_id;
  authorization = r.authorization;
  body = Option.map (as_messages_request max_tokens) r.body;
}

-- Two replies of one status and with the same words of the model, beside the same state.
pub record Agrees {S : Type 0} (x y : Reply × S) : Type 0 where
  pub same_status : x.0.status ≡ y.0.status
  pub same_output : output_of x.0.body ≡ output_of y.0.body
  pub same_state : x.1 ≡ y.1

if-Agrees :
    {S : Type 0} (b : Bool) {x y x' y' : Reply × S}
    → Agrees x x'
    → Agrees y y'
    → Agrees (if b then x else y) (if b then x' else y')
if-Agrees true h k = h
if-Agrees false h k = k

chat_lines-as_message :
    (messages : List OpenAiChatMessage)
    → anthropic_lines (map as_message messages) ≡ chat_lines messages
unfolding anthropic_lines chat_lines
chat_lines-as_message [] = refl
chat_lines-as_message (m ∷ messages) = ap (unless_blank m.content) (chat_lines-as_message messages)

flatten-as_message :
    (messages : List OpenAiChatMessage)
    → flatten_anthropic_messages (map as_message messages) ≡ flatten_messages messages
unfolding flatten_anthropic_messages flatten_messages
flatten-as_message messages = ap join_lines (chat_lines-as_message messages)

abbrev chat_body : {F : Type 0} → ℤ → InferenceResponse F → ReplyBody
chat_body unix resp = chat_completion (openai_response unix resp)

abbrev message_body : {F : Type 0} → InferenceResponse F → ReplyBody
message_body resp = anthropic_message (anthropic_response resp)

module _ {S E F : Type 0} ⦃f : Float F⦄ where
  answer-Agrees :
      (mesh : MeshRuntime S E F) (unix : ℤ) (answer : Result E (InferenceResponse F)) (s : S)
      → Agrees
          (after_inference mesh write_anthropic_error message_body (answer, s))
          (after_inference mesh write_openai_error (chat_body unix) (answer, s))
  unfolding after_inference openai_response anthropic_response
  answer-Agrees mesh unix (err e) s = record {
    same_status = refl;
    same_output = refl;
    same_state = refl;
  }
  answer-Agrees mesh unix (ok resp) s =
      if-Agrees (not resp.success)
        (record { same_status = refl; same_output = refl; same_state = refl })
        (record { same_status = refl; same_output = refl; same_state = refl })

  ask_mesh-Agrees :
      (mesh : MeshRuntime S E F) (unix : ℤ) (req : InferenceRequest F) (session : Option Text)
      (s : S)
      → Agrees
          (ask_mesh mesh write_anthropic_error message_body req session s)
          (ask_mesh mesh write_openai_error (chat_body unix) req session s)
  unfolding ask_mesh
  ask_mesh-Agrees mesh unix req none s = record {
    same_status = refl;
    same_output = refl;
    same_state = refl;
  }
  ask_mesh-Agrees mesh unix req (some id) s =
      let r = mesh.run_inference id req s in answer-Agrees mesh unix r.0 r.1

  inferred-Agrees :
      (server : ApiServer S E F) (mesh : Option (MeshRuntime S E F)) (req : InferenceRequest F)
      (session : Option Text) (s : S)
      → server.mesh ≡ mesh
      → Agrees
          (inferred server write_anthropic_error message_body req session s)
          (inferred server write_openai_error (chat_body server.unix) req session s)
  unfolding openai_response anthropic_response
  inferred-Agrees server none req session s h =
      rw h (record { same_status = refl; same_output = refl; same_state = refl })
  inferred-Agrees server (some mesh) req session s h =
      rw h (ask_mesh-Agrees mesh server.unix req session s)

  body-Agrees :
      (server : ApiServer S E F) (max_tokens : ℤ) (r : ApiRequest OpenAiChatCompletionsRequest)
      (s : S) (body : Option OpenAiChatCompletionsRequest)
      → r.body ≡ body
      → Agrees
          (handle_anthropic_messages server (as_anthropic max_tokens r) s)
          (handle_chat_completions server r s)
  unfolding handle_anthropic_messages handle_chat_completions parse_session
  body-Agrees server max_tokens r s none h = rw h (
      if-Agrees (not (same_method r.method post_method))
        (record { same_status = refl; same_output = refl; same_state = refl })
        (record { same_status = refl; same_output = refl; same_state = refl }))
  body-Agrees server max_tokens r s (some req) h = rw h (
      rw (flatten-as_message req.messages) (
        if-Agrees (not (same_method r.method post_method))
          (record { same_status = refl; same_output = refl; same_state = refl })
          (inferred-Agrees server server.mesh _ _ s refl)))

  -- A server, with a runtime or without, answers an Anthropic message whose contents are texts as it
  -- answers the chat with the same model, texts and headers: with the same status, the same words of the
  -- model or none, and the same state of the runtime.
  pub handle_anthropic_messages-Agrees :
      (server : ApiServer S E F) (max_tokens : ℤ) (r : ApiRequest OpenAiChatCompletionsRequest)
      (s : S)
      → Agrees
          (handle_anthropic_messages server (as_anthropic max_tokens r) s)
          (handle_chat_completions server r s)
  handle_anthropic_messages-Agrees server max_tokens r s =
      body-Agrees server max_tokens r s r.body refl
