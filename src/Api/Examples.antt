-- ===== src/Api/Examples.antt =====
-- A node of internal/api for the buyer of internal/buyer's examples.
use knowledge_mesh.Api.{OpenAiChatCompletionsRequest, ApiRequest}
use knowledge_mesh.Api.Agree.{as_anthropic, Agrees, handle_anthropic_messages-Agrees}
use knowledge_mesh.Api.Inference.{
  handle_chat_completions, handle_anthropic_messages, internal_request,
}
use knowledge_mesh.Api.Node.{Node, node_server, node_runtime}
use knowledge_mesh.Api.Prompt.{
  flatten_messages, join_lines, chat_lines, bearer_session, parse_session,
}
use knowledge_mesh.Api.Server.{after_inference, ask_mesh}
use knowledge_mesh.Base.{◌≡◌, refl, some, [], ◌∷◌}
use knowledge_mesh.Base.Assoc.{get, put}
use knowledge_mesh.Base.Float.{Micros, micros_float}
use knowledge_mesh.Base.Int.{pos}
use knowledge_mesh.Base.Text.{codes, text_beq, lower, trim_space, fields}
use knowledge_mesh.Buyer.{get_by_session}
use knowledge_mesh.Buyer.Examples.{plain, no_prefs, ann_store}
use knowledge_mesh.Buyer.Manager.{
  reset_if_bucket_changed, exceeds, limit_error, get_account_by_session, check_limits,
}
use knowledge_mesh.Control.Http.{post_method}
use knowledge_mesh.Mesh.Examples.{sample_remote}
use knowledge_mesh.Mesh.Runtime.{get_state, run_inference}
use knowledge_mesh.Seller.Inference.{estimate_tokens}

abbrev node : Node Micros
node = record {
  remote = sample_remote;
  hash = plain;
  no_preferences = no_prefs;
  now = 7300;
  new_id = codes "req-2";
  error_text = λ e. codes "refused";
}

-- A chat that asks in two messages, of which one is blank, under ann's session.
abbrev chat : ApiRequest OpenAiChatCompletionsRequest
chat = record {
  method = post_method;
  session_id = [];
  authorization = codes "Bearer sess-1";
  body = some (record {
    model = [];
    messages =
        record { role = codes "user"; content = codes "hi" }
        ∷ record { role = codes "user"; content = codes " " }
        ∷ [];
  });
}

chat_answered :
    (handle_chat_completions (node_server node (codes "1") (pos 7300)) chat ann_store).0.status
    ≡ 200
unfolding handle_chat_completions ask_mesh after_inference parse_session bearer_session trim_space
    text_beq lower node_runtime run_inference check_limits get_state get_account_by_session
    get_by_session limit_error exceeds reset_if_bucket_changed estimate_tokens get put fields
    internal_request flatten_messages join_lines chat_lines
chat_answered = refl

handle_anthropic_messages-Agrees_example :
    Agrees
      (handle_anthropic_messages
        (node_server node (codes "1") (pos 7300))
        (as_anthropic (pos 100) chat)
        ann_store)
      (handle_chat_completions (node_server node (codes "1") (pos 7300)) chat ann_store)
handle_anthropic_messages-Agrees_example =
    handle_anthropic_messages-Agrees (node_server node (codes "1") (pos 7300)) (pos 100) chat
      ann_store
