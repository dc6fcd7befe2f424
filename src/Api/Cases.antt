-- ===== src/Api/Cases.antt =====
-- internal/api/server.go: the cases of an answer to an inference, in the words of
-- internal/mesh/runtime.go.
use knowledge_mesh.Api.{
  OpenAiChoice, AnthropicContentBlock, ReplyBody, chat_completion, anthropic_message, Reply,
  ApiRequest,
}
use knowledge_mesh.Api.Node.{Node}
use knowledge_mesh.Api.Prompt.{parse_session}
use knowledge_mesh.Base.{◌≡◌, true, Option, none, some, List, [], ◌∷◌, ℕ, ◌≢◌, false}
use knowledge_mesh.Base.Float.{Float}
use knowledge_mesh.Base.Result.{ok, err}
use knowledge_mesh.Base.Text.{Text}
use knowledge_mesh.Buyer.{Store, invalid_session}
use knowledge_mesh.Buyer.Manager.{check_limits}
use knowledge_mesh.Control.Http.{post_method}
use knowledge_mesh.Mesh.Runtime.{Outcome, RunError, of_buyer, run_inference}
use knowledge_mesh.Mesh.Runtime.Orderly.{IsAnswered}
use knowledge_mesh.Seller.Inference.{estimate_tokens}
use knowledge_mesh.Types.{InferenceRequest, InferenceResponse}

abbrev first_choice : List OpenAiChoice → Option Text
first_choice [] = none
first_choice (c ∷ cs) = some c.message.content

abbrev first_block : List AnthropicContentBlock → Option Text
first_block [] = none
first_block (b ∷ bs) = some b.text

-- The model's words in a reply
abbrev pub output_of : ReplyBody → Option Text
output_of (chat_completion r) = first_choice r.choices
output_of (anthropic_message r) = first_block r.content
output_of _ = none

-- A reply with the status and without a model's words, which leaves the store as it was.
pub record IsDeclined {F : Type 0} (status : ℕ) (s : Store F) (reply : Reply × Store F)
    : Type 0 where
  pub same_status : reply.0.status ≡ status
  pub no_output : output_of reply.0.body ≡ none
  pub same_store : reply.1 ≡ s

module _ {F : Type 0} ⦃f : Float F⦄ where
  -- What the runtime of a node makes of a request.
  abbrev pub run_at : Node F → Text → InferenceRequest F → Store F → Outcome F
  run_at node session req s = run_inference node.remote session req node.now node.new_id s

  -- The reply with the words of a response for which the buyer's limits allowed the estimate, which a
  -- seller gave to the one request that was sent, and which is counted in the store if ConsumeUsage
  -- accepts it.
  pub record IsServed (node : Node F) (session : Text) (req : InferenceRequest F) (s : Store F)
      (reply : Reply × Store F) : Type 0 where
    pub status : reply.0.status ≡ 200
    pub resp : InferenceResponse F
    pub success : resp.success ≡ true
    pub output : output_of reply.0.body ≡ some resp.output
    pub limits : check_limits session (estimate_tokens req.input) node.now s ≡ ok tt
    pub run : IsAnswered node.remote session req node.now s resp (run_at node session req s)
    pub store : reply.1 ≡ (run_at node session req s).store

  -- The reply to a request for the runtime, with the session of the headers if they have one.
  pub data ServeCase (node : Node F) (session : Option Text) (req : InferenceRequest F)
      (s : Store F) (reply : Reply × Store F) : Type 0 where
    served :
        (id : Text)
        → session ≡ some id
        → IsServed node id req s reply
        → ServeCase node session req s reply
    no_session : session ≡ none → IsDeclined 401 s reply → ServeCase node session req s reply
    session_refused :
        (id : Text)
        → session ≡ some id
        → (run_at node id req s).answer ≡ err (of_buyer invalid_session)
        → IsDeclined 401 s reply
        → ServeCase node session req s reply
    run_failed :
        (id : Text) (e : RunError)
        → session ≡ some id
        → (run_at node id req s).answer ≡ err e
        → e ≢ of_buyer invalid_session
        → IsDeclined 502 s reply
        → ServeCase node session req s reply
    unsuccessful :
        (id : Text) (resp : InferenceResponse F)
        → session ≡ some id
        → (run_at node id req s).answer ≡ ok resp
        → resp.success ≡ false
        → IsDeclined 502 s reply
        → ServeCase node session req s reply

  -- An inference request: the one that is not a POST, the one without a body that decodes, and the one
  -- that the runtime is asked about.
  pub data InferenceCase {B : Type 0} (node : Node F) (r : ApiRequest B) (prompt : B → Text)
      (s : Store F) (reply : Reply × Store F) : Type 0 where
    not_posted :
        r.method ≢ post_method → IsDeclined 405 s reply → InferenceCase node r prompt s reply
    not_decoded :
        r.method ≡ post_method
        → r.body ≡ none
        → IsDeclined 400 s reply
        → InferenceCase node r prompt s reply
    asked :
        (body : B) (req : InferenceRequest F)
        → r.method ≡ post_method
        → r.body ≡ some body
        → req.input ≡ prompt body
        → ServeCase node (parse_session r) req s reply
        → InferenceCase node r prompt s reply
