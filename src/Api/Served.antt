-- ===== src/Api/Served.antt =====
-- internal/api/server.go: what a node's server answers to an inference, by the cases of Cases.antt.
use knowledge_mesh.Api.{ReplyBody, Reply}
use knowledge_mesh.Api.Cases.{output_of, ServeCase}
use knowledge_mesh.Api.Node.{Node, node_runtime}
use knowledge_mesh.Api.Server.{after_inference}
use knowledge_mesh.Base.{ℕ, ◌≡◌, none, some}
use knowledge_mesh.Base.Float.{Float}
use knowledge_mesh.Base.Result.{Result}
use knowledge_mesh.Base.Text.{Text}
use knowledge_mesh.Buyer.{Store}
use knowledge_mesh.Control.Http.{answer}
use knowledge_mesh.Mesh.Runtime.{RunError}
use knowledge_mesh.Types.{InferenceRequest, InferenceResponse}

module _ {F : Type 0} ⦃f : Float F⦄ where
  -- A way to write errors and responses, of which the words can be told apart.
  record IsFront (write_error : ℕ → Text → Reply) (body : InferenceResponse F → ReplyBody)
      : Type 0 where
    same_status : (n : ℕ) (msg : Text) → (write_error n msg).status ≡ n
    no_output : (n : ℕ) (msg : Text) → output_of (write_error n msg).body ≡ none
    its_output : (resp : InferenceResponse F) → output_of (body resp) ≡ some resp.output

  module _ (node : Node F) (write_error : ℕ → Text → Reply) (body : InferenceResponse F → ReplyBody)
      (front : IsFront write_error body) (req : InferenceRequest F) (s : Store F) where
    abbrev AnswerCase : Text → Result RunError (InferenceResponse F) → Store F → Type 0
    AnswerCase id answer s' =
        ServeCase node (some id) req s
          (after_inference (node_runtime node) write_error body (answer, s'))
