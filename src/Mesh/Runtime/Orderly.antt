-- ===== src/Mesh/Runtime/Orderly.antt =====
-- internal/mesh/runtime.go: what a run asks of the control pane and the network, and what it leaves in the
-- buyer's store.
use knowledge_mesh.Base.{length, ℕ, ◌≤◌, ◌≡◌, Bool, false, some, List, [], ◌∷◌, map}
use knowledge_mesh.Base.Float.{Float}
use knowledge_mesh.Base.Int.{ℤ, pos}
use knowledge_mesh.Base.Result.{Result, ok, err}
use knowledge_mesh.Base.Text.{Text}
use knowledge_mesh.Buyer.{Store}
use knowledge_mesh.Buyer.Manager.{check_limits}
use knowledge_mesh.Mesh.Runtime.{
  InferenceMatchReply, Remote, RunError, Action, asks_match, tracks_started, tracks_completed,
  sends, completes, Outcome, billed, count_locally,
}
use knowledge_mesh.Seller.Inference.{estimate_tokens}
use knowledge_mesh.Types.{InferenceRequest, InferenceResponse}

module _ {F : Type 0} where
  abbrev pub sent_requests : List (Action F) → List (InferenceRequest F)
  sent_requests [] = []
  sent_requests (sends peer req ∷ rest) = req ∷ sent_requests rest
  sent_requests (_ ∷ rest) = sent_requests rest

  -- The completions that the control pane is told of: the request's id, the tokens and the success.
  abbrev pub completions : List (Action F) → List (Text × ℤ × Bool)
  completions [] = []
  completions (completes request tokens success ∷ rest) =
      (request, tokens, success) ∷ completions rest
  completions (_ ∷ rest) = completions rest

  abbrev pub failed_completion : InferenceRequest F → Text × ℤ × Bool
  failed_completion req = (req.request_id, pos 0, false)

  -- A request that is answered: the completion reports the response's own success with the billed tokens
  -- under the id of the match, and a success is counted in the store if ConsumeUsage accepts it.
  pub record IsAnswered (remote : Remote F) (session : Text) (req : InferenceRequest F) (now : ℕ)
      (s : Store F) (resp : InferenceResponse F) (o : Outcome F) : Type 0 where
    pub match : InferenceMatchReply F
    pub asked : InferenceRequest F
    pub reply_to_ask : remote.post_inference_match session asked ≡ some match
    pub same_input : asked.input ≡ req.input
    pub sent : InferenceRequest F
    pub sent_is :
        sent ≡ record asked { request_id = match.request_id; buyer_peer_id = remote.host_id }
    pub reply_to_send : remote.send_request match.seller_peer_id sent ≡ some (some resp)
    pub actions :
        o.actions
        ≡ asks_match asked
          ∷ tracks_started match.request_id
          ∷ sends match.seller_peer_id sent
          ∷ tracks_completed match.request_id
          ∷ completes match.request_id (billed (estimate_tokens req.input) resp) resp.success
          ∷ []
    pub store :
        o.store ≡ count_locally session (estimate_tokens req.input) now match.price sent resp s

  -- A run that returns an error leaves the store as it was, has sent one request at most, and has told the
  -- control pane of a completion without tokens and without success for each request that it has sent, and
  -- of no other completion.
  pub record IsStopped (s : Store F) (o : Outcome F) : Type 0 where
    pub same_store : o.store ≡ s
    pub told : completions o.actions ≡ map failed_completion (sent_requests o.actions)
    pub at_most_once : length (sent_requests o.actions) ≤ 1

  pub data RunCase (remote : Remote F) (session : Text) (req : InferenceRequest F) (now : ℕ)
      (s : Store F) (o : Outcome F) : Type 0 where
    answered :
        (resp : InferenceResponse F)
        → o.answer ≡ ok resp
        → check_limits session (estimate_tokens req.input) now s ≡ ok tt
        → IsAnswered remote session req now s resp o
        → RunCase remote session req now s o
    stopped_with :
        (e : RunError) → o.answer ≡ err e → IsStopped s o → RunCase remote session req now s o
