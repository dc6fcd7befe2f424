-- ===== src/Mesh/Runtime/Uncounted.antt =====
-- internal/mesh/runtime.go: a request whose tokens ConsumeUsage refuses to count.
use knowledge_mesh.Base.{ℕ, ◌≡◌, refl, true, false, some, [], ◌∷◌, ap, ◌∙◌, if-both}
use knowledge_mesh.Base.Float.{Float}
use knowledge_mesh.Base.Int.{ℤ}
use knowledge_mesh.Base.Result.{ok, err}
use knowledge_mesh.Base.Text.{Text, trim_space, is_empty}
use knowledge_mesh.Buyer.{BuyerError, Store, RequestRecord, BuyerAccount, get_by_session}
use knowledge_mesh.Buyer.Limits.{consumed, consume_usage-eq-consumed}
use knowledge_mesh.Buyer.Manager.{
  check_limits, reset_if_bucket_changed, limit_error, consume_usage, get_account_by_session,
}
use knowledge_mesh.Buyer.WellFormed.{WellFormed}
use knowledge_mesh.Control.Http.{answer}
use knowledge_mesh.Mesh.Runtime.{
  InferenceMatchReply, Remote, asks_match, tracks_started, sends, get_state, billed, count_locally,
  after_send, matched_request, after_match, filled_request, run_inference, store_after,
}
use knowledge_mesh.Seller.Inference.{estimate_tokens}
use knowledge_mesh.Types.{InferenceRequest, InferenceResponse}

module _ {F : Type 0} where
  consumed-some :
      (account : BuyerAccount F) (request : RequestRecord F) (s : Store F) (e : BuyerError)
      → consumed account request s (some e) ≡ err e
  unfolding consumed
  consumed-some account request s e = refl

  count_locally-refused :
      (session : Text) (est : ℤ) (now : ℕ) (price : F) (req : InferenceRequest F)
      (resp : InferenceResponse F) (s : Store F) (account : BuyerAccount F) (e : BuyerError)
      → WellFormed s
      → get_by_session session s ≡ some account
      → limit_error account.state.token_limits
          (reset_if_bucket_changed account.state.usage now)
          (billed est resp)
        ≡ some e
      → count_locally session est now price req resp s ≡ s
  unfolding count_locally
  count_locally-refused session est now price req resp s account e w here over =
      if-both resp.success _ s s (ap (store_after s) refused) refl
    where
      request : RequestRecord F
      request = record {
        request_id = req.request_id;
        prompt = req.input;
        tokens = billed est resp;
        price = price;
        requested_at = now;
      }

      refused : consume_usage session request s ≡ err e
      refused =
          consume_usage-eq-consumed session request s account w here
          ∙ (ap (consumed account request s) over ∙ consumed-some account request s e)

  -- What the control pane and the network answer to a run that gets as far as a response.
  pub record Answers (remote : Remote F) (session : Text) (req : InferenceRequest F)
      (m : InferenceMatchReply F) (resp : InferenceResponse F) : Type 0 where
    pub controlled : remote.has_control ≡ true
    pub matched : remote.post_inference_match session req ≡ some m
    pub decodes : remote.decodes_peer m.seller_peer_id ≡ true
    pub connects : remote.connects m.seller_peer_id m.seller_listen_addrs ≡ true
    pub marshals : remote.marshals (matched_request remote m req) ≡ true
    pub responds :
        remote.send_request m.seller_peer_id (matched_request remote m req) ≡ some (some resp)

  answered_match :
      (remote : Remote F) (session : Text) (est : ℤ) (now : ℕ) (req : InferenceRequest F)
      (s : Store F) (m : InferenceMatchReply F) (resp : InferenceResponse F)
      → Answers remote session req m resp
      → after_match remote session est now req s (some m)
        ≡ after_send session est now m
            (matched_request remote m req)
            (asks_match req
              ∷ tracks_started m.request_id
              ∷ sends m.seller_peer_id (matched_request remote m req)
              ∷ [])
            s
            (some (some resp))
  answered_match remote session est now req s m resp a =
      rw (a.decodes, a.connects, a.marshals, a.responds) refl

module _ {F : Type 0} ⦃f : Float F⦄ where
  answered_run :
      (remote : Remote F) (session : Text) (req : InferenceRequest F) (now : ℕ) (new_id : Text)
      (s : Store F) (m : InferenceMatchReply F) (resp : InferenceResponse F)
      (account : BuyerAccount F)
      → is_empty (trim_space session) ≡ false
      → get_by_session session s ≡ some account
      → check_limits session (estimate_tokens req.input) now s ≡ ok tt
      → Answers remote session (filled_request account.state new_id req) m resp
      → ((run_inference remote session req now new_id s).answer ≡ ok resp)
        × ((run_inference remote session req now new_id s).store
            ≡ count_locally session
                (estimate_tokens req.input)
                now
                m.price
                (matched_request remote m (filled_request account.state new_id req))
                resp
                s)
  unfolding run_inference get_state get_account_by_session
  answered_run remote session req now new_id s m resp account some_session here allowed a =
      rw
        (
          some_session,
          allowed,
          here,
          a.controlled,
          a.matched,
          answered_match remote session (estimate_tokens req.input) now
              (filled_request account.state new_id req) s m resp a,
        )
        (refl, refl)

  -- When the session leads to an account of a well-formed store, the limits allow the estimate, and the
  -- control pane and the network answer, but the tokens that the response is billed with pass a limit of
  -- the buyer, then the run returns the response, and the store stays as it was: the request is not counted.
  pub run_inference_uncounted :
      (remote : Remote F) (session : Text) (req : InferenceRequest F) (now : ℕ) (new_id : Text)
      (s : Store F) (m : InferenceMatchReply F) (resp : InferenceResponse F)
      (account : BuyerAccount F) (e : BuyerError)
      → WellFormed s
      → is_empty (trim_space session) ≡ false
      → get_by_session session s ≡ some account
      → check_limits session (estimate_tokens req.input) now s ≡ ok tt
      → Answers remote session (filled_request account.state new_id req) m resp
      → limit_error account.state.token_limits
          (reset_if_bucket_changed account.state.usage now)
          (billed (estimate_tokens req.input) resp)
        ≡ some e
      → ((run_inference remote session req now new_id s).answer ≡ ok resp)
        × ((run_inference remote session req now new_id s).store ≡ s)
  run_inference_uncounted remote session req now new_id s m resp account e w some_session here
        allowed a over =
      let (answer, store) =
        answered_run remote session req now new_id s m resp account some_session here allowed a in
      (
        answer,
        store
            ∙ count_locally-refused session (estimate_tokens req.input) now m.price
                (matched_request remote m (filled_request account.state new_id req)) resp s account
                e w here over,
      )
