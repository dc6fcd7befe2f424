-- ===== src/Buyer/Ledger.antt =====
-- internal/buyer/state.go: the counters of an account and its history of requests.
use knowledge_mesh.Base.{◌≡◌, refl, List, [], ◌∷◌, ◌++◌, arith}
use knowledge_mesh.Base.Int.{ℤ, pos, add64}
use knowledge_mesh.Buyer.{RequestRecord, State}
use knowledge_mesh.Buyer.Manager.{reset_if_bucket_changed, count_request, record_request}

module _ {F : Type 0} where
  -- The counters that the requests of a history add up to, in `int` arithmetic.
  unfoldable pub spent_after : ℤ → List (RequestRecord F) → ℤ
  unfolding add64
  spent_after sum [] = sum
  spent_after sum (r ∷ rest) = spent_after (add64 sum r.tokens) rest

  unfoldable pub served_after : ℤ → List (RequestRecord F) → ℤ
  unfolding add64
  served_after sum [] = sum
  served_after sum (r ∷ rest) = served_after (add64 sum (pos 1)) rest

  spent_after-append :
      (sum : ℤ) (rs : List (RequestRecord F)) (r : RequestRecord F)
      → spent_after sum (rs ++ (r ∷ [])) ≡ add64 (spent_after sum rs) r.tokens
  unfolding spent_after
  spent_after-append sum [] r = refl
  spent_after-append sum (q ∷ rest) r = spent_after-append (add64 sum q.tokens) rest r

  served_after-append :
      (sum : ℤ) (rs : List (RequestRecord F)) (r : RequestRecord F)
      → served_after sum (rs ++ (r ∷ [])) ≡ add64 (served_after sum rs) (pos 1)
  unfolding served_after
  served_after-append sum [] r = refl
  served_after-append sum (q ∷ rest) r = served_after-append (add64 sum (pos 1)) rest r

  pub record Balanced (state : State F) : Type 0 where
    pub tokens_spent : state.usage.total_tokens ≡ spent_after (pos 0) state.request_history
    pub requests_counted : state.usage.requests_served ≡ served_after (pos 0) state.request_history

  pub record_request-Balanced :
      (request : RequestRecord F) (state : State F)
      → Balanced state
      → Balanced (record_request request state)
  unfolding record_request count_request reset_if_bucket_changed
  record_request-Balanced request state b =
      let rs = state.request_history in
      ground (
        arith,
        spent_after-append (pos 0) rs request,
        served_after-append (pos 0) rs request,
        b.tokens_spent,
        b.requests_counted,
      )
