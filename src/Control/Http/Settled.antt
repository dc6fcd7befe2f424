-- ===== src/Control/Http/Settled.antt =====
-- inference_http.go: the handler that settles a match.
use knowledge_mesh.Base.{ℕ, ◌≡◌, refl, sym, ap, Bool, some, List}
use knowledge_mesh.Base.Float.{Float}
use knowledge_mesh.Base.Int.{ℤ}
use knowledge_mesh.Base.Result.{Result, ok, err}
use knowledge_mesh.Base.Text.{Text}
use knowledge_mesh.Control.Billing.{settle_inference_match}
use knowledge_mesh.Control.Billing.Once.{HasSettled, settle_again}
use knowledge_mesh.Control.Db.{Db}
use knowledge_mesh.Control.Http.{HttpRequest, answer, attempt}
use knowledge_mesh.Control.Http.Buyers.{
  Answer, InferenceCompleteReq, settle_status, authorized_buyer, handle_buyer_complete,
}
use knowledge_mesh.Control.Http.Frame.{as_buyer, buyer_actor, buyer_token, actor}
use knowledge_mesh.Control.Http.Routes.{buyer_complete, HttpServer, serve}
use knowledge_mesh.Control.Http.Steps.{with_status-ok, then-outcome, given-outcome, require-outcome}
use knowledge_mesh.Control.Session.{Fault, Session}
use mathlib.Core.Path.{subst}

module _ {F : Type 0} ⦃f : Float F⦄ (pane : HttpServer F) where
  -- What a report of 200 means: the token, the body, and the settlement that the store has made.
  record Completed (uuid : ℕ → Text) (r : HttpRequest InferenceCompleteReq) (s : Session (Db F))
      (after : Db F) : Type 0 where
    buyer : Text
    body : InferenceCompleteReq
    token : buyer_token pane r.authorization ≡ some buyer
    decoded_as : r.body ≡ some body
    reported :
        (settle_inference_match
          (uuid 0)
          (uuid 1)
          buyer
          body.request_id
          body.total_tokens
          body.success
          s).0
        ≡ ok tt
    database :
        after
        ≡ (settle_inference_match
            (uuid 0)
            (uuid 1)
            buyer
            body.request_id
            body.total_tokens
            body.success
            s).1.db

  abbrev CompletedOr :
      (ℕ → Text)
      → HttpRequest InferenceCompleteReq
      → Session (Db F)
      → Result ℕ (Answer F)
      → Db F
      → Type 0
  CompletedOr uuid r s (ok a) after = Completed uuid r s after
  CompletedOr uuid r s (err status) after = Unit

  serve_buyer_complete-CompletedOr :
      (uuid : ℕ → Text) (r : HttpRequest InferenceCompleteReq) (s : Session (Db F))
      → CompletedOr uuid r s
          (serve pane uuid (buyer_complete r) s).0
          (serve pane uuid (buyer_complete r) s).1.db
  unfolding serve handle_buyer_complete authorized_buyer attempt answer
  serve_buyer_complete-CompletedOr uuid r s =
      require-outcome (CompletedOr uuid r s) _ 405 _ s tt λ _.
        given-outcome (CompletedOr uuid r s) _ 401 _ s tt λ buyer token.
          given-outcome (CompletedOr uuid r s) _ 400 _ s tt λ body decoded_as.
            require-outcome (CompletedOr uuid r s) _ 400 _ s tt λ _.
              then-outcome (CompletedOr uuid r s) _ _ s (λ _ _. tt)
                λ u reported. record {
                  buyer = buyer;
                  body = body;
                  token = token;
                  decoded_as = decoded_as;
                  reported = with_status-ok settle_status _ u reported;
                  database = refl;
                }

  Completed-of :
      (uuid : ℕ → Text) (r : HttpRequest InferenceCompleteReq) (s : Session (Db F))
      (result : Result ℕ (Answer F)) (after : Db F) (reply : Answer F)
      → CompletedOr uuid r s result after
      → result ≡ ok reply
      → Completed uuid r s after
  Completed-of uuid r s (ok a) after reply c h = c
  Completed-of uuid r s (err status) after reply c h = cc

  -- When a report of a finished inference is answered with 200, the match of the token's buyer is on record
  -- as settled, and any later call of SettleInferenceMatch for it leaves the database as it is.
  pub serve_complete-settles :
      (uuid : ℕ → Text) (r : HttpRequest InferenceCompleteReq) (s : Session (Db F))
      (reply : Answer F) (tid1 tid2 : Text) (tokens : ℤ) (success : Bool) (plan : List Fault)
      → (serve pane uuid (buyer_complete r) s).0 ≡ ok reply
      → let db = (serve pane uuid (buyer_complete r) s).1.db in
        (buyer : Text) × (body : InferenceCompleteReq) × (actor pane uuid (buyer_complete r)
          ≡ as_buyer buyer)
        × (r.body ≡ some body)
        × HasSettled buyer body.request_id db
        × ((settle_inference_match tid1 tid2 buyer body.request_id tokens success
              (record { db = db; plan = plan })).1.db
            ≡ db)
  unfolding actor
  serve_complete-settles uuid r s reply tid1 tid2 tokens success plan h =
      let c = Completed-of uuid r s _ _ reply (serve_buyer_complete-CompletedOr uuid r s) h in
      (
        c.buyer,
        c.body,
        ap (buyer_actor pane) c.token,
        c.decoded_as,
        subst (HasSettled c.buyer c.body.request_id) (sym c.database) (again_of c).0,
        subst
            (λ (db : Db F).
              (settle_inference_match tid1 tid2 c.buyer c.body.request_id tokens success
                (record { db = db; plan = plan })).1.db
              ≡ db)
            (sym c.database) (again_of c).1,
      )
    where
      again_of :
          (c : Completed uuid r s (serve pane uuid (buyer_complete r) s).1.db)
          → let db =
              (settle_inference_match
                (uuid 0)
                (uuid 1)
                c.buyer
                c.body.request_id
                c.body.total_tokens
                c.body.success
                s).1.db in
            HasSettled c.buyer c.body.request_id db
            × ((settle_inference_match tid1 tid2 c.buyer c.body.request_id tokens success
                  (record { db = db; plan = plan })).1.db
                ≡ db)
      again_of c =
          settle_again (uuid 0) (uuid 1) tid1 tid2 c.buyer c.body.request_id c.body.total_tokens
            tokens c.body.success success s plan c.reported
