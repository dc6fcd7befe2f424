-- ===== src/Control/Http/Matched.antt =====
-- inference_http.go: what the handler that matches a request leaves behind.
use mathlib.Core.Option
use knowledge_mesh.Base.{find, ℕ, ◌≡◌, refl, ◌∙◌, false, Option, none, some, ◌⊎◌}
use knowledge_mesh.Base.Assoc.{get}
use knowledge_mesh.Base.Float.{Float}
use knowledge_mesh.Base.Result.{Result, ok, err}
use knowledge_mesh.Base.Text.{Text, trim_space}
use knowledge_mesh.Control.Db.{SellerUser, InferenceMatch, Db}
use knowledge_mesh.Control.Http.{◌>>=◌, HttpRequest}
use knowledge_mesh.Control.Http.Buyers.{Answer, matched, with_request_id}
use knowledge_mesh.Control.Http.Frame.{as_buyer, actor}
use knowledge_mesh.Control.Http.Routes.{buyer_match, HttpServer}
use knowledge_mesh.Control.Matching.{estimate_tokens_for_match, has_peer}
use knowledge_mesh.Control.Matching.Listing.{IsOffered}
use knowledge_mesh.Control.Matching.Record.{new_match, with_match}
use knowledge_mesh.Control.Session.{◌>>=◌ as bind, Session}
use knowledge_mesh.Control.Session.Frame.{IsPreorder}
use knowledge_mesh.Matchmaker.Choice.{IsEligible}
use knowledge_mesh.Types.{SellerNode, InferenceRequest}

module _ {S : Type 0} where
  record Same (before after : S) : Type 0 where
    equal : after ≡ before

  instance abbrev Same-IsPreorder : IsPreorder {S = S} Same
  Same-IsPreorder = record {
    same = λ a. record { equal = refl };
    next = λ a b c h k. record { equal = k.equal ∙ h.equal };
  }

module _ {F : Type 0} ⦃f : Float F⦄ (buyer : Text) (req : InferenceRequest F) (before : Db F) where
  -- An answer of 200 names a node of the list that is eligible for the request, and the account that has
  -- its peer id; the database has one more match, which is not settled, under an id that had none.
  pub record IsMatch (reply : Answer F) (after : Db F) : Type 0 where
    pub node : SellerNode F
    pub seller : Text
    pub answered :
        reply
        ≡ matched req.request_id seller node.peer_id node.listen_addrs node.price node.reputation
    pub eligible : IsEligible req node
    pub offered : IsOffered node
    pub account :
        Option.map
          (λ (u : SellerUser). u.id)
          (find (has_peer (trim_space node.peer_id)) before.seller_users)
        ≡ some seller
    pub new_id : get before.matches req.request_id ≡ none
    pub row :
        after
        ≡ with_match req.request_id
            (new_match buyer seller node.peer_id (estimate_tokens_for_match req.input))
            before

  -- What the handler may answer and leave behind. An error may come after the row was written, when the
  -- reply to the INSERT is lost.
  pub data MatchOutcome : Result ℕ (Answer F) → Db F → Type 0 where
    refused : {status : ℕ} → MatchOutcome (err status) before
    unreported :
        {status : ℕ} (row : InferenceMatch)
        → row.buyer_id ≡ buyer
        → row.settled ≡ false
        → get before.matches req.request_id ≡ none
        → MatchOutcome (err status) (with_match req.request_id row before)
    found : {reply : Answer F} {after : Db F} → IsMatch reply after → MatchOutcome (ok reply) after

module _ {F : Type 0} ⦃f : Float F⦄ (pane : HttpServer F) (uuid : ℕ → Text) where
  -- Refused with the database as it was, or an outcome for the buyer of the token and the decoded body.
  abbrev pub MatchReply :
      HttpRequest (InferenceRequest F) → Db F → Result ℕ (Answer F) → Db F → Type 0
  MatchReply r before result after =
      ((status : ℕ) × (result ≡ err status) × (after ≡ before))
      ⊎ ((buyer : Text) × (req : InferenceRequest F) × (actor pane uuid (buyer_match r)
            ≡ as_buyer buyer)
          × (r.body ≡ some req)
          × MatchOutcome buyer (with_request_id buyer (uuid 0) req) before result after)
