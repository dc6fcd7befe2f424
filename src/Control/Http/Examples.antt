-- ===== src/Control/Http/Examples.antt =====
-- internal/control: the handlers on small requests.
use knowledge_mesh.Base.{
  if◌then◌else◌, ℕ, ◌≡◌, Bool, true, ◌&&◌, none, some, [], ◌∷◌, ◌++◌, arith, refl, ap, false, ◌≢◌,
}
use knowledge_mesh.Base.Assoc.{get, update}
use knowledge_mesh.Base.Float.{Micros, micros_float}
use knowledge_mesh.Base.Int.{pos, add64}
use knowledge_mesh.Base.Result.{ok}
use knowledge_mesh.Base.Text.{Text, codes, text_beq, text_beq_iff, lower, trim_space, is_empty}
use knowledge_mesh.Control.Billing.{settle_inference_match}
use knowledge_mesh.Control.Billing.Funds.{Conserves}
use knowledge_mesh.Control.Billing.Once.{HasSettled}
use knowledge_mesh.Control.Db.{Db}
use knowledge_mesh.Control.Examples.{alice, bob, request_1, small_db, sound}
use knowledge_mesh.Control.Http.{
  Method, post_method, HttpRequest, ◌>>=◌, answer, proceed, attempt, or_refuse, require,
}
use knowledge_mesh.Control.Http.Buyers.{
  acknowledged, authorized_buyer, handle_buyer_complete, InferenceCompleteReq,
}
use knowledge_mesh.Control.Http.Frame.{as_buyer, actor, nobody, as_seller, new_buyer, new_seller}
use knowledge_mesh.Control.Http.Funds.{makes_buyer, serve-Conserves}
use knowledge_mesh.Control.Http.Guards.{
  IsFaithful, issue_buyer-parse, IsRejected, serve_nobody-IsRejected,
}
use knowledge_mesh.Control.Http.Isolation.{BuyerKept, SellerKept, serve-BuyerKept, serve-SellerKept}
use knowledge_mesh.Control.Http.Routes.{HttpServer, Call, buyer_complete, serve}
use knowledge_mesh.Control.Http.Settled.{serve_complete-settles}
use knowledge_mesh.Control.Http.Tokens.{
  Claims, Jwt, issue_buyer_token, parse_buyer_token, parse_seller_token, bearer_token,
}
use knowledge_mesh.Control.Session.{
  ◌>>=◌ as bind, works, lost, Session, statement, refuse_when, commit_with, finish, in_transaction,
  transaction,
}
use knowledge_mesh.Control.Session.Faultless.{fresh}
use knowledge_mesh.Types.{InferenceRequest, no_limits, no_skill}

abbrev claims_of : Text → Text → Text → Claims
claims_of bid sid kind = record {
  bid = bid;
  sid = sid;
  name = [];
  email = [];
  kind = kind;
  subject = bid ++ sid;
}

abbrev alice_claims : Claims
alice_claims = claims_of alice [] (codes "buyer")

abbrev bob_claims : Claims
bob_claims = claims_of [] bob (codes "seller")

abbrev same_claims : Claims → Claims → Bool
same_claims c d =
    text_beq c.bid d.bid
    && (text_beq c.sid d.sid
        && (text_beq c.name d.name
            && (text_beq c.email d.email
                && (text_beq c.kind d.kind && text_beq c.subject d.subject))))

same_claims_eq : (c d : Claims) → same_claims c d ≡ true → d ≡ c
same_claims_eq c d h = ground (
  arith,
  text_beq_iff c.bid d.bid,
  text_beq_iff c.sid d.sid,
  text_beq_iff c.name d.name,
  text_beq_iff c.email d.email,
  text_beq_iff c.kind d.kind,
  text_beq_iff c.subject d.subject,
)

-- A library that knows two tokens.
abbrev two_tokens : Jwt
two_tokens = record {
  signed = λ secret c.
      if same_claims c alice_claims
      then some (codes "a")
      else if same_claims c bob_claims
      then some (codes "b")
      else none;
  accepted = λ secret token.
      if text_beq token (codes "a")
      then some alice_claims
      else if text_beq token (codes "b")
      then some bob_claims
      else none;
}

two_tokens-accepts :
    (c : Claims) (token : Text) (b1 b2 : Bool)
    → same_claims c alice_claims ≡ b1
    → same_claims c bob_claims ≡ b2
    → (if b1 then some (codes "a") else if b2 then some (codes "b") else none) ≡ some token
    → (two_tokens.accepted [] token ≡ some c) × (is_empty token ≡ false)
unfolding text_beq
two_tokens-accepts c token true b2 e1 e2 h =
    let t : codes "a" ≡ token = cc in rw (← t) (ap some (same_claims_eq c alice_claims e1), refl)
two_tokens-accepts c token false true e1 e2 h =
    let t : codes "b" ≡ token = cc in rw (← t) (ap some (same_claims_eq c bob_claims e2), refl)
two_tokens-accepts c token false false e1 e2 h = cc

two_tokens-IsFaithful : IsFaithful two_tokens
two_tokens-IsFaithful = record {
  round_trip = λ secret c token h. (two_tokens-accepts c token _ _ refl refl h).0;
  not_empty = λ secret c token h. (two_tokens-accepts c token _ _ refl refl h).1;
}

abbrev small_pane : HttpServer Micros
small_pane = record {
  secret = codes "k";
  jwt = two_tokens;
  hash_of = λ w. some w;
  fits_hash = λ hash w. text_beq hash w;
  as_uuid = λ id. some id;
  int_of = λ x. pos 0;
}

abbrev ids : ℕ → Text
ids n = codes "id" ++ (n ∷ [])

issued : issue_buyer_token two_tokens (codes "k") alice [] [] ≡ some (codes "a")
unfolding issue_buyer_token text_beq
issued = refl

issue_buyer-parse_example :
    (parse_buyer_token two_tokens (codes "k") (codes "a") ≡ some alice)
    × (parse_seller_token two_tokens (codes "k") (codes "a") ≡ none)
issue_buyer-parse_example =
    issue_buyer-parse two_tokens two_tokens-IsFaithful (codes "k") alice [] [] (codes "a") issued

abbrev call : {B : Type 0} → Method → Text → B → HttpRequest B
call method token body = record {
  method = method;
  authorization = codes "Bearer " ++ token;
  path_id = [];
  body = some body;
}

-- Alice reports the inference of her match as finished.
abbrev report : Call Micros
report = buyer_complete (
    call post_method (codes "a")
      (record { request_id = request_1; total_tokens = pos 40; success = true; meta = [] }))

report-actor : actor small_pane ids report ≡ as_buyer alice
unfolding actor parse_buyer_token bearer_token trim_space lower text_beq
report-actor = refl

-- The same report with a token that nobody has signed.
abbrev forged : Call Micros
forged = buyer_complete (
    call post_method (codes "x")
      (record { request_id = request_1; total_tokens = pos 40; success = true; meta = [] }))

forged-actor : actor small_pane ids forged ≡ nobody
unfolding actor parse_buyer_token bearer_token trim_space lower text_beq
forged-actor = refl

serve_nobody-IsRejected_example :
    IsRejected (serve small_pane ids forged (fresh small_db)) (fresh small_db)
serve_nobody-IsRejected_example =
    serve_nobody-IsRejected small_pane ids forged (fresh small_db) forged-actor refl

abbrev faulty : Session (Db Micros)
faulty = record { db = small_db; plan = works ∷ lost ∷ [] }

not_cy : actor small_pane ids report ≢ as_buyer (codes "cy")
not_cy h = absurd (cc (report-actor, h))

not_new_cy : actor small_pane ids report ≢ new_buyer (codes "cy")
not_new_cy h = absurd (cc (report-actor, h))

serve-BuyerKept_example : BuyerKept (codes "cy") small_db (serve small_pane ids report faulty).1.db
serve-BuyerKept_example =
    serve-BuyerKept small_pane ids report (codes "cy") faulty not_cy not_new_cy

not_bob : actor small_pane ids report ≢ as_seller bob
not_bob h = absurd (cc (report-actor, h))

not_new_bob : actor small_pane ids report ≢ new_seller bob
not_new_bob h = absurd (cc (report-actor, h))

serve-SellerKept_example : SellerKept bob small_db (serve small_pane ids report faulty).1.db
serve-SellerKept_example = serve-SellerKept small_pane ids report bob faulty not_bob not_new_bob

report_makes_no_buyer : makes_buyer (actor small_pane ids report) ≡ false
report_makes_no_buyer = rw report-actor refl

serve-Conserves_example : Conserves small_db (serve small_pane ids report faulty).1.db
serve-Conserves_example = serve-Conserves small_pane ids report faulty sound report_makes_no_buyer

report_answered : (serve small_pane ids report (fresh small_db)).0 ≡ ok acknowledged
unfolding serve handle_buyer_complete authorized_buyer parse_buyer_token bearer_token trim_space
    lower text_beq ◌>>=◌ require or_refuse proceed answer attempt add64 settle_inference_match bind
    refuse_when statement transaction in_transaction finish commit_with get update
report_answered = refl

serve_complete-settles_example :
    let db = (serve small_pane ids report (fresh small_db)).1.db in
    (buyer : Text) × (body : InferenceCompleteReq) × (actor small_pane ids report ≡ as_buyer buyer)
    × (some (record { request_id = request_1; total_tokens = pos 40; success = true; meta = [] })
        ≡ some body)
    × HasSettled buyer body.request_id db
    × ((settle_inference_match
          (codes "t3")
          (codes "t4")
          buyer
          body.request_id
          (pos 70)
          false
          (record { db = db; plan = works ∷ lost ∷ [] })).1.db
        ≡ db)
serve_complete-settles_example =
    serve_complete-settles small_pane ids
      (call post_method (codes "a")
        (record { request_id = request_1; total_tokens = pos 40; success = true; meta = [] }))
      (fresh small_db) acknowledged (codes "t3") (codes "t4") (pos 70) false (works ∷ lost ∷ [])
      report_answered

abbrev chat_request : HttpRequest (InferenceRequest Micros)
chat_request = call post_method (codes "a") (record {
  request_id = codes "r7";
  buyer_peer_id = [];
  model_name = [];
  model_type = [];
  tuning_tier = [];
  skill = record no_skill { name = codes "chat" };
  input = codes "hi";
  max_price = some 50;
  token_limits = no_limits;
})
