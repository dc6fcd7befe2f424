-- ===== src/Mesh/Examples.antt =====
-- A run for the buyer of internal/buyer's examples.
use knowledge_mesh.Base.{◌≡◌, refl, true, none, some, [], false}
use knowledge_mesh.Base.Assoc.{get, put}
use knowledge_mesh.Base.Float.{Micros, micros_float}
use knowledge_mesh.Base.Int.{ℤ, pos}
use knowledge_mesh.Base.Result.{ok}
use knowledge_mesh.Base.Text.{codes, text_beq, trim_space, lower, fields, is_empty}
use knowledge_mesh.Buyer.{hourly_limit_exceeded, get_by_session}
use knowledge_mesh.Buyer.Examples.{ann, ann_store, ann_stands, ann_store-WellFormed}
use knowledge_mesh.Buyer.Manager.{
  reset_if_bucket_changed, exceeds, limit_error, get_account_by_session, check_limits,
}
use knowledge_mesh.Mesh.Runtime.{Remote, billed, run_inference, InferenceMatchReply, filled_request}
use knowledge_mesh.Mesh.Runtime.Uncounted.{Answers, run_inference_uncounted}
use knowledge_mesh.Seller.Inference.{estimate_tokens}
use knowledge_mesh.Types.{
  InferenceRequest, InferenceResponse, no_limits, no_usage, no_skill, no_response,
}

abbrev reply_of : ℤ → InferenceResponse Micros
reply_of tokens = record no_response {
  request_id = codes "r1";
  success = true;
  output = codes "hello";
  token_usage = record no_usage { total_tokens = tokens };
}

abbrev hello_match : InferenceMatchReply Micros
hello_match = record {
  request_id = codes "r1";
  seller_id = codes "bob";
  seller_peer_id = codes "p2";
  seller_listen_addrs = [];
  price = some 20;
}

-- Everything works, and the seller counts 400 tokens.
abbrev pub sample_remote : Remote Micros
sample_remote = record {
  has_control = true;
  host_id = codes "h1";
  post_inference_match = λ session req. some hello_match;
  decodes_peer = λ peer. true;
  connects = λ peer addrs. true;
  marshals = λ req. true;
  send_request = λ peer req. some (some (reply_of (pos 400)));
  register_buyer = λ name email password. none;
  login_buyer = λ user password. none;
}

abbrev pub hello_request : InferenceRequest Micros
hello_request = record {
  request_id = [];
  buyer_peer_id = [];
  model_name = [];
  model_type = [];
  tuning_tier = [];
  skill = no_skill;
  input = codes "hi";
  max_price = some 0;
  token_limits = no_limits;
}

over_limit :
    limit_error ann.state.token_limits
      (reset_if_bucket_changed ann.state.usage 7300)
      (billed (estimate_tokens hello_request.input) (reply_of (pos 400)))
    ≡ some hourly_limit_exceeded
unfolding limit_error reset_if_bucket_changed billed exceeds
over_limit = refl

hello-Answers :
    Answers sample_remote
      (codes "sess-1")
      (filled_request ann.state (codes "req-1") hello_request)
      hello_match
      (reply_of (pos 400))
hello-Answers = record {
  controlled = refl;
  matched = refl;
  decodes = refl;
  connects = refl;
  marshals = refl;
  responds = refl;
}

hello_allowed :
    check_limits (codes "sess-1") (estimate_tokens hello_request.input) 7300 ann_store ≡ ok tt
unfolding check_limits get_account_by_session get_by_session limit_error exceeds
    reset_if_bucket_changed estimate_tokens trim_space get text_beq put lower fields
hello_allowed = refl

sess_stands : is_empty (trim_space (codes "sess-1")) ≡ false
unfolding trim_space
sess_stands = refl

run_inference_uncounted_example :
    ((run_inference sample_remote
        (codes "sess-1")
        hello_request
        7300
        (codes "req-1")
        ann_store).answer
      ≡ ok (reply_of (pos 400)))
    × ((run_inference sample_remote
          (codes "sess-1")
          hello_request
          7300
          (codes "req-1")
          ann_store).store
        ≡ ann_store)
run_inference_uncounted_example =
    run_inference_uncounted sample_remote (codes "sess-1") hello_request 7300 (codes "req-1")
      ann_store hello_match (reply_of (pos 400)) ann hourly_limit_exceeded ann_store-WellFormed
      sess_stands ann_stands hello_allowed hello-Answers over_limit
