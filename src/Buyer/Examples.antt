-- ===== src/Buyer/Examples.antt =====
-- A store with one buyer, for the theorems on the manager.
use knowledge_mesh.Base.{if◌then◌else◌, ◌≡◌, refl, some, [], ◌++◌, ◌↔◌, false, none, ◌∷◌, arith}
use knowledge_mesh.Base.Assoc.{get, put}
use knowledge_mesh.Base.Float.{Micros, micros_float}
use knowledge_mesh.Base.Int.{pos, ◌+ℤ◌, Fits64}
use knowledge_mesh.Base.Result.{ok, err, map_ok}
use knowledge_mesh.Base.Text.{Text, codes, text_beq, lower, trim_space, to_lower}
use knowledge_mesh.Buyer.{
  invalid_credentials, Preferences, RequestRecord, State, BuyerAccount, Store, new_store, insert,
  create, get_by_session, invalid_session, put_control_account, get_by_user_or_email, updated,
  update_account,
}
use knowledge_mesh.Buyer.Accounts.{with_account, login-register, login_shadowed, establish_revokes}
use knowledge_mesh.Buyer.Counted.{ConsumeCase, consume_usage-ConsumeCase}
use knowledge_mesh.Buyer.Limits.{
  Within, WithinLimits, consume_usage-WithinLimits, limit_error_exact,
}
use knowledge_mesh.Buyer.Manager.{
  register, login, new_state, local_account, save, reset_if_bucket_changed, limit_error,
  count_request, get_account_by_session, set_limits, check_limits, record_request, consume_usage,
  control_account, establish_control_session,
}
use knowledge_mesh.Buyer.Sessions.{Reachable-WellFormed}
use knowledge_mesh.Buyer.Steps.{registers, Reachable, starts_empty, moves, logs_in, sets_limits}
use knowledge_mesh.Buyer.WellFormed.{WellFormed}
use knowledge_mesh.Types.{no_limits, no_usage}

-- A hash for the examples: it is the password itself.
abbrev pub plain : Text → Text
plain w = w

abbrev pub no_prefs : Preferences Micros
no_prefs = record {
  preferred_skill = [];
  preferred_model = [];
  max_price_per_token = some 0;
  max_price_per_request = some 0;
}

abbrev pub ann : BuyerAccount Micros
ann = record {
  username = codes "Ann";
  email = codes "ann@mesh";
  password_hash = codes "pw";
  state =
      record (new_state plain no_prefs (codes "buyer-Ann") (codes "sess-1")
        (codes "local:ann@mesh")) { token_limits = record no_limits { hourly_tokens = pos 100 } };
}

abbrev pub ann_store : Store Micros
ann_store = insert ann [] new_store

abbrev ann_registered : Store Micros
ann_registered =
    insert (local_account plain no_prefs (codes "ann@mesh") (codes "Ann") (codes "pw")) [] new_store

abbrev ask : RequestRecord Micros
ask = record {
  request_id = codes "r1";
  prompt = codes "hello";
  tokens = pos 40;
  price = some 2;
  requested_at = 7300;
}

registered :
    register plain no_prefs (codes " Ann@mesh") (codes "Ann ") (codes "pw") new_store
    ≡ ok (
      (local_account plain no_prefs (codes "ann@mesh") (codes "Ann") (codes "pw")).state,
      ann_registered,
    )
unfolding register create get put trim_space lower
registered = refl

pub ann_stands : get_by_session (codes "sess-1") ann_store ≡ some ann
unfolding get_by_session get put text_beq lower
ann_stands = refl

ann-Reachable : Reachable plain no_prefs ann_registered
ann-Reachable =
    moves starts_empty (registers (codes " Ann@mesh") (codes "Ann ") (codes "pw") registered)

Reachable-WellFormed_example : WellFormed ann_registered
Reachable-WellFormed_example = Reachable-WellFormed plain no_prefs ann-Reachable

-- Ann logs in and sets a limit.
abbrev ann_entered : BuyerAccount Micros
ann_entered = record ann { state = record (ann.state) { token_limits = no_limits } }

logged_in :
    login plain no_prefs (codes "Ann") (codes "pw") (codes "1") ann_registered
    ≡ ok (ann_entered.state, insert ann_entered [] new_store)
unfolding login get_by_user_or_email save update_account get put trim_space lower text_beq
logged_in = refl

limited :
    set_limits (codes "sess-1") (pos 100) (pos 0) (pos 0) (insert ann_entered [] new_store)
    ≡ ok (ann.state, ann_store)
unfolding set_limits get_by_session save update_account get put lower text_beq
limited = refl

ann_store-Reachable : Reachable plain no_prefs ann_store
ann_store-Reachable =
    moves (moves ann-Reachable (logs_in (codes "Ann") (codes "pw") (codes "1") logged_in))
      (sets_limits (codes "sess-1") (pos 100) (pos 0) (pos 0) limited)

pub ann_store-WellFormed : WellFormed ann_store
ann_store-WellFormed = Reachable-WellFormed plain no_prefs ann_store-Reachable

-- Another buyer takes Ann's e-mail address as a user name.
abbrev mallory : BuyerAccount Micros
mallory = local_account plain no_prefs (codes "m@mesh") (codes "ann@mesh") (codes "other")

abbrev shared_store : Store Micros
shared_store = insert mallory ann_store.by_session ann_store

taken :
    register plain no_prefs (codes "m@mesh") (codes "ann@mesh") (codes "other") ann_store
    ≡ ok (mallory.state, shared_store)
unfolding register create get put trim_space lower text_beq
taken = refl

shared_store-WellFormed : WellFormed shared_store
shared_store-WellFormed = Reachable-WellFormed plain no_prefs (
    moves ann_store-Reachable (registers (codes "m@mesh") (codes "ann@mesh") (codes "other") taken))

ann_there : get shared_store.by_username (to_lower (codes "Ann")) ≡ some ann
unfolding get put lower text_beq
ann_there = refl

mallory_there :
    get shared_store.by_username (to_lower (trim_space (codes "ann@mesh"))) ≡ some mallory
unfolding get put lower text_beq trim_space
mallory_there = refl

differs : text_beq (codes "other") (codes "pw") ≡ false
unfolding text_beq
differs = refl

login_shadowed_example :
    login plain no_prefs (codes "ann@mesh") (codes "pw") (codes "9") shared_store
    ≡ err invalid_credentials
login_shadowed_example =
    login_shadowed plain no_prefs ann mallory (codes "pw") (codes "9") shared_store
      shared_store-WellFormed ann_there refl mallory_there differs

consume_usage-ConsumeCase_example :
    ConsumeCase ann ask ann_store (consume_usage (codes "sess-1") ask ann_store)
consume_usage-ConsumeCase_example =
    consume_usage-ConsumeCase (codes "sess-1") ask ann_store ann ann_store-WellFormed ann_stands

abbrev ann_asked : BuyerAccount Micros
ann_asked = record ann {
  state = record (ann.state) {
    usage = record no_usage {
      requests_served = pos 1;
      total_tokens = pos 40;
      hourly_tokens = pos 40;
      daily_tokens = pos 40;
      hour_bucket_unix = pos 7200;
    };
    request_history = ask ∷ [];
  };
}

asked :
    consume_usage (codes "sess-1") ask ann_store ≡ ok (ann_asked.state, updated ann_asked ann_store)
unfolding consume_usage get_by_session check_limits record_request save update_account get put lower
    text_beq reset_if_bucket_changed count_request
asked = refl

consume_usage-WithinLimits_example : WithinLimits ann_asked.state.token_limits ann_asked.state.usage
consume_usage-WithinLimits_example =
    consume_usage-WithinLimits (codes "sess-1") ask ann_store ann ann_store-WellFormed ann_stands
      asked

small : Fits64 (pos 0 +ℤ pos 40)
unfolding ◌+ℤ◌
small = ground arith

limit_error_exact_example :
    (limit_error (record no_limits { hourly_tokens = pos 100 }) no_usage (pos 40) ≡ none) ↔ (
      Within (pos 100) (pos 0 +ℤ pos 40)
      × Within (pos 0) (pos 0 +ℤ pos 40)
      × Within (pos 0) (pos 0 +ℤ pos 40))
limit_error_exact_example =
    limit_error_exact (record no_limits { hourly_tokens = pos 100 }) no_usage (pos 40) small small
      small

-- The control account of an e-mail address, and a store that holds it.
abbrev carl : BuyerAccount Micros
carl = control_account plain no_prefs (codes "carl@mesh") (codes "b7") (codes "jwt-1")

abbrev carl_store : Store Micros
carl_store = insert carl [] new_store

carl_there :
    get carl_store.by_username
      (to_lower (codes "control:" ++ trim_space (to_lower (codes "carl@mesh"))))
    ≡ some carl
unfolding get put lower text_beq trim_space
carl_there = refl

tokens_differ : text_beq (codes "jwt-2") (codes "jwt-1") ≡ false
unfolding text_beq
tokens_differ = refl

abbrev carl_again : BuyerAccount Micros
carl_again = control_account plain no_prefs (codes "carl@mesh") (codes "b7") (codes "jwt-2")

again :
    establish_control_session plain no_prefs
      (codes "Carl")
      (codes "carl@mesh")
      (codes "b7")
      (codes "jwt-2")
      carl_store
    ≡ ok (carl_again.state, put_control_account carl_again carl_store)
unfolding establish_control_session lower trim_space
again = refl

establish_revokes_example :
    (get_account_by_session (codes "jwt-1") (put_control_account carl_again carl_store)
      ≡ err invalid_session)
    × (get_account_by_session (codes "jwt-2") (put_control_account carl_again carl_store)
        ≡ ok (
            control_account plain no_prefs
              (trim_space (to_lower (codes "carl@mesh")))
              (codes "b7")
              (codes "jwt-2")))
establish_revokes_example =
    establish_revokes plain no_prefs (codes "Carl") (codes "carl@mesh") (codes "b7") (codes "jwt-2")
      carl_store carl carl_there refl tokens_differ again

abbrev entered_ann : State Micros
entered_ann =
    record ((local_account plain no_prefs (codes "ann@mesh") (codes "Ann") (codes "pw")).state) {
      session_id = codes "sess-7";
    }

login-register_example :
    map_ok
      (with_account (codes "sess-7"))
      (login plain no_prefs (codes "Ann ") (codes "pw") (codes "7") ann_registered)
    ≡ (if text_beq (codes "pw") (codes "pw")
        then ok (
          entered_ann,
          ok (record {
            username = trim_space (codes "Ann ");
            email = trim_space (to_lower (codes " Ann@mesh"));
            password_hash = codes "pw";
            state = entered_ann;
          }),
        )
        else err invalid_credentials)
login-register_example =
    login-register plain no_prefs (codes " Ann@mesh") (codes "Ann ") (codes "pw") (codes "pw")
      (codes "7") new_store registered
