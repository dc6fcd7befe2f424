-- ===== src/Buyer/Manager.antt =====
-- internal/buyer/state.go: the methods of the manager. A method takes the store and returns its value
-- and the store it leaves; one that fails leaves the store as it was. The store is locked by each of its own
-- methods only, so that this is a call of the manager with no other one between its parts. SHA-256 and the printed time of
-- a login are parameters, and times are seconds since 1970.
use knowledge_mesh.Base.{
  if◌then◌else◌, ℕ, ◌-◌, ◌%◌, Bool, not, ◌&&◌, ◌||◌, Option, none, some, List, [], ◌∷◌, ◌++◌,
}
use knowledge_mesh.Base.Int.{ℤ, pos, ltb_ℤ, beq_ℤ, add64}
use knowledge_mesh.Base.Result.{Result, ok, err, refuse_if, or_fail, ◌>>=◌}
use knowledge_mesh.Base.Text.{Text, codes, text_beq, to_lower, trim_space, is_empty}
use knowledge_mesh.Buyer.{
  BuyerError, invalid_credentials, invalid_session, hourly_limit_exceeded, daily_limit_exceeded,
  total_limit_exceeded, Preferences, RequestRecord, State, BuyerAccount, Store, create,
  put_control_account, get_by_user_or_email, get_by_session, update_account,
}
use knowledge_mesh.Control.Billing.Funds.{total}
use knowledge_mesh.Types.{RateLimits, UsageCounters, no_limits, no_usage}

-- now.UTC().Truncate(time.Hour).Unix(), and dayBucket.
unfoldable pub hour_bucket : ℕ → ℤ
hour_bucket now = pos (now - now % 3600)

unfoldable pub day_bucket : ℕ → ℤ
day_bucket now = pos (now - now % 86400)

abbrev pub enter_hour : ℤ → UsageCounters → UsageCounters
enter_hour hour usage =
    if beq_ℤ usage.hour_bucket_unix hour
    then usage
    else record usage { hourly_tokens = pos 0; hour_bucket_unix = hour }

abbrev pub enter_day : ℤ → UsageCounters → UsageCounters
enter_day day usage =
    if beq_ℤ usage.day_bucket_unix day
    then usage
    else record usage { daily_tokens = pos 0; day_bucket_unix = day }

unfoldable pub reset_if_bucket_changed : UsageCounters → ℕ → UsageCounters
unfolding hour_bucket day_bucket
reset_if_bucket_changed usage now = enter_day (day_bucket now) (enter_hour (hour_bucket now) usage)

-- `limit > 0 && used+tokens > limit`
unfoldable pub exceeds : ℤ → ℤ → ℤ → Bool
unfolding add64
exceeds limit used tokens = ltb_ℤ (pos 0) limit && ltb_ℤ limit (add64 used tokens)

-- The three tests of CheckLimits, in its order.
unfoldable pub limit_error : RateLimits → UsageCounters → ℤ → Option BuyerError
unfolding exceeds
limit_error limits usage tokens =
    if exceeds limits.hourly_tokens usage.hourly_tokens tokens
    then some hourly_limit_exceeded
    else if exceeds limits.daily_tokens usage.daily_tokens tokens
    then some daily_limit_exceeded
    else if exceeds limits.total_tokens usage.total_tokens tokens
    then some total_limit_exceeded
    else none

abbrev pub refuse_for : Option BuyerError → Result BuyerError (Unit {0})
refuse_for none = ok tt
refuse_for (some e) = err e

-- The counters of ConsumeUsage after a request.
unfoldable pub count_request : UsageCounters → ℤ → UsageCounters
unfolding add64
count_request usage tokens = record usage {
  requests_served = add64 usage.requests_served (pos 1);
  total_tokens = add64 usage.total_tokens tokens;
  hourly_tokens = add64 usage.hourly_tokens tokens;
  daily_tokens = add64 usage.daily_tokens tokens;
}

abbrev pub Method : Type 0 → Type 0 → Type 0
Method F A = Store F → Result BuyerError (A × Store F)

module _ {F : Type 0} where
  unfoldable pub get_account_by_session : Text → Store F → Result BuyerError (BuyerAccount F)
  unfolding get_by_session
  get_account_by_session session s = or_fail (get_by_session session s) invalid_session

  -- How most methods end: write the account back, and return its state.
  unfoldable pub save : BuyerAccount F → Method F (State F)
  unfolding update_account
  save account s = update_account account s >>= λ s'. ok (account.state, s')

  -- A method that reads the account of a session, changes its state, and writes it back.
  unfoldable pub edit : Text → (State F → State F) → Method F (State F)
  unfolding save get_account_by_session
  edit session change s = get_account_by_session session s >>= λ account.
      save (record account { state = change account.state }) s

  abbrev pub set_preferences : Preferences F → State F → State F
  set_preferences prefs state = record state { preferences = prefs }

  unfoldable pub update_preferences : Text → Preferences F → Method F (State F)
  unfolding edit
  update_preferences session prefs = edit session (set_preferences prefs)

  abbrev pub with_limits : ℤ → ℤ → ℤ → State F → State F
  with_limits hourly daily total state = record state {
    token_limits = record (state.token_limits) {
      hourly_tokens = hourly;
      daily_tokens = daily;
      total_tokens = total;
    };
  }

  unfoldable pub set_limits : Text → ℤ → ℤ → ℤ → Method F (State F)
  unfolding edit
  set_limits session hourly daily total = edit session (with_limits hourly daily total)

  abbrev pub start_hour : ℕ → State F → State F
  start_hour now state = record state {
    usage = record (state.usage) { hourly_tokens = pos 0; hour_bucket_unix = hour_bucket now };
  }

  unfoldable pub reset_hourly : Text → ℕ → Method F (State F)
  unfolding edit hour_bucket
  reset_hourly session now = edit session (start_hour now)

  abbrev pub start_day : ℕ → State F → State F
  start_day now state = record state {
    usage = record (state.usage) { daily_tokens = pos 0; day_bucket_unix = day_bucket now };
  }

  unfoldable pub reset_daily : Text → ℕ → Method F (State F)
  unfolding edit day_bucket
  reset_daily session now = edit session (start_day now)

  unfoldable pub check_limits : Text → ℤ → ℕ → Store F → Result BuyerError (Unit {0})
  unfolding get_account_by_session limit_error reset_if_bucket_changed
  check_limits session tokens now s = get_account_by_session session s >>= λ account. refuse_for (
      limit_error account.state.token_limits (reset_if_bucket_changed account.state.usage now)
        tokens)

  -- What ConsumeUsage makes of the state of an account.
  unfoldable pub record_request : RequestRecord F → State F → State F
  unfolding reset_if_bucket_changed count_request
  record_request request state = record state {
    usage = count_request (reset_if_bucket_changed state.usage request.requested_at) request.tokens;
    request_history = state.request_history ++ (request ∷ []);
  }

  -- The last part of ConsumeUsage: the account that was read is written back with the request.
  abbrev pub write_usage : RequestRecord F → BuyerAccount F → Method F (State F)
  write_usage request account =
      save (record account { state = record_request request account.state })

  -- ConsumeUsage takes the lock of the store three times: to read the account, in CheckLimits, and to
  -- write. This is a call with no other one in between; Buyer/Overlap has two that overlap.
  unfoldable pub consume_usage : Text → RequestRecord F → Method F (State F)
  unfolding get_account_by_session check_limits record_request save
  consume_usage session request s = get_account_by_session session s >>= λ account.
      check_limits session request.tokens request.requested_at s >>= λ (_ : Unit {0}).
      write_usage request account s

  -- `history[len(history)-1]`; the zero value stands for the panic on an empty history.
  abbrev pub last_or : List (RequestRecord F) → RequestRecord F → RequestRecord F
  last_or [] d = d
  last_or (r ∷ rest) d = last_or rest r

  unfoldable pub submit_prompt : Text → RequestRecord F → Method F (RequestRecord F)
  unfolding consume_usage
  submit_prompt session request s =
      consume_usage session request s >>= λ r. ok (last_or (r.0).request_history request, r.1)

module _ {F : Type 0} (hash : Text → Text) (no_preferences : Preferences F) where
  abbrev pub new_state : Text → Text → Text → State F
  new_state buyer session auth = record {
    buyer_id = buyer;
    session_id = session;
    auth_ref = auth;
    token_limits = no_limits;
    usage = no_usage;
    preferences = no_preferences;
    request_history = [];
  }

  abbrev pub local_account : Text → Text → Text → BuyerAccount F
  local_account email username password = record {
    username = username;
    email = email;
    password_hash = hash password;
    state = new_state (codes "buyer-" ++ username) [] (codes "local:" ++ email);
  }

  abbrev pub control_account : Text → Text → Text → BuyerAccount F
  control_account email buyer token = record {
    username = codes "control:" ++ email;
    email = email;
    password_hash = [];
    state = new_state buyer token (codes "control:" ++ email);
  }

  unfoldable pub register : Text → Text → Text → Method F (State F)
  unfolding create
  register email_text username_text password s =
      let email = trim_space (to_lower email_text) in
      let username = trim_space username_text in
      let account = local_account email username password in
      refuse_if (is_empty email || is_empty username || is_empty password) invalid_credentials
      >>= λ (_ : Unit {0}). create account s >>= λ s'. ok (account.state, s')

  -- `stamp` is the time of the login in nanoseconds, printed.
  unfoldable pub login : Text → Text → Text → Method F (State F)
  unfolding get_by_user_or_email save
  login user password stamp s =
      or_fail (get_by_user_or_email user s) invalid_credentials >>= λ account.
      refuse_if (not (text_beq account.password_hash (hash password))) invalid_credentials
      >>= λ (_ : Unit {0}).
          save
            (record account {
              state = record (account.state) { session_id = codes "sess-" ++ stamp };
            })
            s

  unfoldable pub establish_control_session : Text → Text → Text → Text → Method F (State F)
  unfolding put_control_account
  establish_control_session display_name email_text buyer token s =
      let email = trim_space (to_lower email_text) in
      let account = control_account email buyer token in
      refuse_if (is_empty email || is_empty buyer || is_empty token) invalid_credentials
      >>= λ (_ : Unit {0}). ok (account.state, put_control_account account s)
