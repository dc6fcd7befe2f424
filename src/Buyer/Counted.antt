-- ===== src/Buyer/Counted.antt =====
-- internal/buyer/state.go: what ConsumeUsage does to an account, in terms of the counters and the hours.
use knowledge_mesh.Base.{
  Bool-cases, ◌≡◌, refl, ◌⊎◌, inl, inr, true, false, none, some, [], ◌∷◌, ◌++◌, arith,
}
use knowledge_mesh.Base.Assoc.{Assoc, put}
use knowledge_mesh.Base.Int.{ℤ, pos, add64}
use knowledge_mesh.Base.Result.{Result, ok, err}
use knowledge_mesh.Base.Text.{Text, to_lower, is_empty}
use knowledge_mesh.Buyer.{
  BuyerError, hourly_limit_exceeded, daily_limit_exceeded, total_limit_exceeded, RequestRecord,
  State, BuyerAccount, Store, get_by_session, updated,
}
use knowledge_mesh.Buyer.Limits.{
  Within, WithinLimits, not_exceeds, within, consumed, consume_usage-eq-consumed,
  counted-WithinLimits,
}
use knowledge_mesh.Buyer.Manager.{
  hour_bucket, day_bucket, reset_if_bucket_changed, exceeds, limit_error, count_request,
  record_request, consume_usage,
}
use knowledge_mesh.Buyer.Periods.{reset-UsedAt, reset-periods, reset-total, hour_of, day_of, UsedAt}
use knowledge_mesh.Buyer.WellFormed.{WellFormed}
use knowledge_mesh.Types.{RateLimits, UsageCounters}
use mathlib.Core.Path.{subst}

-- An index of sessions with one entry more, if the session is not blank.
pub data Indexed (session key : Text) (before after : Assoc Text) : Type 0 where
  blank : is_empty session ≡ true → after ≡ before → Indexed session key before after
  indexed :
      is_empty session ≡ false → after ≡ put before session key → Indexed session key before after

-- The first limit that the tokens of a request would pass.
pub data Passes (limits : RateLimits) (hourly daily total tokens : ℤ) : BuyerError → Type 0 where
  passes_hourly :
      ¬ Within limits.hourly_tokens (add64 hourly tokens)
      → Passes limits hourly daily total tokens hourly_limit_exceeded
  passes_daily :
      Within limits.hourly_tokens (add64 hourly tokens)
      → ¬ Within limits.daily_tokens (add64 daily tokens)
      → Passes limits hourly daily total tokens daily_limit_exceeded
  passes_total :
      Within limits.hourly_tokens (add64 hourly tokens)
      → Within limits.daily_tokens (add64 daily tokens)
      → ¬ Within limits.total_tokens (add64 total tokens)
      → Passes limits hourly daily total tokens total_limit_exceeded

limit_error-Passes :
    (limits : RateLimits) (u : UsageCounters) (tokens : ℤ)
    → (limit_error limits u tokens ≡ none)
      ⊎ ((e : BuyerError) × (limit_error limits u tokens ≡ some e)
          × Passes limits u.hourly_tokens u.daily_tokens u.total_tokens tokens e)
unfolding limit_error
limit_error-Passes limits u tokens =
    elim (Bool-cases (exceeds limits.hourly_tokens u.hourly_tokens tokens)) [
      | inl h ↦ inr (hourly_limit_exceeded, rw h refl, passes_hourly (exceeds-not _ _ h))
      | inr h ↦
          let in_hour = not_exceeds limits.hourly_tokens u.hourly_tokens tokens h in
          elim (Bool-cases (exceeds limits.daily_tokens u.daily_tokens tokens)) [
            | inl d ↦
                inr (daily_limit_exceeded, rw (h, d) refl, passes_daily in_hour (exceeds-not _ _ d))
            | inr d ↦
                let in_day = not_exceeds limits.daily_tokens u.daily_tokens tokens d in
                elim (Bool-cases (exceeds limits.total_tokens u.total_tokens tokens)) [
                  | inl t ↦ inr (
                    total_limit_exceeded,
                    rw (h, d, t) refl,
                    passes_total in_hour in_day (exceeds-not _ _ t),
                  )
                  | inr t ↦ inl (rw (h, d, t) refl)
                ]
          ]
    ]
  where
    exceeds-not :
        (limit used : ℤ) → exceeds limit used tokens ≡ true → ¬ Within limit (add64 used tokens)
    exceeds-not limit used over w = cc (over, within limit used tokens w)

module _ {F : Type 0} where
  -- The state of an account after a request: one entry more, one request and its tokens more in each
  -- counter, the periods of the request's time, and nothing else changed.
  pub record IsCounted (request : RequestRecord F) (hourly daily : ℤ) (old new : State F)
      : Type 0 where
    pub history : new.request_history ≡ old.request_history ++ (request ∷ [])
    pub served : new.usage.requests_served ≡ add64 old.usage.requests_served (pos 1)
    pub total : new.usage.total_tokens ≡ add64 old.usage.total_tokens request.tokens
    pub in_hour : new.usage.hourly_tokens ≡ add64 hourly request.tokens
    pub in_day : new.usage.daily_tokens ≡ add64 daily request.tokens
    pub hour : new.usage.hour_bucket_unix ≡ hour_of request.requested_at
    pub day : new.usage.day_bucket_unix ≡ day_of request.requested_at
    pub same_input : new.usage.input_tokens ≡ old.usage.input_tokens
    pub same_output : new.usage.output_tokens ≡ old.usage.output_tokens
    pub same_rest : new ≡ record old { usage = new.usage; request_history = new.request_history }

  -- The store with the account written back under its name and its session.
  pub record IsWritten (account : BuyerAccount F) (before after : Store F) : Type 0 where
    pub accounts : after.by_username ≡ put before.by_username (to_lower account.username) account
    pub sessions :
        Indexed account.state.session_id
          (to_lower account.username)
          before.by_session
          after.by_session
    pub same_emails : after.by_email ≡ before.by_email

  -- ConsumeUsage on the session of an account.
  pub data ConsumeCase (account : BuyerAccount F) (request : RequestRecord F) (s : Store F)
      : Result BuyerError (State F × Store F) → Type 0 where
    counted :
        (hourly daily : ℤ) (st : State F) (s' : Store F)
        → UsedAt account.state.usage request.requested_at hourly daily
        → WithinLimits account.state.token_limits st.usage
        → IsCounted request hourly daily account.state st
        → IsWritten (record account { state = st }) s s'
        → ConsumeCase account request s (ok (st, s'))
    refused :
        (hourly daily : ℤ) (e : BuyerError)
        → UsedAt account.state.usage request.requested_at hourly daily
        → Passes account.state.token_limits hourly daily account.state.usage.total_tokens
            request.tokens e
        → ConsumeCase account request s (err e)

  record_request-IsCounted :
      (request : RequestRecord F) (state : State F)
      → (let u = reset_if_bucket_changed state.usage request.requested_at in
          IsCounted request u.hourly_tokens u.daily_tokens state (record_request request state))
  unfolding record_request count_request reset_if_bucket_changed hour_bucket day_bucket
  record_request-IsCounted request state = record {
    history = refl;
    served = ground arith;
    total = ground arith;
    in_hour = refl;
    in_day = refl;
    hour = (reset-periods state.usage request.requested_at).0;
    day = (reset-periods state.usage request.requested_at).1;
    same_input = ground arith;
    same_output = ground arith;
    same_rest = refl;
  }

  updated-IsWritten :
      (account : BuyerAccount F) (s : Store F) → IsWritten account s (updated account s)
  updated-IsWritten account s = record {
    accounts = refl;
    sessions = elim (Bool-cases (is_empty account.state.session_id)) [
      | inl e ↦ blank e (rw e refl)
      | inr e ↦ indexed e (rw e refl)
    ];
    same_emails = refl;
  }

  -- In a well-formed store, ConsumeUsage on a session that leads to an account does one of two things,
  -- where the tokens of the hour and of the day count only if they are of the request's. It refuses
  -- the request with the first limit that its tokens would pass. Or the limits are kept, and it
  -- returns the account's state with one request and its tokens more in the counters, the request at
  -- the end of the history and the rest as it was, and writes it back under the account's name and
  -- session.
  pub consume_usage-ConsumeCase :
      (session : Text) (request : RequestRecord F) (s : Store F) (account : BuyerAccount F)
      → WellFormed s
      → get_by_session session s ≡ some account
      → ConsumeCase account request s (consume_usage session request s)
  unfolding consumed record_request
  consume_usage-ConsumeCase session request s account w e =
      let usage = account.state.usage in
      let u = reset_if_bucket_changed usage request.requested_at in
      let used = reset-UsedAt usage request.requested_at in
      let r = consume_usage-eq-consumed session request s account w e in
      let st = record_request request account.state in
      rw r (elim (limit_error-Passes account.state.token_limits u request.tokens) [
        | inl low ↦ rw low (
            counted u.hourly_tokens u.daily_tokens st (updated (record account { state = st }) s)
              used (counted-WithinLimits account.state.token_limits u request.tokens low)
              (record_request-IsCounted request account.state)
              (updated-IsWritten (record account { state = st }) s))
        | inr (refusal, over, passes) ↦ rw over (
            refused u.hourly_tokens u.daily_tokens refusal used (
              subst
                (λ total.
                  Passes account.state.token_limits u.hourly_tokens u.daily_tokens total
                    request.tokens refusal)
                (reset-total usage request.requested_at) passes))
      ])
