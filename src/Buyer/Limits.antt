-- ===== src/Buyer/Limits.antt =====
-- internal/buyer/state.go: CheckLimits and ConsumeUsage.
use knowledge_mesh.Base.{
  Bool-cases, ◌≡◌, inl, inr, false, none, arith, Option, some, refl, sym, ◌∙◌, ◌↔◌,
}
use knowledge_mesh.Base.Assoc.{get}
use knowledge_mesh.Base.Int.{ℤ, pos, ◌≤ℤ◌, ltb_ℤ, add64, ◌+ℤ◌, Fits64, add64_exact}
use knowledge_mesh.Base.Result.{Result, ok, err, ok_injective, ◌>>=◌}
use knowledge_mesh.Base.Text.{Text, to_lower}
use knowledge_mesh.Buyer.{
  BuyerError, RequestRecord, State, BuyerAccount, Store, get_by_session, updated, update_account,
}
use knowledge_mesh.Buyer.Manager.{
  exceeds, limit_error, count_request, reset_if_bucket_changed, get_account_by_session, save,
  check_limits, record_request, consume_usage, refuse_for,
}
use knowledge_mesh.Buyer.Sessions.{get_by_session-some}
use knowledge_mesh.Buyer.WellFormed.{WellFormed}
use knowledge_mesh.Types.{RateLimits, UsageCounters}
use mathlib.Core.Path.{subst}

-- A limit that is not positive does not bind.
pub data Within (limit used : ℤ) : Type 0 where
  unlimited : limit ≤ℤ pos 0 → Within limit used
  below : used ≤ℤ limit → Within limit used

pub record WithinLimits (limits : RateLimits) (usage : UsageCounters) : Type 0 where
  pub hourly : Within limits.hourly_tokens usage.hourly_tokens
  pub daily : Within limits.daily_tokens usage.daily_tokens
  pub total : Within limits.total_tokens usage.total_tokens

pub not_exceeds :
    (limit used tokens : ℤ) → exceeds limit used tokens ≡ false → Within limit (add64 used tokens)
unfolding exceeds
not_exceeds limit used tokens h = elim (Bool-cases (ltb_ℤ (pos 0) limit)) [
  | inl binds ↦ below (ground (arith, binds, h))
  | inr free ↦ unlimited (ground (arith, free))
]

pub within :
    (limit used tokens : ℤ) → Within limit (add64 used tokens) → exceeds limit used tokens ≡ false
unfolding exceeds
within limit used tokens (unlimited free) = ground (arith, free)
within limit used tokens (below low) = ground (arith, low)

pub counted-WithinLimits :
    (limits : RateLimits) (usage : UsageCounters) (tokens : ℤ)
    → limit_error limits usage tokens ≡ none
    → WithinLimits limits (count_request usage tokens)
unfolding limit_error count_request add64
counted-WithinLimits limits usage tokens h = record {
  hourly = not_exceeds limits.hourly_tokens usage.hourly_tokens tokens (ground (arith, h));
  daily = not_exceeds limits.daily_tokens usage.daily_tokens tokens (ground (arith, h));
  total = not_exceeds limits.total_tokens usage.total_tokens tokens (ground (arith, h));
}

module _ {F : Type 0} where
  pub save-outcome :
      (account old : BuyerAccount F) (s : Store F)
      → get s.by_username (to_lower account.username) ≡ some old
      → save account s ≡ ok (account.state, updated account s)
  unfolding save update_account
  save-outcome account old s e = ground (arith, e)

  -- What ConsumeUsage answers, and the store it leaves.
  unfoldable pub consumed :
      BuyerAccount F
      → RequestRecord F
      → Store F
      → Option BuyerError
      → Result BuyerError (State F × Store F)
  unfolding record_request
  consumed account request s (some e) = err e
  consumed account request s none =
      let state = record_request request account.state in
      ok (state, updated (record account { state = state }) s)

  -- In a well-formed store, ConsumeUsage on a session that leads to an account refuses the request with
  -- the first limit that it would pass in the current hour and day, or else adds the request to the
  -- counters and the history of that account and writes the account back; it answers nothing else.
  pub consume_usage-eq-consumed :
      (session : Text) (request : RequestRecord F) (s : Store F) (account : BuyerAccount F)
      → WellFormed s
      → get_by_session session s ≡ some account
      → consume_usage session request s
        ≡ consumed account request s (
            limit_error account.state.token_limits
              (reset_if_bucket_changed account.state.usage request.requested_at)
              request.tokens)
  unfolding consume_usage consumed get_account_by_session check_limits
  consume_usage-eq-consumed session request s account w e = rw e (
      go (
        limit_error account.state.token_limits
          (reset_if_bucket_changed account.state.usage request.requested_at) request.tokens))
    where
      written : BuyerAccount F
      written = record account { state = record_request request account.state }

      at_key : get s.by_username (to_lower account.username) ≡ some account
      at_key = let (key, at) = get_by_session-some session s e in rw (w.keyed key account at) at

      go :
          (o : Option BuyerError)
          → (refuse_for o >>= λ (_ : Unit {0}). save written s) ≡ consumed account request s o
      go none = save-outcome written account s at_key
      go (some refusal) = refl

  consumed-WithinLimits :
      (account : BuyerAccount F) (request : RequestRecord F) (s : Store F) {st : State F}
      {s' : Store F} (o : Option BuyerError)
      → o
        ≡ limit_error account.state.token_limits
            (reset_if_bucket_changed account.state.usage request.requested_at)
            request.tokens
      → consumed account request s o ≡ ok (st, s')
      → WithinLimits st.token_limits st.usage
  unfolding consumed record_request
  consumed-WithinLimits account request s (some e) same h = cc
  consumed-WithinLimits account request s none same h =
      subst (λ (r : State F × Store F). WithinLimits (r.0).token_limits (r.0).usage)
        (ok_injective h)
        (counted-WithinLimits account.state.token_limits
          (reset_if_bucket_changed account.state.usage request.requested_at) request.tokens
          (sym same))

  -- When ConsumeUsage on a session of a well-formed store accepts a request, each counter of the account
  -- is then at most its limit, or that limit is not positive.
  pub consume_usage-WithinLimits :
      (session : Text) (request : RequestRecord F) (s : Store F) (account : BuyerAccount F)
      {st : State F} {s' : Store F}
      → WellFormed s
      → get_by_session session s ≡ some account
      → consume_usage session request s ≡ ok (st, s')
      → WithinLimits st.token_limits st.usage
  consume_usage-WithinLimits session request s account w e h =
      consumed-WithinLimits account request s _ refl
        (sym (consume_usage-eq-consumed session request s account w e) ∙ h)

-- For counters and token numbers that are not negative and whose sums an `int` holds, CheckLimits finds
-- a limit passed exactly when a positive limit is less than the true sum.
pub limit_error_exact :
    (limits : RateLimits) (usage : UsageCounters) (tokens : ℤ)
    → Fits64 (usage.hourly_tokens +ℤ tokens)
    → Fits64 (usage.daily_tokens +ℤ tokens)
    → Fits64 (usage.total_tokens +ℤ tokens)
    → (limit_error limits usage tokens ≡ none) ↔ (
        Within limits.hourly_tokens (usage.hourly_tokens +ℤ tokens)
        × Within limits.daily_tokens (usage.daily_tokens +ℤ tokens)
        × Within limits.total_tokens (usage.total_tokens +ℤ tokens))
unfolding limit_error count_request
limit_error_exact limits usage tokens h d t = (there, back)
  where
    there :
        limit_error limits usage tokens ≡ none
        → Within limits.hourly_tokens (usage.hourly_tokens +ℤ tokens)
          × Within limits.daily_tokens (usage.daily_tokens +ℤ tokens)
          × Within limits.total_tokens (usage.total_tokens +ℤ tokens)
    there e =
        let w = counted-WithinLimits limits usage tokens e in
        (
          subst (Within limits.hourly_tokens) (add64_exact usage.hourly_tokens tokens h) w.hourly,
          subst (Within limits.daily_tokens) (add64_exact usage.daily_tokens tokens d) w.daily,
          subst (Within limits.total_tokens) (add64_exact usage.total_tokens tokens t) w.total,
        )

    back :
        Within limits.hourly_tokens (usage.hourly_tokens +ℤ tokens)
          × Within limits.daily_tokens (usage.daily_tokens +ℤ tokens)
          × Within limits.total_tokens (usage.total_tokens +ℤ tokens)
        → limit_error limits usage tokens ≡ none
    back (wh, wd, wt) =
        rw
          (within limits.hourly_tokens usage.hourly_tokens tokens
            (rw (add64_exact usage.hourly_tokens tokens h) wh))
          (rw
            (within limits.daily_tokens usage.daily_tokens tokens
              (rw (add64_exact usage.daily_tokens tokens d) wd))
            (rw
              (within limits.total_tokens usage.total_tokens tokens
                (rw (add64_exact usage.total_tokens tokens t) wt))
              refl))
