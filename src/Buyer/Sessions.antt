-- ===== src/Buyer/Sessions.antt =====
-- internal/buyer/state.go: what holds in every store that the manager's methods lead to.
use knowledge_mesh.Base.{
  ◌≡◌, ap, ◌∙◌, Option-cases, refl, inl, inr, Option, none, some, arith, not, ◌||◌, [], ◌++◌,
}
use knowledge_mesh.Base.Assoc.{get}
use knowledge_mesh.Base.Result.{ok, ok_injective, bind-ok, or_fail, ◌>>=◌, refuse_if}
use knowledge_mesh.Base.Text.{Text, to_lower, trim_space, codes, text_beq, is_empty}
use knowledge_mesh.Buyer.{
  State, BuyerAccount, Store, get_by_session, update_account, BuyerError, invalid_session,
  Preferences, RequestRecord, get_by_user_or_email, invalid_credentials, create,
  put_control_account,
}
use knowledge_mesh.Buyer.Ledger.{Balanced, spent_after, served_after, record_request-Balanced}
use knowledge_mesh.Buyer.Manager.{
  get_account_by_session, save, edit, check_limits, record_request, consume_usage, new_state,
  set_preferences, update_preferences, with_limits, set_limits, start_hour, reset_hourly, start_day,
  reset_daily, local_account, control_account, register, login, establish_control_session,
}
use knowledge_mesh.Buyer.Steps.{
  Step, registers, logs_in, establishes, prefers, sets_limits, consumes, starts_hour, starts_day,
  Reachable, starts_empty, moves,
}
use knowledge_mesh.Buyer.WellFormed.{
  WellFormed, update_account-WellFormed, new_store-WellFormed, create-WellFormed,
  put_control_account-WellFormed,
}
use knowledge_mesh.Control.Billing.Funds.{total}
use knowledge_mesh.Network.HolePunch.Workers.{step}
use mathlib.Core.Path.{subst}

module _ {F : Type 0} where
  pub save-ok :
      (account : BuyerAccount F) (s : Store F) {st : State F} {s' : Store F}
      → save account s ≡ ok (st, s')
      → update_account account s ≡ ok s'
  unfolding save
  save-ok account s h =
      let (s1, e, h1) = bind-ok (update_account account s) (λ s'. ok (account.state, s')) h in
      e ∙ ap (λ (r : State F × Store F). ok r.1) (ok_injective h1)

  pub get_by_session-some :
      (session : Text) (s : Store F) {account : BuyerAccount F}
      → get_by_session session s ≡ some account
      → (key : Text) × (get s.by_username key ≡ some account)
  unfolding get_by_session
  get_by_session-some session s h = elim (Option-cases (get s.by_session session)) [
    | inl e ↦ absurd (ground (arith, e, h))
    | inr (key, e) ↦ (key, ground (arith, e, h))
  ]

  get_by_user_or_email-some :
      (user : Text) (s : Store F) {account : BuyerAccount F}
      → get_by_user_or_email user s ≡ some account
      → (key : Text) × (get s.by_username key ≡ some account)
  unfolding get_by_user_or_email
  get_by_user_or_email-some user s h =
      let key = to_lower (trim_space user) in
      elim (Option-cases (get s.by_username key)) [
        | inr (a, e) ↦ (key, ground (arith, e, h))
        | inl e ↦ elim (Option-cases (get s.by_email key)) [
          | inl e' ↦ absurd (ground (arith, e, e', h))
          | inr (name, e') ↦ (name, ground (arith, e, e', h))
        ]
      ]

  pub or_fail-ok :
      (o : Option (BuyerAccount F)) (e : BuyerError) {account : BuyerAccount F}
      → or_fail o e ≡ ok account
      → o ≡ some account
  or_fail-ok none e h = cc
  or_fail-ok (some a) e h = cc

  -- The account that a session leads to.
  found-Balanced :
      (session : Text) (s : Store F) {account : BuyerAccount F}
      → WellFormed s
      → get_account_by_session session s ≡ ok account
      → Balanced account.state
  unfolding get_account_by_session
  found-Balanced session s w h =
      let (key, e) =
        get_by_session-some session s (or_fail-ok (get_by_session session s) invalid_session h) in
      w.balanced key _ e

  edit-WellFormed :
      (session : Text) (change : State F → State F) (s : Store F) {st : State F} {s' : Store F}
      → ((state : State F) → Balanced state → Balanced (change state))
      → WellFormed s
      → edit session change s ≡ ok (st, s')
      → WellFormed s'
  unfolding edit
  edit-WellFormed session change s keeps w h =
      let (account, e, h1) =
        bind-ok (get_account_by_session session s)
          (λ account. save (record account { state = change account.state }) s) h in
      update_account-WellFormed (record account { state = change account.state }) s
        (keeps account.state (found-Balanced session s w e)) w
        (save-ok (record account { state = change account.state }) s h1)

  consume_usage-WellFormed :
      (session : Text) (request : RequestRecord F) (s : Store F) {st : State F} {s' : Store F}
      → WellFormed s
      → consume_usage session request s ≡ ok (st, s')
      → WellFormed s'
  unfolding consume_usage
  consume_usage-WellFormed session request s w h =
      let write = λ (account : BuyerAccount F).
        save (record account { state = record_request request account.state }) s in
      let check = check_limits session request.tokens request.requested_at s in
      let (account, e, h1) =
        bind-ok (get_account_by_session session s)
          (λ account. check >>= λ (_ : Unit {0}). write account) h in
      let (allowed, e', h2) = bind-ok check (λ (_ : Unit {0}). write account) h1 in
      let spent : BuyerAccount F = record account {
        state = record_request request account.state;
      } in
      update_account-WellFormed spent s
        (record_request-Balanced request account.state (found-Balanced session s w e)) w
        (save-ok spent s h2)

module _ {F : Type 0} (hash : Text → Text) (no_preferences : Preferences F) where
  new_state-Balanced :
      (buyer session auth : Text) → Balanced (new_state hash no_preferences buyer session auth)
  unfolding spent_after served_after
  new_state-Balanced buyer session auth = record { tokens_spent = refl; requests_counted = refl }

  register-WellFormed :
      (email_text username_text password : Text) (s : Store F) {st : State F} {s' : Store F}
      → WellFormed s
      → register hash no_preferences email_text username_text password s ≡ ok (st, s')
      → WellFormed s'
  unfolding register
  register-WellFormed email_text username_text password s w h =
      let email = trim_space (to_lower email_text) in
      let username = trim_space username_text in
      let account = local_account hash no_preferences email username password in
      let insert_it = create account s >>= λ s'. ok (account.state, s') in
      let (allowed, e, h1) =
        bind-ok
          (refuse_if (is_empty email || is_empty username || is_empty password) invalid_credentials)
          (λ (_ : Unit {0}). insert_it) h in
      let (s1, e1, h2) = bind-ok (create account s) (λ s'. ok (account.state, s')) h1 in
      create-WellFormed account s
        (new_state-Balanced (codes "buyer-" ++ username) [] (codes "local:" ++ email)) w
        (e1 ∙ ap (λ (r : State F × Store F). ok r.1) (ok_injective h2))

  login-WellFormed :
      (user password stamp : Text) (s : Store F) {st : State F} {s' : Store F}
      → WellFormed s
      → login hash no_preferences user password stamp s ≡ ok (st, s')
      → WellFormed s'
  unfolding login
  login-WellFormed user password stamp s w h =
      let enter = λ (account : BuyerAccount F).
        save
          (record account {
            state = record (account.state) { session_id = codes "sess-" ++ stamp };
          })
          s in
      let test = λ (account : BuyerAccount F).
        refuse_if (not (text_beq account.password_hash (hash password))) invalid_credentials in
      let (account, e, h1) =
        bind-ok (or_fail (get_by_user_or_email user s) invalid_credentials)
          (λ account. test account >>= λ (_ : Unit {0}). enter account) h in
      let (allowed, e1, h2) = bind-ok (test account) (λ (_ : Unit {0}). enter account) h1 in
      let (key, at_key) =
        get_by_user_or_email-some user s
          (or_fail-ok (get_by_user_or_email user s) invalid_credentials e) in
      let b = w.balanced key account at_key in
      let entered : BuyerAccount F = record account {
        state = record (account.state) { session_id = codes "sess-" ++ stamp };
      } in
      update_account-WellFormed entered s
        (record { tokens_spent = b.tokens_spent; requests_counted = b.requests_counted }) w
        (save-ok entered s h2)

  establish_control_session-WellFormed :
      (name email_text buyer token : Text) (s : Store F) {st : State F} {s' : Store F}
      → WellFormed s
      → establish_control_session hash no_preferences name email_text buyer token s ≡ ok (st, s')
      → WellFormed s'
  unfolding establish_control_session
  establish_control_session-WellFormed name email_text buyer token s w h =
      let email = trim_space (to_lower email_text) in
      let account = control_account hash no_preferences email buyer token in
      let (allowed, e, h1) =
        bind-ok (refuse_if (is_empty email || is_empty buyer || is_empty token) invalid_credentials)
          (λ (_ : Unit {0}). ok (account.state, put_control_account account s)) h in
      subst WellFormed (ap (λ (r : State F × Store F). r.1) (ok_injective h1)) (
        put_control_account-WellFormed account s
          (new_state-Balanced buyer token (codes "control:" ++ email)) w)

  Step-WellFormed : {s s' : Store F} → Step hash no_preferences s s' → WellFormed s → WellFormed s'
  unfolding update_preferences set_limits reset_hourly reset_daily
  Step-WellFormed {s} (registers email username password h) w =
      register-WellFormed email username password s w h
  Step-WellFormed {s} (logs_in user password stamp h) w = login-WellFormed user password stamp s w h
  Step-WellFormed {s} (establishes name email buyer token h) w =
      establish_control_session-WellFormed name email buyer token s w h
  Step-WellFormed {s} (prefers session prefs h) w =
      edit-WellFormed session (set_preferences prefs) s same w h
    where
      same : (state : State F) → Balanced state → Balanced (set_preferences prefs state)
      same state b = record { tokens_spent = b.tokens_spent; requests_counted = b.requests_counted }
  Step-WellFormed {s} (sets_limits session hourly daily total h) w =
      edit-WellFormed session (with_limits hourly daily total) s same w h
    where
      same : (state : State F) → Balanced state → Balanced (with_limits hourly daily total state)
      same state b = record { tokens_spent = b.tokens_spent; requests_counted = b.requests_counted }
  Step-WellFormed {s} (consumes session request h) w =
      consume_usage-WellFormed session request s w h
  Step-WellFormed {s} (starts_hour session now h) w =
      edit-WellFormed session (start_hour now) s same w h
    where
      same : (state : State F) → Balanced state → Balanced (start_hour now state)
      same state b = record { tokens_spent = b.tokens_spent; requests_counted = b.requests_counted }
  Step-WellFormed {s} (starts_day session now h) w =
      edit-WellFormed session (start_day now) s same w h
    where
      same : (state : State F) → Balanced state → Balanced (start_day now state)
      same state b = record { tokens_spent = b.tokens_spent; requests_counted = b.requests_counted }

  -- In every store that a sequence of the manager's successful calls leads to from the empty store,
  -- an account stands under its name in lower case, every e-mail address and every session leads to
  -- an account, and each account's counts of tokens and of requests are, in `int` arithmetic, those
  -- that its history of requests adds up to.
  pub Reachable-WellFormed : {s : Store F} → Reachable hash no_preferences s → WellFormed s
  Reachable-WellFormed starts_empty = new_store-WellFormed
  Reachable-WellFormed (moves before step) = Step-WellFormed step (Reachable-WellFormed before)
