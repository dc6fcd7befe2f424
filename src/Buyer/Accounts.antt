-- ===== src/Buyer/Accounts.antt =====
-- internal/buyer/state.go: who can log in, and which sessions last.
use knowledge_mesh.Base.{
  if◌then◌else◌, ◌≡◌, sym, ap, ◌∙◌, ◌||◌, some, ◌++◌, Bool-cases, refl, inl, inr, Bool, true, false,
  arith, none,
}
use knowledge_mesh.Base.Assoc.{get, get-put, remove, put, get-remove}
use knowledge_mesh.Base.Result.{◌>>=◌, ok, err, refuse_if, ok_injective, bind-ok, map_ok, Result}
use knowledge_mesh.Base.Text.{Text, codes, text_beq, to_lower, trim_space, is_empty, text_beq_refl}
use knowledge_mesh.Buyer.{
  invalid_credentials, Preferences, State, BuyerAccount, Store, insert, create,
  get_by_user_or_email, BuyerError, invalid_session, updated, put_control_account, get_by_session,
}
use knowledge_mesh.Buyer.Limits.{save-outcome}
use knowledge_mesh.Buyer.Manager.{
  local_account, register, login, get_account_by_session, control_account,
  establish_control_session,
}
use knowledge_mesh.Buyer.WellFormed.{create-ok, WellFormed}

module _ {F : Type 0} where
  session_found :
      (session key : Text) (s : Store F) (account : BuyerAccount F)
      → get s.by_session session ≡ some key
      → get s.by_username key ≡ some account
      → get_account_by_session session s ≡ ok account
  unfolding get_account_by_session get_by_session
  session_found session key s account at there = ground (arith, at, there)

  -- What a login returns, with the account that a session leads to in the store that it leaves.
  abbrev pub with_account : Text → State F × Store F → State F × Result BuyerError (BuyerAccount F)
  with_account session r = (r.0, get_account_by_session session r.1)

  -- The session of an account that is written back leads to it.
  updated-session :
      (account : BuyerAccount F) (s : Store F)
      → is_empty account.state.session_id ≡ false
      → get_account_by_session account.state.session_id (updated account s) ≡ ok account
  updated-session account s some_session =
      let key = to_lower account.username in
      let id = account.state.session_id in
      session_found id key (updated account s) account
        (rw some_session (rw (get-put s.by_session id key id) (rw (text_beq_refl id) refl)))
        (rw (get-put s.by_username key account key) (rw (text_beq_refl key) refl))

module _ {F : Type 0} (hash : Text → Text) (no_preferences : Preferences F) where
  abbrev registered : Text → Text → Text → BuyerAccount F
  registered email_text username_text password =
      local_account hash no_preferences (trim_space (to_lower email_text))
        (trim_space username_text) password

  pub register-ok :
      (email_text username_text password : Text) (s : Store F) {st : State F} {s' : Store F}
      → register hash no_preferences email_text username_text password s ≡ ok (st, s')
      → (st ≡ (registered email_text username_text password).state)
        × (s' ≡ insert (registered email_text username_text password) s.by_session s)
  unfolding register
  register-ok email_text username_text password s {st} {s'} h =
      let account = registered email_text username_text password in
      let insert_it = create account s >>= λ s'. ok (account.state, s') in
      let (allowed, e, h1) =
        bind-ok
          (refuse_if
            (is_empty (trim_space (to_lower email_text))
              || is_empty (trim_space username_text)
              || is_empty password)
            invalid_credentials)
          (λ (_ : Unit {0}). insert_it) h in
      let (s1, e1, h2) = bind-ok (create account s) (λ s'. ok (account.state, s')) h1 in
      (
        sym (ap (λ (r : State F × Store F). r.0) (ok_injective h2)),
        sym (ap (λ (r : State F × Store F). r.1) (ok_injective h2)) ∙ create-ok account s e1,
      )

  get_by_name :
      (user : Text) (s : Store F) {account : BuyerAccount F}
      → get s.by_username (to_lower (trim_space user)) ≡ some account
      → get_by_user_or_email user s ≡ some account
  unfolding get_by_user_or_email
  get_by_name user s at = ground (arith, at)

  -- The user name finds the account that was registered under it.
  found_by_name :
      (email_text username_text password : Text) (s : Store F)
      → get_by_user_or_email username_text
          (insert (registered email_text username_text password) s.by_session s)
        ≡ some (registered email_text username_text password)
  found_by_name email_text username_text password s =
      let k = to_lower (trim_space username_text) in
      let account = registered email_text username_text password in
      get_by_name username_text (insert account s.by_session s)
        (rw (get-put s.by_username k account k) (rw (text_beq_refl k) refl))

  -- The account of a login with its new session.
  abbrev entered : Text → BuyerAccount F → BuyerAccount F
  entered stamp account = record account {
    state = record (account.state) { session_id = codes "sess-" ++ stamp };
  }

  -- A login that finds an account which stands under its own name compares the hashes, and nothing else.
  login-found :
      (user password stamp : Text) (s : Store F) (account : BuyerAccount F)
      → get_by_user_or_email user s ≡ some account
      → get s.by_username (to_lower account.username) ≡ some account
      → login hash no_preferences user password stamp s ≡ (
          if text_beq account.password_hash (hash password)
          then ok ((entered stamp account).state, updated (entered stamp account) s)
          else err invalid_credentials)
  unfolding login
  login-found user password stamp s account there at =
      elim (Bool-cases (text_beq account.password_hash (hash password))) [
        | inl same ↦ rw there (rw same (save-outcome (entered stamp account) account s at))
        | inr other ↦ rw there (rw other refl)
      ]

  -- After a registration that succeeds, a login under the user name, as it was typed, with a password
  -- succeeds exactly when the password has the same hash. It then returns the state of the registration
  -- with the session of the login's time, and in the store that it leaves this session leads to an account
  -- with that state, with the trimmed name, the address in lower case and the hash of the registration.
  pub login-register :
      (email_text username_text password other stamp : Text) (s : Store F) {st : State F}
      {s' : Store F}
      → register hash no_preferences email_text username_text password s ≡ ok (st, s')
      → map_ok
          (with_account (codes "sess-" ++ stamp))
          (login hash no_preferences username_text other stamp s')
        ≡ (let entered_state : State F = record st { session_id = codes "sess-" ++ stamp } in
            if text_beq (hash password) (hash other)
            then ok (
              entered_state,
              ok (record {
                username = trim_space username_text;
                email = trim_space (to_lower email_text);
                password_hash = hash password;
                state = entered_state;
              }),
            )
            else err invalid_credentials)
  login-register email_text username_text password other stamp s {st} {s'} h =
      let account = registered email_text username_text password in
      let k = to_lower (trim_space username_text) in
      let store = insert account s.by_session s in
      let (st_is, s_is) = register-ok email_text username_text password s h in
      let at : get store.by_username k ≡ some account =
        rw (get-put s.by_username k account k) (rw (text_beq_refl k) refl) in
      let r =
        login-found username_text other stamp store account
          (found_by_name email_text username_text password s) at in
      rw (st_is, s_is, r)
        (map_if (with_account (codes "sess-" ++ stamp)) _ _ invalid_credentials
          (text_beq (hash password) (hash other))
          (ap (λ there. ((entered stamp account).state, there))
            (updated-session (entered stamp account) store refl)))
    where
      map_if :
          {A B : Type 0} (f : A → B) (a : A) (c : B) (e : BuyerError) (b : Bool)
          → f a ≡ c
          → map_ok f (if b then ok a else err e) ≡ (if b then ok c else err e)
      map_if f a c e true h = ap ok h
      map_if f a c e false h = refl

  -- When a well-formed store holds an account, and another account has the first one's e-mail address
  -- as its user name, then a login with that address reaches the second account: with a password whose
  -- hash is not that of the second account it is refused, also when it is the first account's password.
  pub login_shadowed :
      (owner other : BuyerAccount F) (password stamp : Text) (s : Store F)
      → WellFormed s
      → get s.by_username (to_lower owner.username) ≡ some owner
      → hash password ≡ owner.password_hash
      → get s.by_username (to_lower (trim_space owner.email)) ≡ some other
      → text_beq other.password_hash (hash password) ≡ false
      → login hash no_preferences owner.email password stamp s ≡ err invalid_credentials
  login_shadowed owner other password stamp s w at_owner own at_other differs =
      rw
        (login-found owner.email password stamp s other (get_by_name owner.email s at_other)
          (rw (w.keyed (to_lower (trim_space owner.email)) other at_other) at_other))
        (rw differs refl)

module _ {F : Type 0} (hash : Text → Text) (no_preferences : Preferences F) where
  establish-ok :
      (name email_text buyer token : Text) (s : Store F) {st : State F} {s' : Store F}
      → establish_control_session hash no_preferences name email_text buyer token s ≡ ok (st, s')
      → (is_empty token ≡ false)
        × (s'
            ≡ put_control_account
                (control_account hash no_preferences (trim_space (to_lower email_text)) buyer token)
                s)
  unfolding establish_control_session
  establish-ok name email_text buyer token s h =
      let email = trim_space (to_lower email_text) in
      let account = control_account hash no_preferences email buyer token in
      let refused = is_empty email || is_empty buyer || is_empty token in
      let (allowed, e, h1) =
        bind-ok (refuse_if refused invalid_credentials)
          (λ (_ : Unit {0}). ok (account.state, put_control_account account s)) h in
      (
        allowed_nonempty (is_empty email) (is_empty buyer) (is_empty token) allowed e,
        sym (ap (λ (r : State F × Store F). r.1) (ok_injective h1)),
      )
    where
      allowed_nonempty :
          (a b c : Bool) (u : Unit {0})
          → refuse_if (a || b || c) invalid_credentials ≡ ok u
          → c ≡ false
      allowed_nonempty a b c u e = ground (arith, e)

  session_unknown :
      (session : Text) (s : Store F)
      → get s.by_session session ≡ none
      → get_account_by_session session s ≡ err invalid_session
  unfolding get_account_by_session get_by_session
  session_unknown session s at = ground (arith, at)

  -- The sessions after a control account with a session is replaced.
  replaced_sessions :
      (account old : BuyerAccount F) (s : Store F)
      → get s.by_username (to_lower account.username) ≡ some old
      → is_empty old.state.session_id ≡ false
      → is_empty account.state.session_id ≡ false
      → (put_control_account account s).by_session
        ≡ put
            (remove s.by_session old.state.session_id)
            account.state.session_id
            (to_lower account.username)
  unfolding put_control_account
  replaced_sessions account old s at some_old some_new = rw at (rw some_old (rw some_new refl))

  put_control_account-at :
      (account : BuyerAccount F) (s : Store F)
      → get (put_control_account account s).by_username (to_lower account.username) ≡ some account
  unfolding put_control_account
  put_control_account-at account s =
      let k = to_lower account.username in
      rw (get-put s.by_username k account k) (rw (text_beq_refl k) refl)

  -- When the control account of an e-mail address holds a session, and a new token which is not that
  -- session is established for the address, then the old session is refused from then on, and the new
  -- token leads to an account with the given buyer id and without limits or history.
  pub establish_revokes :
      (name email_text buyer token : Text) (s : Store F) (old : BuyerAccount F) {st : State F}
      {s' : Store F}
      → get s.by_username (to_lower (codes "control:" ++ trim_space (to_lower email_text)))
        ≡ some old
      → is_empty old.state.session_id ≡ false
      → text_beq token old.state.session_id ≡ false
      → establish_control_session hash no_preferences name email_text buyer token s ≡ ok (st, s')
      → (get_account_by_session old.state.session_id s' ≡ err invalid_session)
        × (get_account_by_session token s'
            ≡ ok (
                control_account hash no_preferences (trim_space (to_lower email_text)) buyer token))
  establish_revokes name email_text buyer token s old at some_old differs h =
      let (some_token, s_is) = establish-ok name email_text buyer token s h in
      let account =
        control_account hash no_preferences (trim_space (to_lower email_text)) buyer token in
      let s1 = put_control_account account s in
      let k = to_lower account.username in
      let old_token = old.state.session_id in
      let kept = remove s.by_session old_token in
      let sessions = replaced_sessions account old s at some_old some_token in
      rw s_is (
        session_unknown old_token s1 (
            rw sessions (
              rw (get-put kept token k old_token) (
                rw differs (
                  rw (get-remove s.by_session old_token old_token)
                    (rw (text_beq_refl old_token) refl))))),
        session_found token k s1 account
            (rw sessions (rw (get-put kept token k token) (rw (text_beq_refl token) refl)))
            (put_control_account-at account s),
      )
