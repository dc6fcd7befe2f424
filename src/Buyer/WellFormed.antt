-- ===== src/Buyer/WellFormed.antt =====
-- internal/buyer/state.go: the maps of a store agree with each other.
use knowledge_mesh.Base.{Bool-cases, ◌≡◌, refl, ap, inl, inr, Option, none, some, [], ◌∷◌, arith}
use knowledge_mesh.Base.Assoc.{Assoc, get, put, remove, get-put, get-remove}
use knowledge_mesh.Base.Result.{ok}
use knowledge_mesh.Base.Text.{Text, text_beq, text_beq_iff, text_beq_refl, to_lower, is_empty}
use knowledge_mesh.Buyer.{
  BuyerAccount, Store, index_session, new_store, insert, create, forget_session,
  put_control_account, updated, update_account,
}
use knowledge_mesh.Buyer.Ledger.{Balanced}
use mathlib.Core.Path.{subst}

module _ {F : Type 0} where
  abbrev pub Holds : Assoc (BuyerAccount F) → Text → Type 0
  Holds accounts key = (account : BuyerAccount F) × (get accounts key ≡ some account)

  -- Each entry of an index leads to an account.
  abbrev pub Leads : Assoc Text → Assoc (BuyerAccount F) → Type 0
  Leads index accounts = (word key : Text) → get index word ≡ some key → Holds accounts key

  pub record WellFormed (s : Store F) : Type 0 where
    pub keyed :
        (key : Text) (account : BuyerAccount F)
        → get s.by_username key ≡ some account
        → to_lower account.username ≡ key
    pub balanced :
        (key : Text) (account : BuyerAccount F)
        → get s.by_username key ≡ some account
        → Balanced account.state
    pub emails_lead : Leads s.by_email s.by_username
    pub sessions_lead : Leads s.by_session s.by_username

module _ {F : Type 0} (accounts : Assoc (BuyerAccount F)) (account : BuyerAccount F)
    (k : Text) where
  put-Holds : (key : Text) → Holds accounts key → Holds (put accounts k account) key
  put-Holds key (a, e) = elim (Bool-cases (text_beq k key)) [
    | inl same ↦ (account, rw (get-put accounts k account key) (rw same refl))
    | inr other ↦ (a, rw (get-put accounts k account key) (rw other e))
  ]

  put-held : Holds (put accounts k account) k
  put-held = (account, rw (get-put accounts k account k) (rw (text_beq_refl k) refl))

  keep-Leads : (index : Assoc Text) → Leads index accounts → Leads index (put accounts k account)
  keep-Leads index lead word key h = put-Holds key (lead word key h)

  put-Leads :
      (index : Assoc Text) (e : Text)
      → Leads index accounts
      → Leads (put index e k) (put accounts k account)
  put-Leads index e lead word key h = elim (Bool-cases (text_beq e word)) [
    | inl same ↦
        subst (Holds (put accounts k account)) {x = k} (ground (arith, get-put index e k word))
          put-held
    | inr other ↦ put-Holds key (lead word key (ground (arith, get-put index e k word)))
  ]

  index_session-Leads :
      (index : Assoc Text) (session : Text)
      → Leads index accounts
      → Leads (index_session session k index) (put accounts k account)
  index_session-Leads index [] lead = keep-Leads index lead
  index_session-Leads index (c ∷ session) lead = put-Leads index (c ∷ session) lead

module _ {F : Type 0} where
  remove-Leads :
      (index : Assoc Text) (accounts : Assoc (BuyerAccount F)) (e : Text)
      → Leads index accounts
      → Leads (remove index e) accounts
  remove-Leads index accounts e lead word key h =
      lead word key (ground (arith, get-remove index e word))

  forget_session-Leads :
      (old : Option (BuyerAccount F)) (index : Assoc Text) (accounts : Assoc (BuyerAccount F))
      → Leads index accounts
      → Leads (forget_session old index) accounts
  forget_session-Leads none index accounts lead = lead
  forget_session-Leads (some old) index accounts lead =
      elim (Bool-cases (is_empty old.state.session_id)) [
        | inl same ↦ rw same lead
        | inr other ↦ rw other (remove-Leads index accounts old.state.session_id lead)
      ]

  pub new_store-WellFormed : WellFormed (new_store {F = F})
  unfolding get
  new_store-WellFormed = record {
    keyed = λ key a h. cc;
    balanced = λ key a h. cc;
    emails_lead = λ e key h. cc;
    sessions_lead = λ e key h. cc;
  }

  -- An account is written under its key, and the two indexes at most gain entries that lead to it.
  written :
      (s s' : Store F) (account : BuyerAccount F)
      → s'.by_username ≡ put s.by_username (to_lower account.username) account
      → Leads s'.by_email (put s.by_username (to_lower account.username) account)
      → Leads s'.by_session (put s.by_username (to_lower account.username) account)
      → Balanced account.state
      → WellFormed s
      → WellFormed s'
  written s s' account e emails sessions b w =
      let k = to_lower account.username in
      record {
        keyed = λ key a h.
            ground (arith, get-put s.by_username k account key, w.keyed key a, text_beq_iff k key);
        balanced =
            λ key a h. ground (arith, get-put s.by_username k account key, w.balanced key a, b);
        emails_lead = rw e emails;
        sessions_lead = rw e sessions;
      }

  insert-WellFormed :
      (s : Store F) (account : BuyerAccount F) (sessions : Assoc Text)
      → Leads sessions s.by_username
      → Balanced account.state
      → WellFormed s
      → WellFormed (insert account sessions s)
  insert-WellFormed s account sessions lead b w =
      let k = to_lower account.username in
      written s (insert account sessions s) account refl
        (put-Leads s.by_username account k s.by_email (to_lower account.email) w.emails_lead)
        (index_session-Leads s.by_username account k sessions account.state.session_id lead) b w

  pub create-ok :
      (account : BuyerAccount F) (s : Store F) {s' : Store F}
      → create account s ≡ ok s'
      → s' ≡ insert account s.by_session s
  unfolding create
  create-ok account s h = ground arith

  pub update_account-ok :
      (account : BuyerAccount F) (s : Store F) {s' : Store F}
      → update_account account s ≡ ok s'
      → s' ≡ updated account s
  unfolding update_account
  update_account-ok account s h = ground arith

  pub create-WellFormed :
      (account : BuyerAccount F) (s : Store F) {s' : Store F}
      → Balanced account.state
      → WellFormed s
      → create account s ≡ ok s'
      → WellFormed s'
  unfolding create
  create-WellFormed account s b w h =
      rw (create-ok account s h) (insert-WellFormed s account s.by_session w.sessions_lead b w)

  pub put_control_account-WellFormed :
      (account : BuyerAccount F) (s : Store F)
      → Balanced account.state
      → WellFormed s
      → WellFormed (put_control_account account s)
  unfolding put_control_account
  put_control_account-WellFormed account s b w =
      insert-WellFormed s account
        (forget_session (get s.by_username (to_lower account.username)) s.by_session)
        (forget_session-Leads (get s.by_username (to_lower account.username)) s.by_session
          s.by_username w.sessions_lead)
        b w

  pub update_account-WellFormed :
      (account : BuyerAccount F) (s : Store F) {s' : Store F}
      → Balanced account.state
      → WellFormed s
      → update_account account s ≡ ok s'
      → WellFormed s'
  unfolding update_account
  update_account-WellFormed account s {s'} b w h =
      let k = to_lower account.username in
      written s s' account (ap Store.by_username e)
        (rw (ap Store.by_email e) (keep-Leads s.by_username account k s.by_email w.emails_lead))
        (rw (ap Store.by_session e) (
          index_session-Leads s.by_username account k s.by_session account.state.session_id
            w.sessions_lead))
        b w
    where
      e : s' ≡ updated account s
      e = update_account-ok account s h
