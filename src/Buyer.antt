-- ===== src/Buyer.antt =====
-- internal/buyer/state.go: the buyer's accounts on this node, and the store that keeps them.
pub mod Manager
pub mod Steps
pub mod Limits
pub mod Periods
pub mod Counted
pub mod Overlap
pub mod Ledger
pub mod WellFormed
pub mod Sessions
pub mod Accounts
pub mod Examples
use knowledge_mesh.Base.{if◌then◌else◌, ℕ, Option, none, some, List, []}
use knowledge_mesh.Base.Assoc.{Assoc, get, put, remove}
use knowledge_mesh.Base.Int.{ℤ}
use knowledge_mesh.Base.Result.{Result, ok, err}
use knowledge_mesh.Base.Text.{Text, to_lower, trim_space, is_empty}
use knowledge_mesh.Types.{RateLimits, UsageCounters}

pub data BuyerError : Type 0 where
  buyer_exists buyer_not_found invalid_credentials invalid_session : BuyerError
  hourly_limit_exceeded daily_limit_exceeded total_limit_exceeded : BuyerError

pub record Preferences (F : Type 0) : Type 0 where
  pub preferred_skill : Text
  pub preferred_model : Text
  pub max_price_per_token : F
  pub max_price_per_request : F

-- `requested_at` is in seconds since 1970.
pub record RequestRecord (F : Type 0) : Type 0 where
  pub request_id : Text
  pub prompt : Text
  pub tokens : ℤ
  pub price : F
  pub requested_at : ℕ

pub record State (F : Type 0) : Type 0 where
  pub buyer_id : Text
  pub session_id : Text
  pub auth_ref : Text
  pub token_limits : RateLimits
  pub usage : UsageCounters
  pub preferences : Preferences F
  pub request_history : List (RequestRecord F)

pub record BuyerAccount (F : Type 0) : Type 0 where
  pub username : Text
  pub email : Text
  pub password_hash : Text
  pub state : State F

-- inMemoryStore. Its lock makes each of its own methods one step.
pub record Store (F : Type 0) : Type 0 where
  pub by_username : Assoc (BuyerAccount F)
  pub by_email : Assoc Text
  pub by_session : Assoc Text

-- `if sessionID != "" { s.bySession[sessionID] = key }`
abbrev pub index_session : Text → Text → Assoc Text → Assoc Text
index_session session key sessions = if is_empty session then sessions else put sessions session key

module _ {F : Type 0} where
  abbrev pub new_store : Store F
  new_store = record { by_username = []; by_email = []; by_session = [] }

  -- The three writes with which an account enters the store.
  abbrev pub insert : BuyerAccount F → Assoc Text → Store F → Store F
  insert account sessions s =
      let key = to_lower account.username in
      record {
        by_username = put s.by_username key account;
        by_email = put s.by_email (to_lower account.email) key;
        by_session = index_session account.state.session_id key sessions;
      }

  -- A method that fails has written nothing: each returns its error before its first write.
  unfoldable pub create : BuyerAccount F → Store F → Result BuyerError (Store F)
  create account s = elim (get s.by_username (to_lower account.username)) [
    | some old ↦ err buyer_exists
    | none ↦ elim (get s.by_email (to_lower account.email)) [
      | some key ↦ err buyer_exists
      | none ↦ ok (insert account s.by_session s)
    ]
  ]

  -- The sessions without that of the account which is replaced.
  abbrev pub forget_session : Option (BuyerAccount F) → Assoc Text → Assoc Text
  forget_session none sessions = sessions
  forget_session (some old) sessions =
      if is_empty old.state.session_id then sessions else remove sessions old.state.session_id

  unfoldable pub put_control_account : BuyerAccount F → Store F → Store F
  put_control_account account s =
      insert account (forget_session (get s.by_username (to_lower account.username)) s.by_session) s

  unfoldable pub get_by_user_or_email : Text → Store F → Option (BuyerAccount F)
  get_by_user_or_email user s =
      let key = to_lower (trim_space user) in
      elim (get s.by_username key) [
        | some account ↦ some account
        | none ↦ elim (get s.by_email key) [
          | some username ↦ get s.by_username username
          | none ↦ none
        ]
      ]

  unfoldable pub get_by_session : Text → Store F → Option (BuyerAccount F)
  get_by_session session s = elim (get s.by_session session) [
    | some username ↦ get s.by_username username
    | none ↦ none
  ]

  -- The writes of Update.
  abbrev pub updated : BuyerAccount F → Store F → Store F
  updated account s =
      let key = to_lower account.username in
      record s {
        by_username = put s.by_username key account;
        by_session = index_session account.state.session_id key s.by_session;
      }

  unfoldable pub update_account : BuyerAccount F → Store F → Result BuyerError (Store F)
  update_account account s =
      let key = to_lower account.username in
      elim (get s.by_username key) [
        | some old ↦ ok (updated account s)
        | none ↦ err buyer_not_found
      ]
