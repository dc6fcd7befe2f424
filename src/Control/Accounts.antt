-- ===== src/Control/Accounts.antt =====
-- postgres.go and postgres_seller.go: the accounts of buyers and sellers. bcrypt is a parameter, new ids
-- are arguments.
pub mod Half
use knowledge_mesh.Base.{
  if◌then◌else◌, any, find, Bool, true, false, not, ◌||◌, Option, none, some, [], ◌∷◌, ◌++◌,
}
use knowledge_mesh.Base.Assoc.{Assoc, get, put}
use knowledge_mesh.Base.Int.{pos}
use knowledge_mesh.Base.Result.{ok, err}
use knowledge_mesh.Base.Text.{Text, text_beq, to_lower, equal_fold, trim_space, is_empty}
use knowledge_mesh.Control.Billing.{select_row}
use knowledge_mesh.Control.Db.{BuyerUser, SellerUser, Billing, Db}
use knowledge_mesh.Control.Matching.{present}
use knowledge_mesh.Control.Session.{
  buyer_exists, ◌>>=◌, ◌>>◌, StoreError, seller_exists, invalid_login, fields_required, database,
  Exec, Effect, pure, raise, statement, refuse_when,
}

-- The address and the name as the code stores them.
abbrev pub clean_email : Text → Text
clean_email email = trim_space (to_lower email)

module _ {S A : Type 0} where
  -- `_, _ = s.pool.Exec(…)`
  unfoldable pub ignore_error : Exec S A → Exec S (Unit {0})
  ignore_error m s = let (r, s') = m s in (ok tt, s')

  unfoldable pub or_raise : Option A → StoreError → Exec S A
  unfolding pure raise
  or_raise none e = raise e
  or_raise (some a) e = pure a

abbrev pub has_seller_id : Text → SellerUser → Bool
has_seller_id id u = text_beq u.id id

-- ON CONFLICT DO NOTHING
abbrev pub put_new : Assoc Billing → Text → Billing → Assoc Billing
put_new rows id row = if present (get rows id) then rows else put rows id row

abbrev pub buyer_row : Text → Text → Text → BuyerUser
buyer_row name email hash = record {
  display_name = trim_space name;
  email = clean_email email;
  password_hash = hash;
  active = true;
}

abbrev pub seller_row : Text → Text → Text → Text → SellerUser
seller_row id name email hash = record {
  id = id;
  display_name = trim_space name;
  email = clean_email email;
  password_hash = hash;
  active = true;
  on_duty = false;
  peer_id = none;
  listen_addrs = [];
  ollama_config = none;
}

module _ {F : Type 0} where
  -- The unique index on lower(email).
  abbrev pub buyer_email_taken : Text → Db F → Bool
  buyer_email_taken email db =
      any (λ (row : Text × BuyerUser). equal_fold row.1.email email) db.buyer_users

  abbrev pub seller_email_taken : Text → Db F → Bool
  seller_email_taken email db = any (λ (u : SellerUser). equal_fold u.email email) db.seller_users

  abbrev pub with_buyer : Text → BuyerUser → Db F → Db F
  with_buyer id row db = record db { buyer_users = put db.buyer_users id row }

  unfoldable pub insert_buyer : Text → BuyerUser → Effect (Db F) (Unit {0})
  insert_buyer id row db =
      if present (get db.buyer_users id) || buyer_email_taken row.email db
      then (err buyer_exists, db)
      else (ok tt, with_buyer id row db)

  unfoldable pub insert_seller : SellerUser → Effect (Db F) (Unit {0})
  insert_seller row db =
      if any (has_seller_id row.id) db.seller_users || seller_email_taken row.email db
      then (err seller_exists, db)
      else (ok tt, record db { seller_users = db.seller_users ++ (row ∷ []) })

  -- The row that an account starts with. Its key refers to the account.
  unfoldable pub init_buyer_billing : Text → Exec (Db F) (Unit {0})
  init_buyer_billing id = statement λ db.
      if present (get db.buyer_users id)
      then (
        ok tt,
        record db {
          buyer_billing = put_new db.buyer_billing id (record {
            wallet_balance = pos 1000000;
            token_quota = pos 10000000;
            tokens_used = pos 0;
          });
        },
      )
      else (err database, db)

  unfoldable pub init_seller_billing : Text → Exec (Db F) (Unit {0})
  init_seller_billing id = statement λ db.
      if any (has_seller_id id) db.seller_users
      then (
        ok tt,
        record db {
          seller_billing =
              put_new db.seller_billing id (record {
                wallet_balance = pos 0;
                token_quota = pos 10000000;
                tokens_used = pos 0;
              });
        },
      )
      else (err database, db)

  module _ (hash_of : Text → Option Text) where
    -- RegisterBuyer
    unfoldable pub register_buyer : Text → Text → Text → Text → Exec (Db F) Text
    unfolding or_raise insert_buyer init_buyer_billing
    register_buyer id name email password = do
      refuse_when (is_empty (trim_space name) || is_empty (clean_email email) || is_empty password)
          fields_required
      hash ← or_raise (hash_of password) database
      statement (insert_buyer id (buyer_row name email hash))
      init_buyer_billing id
      pure id

    -- RegisterSeller
    unfoldable pub register_seller : Text → Text → Text → Text → Exec (Db F) Text
    unfolding or_raise insert_seller init_seller_billing
    register_seller id name email password = do
      refuse_when (is_empty (trim_space name) || is_empty (clean_email email) || is_empty password)
          fields_required
      hash ← or_raise (hash_of password) database
      statement (insert_seller (seller_row id name email hash))
      init_seller_billing id
      pure id

  -- The UPDATE of `updated_at`, a column that is not modelled.
  abbrev touch : Exec (Db F) (Unit {0})
  touch = statement λ db. (ok tt, db)

  module _ (fits_hash : Text → Text → Bool) where
    -- LoginBuyer. The answer is the id, the name and the address of the row.
    unfoldable pub login_buyer : Text → Text → Exec (Db F) (Text × Text × Text)
    unfolding ignore_error
    login_buyer email password = do
      refuse_when (is_empty (clean_email email) || is_empty password) invalid_login
      row ← select_row invalid_login λ db.
          find (λ (row : Text × BuyerUser). equal_fold row.1.email (clean_email email))
            db.buyer_users
      refuse_when (not row.1.active) invalid_login
      refuse_when (not (fits_hash row.1.password_hash password)) invalid_login
      ignore_error touch
      pure (row.0, row.1.display_name, row.1.email)

    -- LoginSeller
    unfoldable pub login_seller : Text → Text → Exec (Db F) (Text × Text × Text)
    unfolding ignore_error
    login_seller email password = do
      refuse_when (is_empty (clean_email email) || is_empty password) invalid_login
      u ←
          select_row invalid_login
            λ db. find (λ (u : SellerUser). equal_fold u.email (clean_email email)) db.seller_users
      refuse_when (not u.active) invalid_login
      refuse_when (not (fits_hash u.password_hash password)) invalid_login
      ignore_error touch
      pure (u.id, u.display_name, u.email)
