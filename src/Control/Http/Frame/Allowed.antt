-- ===== src/Control/Http/Frame/Allowed.antt =====
-- internal/control: what the writes of a request are allowed to keep, and the account of a token.
use knowledge_mesh.Base.{Bool-cases, ◌≡◌, inl, inr, Bool, some, [], ◌∷◌, ◌++◌}
use knowledge_mesh.Base.Int.{ℤ, pos}
use knowledge_mesh.Base.Text.{Text, is_empty}
use knowledge_mesh.Control.Accounts.{has_seller_id, put_new, with_buyer}
use knowledge_mesh.Control.Billing.{insert_transaction, settle_inference_match}
use knowledge_mesh.Control.Db.{
  BuyerUser, SellerUser, SellerModelRecord, Billing, Transaction, InferenceMatch, Db,
}
use knowledge_mesh.Control.Http.{◌>>=◌, Serve, refuse, proceed}
use knowledge_mesh.Control.Http.Buyers.{authorized_buyer}
use knowledge_mesh.Control.Http.Frame.{
  Actor, as_buyer, as_seller, new_buyer, new_seller, given-Keeps,
}
use knowledge_mesh.Control.Http.Sellers.{authorized_seller}
use knowledge_mesh.Control.Http.Tokens.{Jwt, parse_buyer_token, parse_seller_token, bearer_token}
use knowledge_mesh.Control.Matching.Record.{with_match}
use knowledge_mesh.Control.Sellers.{change_where, delete_models}
use knowledge_mesh.Control.Session.Frame.{Keeps, IsPreorder}

module _ {F : Type 0} {P : Db F → Db F → Type 0} ⦃order : IsPreorder P⦄ where
  -- The account of a seller's token.
  pub seller_then-Keeps :
      {A : Type 0} (jwt : Jwt) (secret authorization : Text) (k : Text → Serve (Db F) A)
      → ((seller : Text)
          → parse_seller_token jwt secret (bearer_token authorization) ≡ some seller
          → Keeps P (k seller))
      → Keeps P (authorized_seller jwt secret authorization >>= k)
  unfolding authorized_seller ◌>>=◌ refuse proceed
  seller_then-Keeps jwt secret authorization k h =
      elim (Bool-cases (is_empty (bearer_token authorization))) [
        | inl e ↦ rw e (record { kept = λ s. order.same s.db })
        | inr e ↦
            rw e (given-Keeps (parse_seller_token jwt secret (bearer_token authorization)) 401 k h)
      ]

  pub buyer_then-Keeps :
      {A : Type 0} (jwt : Jwt) (secret authorization : Text) (k : Text → Serve (Db F) A)
      → ((buyer : Text)
          → parse_buyer_token jwt secret (bearer_token authorization) ≡ some buyer
          → Keeps P (k buyer))
      → Keeps P (authorized_buyer jwt secret authorization >>= k)
  unfolding authorized_buyer
  buyer_then-Keeps jwt secret authorization k h =
      given-Keeps (parse_buyer_token jwt secret (bearer_token authorization)) 401 k h

module _ {F : Type 0} where
  -- What the writes of a request keep, for the account that it is served for.
  pub record Allows (P : Db F → Db F → Type 0) (who : Actor) : Type 0 where
    pub ledger : (db : Db F) (t : Transaction) → P db (insert_transaction t db)
    pub matching :
        (db : Db F) (request : Text) (row : InferenceMatch) → P db (with_match request row db)
    pub settling :
        (tid1 tid2 buyer request : Text) (tokens : ℤ) (success : Bool)
        → who ≡ as_buyer buyer
        → Keeps P (settle_inference_match tid1 tid2 buyer request tokens success)
    pub changing :
        (seller : Text) (change : SellerUser → SellerUser)
        → who ≡ as_seller seller
        → ((u : SellerUser) → (change u).id ≡ u.id)
        → (db : Db F)
        → P db (record db {
          seller_users = change_where (has_seller_id seller) change db.seller_users;
        })
    pub deleting :
        (seller : Text) → who ≡ as_seller seller → (db : Db F) → P db (delete_models seller db)
    pub adding :
        (seller : Text)
        → who ≡ as_seller seller
        → (db : Db F) (m : SellerModelRecord F)
        → P db (record db { seller_models = db.seller_models ++ ((seller, m) ∷ []) })
    pub joining_buyer :
        (id : Text)
        → who ≡ new_buyer id
        → (db : Db F) (row : BuyerUser) → P db (with_buyer id row db)
    pub opening_buyer :
        (id : Text)
        → who ≡ new_buyer id
        → (db : Db F) (row : Billing)
        → P db (record db { buyer_billing = put_new db.buyer_billing id row })
    pub joining_seller :
        (id : Text)
        → who ≡ new_seller id
        → (db : Db F) (row : SellerUser) → row.id ≡ id
        → P db (record db { seller_users = db.seller_users ++ (row ∷ []) })
    pub opening_seller :
        (id : Text)
        → who ≡ new_seller id
        → (db : Db F)
        → P db (record db {
          seller_billing =
              put_new db.seller_billing id (record {
                wallet_balance = pos 0;
                token_quota = pos 10000000;
                tokens_used = pos 0;
              });
        })
