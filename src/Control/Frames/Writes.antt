-- ===== src/Control/Frames/Writes.antt =====
-- internal/control: the methods that write, for any relation that their writes stand in.
use knowledge_mesh.Base.{
  if◌then◌else◌, find, ◌≡◌, refl, Bool, true, false, Option, List, [], ◌∷◌, ◌++◌, ◌&&◌, none, some,
}
use knowledge_mesh.Base.Assoc.{Assoc, get}
use knowledge_mesh.Base.Int.{ℤ, pos}
use knowledge_mesh.Base.Result.{or_fail, Result, ok, err}
use knowledge_mesh.Base.Text.{Text, trim_space, is_empty}
use knowledge_mesh.Control.Accounts.{
  has_seller_id, put_new, buyer_row, seller_row, with_buyer, insert_buyer, insert_seller,
  init_buyer_billing, init_seller_billing, register_buyer, register_seller,
}
use knowledge_mesh.Control.Billing.{buyer_snapshot, seller_snapshot, insert_transaction}
use knowledge_mesh.Control.Db.{
  Json, BuyerUser, SellerUser, SellerModelRecord, Billing, Transaction, InferenceMatch, Db,
}
use knowledge_mesh.Control.Frames.{or_raise-Keeps, read-Keeps}
use knowledge_mesh.Control.Matching.{
  insert_match_row, insert_inference_match, fits_int4, present, known_parties,
}
use knowledge_mesh.Control.Matching.Record.{new_match, with_match}
use knowledge_mesh.Control.Sellers.{
  change_where, update_seller, insert_model, with_id, insert_models, delete_models, replace_body,
  replace_seller_models, insert_as,
}
use knowledge_mesh.Control.Session.{
  seller_not_found, fields_required, request_id_required, billing_not_found, database, StoreError,
  duplicate_match,
}
use knowledge_mesh.Control.Session.Frame.{
  Keeps, IsPreorder, pure-Keeps, refuse_when-Keeps, statement-Keeps, bind-Keeps, transaction-Keeps,
}
use knowledge_mesh.Control.Tracking.{append_buyer_tracking, append_seller_tracking}

module _ {S R : Type 0} (P : S → S → Type 0) where
  either-kept :
      (b : Bool) (db : S) (x y : R × S)
      → P db x.1
      → P db y.1
      → P db (if◌then◌else◌ {A = R × S} b x y).1
  either-kept true db x y h k = h
  either-kept false db x y h k = k

module _ {F : Type 0} (P : Db F → Db F → Type 0) ⦃order : IsPreorder P⦄ where
  insert_match_row-kept :
      (request : Text) (row : InferenceMatch)
      → ((db : Db F) → P db (with_match request row db))
      → (db : Db F) → P db (insert_match_row request row db).1
  unfolding insert_match_row
  insert_match_row-kept request row may db =
      let fits : Bool =
        known_parties row.buyer_id row.seller_id db && fits_int4 row.estimated_tokens in
      let other : Result StoreError (Unit {0}) × Db F =
        if fits then (ok tt, with_match request row db) else (err database, db) in
      either-kept P (present (get db.matches request)) db (err duplicate_match, db) other
        (order.same db)
        (either-kept P fits db (ok tt, with_match request row db) (err database, db) (may db)
          (order.same db))

  insert_model-kept :
      (as_uuid : Text → Option Text) (seller : Text) (m : SellerModelRecord F)
      → ((db : Db F) (m : SellerModelRecord F)
          → P db (record db { seller_models = db.seller_models ++ ((seller, m) ∷ []) }))
      → (db : Db F) → P db (insert_model as_uuid seller m db).1
  unfolding insert_model
  insert_model-kept as_uuid seller m may db = go (as_uuid m.id)
    where
      go : (o : Option Text) → P db (insert_as seller m o db).1
      go none = order.same db
      go (some id) = either-kept P _ db _ _ (order.same db) (may db (record m { id = id }))

  insert_buyer-kept :
      (id : Text) (row : BuyerUser)
      → ((db : Db F) → P db (with_buyer id row db))
      → (db : Db F) → P db (insert_buyer id row db).1
  unfolding insert_buyer
  insert_buyer-kept id row may db = either-kept P _ db _ _ (order.same db) (may db)

  insert_seller-kept :
      (row : SellerUser)
      → ((db : Db F) → P db (record db { seller_users = db.seller_users ++ (row ∷ []) }))
      → (db : Db F) → P db (insert_seller row db).1
  unfolding insert_seller
  insert_seller-kept row may db = either-kept P _ db _ _ (order.same db) (may db)

module _ {F : Type 0} {P : Db F → Db F → Type 0} ⦃order : IsPreorder P⦄ where
  pub append_buyer_tracking-Keeps :
      (id buyer request phase : Text) (meta : Assoc Json)
      → ((db : Db F) (t : Transaction) → P db (insert_transaction t db))
      → Keeps P (append_buyer_tracking id buyer request phase meta)
  unfolding append_buyer_tracking buyer_snapshot
  append_buyer_tracking-Keeps id buyer request phase meta may =
      bind-Keeps (buyer_snapshot buyer) _
        (read-Keeps λ db. or_fail (get db.buyer_billing buyer) billing_not_found)
        λ snap. statement-Keeps _ λ db. may db _

  pub append_seller_tracking-Keeps :
      (id seller request : Text) (tokens : ℤ) (success : Bool) (meta : Assoc Json)
      → ((db : Db F) (t : Transaction) → P db (insert_transaction t db))
      → Keeps P (append_seller_tracking id seller request tokens success meta)
  unfolding append_seller_tracking seller_snapshot
  append_seller_tracking-Keeps id seller request tokens success meta may =
      bind-Keeps (seller_snapshot seller) _
        (read-Keeps λ db. or_fail (get db.seller_billing seller) billing_not_found)
        λ snap. statement-Keeps _ λ db. may db _

  pub insert_inference_match-Keeps :
      (request buyer seller peer : Text) (estimated : ℤ)
      → ((db : Db F) (row : InferenceMatch) → P db (with_match request row db))
      → Keeps P (insert_inference_match request buyer seller peer estimated)
  unfolding insert_inference_match
  insert_inference_match-Keeps request buyer seller peer estimated may =
      bind-Keeps _ _ (refuse_when-Keeps (is_empty (trim_space request)) request_id_required) λ _.
        statement-Keeps _ (
          insert_match_row-kept P request (new_match buyer seller peer estimated)
            (λ db. may db (new_match buyer seller peer estimated)))

  pub update_seller-Keeps :
      (id : Text) (change : SellerUser → SellerUser)
      → ((db : Db F)
          → P db
              (record db { seller_users = change_where (has_seller_id id) change db.seller_users }))
      → Keeps P (update_seller id change)
  unfolding update_seller
  update_seller-Keeps id change may =
      statement-Keeps _ λ db. either-kept P _ db _ _ (may db) (order.same db)

  insert_models-Keeps :
      (as_uuid : Text → Option Text) (seller : Text) (models : List (Text × SellerModelRecord F))
      → ((db : Db F) (m : SellerModelRecord F)
          → P db (record db { seller_models = db.seller_models ++ ((seller, m) ∷ []) }))
      → Keeps P (insert_models as_uuid seller models)
  unfolding insert_models
  insert_models-Keeps as_uuid seller [] may = pure-Keeps tt
  insert_models-Keeps as_uuid seller (m ∷ rest) may =
      bind-Keeps _ _ (statement-Keeps _ (insert_model-kept P as_uuid seller (with_id m) may))
        λ _. insert_models-Keeps as_uuid seller rest may

  pub replace_seller_models-Keeps :
      (as_uuid : Text → Option Text) (seller : Text) (models : List (Text × SellerModelRecord F))
      → ((db : Db F) → P db (delete_models seller db))
      → ((db : Db F) (m : SellerModelRecord F)
          → P db (record db { seller_models = db.seller_models ++ ((seller, m) ∷ []) }))
      → Keeps P (replace_seller_models as_uuid seller models)
  unfolding replace_seller_models replace_body
  replace_seller_models-Keeps as_uuid seller models may_delete may_insert =
      transaction-Keeps (replace_body as_uuid seller models) (
        bind-Keeps _ _
          (read-Keeps λ db. or_fail (find (has_seller_id seller) db.seller_users) seller_not_found)
          λ u.
            bind-Keeps _ _ (statement-Keeps _ may_delete)
              λ _. insert_models-Keeps as_uuid seller models may_insert)

  pub register_buyer-Keeps :
      (hash_of : Text → Option Text) (id name email password : Text)
      → ((db : Db F) (row : BuyerUser) → P db (with_buyer id row db))
      → ((db : Db F) (row : Billing)
          → P db (record db { buyer_billing = put_new db.buyer_billing id row }))
      → Keeps P (register_buyer hash_of id name email password)
  unfolding register_buyer init_buyer_billing
  register_buyer-Keeps hash_of id name email password may_insert may_open =
      bind-Keeps _ _ (refuse_when-Keeps _ fields_required) λ _.
        bind-Keeps _ _ (or_raise-Keeps (hash_of password) database) λ hash.
          bind-Keeps _ _
            (statement-Keeps _ (
              insert_buyer-kept P id (buyer_row name email hash)
                λ db. may_insert db (buyer_row name email hash)))
            λ _.
              bind-Keeps (init_buyer_billing id) _
                (statement-Keeps _ λ db. either-kept P _ db _ _ (may_open db _) (order.same db))
                λ _. pure-Keeps id

  pub register_seller-Keeps :
      (hash_of : Text → Option Text) (id name email password : Text)
      → ((db : Db F) (row : SellerUser)
          → row.id ≡ id
          → P db (record db { seller_users = db.seller_users ++ (row ∷ []) }))
      → ((db : Db F)
          → P db (record db {
            seller_billing = put_new db.seller_billing id (record {
              wallet_balance = pos 0;
              token_quota = pos 10000000;
              tokens_used = pos 0;
            });
          }))
      → Keeps P (register_seller hash_of id name email password)
  unfolding register_seller init_seller_billing
  register_seller-Keeps hash_of id name email password may_insert may_open =
      bind-Keeps _ _ (refuse_when-Keeps _ fields_required) λ _.
        bind-Keeps _ _ (or_raise-Keeps (hash_of password) database) λ hash.
          bind-Keeps _ _
            (statement-Keeps _ (
              insert_seller-kept P (seller_row id name email hash)
                λ db. may_insert db (seller_row id name email hash) refl))
            λ _.
              bind-Keeps (init_seller_billing id) _
                (statement-Keeps _ λ db. either-kept P _ db _ _ (may_open db) (order.same db))
                λ _. pure-Keeps id
