-- ===== src/Control/Sellers.antt =====
-- postgres_seller.go: what a seller's account says about its models, its duty and its presence.
pub mod Chosen
pub mod Models
use knowledge_mesh.Base.{
  if◌then◌else◌, select, any, find, Bool, not, ◌&&◌, ◌||◌, Option, none, some, List, [], ◌∷◌, ◌++◌,
}
use knowledge_mesh.Base.Result.{ok, err}
use knowledge_mesh.Base.Text.{Text, text_beq, trim_space, is_empty}
use knowledge_mesh.Control.Accounts.{has_seller_id}
use knowledge_mesh.Control.Billing.{select_row, write}
use knowledge_mesh.Control.Db.{SellerUser, SellerModelRecord, Db}
use knowledge_mesh.Control.Matching.{fits_int4, load_seller_models}
use knowledge_mesh.Control.Session.{
  ◌>>=◌, ◌>>◌, seller_not_found, model_not_found, database, Exec, Effect, pure, statement,
  transaction,
}
use knowledge_mesh.Types.{OllamaSellerConfig}

-- SellerProfile, less its times.
pub record SellerProfile (F : Type 0) : Type 0 where
  pub seller_id : Text
  pub name : Text
  pub email : Text
  pub on_duty : Bool
  pub peer_id : Text
  pub listen_addrs : List Text
  pub ollama : Option OllamaSellerConfig
  pub models : List (SellerModelRecord F)

abbrev pub text_or_nil : Option Text → Text
text_or_nil none = []
text_or_nil (some p) = p

-- The rows of a table after an UPDATE of those that pass a test.
abbrev pub change_where : {A : Type 0} → (A → Bool) → (A → A) → List A → List A
change_where test change [] = []
change_where test change (x ∷ xs) =
    let rest = change_where test change xs in if test x then change x ∷ rest else x ∷ rest

abbrev pub reported_peer : Text → Option Text
reported_peer peer = if is_empty (trim_space peer) then none else some (trim_space peer)

module _ {F : Type 0} where
  -- GetSellerProfile
  unfoldable pub get_seller_profile : Text → Exec (Db F) (SellerProfile F)
  get_seller_profile id = do
    u ← select_row seller_not_found λ db. find (has_seller_id id) db.seller_users
    models ← load_seller_models id
    pure (record {
      seller_id = u.id;
      name = u.display_name;
      email = u.email;
      on_duty = u.on_duty;
      peer_id = text_or_nil u.peer_id;
      listen_addrs = u.listen_addrs;
      ollama = u.ollama_config;
      models = models;
    })

  -- An UPDATE of one seller's row, and the test of the number of rows that it changed.
  unfoldable pub update_seller : Text → (SellerUser → SellerUser) → Exec (Db F) (Unit {0})
  update_seller id change = statement λ db.
      if any (has_seller_id id) db.seller_users
      then (
        ok tt,
        record db { seller_users = change_where (has_seller_id id) change db.seller_users },
      )
      else (err seller_not_found, db)

  -- SetSellerDuty
  unfoldable pub set_seller_duty : Text → Bool → Exec (Db F) (Unit {0})
  unfolding update_seller
  set_seller_duty id on = update_seller id λ u. record u { on_duty = on }

  -- SetSellerPresence
  unfoldable pub set_seller_presence : Text → Text → List Text → Exec (Db F) (Unit {0})
  unfolding update_seller
  set_seller_presence id peer addrs =
      update_seller id λ u. record u { peer_id = reported_peer peer; listen_addrs = addrs }

  -- SetSellerOllamaConfig
  unfoldable pub set_seller_ollama_config :
      Text → Option OllamaSellerConfig → Exec (Db F) (Unit {0})
  unfolding update_seller
  set_seller_ollama_config id cfg = update_seller id λ u. record u { ollama_config = cfg }

  abbrev pub is_model : Text → Text → Text × SellerModelRecord F → Bool
  is_model seller id row = text_beq row.0 seller && text_beq row.1.id id

  -- The UPDATE of the row with an id
  abbrev pub set_active : Text → Bool → Option Text → Effect (Db F) (Unit {0})
  set_active seller on none db = (err database, db)
  set_active seller on (some id) db =
      if any (is_model seller id) db.seller_models
      then (
        ok tt,
        record db {
          seller_models =
              change_where (is_model seller id)
                (λ (row : Text × SellerModelRecord F). (row.0, record (row.1) { active = on }))
                db.seller_models;
        },
      )
      else (err model_not_found, db)

  -- SetModelActive, with PostgreSQL's `::uuid`
  unfoldable pub set_model_active :
      (Text → Option Text) → Text → Text → Bool → Exec (Db F) (Unit {0})
  set_model_active as_uuid seller id on = statement (set_active seller on (as_uuid id))

  -- The INSERT of a model: its id is the primary key, its limits are 32-bit integers. `as_uuid` is
  -- PostgreSQL's `::uuid`, which fails or gives the UUID in its standard spelling.
  abbrev pub insert_as : Text → SellerModelRecord F → Option Text → Effect (Db F) (Unit {0})
  insert_as seller m none db = (err database, db)
  insert_as seller m (some id) db =
      if any (λ (row : Text × SellerModelRecord F). text_beq row.1.id id) db.seller_models
        || not (fits_int4 m.hourly_tokens && fits_int4 m.daily_tokens && fits_int4 m.total_tokens)
      then (err database, db)
      else (
        ok tt,
        record db { seller_models = db.seller_models ++ ((seller, record m { id = id }) ∷ []) },
      )

  unfoldable pub insert_model :
      (Text → Option Text) → Text → SellerModelRecord F → Effect (Db F) (Unit {0})
  insert_model as_uuid seller m db = insert_as seller m (as_uuid m.id) db

  -- A model without an id gets the new one that comes with it.
  abbrev pub with_id : Text × SellerModelRecord F → SellerModelRecord F
  with_id (new_id, m) = record m { id = if is_empty m.id then new_id else m.id }

  unfoldable pub insert_models :
      (Text → Option Text) → Text → List (Text × SellerModelRecord F) → Exec (Db F) (Unit {0})
  unfolding insert_model
  insert_models as_uuid seller [] = pure tt
  insert_models as_uuid seller (m ∷ rest) =
      statement (insert_model as_uuid seller (with_id m)) >> insert_models as_uuid seller rest

  unfoldable pub delete_models : Text → Db F → Db F
  delete_models seller db = record db {
    seller_models =
        select (λ (row : Text × SellerModelRecord F). not (text_beq row.0 seller)) db.seller_models;
  }

  unfoldable pub replace_body :
      (Text → Option Text) → Text → List (Text × SellerModelRecord F) → Exec (Db F) (Unit {0})
  unfolding insert_models delete_models
  replace_body as_uuid seller models = do
    u ← select_row seller_not_found λ db. find (has_seller_id seller) db.seller_users
    write (delete_models seller)
    insert_models as_uuid seller models

  -- ReplaceSellerModels
  unfoldable pub replace_seller_models :
      (Text → Option Text) → Text → List (Text × SellerModelRecord F) → Exec (Db F) (Unit {0})
  unfolding replace_body
  replace_seller_models as_uuid seller models = transaction (replace_body as_uuid seller models)
