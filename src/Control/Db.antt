-- ===== src/Control/Db.antt =====
-- The tables of internal/control/migrations, as the queries of the Go code see them: a table with a
-- primary key that is looked up is a map, any other a list of its rows.
use knowledge_mesh.Base.{Bool, Option, List}
use knowledge_mesh.Base.Assoc.{Assoc}
use knowledge_mesh.Base.Int.{ℤ, pos}
use knowledge_mesh.Base.Text.{Text}
use knowledge_mesh.Types.{OllamaSellerConfig}

-- A value in the `details` of a transaction; nested JSON is kept as its text.
pub data Json : Type 0 where
  text : Text → Json
  num : ℤ → Json
  flag : Bool → Json
  nested : Text → Json

pub record BuyerUser : Type 0 where
  pub display_name : Text
  pub email : Text
  pub password_hash : Text
  pub active : Bool

pub record SellerUser : Type 0 where
  pub id : Text
  pub display_name : Text
  pub email : Text
  pub password_hash : Text
  pub active : Bool
  pub on_duty : Bool
  pub peer_id : Option Text
  pub listen_addrs : List Text
  pub ollama_config : Option OllamaSellerConfig

-- records.go, with the column `seller_id` of the table.
pub record SellerModelRecord (F : Type 0) : Type 0 where
  pub id : Text
  pub name : Text
  pub version : Text
  pub skill_name : Text
  pub model_name : Text
  pub model_type : Text
  pub tuning_tier : Text
  pub hourly_tokens : ℤ
  pub daily_tokens : ℤ
  pub total_tokens : ℤ
  pub rate_per_token : F
  pub active : Bool
  pub meta : Assoc Json

-- A row of buyer_billing or of seller_billing.
pub record Billing : Type 0 where
  pub wallet_balance : ℤ
  pub token_quota : ℤ
  pub tokens_used : ℤ

pub data PartyKind : Type 0 where
  buyer_party seller_party : PartyKind

-- billing_tx.go: the transaction types that the code writes.
pub data TxType : Type 0 where
  inference_debit inference_credit inference_tracking : TxType

pub record Transaction : Type 0 where
  pub id : Text
  pub party_kind : PartyKind
  pub party_id : Text
  pub tx_type : TxType
  pub amount : ℤ
  pub balance_after : ℤ
  pub details : Assoc Json

pub record InferenceMatch : Type 0 where
  pub buyer_id : Text
  pub seller_id : Text
  pub seller_peer_id : Text
  pub estimated_tokens : ℤ
  pub settled : Bool

pub record Db (F : Type 0) : Type 0 where
  pub buyer_users : Assoc BuyerUser
  pub seller_users : List SellerUser
  pub seller_models : List (Text × SellerModelRecord F)
  pub buyer_billing : Assoc Billing
  pub seller_billing : Assoc Billing
  pub transactions : List Transaction
  pub matches : Assoc InferenceMatch

abbrev pub no_billing : Billing
no_billing = record { wallet_balance = pos 0; token_quota = pos 0; tokens_used = pos 0 }
