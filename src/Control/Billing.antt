-- ===== src/Control/Billing.antt =====
-- postgres_billing.go: wallets and quotas, the record of a match, and its settlement.
pub mod Outcome
pub mod Atomic
pub mod Funds
pub mod Once
pub mod Overlap
pub mod Payment
use knowledge_mesh.Base.{if◌then◌else◌, Bool, true, not, ◌||◌, Option, none, some, [], ◌∷◌, ◌++◌}
use knowledge_mesh.Base.Assoc.{Assoc, get, update}
use knowledge_mesh.Base.Int.{ℤ, pos, ltb_ℤ, beq_ℤ, add64, sub64}
use knowledge_mesh.Base.Result.{ok, or_fail}
use knowledge_mesh.Base.Text.{Text, codes, text_beq, trim_space, is_empty}
use knowledge_mesh.Control.Db.{
  Json, text, num, Billing, buyer_party, seller_party, inference_debit, inference_credit,
  Transaction, InferenceMatch, Db,
}
use knowledge_mesh.Control.Session.{
  ◌>>=◌, ◌>>◌, StoreError, insufficient_balance, quota_exceeded, match_not_found,
  request_id_required, billing_not_found, database, Exec, Effect, pure, statement, refuse_when,
  transaction,
}

abbrev pub set_balance : ℤ → ℤ → Billing → Billing
set_balance wallet used b = record b { wallet_balance = wallet; tokens_used = used }

abbrev pub settlement_details : Text → ℤ → Assoc Json
settlement_details request tokens =
    (codes "requestId", text request) ∷ (codes "totalTokens", num tokens) ∷ []

-- A negative count is taken as 0.
abbrev pub clamp : ℤ → ℤ
clamp tokens = if ltb_ℤ tokens (pos 0) then pos 0 else tokens

module _ {F : Type 0} where
  -- A SELECT of one row by its key, and what an empty result becomes.
  abbrev pub row_or : {A : Type 0} → StoreError → (Db F → Option A) → Effect (Db F) A
  row_or e look db = (or_fail (look db) e, db)

  abbrev pub select_row : {A : Type 0} → StoreError → (Db F → Option A) → Exec (Db F) A
  select_row e look = statement (row_or e look)

  -- An UPDATE or INSERT that no constraint refuses.
  abbrev pub write : (Db F → Db F) → Exec (Db F) (Unit {0})
  write change = statement λ db. (ok tt, change db)

  -- GetBuyerBillingSnapshot and GetSellerBillingSnapshot
  unfoldable pub buyer_snapshot : Text → Exec (Db F) Billing
  buyer_snapshot buyer = select_row billing_not_found λ db. get db.buyer_billing buyer

  unfoldable pub seller_snapshot : Text → Exec (Db F) Billing
  seller_snapshot seller = select_row billing_not_found λ db. get db.seller_billing seller

  -- CheckBuyerCanSpendTokens
  unfoldable pub check_can_spend : Text → ℤ → Exec (Db F) (Unit {0})
  unfolding buyer_snapshot
  check_can_spend buyer estimated = do
    snap ← buyer_snapshot buyer
    refuse_when (ltb_ℤ snap.token_quota (add64 snap.tokens_used estimated)) quota_exceeded
    refuse_when (ltb_ℤ snap.wallet_balance estimated) insufficient_balance

  -- The row of inference_matches that belongs to the request and the buyer.
  abbrev pub match_of : Text → Text → Db F → Option InferenceMatch
  match_of buyer request db = elim (get db.matches request) [
    | none ↦ none
    | some m ↦ if text_beq m.buyer_id buyer then some m else none
  ]

  abbrev pub mark_settled : Text → Db F → Db F
  mark_settled request db = record db {
    matches = update db.matches request (λ m. record m { settled = true });
  }

  abbrev pub set_buyer : Text → ℤ → ℤ → Db F → Db F
  set_buyer buyer wallet used db = record db {
    buyer_billing = update db.buyer_billing buyer (set_balance wallet used);
  }

  abbrev pub set_seller : Text → ℤ → ℤ → Db F → Db F
  set_seller seller wallet used db = record db {
    seller_billing = update db.seller_billing seller (set_balance wallet used);
  }

  abbrev pub insert_transaction : Transaction → Db F → Db F
  insert_transaction t db = record db { transactions = db.transactions ++ t ∷ [] }

  -- The part of SettleInferenceMatch that moves the tokens, from the first `FOR UPDATE` to the last
  -- UPDATE. `tid1` and `tid2` are the new transaction ids.
  unfoldable pub transfer : Text → Text → Text → Text → Text → ℤ → Exec (Db F) (Unit {0})
  transfer tid1 tid2 buyer seller request tokens = do
    b ← select_row database λ db. get db.buyer_billing buyer
    refuse_when (ltb_ℤ b.token_quota (add64 b.tokens_used tokens)) quota_exceeded
    refuse_when (ltb_ℤ b.wallet_balance tokens) insufficient_balance
    s ← select_row database λ db. get db.seller_billing seller
    write (set_buyer buyer (sub64 b.wallet_balance tokens) (add64 b.tokens_used tokens))
    write (set_seller seller (add64 s.wallet_balance tokens) (add64 s.tokens_used tokens))
    write (
        insert_transaction (record {
          id = tid1;
          party_kind = buyer_party;
          party_id = buyer;
          tx_type = inference_debit;
          amount = sub64 (pos 0) tokens;
          balance_after = sub64 b.wallet_balance tokens;
          details = settlement_details request tokens;
        }))
    write (
        insert_transaction (record {
          id = tid2;
          party_kind = seller_party;
          party_id = seller;
          tx_type = inference_credit;
          amount = tokens;
          balance_after = add64 s.wallet_balance tokens;
          details = settlement_details request tokens;
        }))
    write (mark_settled request)

  -- What follows once the match has been read.
  unfoldable pub settle_match :
      Text → Text → Text → Text → ℤ → Bool → InferenceMatch → Exec (Db F) (Unit {0})
  unfolding transfer
  settle_match tid1 tid2 buyer request tokens success m =
      if m.settled
      then pure tt
      else if not success || beq_ℤ tokens (pos 0)
      then write (mark_settled request)
      else transfer tid1 tid2 buyer m.seller_id request tokens

  unfoldable pub settle_body : Text → Text → Text → Text → ℤ → Bool → Exec (Db F) (Unit {0})
  unfolding settle_match
  settle_body tid1 tid2 buyer request tokens success = do
    m ← select_row match_not_found (match_of buyer request)
    settle_match tid1 tid2 buyer request tokens success m

  -- SettleInferenceMatch
  unfoldable pub settle_inference_match :
      Text → Text → Text → Text → ℤ → Bool → Exec (Db F) (Unit {0})
  unfolding settle_body
  settle_inference_match tid1 tid2 buyer request tokens success = do
    refuse_when (is_empty (trim_space request)) request_id_required
    transaction (settle_body tid1 tid2 buyer request (clamp tokens) success)
