-- ===== src/Control/Billing/Outcome.antt =====
-- postgres_billing.go: what a settlement does to the database, with no statements and no faults.
use knowledge_mesh.Base.{
  if◌then◌else◌, ◌≡◌, Bool, true, not, ◌||◌, [], ◌∷◌, ◌++◌, arith, Option-cases, refl, inl, inr,
  false, some,
}
use knowledge_mesh.Base.Assoc.{get, update, get-update}
use knowledge_mesh.Base.Int.{ℤ, pos, ltb_ℤ, beq_ℤ, add64, sub64, ◌≤ℤ◌}
use knowledge_mesh.Base.Result.{◌>>=◌, ◌>>◌, Result, ok, err, refuse_if, or_fail}
use knowledge_mesh.Base.Text.{Text, text_beq_refl}
use knowledge_mesh.Control.Billing.{
  set_balance, settlement_details, match_of, mark_settled, transfer, settle_match, settle_body,
  clamp,
}
use knowledge_mesh.Control.Db.{
  Billing, buyer_party, seller_party, inference_debit, inference_credit, Transaction, Db,
  InferenceMatch,
}
use knowledge_mesh.Control.Session.{
  ◌>>=◌ as bind, StoreError, insufficient_balance, quota_exceeded, match_not_found, database,
  Session, pure, statement, refuse_when,
}
use knowledge_mesh.Control.Session.Faultless.{fresh, Faultless, faultless_rules}

abbrev pub debit_entry : Text → Text → Text → ℤ → Billing → Transaction
debit_entry tid buyer request tokens b = record {
  id = tid;
  party_kind = buyer_party;
  party_id = buyer;
  tx_type = inference_debit;
  amount = sub64 (pos 0) tokens;
  balance_after = sub64 b.wallet_balance tokens;
  details = settlement_details request tokens;
}

abbrev pub credit_entry : Text → Text → Text → ℤ → Billing → Transaction
credit_entry tid seller request tokens s = record {
  id = tid;
  party_kind = seller_party;
  party_id = seller;
  tx_type = inference_credit;
  amount = tokens;
  balance_after = add64 s.wallet_balance tokens;
  details = settlement_details request tokens;
}

module _ {F : Type 0} where
  -- The database after the tokens have moved.
  unfoldable pub moved : Text → Text → Text → Text → Text → ℤ → Billing → Billing → Db F → Db F
  moved tid1 tid2 buyer seller request tokens b s db = record db {
    buyer_billing =
        update db.buyer_billing buyer
          (set_balance (sub64 b.wallet_balance tokens) (add64 b.tokens_used tokens));
    seller_billing =
        update db.seller_billing seller
          (set_balance (add64 s.wallet_balance tokens) (add64 s.tokens_used tokens));
    transactions =
        (db.transactions ++ debit_entry tid1 buyer request tokens b ∷ [])
        ++ credit_entry tid2 seller request tokens s ∷ [];
    matches = update db.matches request (λ m. record m { settled = true });
  }

  unfoldable pub transfer_outcome :
      Text → Text → Text → Text → Text → ℤ → Db F → Result StoreError (Db F)
  transfer_outcome tid1 tid2 buyer seller request tokens db = do
    b ← or_fail (get db.buyer_billing buyer) database
    refuse_if (ltb_ℤ b.token_quota (add64 b.tokens_used tokens)) quota_exceeded
    refuse_if (ltb_ℤ b.wallet_balance tokens) insufficient_balance
    s ← or_fail (get db.seller_billing seller) database
    ok (moved tid1 tid2 buyer seller request tokens b s db)

  unfoldable pub match_outcome :
      Text → Text → Text → Text → ℤ → Bool → Db F → InferenceMatch → Result StoreError (Db F)
  unfolding transfer_outcome
  match_outcome tid1 tid2 buyer request tokens success db m =
      if m.settled
      then ok db
      else if not success || beq_ℤ tokens (pos 0)
      then ok (mark_settled request db)
      else transfer_outcome tid1 tid2 buyer m.seller_id request tokens db

  unfoldable pub settle_outcome :
      Text → Text → Text → Text → ℤ → Bool → Db F → Result StoreError (Db F)
  settle_outcome tid1 tid2 buyer request tokens success db = do
    m ← or_fail (match_of buyer request db) match_not_found
    match_outcome tid1 tid2 buyer request tokens success db m

  -- What a transfer that goes through has found.
  pub record Transfer (tid1 tid2 buyer seller request : Text) (tokens : ℤ) (db after : Db F)
      : Type 0 where
    pub b : Billing
    pub s : Billing
    pub buyer_row : get db.buyer_billing buyer ≡ some b
    pub seller_row : get db.seller_billing seller ≡ some s
    pub in_quota : ltb_ℤ b.token_quota (add64 b.tokens_used tokens) ≡ false
    pub enough : tokens ≤ℤ b.wallet_balance
    pub result : after ≡ moved tid1 tid2 buyer seller request tokens b s db

  pub transfer_outcome-ok :
      (tid1 tid2 buyer seller request : Text) (tokens : ℤ) (db after : Db F)
      → transfer_outcome tid1 tid2 buyer seller request tokens db ≡ ok after
      → Transfer tid1 tid2 buyer seller request tokens db after
  unfolding transfer_outcome
  transfer_outcome-ok tid1 tid2 buyer seller request tokens db after h =
      elim (Option-cases (get db.buyer_billing buyer)) [
        | inl e ↦ absurd (ground arith)
        | inr (b, eb) ↦ elim (Option-cases (get db.seller_billing seller)) [
          | inl e ↦ absurd (ground arith)
          | inr (s, es) ↦ record {
            b = b;
            s = s;
            buyer_row = eb;
            seller_row = es;
            in_quota = ground arith;
            enough = ground arith;
            result = ground arith;
          }
        ]
      ]

  pub transfer_outcome_pays :
      (tid1 tid2 buyer seller request : Text) (tokens : ℤ) (b s : Billing) (db : Db F)
      → get db.buyer_billing buyer ≡ some b
      → get db.seller_billing seller ≡ some s
      → add64 b.tokens_used tokens ≤ℤ b.token_quota
      → tokens ≤ℤ b.wallet_balance
      → transfer_outcome tid1 tid2 buyer seller request tokens db
        ≡ ok (moved tid1 tid2 buyer seller request tokens b s db)
  unfolding transfer_outcome
  transfer_outcome_pays tid1 tid2 buyer seller request tokens b s db eb es quota enough =
      ground arith

  -- The rows of the two parties after the tokens have moved.
  pub moved-rows :
      (tid1 tid2 buyer seller request : Text) (tokens : ℤ) (b s : Billing) (db : Db F)
      → get db.buyer_billing buyer ≡ some b
      → get db.seller_billing seller ≡ some s
      → let after = moved tid1 tid2 buyer seller request tokens b s db in
        (get after.buyer_billing buyer
          ≡ some (set_balance (sub64 b.wallet_balance tokens) (add64 b.tokens_used tokens) b))
        × (get after.seller_billing seller
            ≡ some (set_balance (add64 s.wallet_balance tokens) (add64 s.tokens_used tokens) s))
  unfolding moved
  moved-rows tid1 tid2 buyer seller request tokens b s db eb es =
      (simp (get-update, text_beq_refl, eb), simp (get-update, text_beq_refl, es))

  -- A faultless run with that outcome: an error comes before any write.
  abbrev pub run_of :
      Db F → Result StoreError (Db F) → Result StoreError (Unit {0}) × Session (Db F)
  run_of db (ok db') = (ok tt, fresh db')
  run_of db (err e) = (err e, fresh db)

  transfer-run :
      (tid1 tid2 buyer seller request : Text) (tokens : ℤ) (db : Db F)
      → transfer tid1 tid2 buyer seller request tokens (fresh db)
        ≡ run_of db (transfer_outcome tid1 tid2 buyer seller request tokens db)
  unfolding transfer transfer_outcome statement bind refuse_when moved
  transfer-run tid1 tid2 buyer seller request tokens db = ground arith

  pub settle_match-run :
      (tid1 tid2 buyer request : Text) (tokens : ℤ) (success : Bool) (db : Db F)
      (m : InferenceMatch)
      → settle_match tid1 tid2 buyer request tokens success m (fresh db)
        ≡ run_of db (match_outcome tid1 tid2 buyer request tokens success db m)
  unfolding settle_match match_outcome statement pure
  settle_match-run tid1 tid2 buyer request tokens success db m =
      ground (arith, transfer-run tid1 tid2 buyer m.seller_id request tokens db)

  -- Run with no fault, the body of SettleInferenceMatch has the outcome.
  pub settle_body-run :
      (tid1 tid2 buyer request : Text) (tokens : ℤ) (success : Bool) (db : Db F)
      → settle_body tid1 tid2 buyer request tokens success (fresh db)
        ≡ run_of db (settle_outcome tid1 tid2 buyer request tokens success db)
  unfolding settle_body settle_outcome statement bind
  settle_body-run tid1 tid2 buyer request tokens success db =
      elim (Option-cases (match_of buyer request db)) [
        | inl e ↦ rw (e, settle_body, settle_outcome) refl
        | inr (m, e) ↦
            rw (e, settle_body, settle_outcome)
              (settle_match-run tid1 tid2 buyer request tokens success db m)
      ]

  pub settle_body-Faultless :
      (tid1 tid2 buyer request : Text) (tokens : ℤ) (success : Bool)
      → Faultless (settle_body {F = F} tid1 tid2 buyer request tokens success)
  unfolding settle_body
  settle_body-Faultless tid1 tid2 buyer request tokens success = search faultless_rules depth 14

  -- The outcome is the database `after`.
  abbrev pub Settles : Text → Text → Text → Text → ℤ → Bool → Db F → Db F → Type 0
  Settles tid1 tid2 buyer request tokens success before after =
      settle_outcome tid1 tid2 buyer request (clamp tokens) success before ≡ ok after
