-- ===== src/Control/Billing/Payment.antt =====
-- postgres_billing.go: what a settlement that goes through changes, and what it leaves alone.
use knowledge_mesh.Base.{
  if◌then◌else◌, Bool-cases, ◌≡◌, refl, ◌≢◌, inl, inr, Bool, some, [], ◌∷◌, ◌++◌, arith, sym, true,
  false,
}
use knowledge_mesh.Base.Assoc.{Assoc, get, update, get-update}
use knowledge_mesh.Base.Int.{ℤ, pos, ◌+ℤ◌, ◌-ℤ◌, ◌≤ℤ◌, add64, int_laws, sub64}
use knowledge_mesh.Base.Result.{Result, ok, err}
use knowledge_mesh.Base.Text.{Text, text_beq_iff, trim_space, is_empty}
use knowledge_mesh.Control.Billing.{set_balance, clamp, settle_inference_match, match_of}
use knowledge_mesh.Control.Billing.Atomic.{settle_either}
use knowledge_mesh.Control.Billing.Funds.{IsSound, exact_amounts}
use knowledge_mesh.Control.Billing.Outcome.{
  debit_entry, credit_entry, moved, settle_outcome, Transfer, run_of, settle_body-run,
  transfer_outcome, match_outcome, transfer_outcome-ok, moved-rows,
}
use knowledge_mesh.Control.Db.{Billing, Db, InferenceMatch}
use knowledge_mesh.Control.Session.{
  ◌>>=◌, StoreError, request_id_required, statement, refuse_when, commit_with, finish,
  in_transaction, transaction, Session,
}
use knowledge_mesh.Control.Session.Faultless.{fresh}
use mathlib.Core.Path.{subst}

update_other :
    (m : Assoc Billing) (k j : Text) (change : Billing → Billing)
    → k ≢ j
    → get (update m k change) j ≡ get m j
update_other m k j change ne = ground (arith, get-update m k change j, text_beq_iff k j)

module _ {F : Type 0} where
  -- With no fault, the call reports what the outcome is: it refuses a blank request id, and an error
  -- leaves the database as it was.
  pub settle-run :
      (tid1 tid2 buyer request : Text) (tokens : ℤ) (success : Bool) (db : Db F)
      → settle_inference_match tid1 tid2 buyer request tokens success (fresh db) ≡ (
          if is_empty (trim_space request)
          then (err request_id_required, fresh db)
          else run_of db (settle_outcome tid1 tid2 buyer request (clamp tokens) success db))
  unfolding settle_inference_match ◌>>=◌ refuse_when transaction in_transaction finish statement
      commit_with
  settle-run tid1 tid2 buyer request tokens success db =
      elim (Bool-cases (is_empty (trim_space request))) [
        | inl e ↦ rw (e, settle_inference_match)
        | inr e ↦
            rw
              (
                e,
                settle_inference_match,
                settle_body-run tid1 tid2 buyer request (clamp tokens) success db,
              )
              (finish_run (settle_outcome tid1 tid2 buyer request (clamp tokens) success db))
      ]
    where
      finish_run :
          (r : Result StoreError (Db F)) → finish db (run_of db r).0 (run_of db r).1 ≡ run_of db r
      finish_run (ok after) = refl
      finish_run (err e) = refl

  -- A paid settlement as the two accounts and the ledger show it.
  pub record Paid (tid1 tid2 buyer seller request : Text) (tokens : ℤ) (before after : Db F)
      : Type 0 where
    pub b : Billing
    pub s : Billing
    pub buyer_before : get before.buyer_billing buyer ≡ some b
    pub seller_before : get before.seller_billing seller ≡ some s
    pub buyer_after :
        get after.buyer_billing buyer
        ≡ some (set_balance (b.wallet_balance -ℤ tokens) (add64 b.tokens_used tokens) b)
    pub seller_after :
        get after.seller_billing seller
        ≡ some (set_balance (s.wallet_balance +ℤ tokens) (add64 s.tokens_used tokens) s)
    pub other_buyers :
        (j : Text) → buyer ≢ j → get after.buyer_billing j ≡ get before.buyer_billing j
    pub other_sellers :
        (j : Text) → seller ≢ j → get after.seller_billing j ≡ get before.seller_billing j
    pub ledger :
        after.transactions
        ≡ (before.transactions ++ debit_entry tid1 buyer request tokens b ∷ [])
          ++ credit_entry tid2 seller request tokens s ∷ []

  Transfer-Paid :
      (tid1 tid2 buyer seller request : Text) (tokens : ℤ) (db after : Db F)
      → IsSound db
      → pos 1 ≤ℤ tokens
      → Transfer tid1 tid2 buyer seller request tokens db after
      → Paid tid1 tid2 buyer seller request tokens db after
  unfolding moved
  Transfer-Paid tid1 tid2 buyer seller request tokens db after sound low t =
      subst (Paid tid1 tid2 buyer seller request tokens db) (sym t.result) (record {
        b = t.b;
        s = t.s;
        buyer_before = t.buyer_row;
        seller_before = t.seller_row;
        buyer_after = rw (← exact.0) rows.0;
        seller_after = rw (← exact.1) rows.1;
        other_buyers = λ j ne. update_other db.buyer_billing buyer j _ ne;
        other_sellers = λ j ne. update_other db.seller_billing seller j _ ne;
        ledger = refl;
      })
    where
      exact :
          (sub64 t.b.wallet_balance tokens ≡ t.b.wallet_balance -ℤ tokens)
          × (add64 t.s.wallet_balance tokens ≡ t.s.wallet_balance +ℤ tokens)
      exact =
          exact_amounts buyer seller tokens t.b t.s db sound (omega (int_laws, low)) t.buyer_row
            t.seller_row t.enough

      rows :
          (get (moved tid1 tid2 buyer seller request tokens t.b t.s db).buyer_billing buyer
            ≡ some
                (set_balance (sub64 t.b.wallet_balance tokens) (add64 t.b.tokens_used tokens) t.b))
          × (get (moved tid1 tid2 buyer seller request tokens t.b t.s db).seller_billing seller
              ≡ some (
                  set_balance (add64 t.s.wallet_balance tokens) (add64 t.s.tokens_used tokens) t.s))
      rows = moved-rows tid1 tid2 buyer seller request tokens t.b t.s db t.buyer_row t.seller_row

  -- From a sound database, a call that reports success for an open match, a positive count and a
  -- successful inference has paid: the buyer's wallet has lost the tokens and the seller's has gained
  -- them, both have them counted as used, no other account has changed, and the ledger has the debit
  -- and the credit as its last entries.
  pub settle_pays :
      (tid1 tid2 buyer request : Text) (tokens : ℤ) (s : Session (Db F)) (m : InferenceMatch)
      → IsSound s.db
      → match_of buyer request s.db ≡ some m
      → m.settled ≡ false
      → pos 1 ≤ℤ tokens
      → (settle_inference_match tid1 tid2 buyer request tokens true s).0 ≡ ok tt
      → Paid tid1 tid2 buyer m.seller_id request tokens s.db
          (settle_inference_match tid1 tid2 buyer request tokens true s).1.db
  unfolding settle_outcome match_outcome
  settle_pays tid1 tid2 buyer request tokens s m sound found fresh_match low h =
      Transfer-Paid tid1 tid2 buyer m.seller_id request tokens s.db after sound low (
        transfer_outcome-ok tid1 tid2 buyer m.seller_id request tokens s.db after
          (unclamped (rw found at (settle_either tid1 tid2 buyer request tokens true s).1 h)))
    where
      after : Db F
      after = (settle_inference_match tid1 tid2 buyer request tokens true s).1.db

      unclamped :
          match_outcome tid1 tid2 buyer request (clamp tokens) true s.db m ≡ ok after
          → transfer_outcome tid1 tid2 buyer m.seller_id request tokens s.db ≡ ok after
      unclamped e = ground arith
