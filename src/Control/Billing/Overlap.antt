-- ===== src/Control/Billing/Overlap.antt =====
-- postgres_billing.go: two calls of SettleInferenceMatch that overlap. The SELECT of the match takes no lock, so under READ
-- COMMITTED, the server's default, both may read it before either has committed.
use knowledge_mesh.Base.{◌≡◌, true, false, some, ap, ◌∙◌, arith, refl, Option}
use knowledge_mesh.Base.Assoc.{get}
use knowledge_mesh.Base.Int.{
  ℤ, pos, ◌+ℤ◌, ◌≤ℤ◌, max64, add64, ◌-ℤ◌, int_laws, sub64, add64_exact, sub64_exact,
  Fits64-of_nonneg, eq_of_parts,
}
use knowledge_mesh.Base.Result.{ok, Result}
use knowledge_mesh.Base.Text.{Text}
use knowledge_mesh.Control.Billing.{select_row, match_of, settle_match, set_balance}
use knowledge_mesh.Control.Billing.Outcome.{
  moved, transfer_outcome, match_outcome, transfer_outcome_pays, run_of, settle_match-run,
  moved-rows,
}
use knowledge_mesh.Control.Db.{Billing, InferenceMatch, Db}
use knowledge_mesh.Control.Session.{
  ◌>>=◌, ◌>>◌, match_not_found, Exec, in_transaction, StoreError, Session, commit_with, finish,
  statement, bind_ok,
}
use knowledge_mesh.Control.Session.Faultless.{fresh}

module _ {F : Type 0} where
  -- Both calls read the match; then the first runs to its COMMIT, while the second waits for the lock
  -- on the wallet of the buyer; then the second goes on.
  unfoldable pub overlapping_settlements :
      Text → Text → Text → Text → Text → Text → ℤ → Exec (Db F) (Unit {0})
  unfolding settle_match in_transaction
  overlapping_settlements tid1 tid2 tid3 tid4 buyer request tokens = do
    first ← select_row match_not_found (match_of buyer request)
    second ← select_row match_not_found (match_of buyer request)
    in_transaction (settle_match tid1 tid2 buyer request tokens true first)
    in_transaction (settle_match tid3 tid4 buyer request tokens true second)

  -- The match is open, and the buyer can pay for it twice.
  pub record CanPayTwice (buyer request : Text) (tokens : ℤ) (db : Db F) : Type 0 where
    pub row : InferenceMatch
    pub b : Billing
    pub s : Billing
    pub found : match_of buyer request db ≡ some row
    pub open_match : row.settled ≡ false
    pub buyer_row : get db.buyer_billing buyer ≡ some b
    pub seller_row : get db.seller_billing row.seller_id ≡ some s
    pub positive : pos 1 ≤ℤ tokens
    pub wallet : tokens +ℤ tokens ≤ℤ b.wallet_balance
    pub wallet_fits : b.wallet_balance ≤ℤ pos max64
    pub used : pos 0 ≤ℤ b.tokens_used
    pub quota : b.tokens_used +ℤ tokens +ℤ tokens ≤ℤ b.token_quota
    pub quota_fits : b.token_quota ≤ℤ pos max64

  select_found :
      {A : Type 0} (e : StoreError) (look : Db F → Option A) (db : Db F) {a : A}
      → look db ≡ some a
      → select_row e look (fresh db) ≡ (ok a, fresh db)
  unfolding statement
  select_found e look db h = rw h

  one_settlement :
      (tid1 tid2 buyer request : Text) (tokens : ℤ) (m : InferenceMatch) (b s : Billing) (db : Db F)
      → m.settled ≡ false
      → pos 1 ≤ℤ tokens
      → get db.buyer_billing buyer ≡ some b
      → get db.seller_billing m.seller_id ≡ some s
      → add64 b.tokens_used tokens ≤ℤ b.token_quota
      → tokens ≤ℤ b.wallet_balance
      → in_transaction (settle_match tid1 tid2 buyer request tokens true m) (fresh db)
        ≡ (ok tt, fresh (moved tid1 tid2 buyer m.seller_id request tokens b s db))
  unfolding in_transaction finish commit_with match_outcome
  one_settlement tid1 tid2 buyer request tokens m b s db fresh_match low eb es quota enough =
      ap (λ (r : Result StoreError (Unit {0}) × Session (Db F)). finish db r.0 r.1)
        (settle_match-run tid1 tid2 buyer request tokens true db m
          ∙ ap (run_of db) (
              pays (
                transfer_outcome_pays tid1 tid2 buyer m.seller_id request tokens b s db eb es quota
                  enough)))
    where
      pays :
          {r : Result StoreError (Db F)}
          → transfer_outcome tid1 tid2 buyer m.seller_id request tokens db ≡ r
          → match_outcome tid1 tid2 buyer request tokens true db m ≡ r
      pays e = ground arith

  module _ (buyer request : Text) (tokens : ℤ) (db : Db F)
      (can : CanPayTwice buyer request tokens db) where
    open can use {row, b, s}

    -- The rows of the buyer and of the seller after the first settlement.
    paid_row : Billing
    paid_row = set_balance (sub64 b.wallet_balance tokens) (add64 b.tokens_used tokens) b

    earned_row : Billing
    earned_row = set_balance (add64 s.wallet_balance tokens) (add64 s.tokens_used tokens) s

    used_once : add64 b.tokens_used tokens ≡ b.tokens_used +ℤ tokens
    used_once = add64_exact b.tokens_used tokens (
        Fits64-of_nonneg (b.tokens_used +ℤ tokens) (omega (int_laws, can.used, can.positive))
          (omega (int_laws, can.quota, can.quota_fits, can.positive)))

    used_twice : add64 (b.tokens_used +ℤ tokens) tokens ≡ b.tokens_used +ℤ tokens +ℤ tokens
    used_twice = add64_exact (b.tokens_used +ℤ tokens) tokens (
        Fits64-of_nonneg (b.tokens_used +ℤ tokens +ℤ tokens)
          (omega (int_laws, can.used, can.positive)) (omega (int_laws, can.quota, can.quota_fits)))

    left_once : sub64 b.wallet_balance tokens ≡ b.wallet_balance -ℤ tokens
    left_once = sub64_exact b.wallet_balance tokens (
        Fits64-of_nonneg (b.wallet_balance -ℤ tokens) (omega (int_laws, can.wallet, can.positive))
          (omega (int_laws, can.wallet_fits, can.positive)))

    left_twice : sub64 (b.wallet_balance -ℤ tokens) tokens ≡ b.wallet_balance -ℤ tokens -ℤ tokens
    left_twice = sub64_exact (b.wallet_balance -ℤ tokens) tokens (
        Fits64-of_nonneg (b.wallet_balance -ℤ tokens -ℤ tokens)
          (omega (int_laws, can.wallet, can.positive))
          (omega (int_laws, can.wallet_fits, can.positive)))

    module _ (tid1 tid2 tid3 tid4 : Text) where
      after_first : Db F
      after_first = moved tid1 tid2 buyer row.seller_id request tokens b s db

      after_second : Db F
      after_second =
          moved tid3 tid4 buyer row.seller_id request tokens paid_row earned_row after_first

      first_settlement :
          in_transaction (settle_match tid1 tid2 buyer request tokens true row) (fresh db)
          ≡ (ok tt, fresh after_first)
      unfolding after_first
      first_settlement =
          one_settlement tid1 tid2 buyer request tokens row b s db can.open_match can.positive
            can.buyer_row can.seller_row (rw used_once (omega (int_laws, can.quota, can.positive)))
            (omega (int_laws, can.wallet, can.positive))

      rows_after_first :
          (get after_first.buyer_billing buyer ≡ some paid_row)
          × (get after_first.seller_billing row.seller_id ≡ some earned_row)
      unfolding after_first paid_row earned_row
      rows_after_first =
          moved-rows tid1 tid2 buyer row.seller_id request tokens b s db can.buyer_row
            can.seller_row

      second_settlement :
          in_transaction (settle_match tid3 tid4 buyer request tokens true row) (fresh after_first)
          ≡ (ok tt, fresh after_second)
      unfolding after_first after_second paid_row earned_row
      second_settlement =
          one_settlement tid3 tid4 buyer request tokens row paid_row earned_row after_first
            can.open_match can.positive rows_after_first.0 rows_after_first.1
            (rw (used_once, used_twice) can.quota)
            (rw left_once (omega (int_laws, can.wallet, can.positive)))

      overlapping_run :
          overlapping_settlements tid1 tid2 tid3 tid4 buyer request tokens (fresh db)
          ≡ (ok tt, fresh after_second)
      unfolding overlapping_settlements
      overlapping_run =
          bind_ok _ _ reads ∙ bind_ok _ _ reads ∙ bind_ok _ _ first_settlement ∙ second_settlement
        where
          reads :
              select_row match_not_found (match_of buyer request) (fresh db) ≡ (ok row, fresh db)
          reads = select_found match_not_found (match_of buyer request) db can.found

      -- Whenever the buyer could pay twice, overlapping calls for one request succeed and take the
      -- tokens from the buyer's wallet twice.
      pub overlap_pays_twice :
          let r = overlapping_settlements tid1 tid2 tid3 tid4 buyer request tokens (fresh db) in
          (r.0 ≡ ok tt)
          × (b' : Billing) × (get r.1.db.buyer_billing buyer ≡ some b')
          × (b'.wallet_balance +ℤ tokens +ℤ tokens ≡ b.wallet_balance)
      unfolding paid_row after_second
      overlap_pays_twice = rw overlapping_run (
        refl,
        set_balance (sub64 paid_row.wallet_balance tokens) (add64 paid_row.tokens_used tokens)
            paid_row,
        (moved-rows tid3 tid4 buyer row.seller_id request tokens paid_row earned_row after_first
            rows_after_first.0 rows_after_first.1).0,
        rw (left_once, left_twice)
            (eq_of_parts (b.wallet_balance -ℤ tokens -ℤ tokens +ℤ tokens +ℤ tokens) b.wallet_balance
              (omega int_laws)),
      )
