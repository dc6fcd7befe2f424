-- ===== src/Control/Frames/Settlement.antt =====
-- postgres_billing.go: what SettleInferenceMatch keeps of the database, for any relation that its outcomes
-- stand in.
use knowledge_mesh.Base.{Bool-cases, Option-cases, ◌≡◌, sym, inl, inr, Bool, not, ◌||◌, arith}
use knowledge_mesh.Base.Int.{ℤ, pos, beq_ℤ}
use knowledge_mesh.Base.Result.{ok}
use knowledge_mesh.Base.Text.{Text}
use knowledge_mesh.Control.Billing.{clamp, match_of, mark_settled, settle_inference_match}
use knowledge_mesh.Control.Billing.Atomic.{settle_either}
use knowledge_mesh.Control.Billing.Outcome.{
  moved, match_outcome, settle_outcome, Transfer, transfer_outcome-ok, Settles,
}
use knowledge_mesh.Control.Db.{Billing, InferenceMatch, Db}
use knowledge_mesh.Control.Session.Frame.{Keeps, IsPreorder}
use mathlib.Core.Path.{subst}

module _ {F : Type 0} (P : Db F → Db F → Type 0) ⦃order : IsPreorder P⦄
    (tid1 tid2 buyer request : Text) where
  match_outcome-kept :
      (tokens : ℤ) (success : Bool) (db after : Db F) (m : InferenceMatch)
      → P db (mark_settled request db)
      → ((b s : Billing) → P db (moved tid1 tid2 buyer m.seller_id request tokens b s db))
      → match_outcome tid1 tid2 buyer request tokens success db m ≡ ok after
      → P db after
  unfolding match_outcome
  match_outcome-kept tokens success db after m marked paid h = elim (Bool-cases m.settled) [
    | inl e ↦ subst (P db) (ground arith) (order.same db)
    | inr e ↦ elim (Bool-cases (not success || beq_ℤ tokens (pos 0))) [
      | inl free ↦ subst (P db) (ground arith) marked
      | inr owed ↦
          let t : Transfer tid1 tid2 buyer m.seller_id request tokens db after =
            transfer_outcome-ok tid1 tid2 buyer m.seller_id request tokens db after
              (ground arith) in
          subst (P db) (sym t.result) (paid t.b t.s)
    ]
  ]

  settles-kept :
      (tokens : ℤ) (success : Bool) (db after : Db F)
      → P db (mark_settled request db)
      → ((seller : Text) (t : ℤ) (b s : Billing)
          → P db (moved tid1 tid2 buyer seller request t b s db))
      → Settles tid1 tid2 buyer request tokens success db after
      → P db after
  unfolding settle_outcome
  settles-kept tokens success db after marked paid h =
      elim (Option-cases (match_of buyer request db)) [
        | inl e ↦ absurd (cc (e, h))
        | inr (m, e) ↦
            match_outcome-kept (clamp tokens) success db after m marked
              (paid m.seller_id (clamp tokens)) (rw e at h)
      ]

  pub settle-Keeps :
      (tokens : ℤ) (success : Bool)
      → ((db : Db F) → P db (mark_settled request db))
      → ((db : Db F) (seller : Text) (t : ℤ) (b s : Billing)
          → P db (moved tid1 tid2 buyer seller request t b s db))
      → Keeps P (settle_inference_match tid1 tid2 buyer request tokens success)
  settle-Keeps tokens success marked paid = record {
    kept = λ s. elim (settle_either tid1 tid2 buyer request tokens success s).0 [
      | inl same ↦ subst (P s.db) (sym same) (order.same s.db)
      | inr done ↦ settles-kept tokens success s.db _ (marked s.db) (paid s.db) done
    ];
  }
