-- ===== src/Control/Billing/Atomic.antt =====
-- postgres_billing.go: SettleInferenceMatch under faults.
use knowledge_mesh.Base.{Bool-cases, ◌≡◌, refl, sym, ap, ◌∙◌, ◌⊎◌, inl, inr, Bool}
use knowledge_mesh.Base.Int.{ℤ}
use knowledge_mesh.Base.Result.{Result, ok, err}
use knowledge_mesh.Base.Text.{Text, trim_space, is_empty}
use knowledge_mesh.Control.Billing.{clamp, settle_body, settle_inference_match}
use knowledge_mesh.Control.Billing.Outcome.{
  settle_outcome, run_of, settle_body-run, settle_body-Faultless, Settles,
}
use knowledge_mesh.Control.Db.{Db}
use knowledge_mesh.Control.Session.{StoreError, Session, refuse_when, transaction, ◌>>=◌}
use knowledge_mesh.Control.Session.Faultless.{fresh, calm, IsAtomic, transaction-IsAtomic}

module _ {F : Type 0} where
  ok_run :
      (db after : Db F) (s' : Session (Db F)) (r : Result StoreError (Db F))
      → run_of db r ≡ (ok tt, fresh s'.db)
      → after ≡ s'.db
      → r ≡ ok after
  ok_run db after s' (ok db') e same =
      ap ok (ap (λ (t : Result StoreError (Unit {0}) × Session (Db F)). t.1.db) e ∙ sym same)
  ok_run db after s' (err x) e same = cc

  -- What may be seen after a call that found `before`.
  abbrev pub SettlesOrKeeps :
      Text
      → Text
      → Text
      → Text
      → ℤ
      → Bool
      → Db F
      → Result StoreError (Unit {0}) × Session (Db F)
      → Type 0
  SettlesOrKeeps tid1 tid2 buyer request tokens success before r =
      ((r.1.db ≡ before) ⊎ Settles tid1 tid2 buyer request tokens success before r.1.db)
      × (r.0 ≡ ok tt → Settles tid1 tid2 buyer request tokens success before r.1.db)

  module _ (tid1 tid2 buyer request : Text) (tokens : ℤ) (success : Bool) where
    Settles-of_run :
        (db after : Db F) (s' : Session (Db F)) (u : Unit {0})
        → settle_body tid1 tid2 buyer request (clamp tokens) success (fresh db) ≡ (ok u, calm s')
        → after ≡ s'.db
        → Settles tid1 tid2 buyer request tokens success db after
    Settles-of_run db after s' u e same =
        ok_run db after s' (settle_outcome tid1 tid2 buyer request (clamp tokens) success db)
          (sym (settle_body-run tid1 tid2 buyer request (clamp tokens) success db) ∙ e) same

    settles_of_atomic :
        (before : Db F) (r : Result StoreError (Unit {0}) × Session (Db F))
        → IsAtomic (settle_body tid1 tid2 buyer request (clamp tokens) success) before r
        → SettlesOrKeeps tid1 tid2 buyer request tokens success before r
    settles_of_atomic before r a = (kept_or_done a.all_or_nothing, reported)
      where
        kept_or_done :
            (r.1.db ≡ before)
              ⊎ ((u : Unit {0}) × (s' : Session (Db F)) × (settle_body tid1 tid2 buyer request
                      (clamp tokens)
                      success
                      (fresh before)
                    ≡ (ok u, calm s'))
                  × (r.1.db ≡ s'.db))
            → (r.1.db ≡ before) ⊎ Settles tid1 tid2 buyer request tokens success before r.1.db
        kept_or_done (inl e) = inl e
        kept_or_done (inr (u, s', e, same)) = inr (Settles-of_run before r.1.db s' u e same)

        reported : r.0 ≡ ok tt → Settles tid1 tid2 buyer request tokens success before r.1.db
        reported h =
            let (s', e, same) = a.reported tt h in Settles-of_run before r.1.db s' tt e same

    pub settle_either :
        (s : Session (Db F))
        → SettlesOrKeeps tid1 tid2 buyer request tokens success s.db
            (settle_inference_match tid1 tid2 buyer request tokens success s)
    unfolding settle_inference_match ◌>>=◌ refuse_when
    settle_either s = elim (Bool-cases (is_empty (trim_space request))) [
      | inl e ↦ rw (e, settle_inference_match) (inl refl, λ h. cc)
      | inr e ↦
          rw (e, settle_inference_match)
            (settles_of_atomic s.db
              (transaction (settle_body tid1 tid2 buyer request (clamp tokens) success) s)
              (transaction-IsAtomic (settle_body tid1 tid2 buyer request (clamp tokens) success)
                (settle_body-Faultless tid1 tid2 buyer request (clamp tokens) success) s))
    ]

    -- The settlement has taken effect, or the database is as it was and no success is reported.
    pub data SettlesOrFails (before : Db F) (r : Result StoreError (Unit {0}) × Session (Db F))
        : Type 0 where
      took_effect :
          Settles tid1 tid2 buyer request tokens success before r.1.db → SettlesOrFails before r
      left_alone : {e : StoreError} → r.0 ≡ err e → r.1.db ≡ before → SettlesOrFails before r

    settles_or_fails :
        (before : Db F) (r : Result StoreError (Unit {0}) × Session (Db F))
        → SettlesOrKeeps tid1 tid2 buyer request tokens success before r
        → SettlesOrFails before r
    settles_or_fails before (ok u, s) (either, reported) = took_effect (reported refl)
    settles_or_fails before (err e, s) (inl kept, reported) = left_alone refl kept
    settles_or_fails before (err e, s) (inr done, reported) = took_effect done

    -- Whatever statements fail, and whatever replies are lost: after a call of SettleInferenceMatch the
    -- whole settlement has taken effect, or the database is as it was and the call reports an error.
    pub settle-atomic :
        (s : Session (Db F))
        → SettlesOrFails s.db (settle_inference_match tid1 tid2 buyer request tokens success s)
    settle-atomic s =
        settles_or_fails s.db (settle_inference_match tid1 tid2 buyer request tokens success s)
          (settle_either s)
