-- ===== src/Control/Billing/Once.antt =====
-- postgres_billing.go: a second settlement of a request.
use knowledge_mesh.Base.{
  Bool-cases, Option-cases, ◌≡◌, refl, ap, inl, inr, Bool, true, not, ◌||◌, some, List, arith, sym,
  ◌∙◌,
}
use knowledge_mesh.Base.Assoc.{update, get-update}
use knowledge_mesh.Base.Int.{ℤ, pos, beq_ℤ}
use knowledge_mesh.Base.Result.{ok, ok_injective}
use knowledge_mesh.Base.Text.{Text, text_beq_refl}
use knowledge_mesh.Control.Billing.{clamp, match_of, settle_inference_match}
use knowledge_mesh.Control.Billing.Atomic.{settle_either}
use knowledge_mesh.Control.Billing.Outcome.{
  moved, match_outcome, settle_outcome, Transfer, transfer_outcome-ok, Settles,
}
use knowledge_mesh.Control.Db.{InferenceMatch, Db}
use knowledge_mesh.Control.Session.{Fault, Session}

module _ {F : Type 0} where
  -- The match of the buyer's request is on record as settled.
  abbrev pub HasSettled : Text → Text → Db F → Type 0
  HasSettled buyer request db =
      (m : InferenceMatch) × (match_of buyer request db ≡ some m) × (m.settled ≡ true)

  update_match :
      (buyer request : Text) (db after : Db F) (m : InferenceMatch)
      → match_of buyer request db ≡ some m
      → after.matches ≡ update db.matches request (λ n. record n { settled = true })
      → HasSettled buyer request after
  update_match buyer request db after m h e = (
    record m { settled = true },
    ground (
      arith,
      get-update db.matches request (λ (n : InferenceMatch). record n { settled = true }) request,
      text_beq_refl request,
    ),
    refl,
  )

  match_outcome-HasSettled :
      (tid1 tid2 buyer request : Text) (tokens : ℤ) (success : Bool) (db after : Db F)
      (m : InferenceMatch)
      → match_of buyer request db ≡ some m
      → match_outcome tid1 tid2 buyer request tokens success db m ≡ ok after
      → HasSettled buyer request after
  unfolding match_outcome moved
  match_outcome-HasSettled tid1 tid2 buyer request tokens success db after m found h =
      elim (Bool-cases m.settled) [
        | inl e ↦ (m, ground arith, e)
        | inr e ↦ elim (Bool-cases (not success || beq_ℤ tokens (pos 0))) [
          | inl free ↦ update_match buyer request db after m found (ground arith)
          | inr paid ↦
              let t : Transfer tid1 tid2 buyer m.seller_id request tokens db after =
                transfer_outcome-ok tid1 tid2 buyer m.seller_id request tokens db after
                  (ground arith) in
              update_match buyer request db after m found (ap (λ (d : Db F). d.matches) t.result)
        ]
      ]

  -- What follows a settlement has the outcome to change nothing.
  settled_outcome :
      (tid1 tid2 buyer request : Text) (tokens : ℤ) (success : Bool) (db : Db F)
      → HasSettled buyer request db
      → settle_outcome tid1 tid2 buyer request tokens success db ≡ ok db
  unfolding settle_outcome match_outcome
  settled_outcome tid1 tid2 buyer request tokens success db (m, found, done) = rw (found, done)

  Settles-HasSettled :
      (tid1 tid2 buyer request : Text) (tokens : ℤ) (success : Bool) (db after : Db F)
      → Settles tid1 tid2 buyer request tokens success db after
      → HasSettled buyer request after
  unfolding settle_outcome
  Settles-HasSettled tid1 tid2 buyer request tokens success db after h =
      elim (Option-cases (match_of buyer request db)) [
        | inl e ↦ absurd (cc (e, h))
        | inr (m, e) ↦
            match_outcome-HasSettled tid1 tid2 buyer request (clamp tokens) success db after m e
              (rw e at h)
      ]

  settle_kept :
      (tid1 tid2 buyer request : Text) (tokens : ℤ) (success : Bool) (s : Session (Db F))
      → HasSettled buyer request s.db
      → (settle_inference_match tid1 tid2 buyer request tokens success s).1.db ≡ s.db
  settle_kept tid1 tid2 buyer request tokens success s done =
      elim (settle_either tid1 tid2 buyer request tokens success s).0 [
        | inl kept ↦ kept
        | inr settles ↦ sym (
            ok_injective (
              sym (settled_outcome tid1 tid2 buyer request (clamp tokens) success s.db done)
              ∙ settles))
      ]

  -- Once a call has reported success, the match is on record as settled, and any later call for the
  -- same buyer and request leaves the database as it is, whatever token count and success it is given
  -- and whatever faults it meets.
  pub settle_again :
      (tid1 tid2 tid3 tid4 buyer request : Text) (tokens later : ℤ) (success success' : Bool)
      (s : Session (Db F)) (plan : List Fault)
      → (settle_inference_match tid1 tid2 buyer request tokens success s).0 ≡ ok tt
      → let db = (settle_inference_match tid1 tid2 buyer request tokens success s).1.db in
        HasSettled buyer request db
        × ((settle_inference_match tid3 tid4 buyer request later success'
              (record { db = db; plan = plan })).1.db
            ≡ db)
  settle_again tid1 tid2 tid3 tid4 buyer request tokens later success success' s plan h = (
    done,
    settle_kept tid3 tid4 buyer request later success' (record { db = db; plan = plan }) done,
  )
    where
      db : Db F
      db = (settle_inference_match tid1 tid2 buyer request tokens success s).1.db

      done : HasSettled buyer request db
      done =
          Settles-HasSettled tid1 tid2 buyer request tokens success s.db db
            ((settle_either tid1 tid2 buyer request tokens success s).1 h)
