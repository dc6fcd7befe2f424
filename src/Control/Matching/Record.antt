-- ===== src/Control/Matching/Record.antt =====
-- postgres_billing.go: InsertInferenceMatch under faults.
use knowledge_mesh.Base.{Bool-cases, ◌≡◌, inl, inr, false, none, List, [], ◌∷◌, Option-cases, ◌&&◌}
use knowledge_mesh.Base.Assoc.{get, put}
use knowledge_mesh.Base.Int.{ℤ}
use knowledge_mesh.Base.Result.{Result, err}
use knowledge_mesh.Base.Text.{Text, trim_space, is_empty}
use knowledge_mesh.Control.Db.{InferenceMatch, Db}
use knowledge_mesh.Control.Matching.{
  insert_match_row, insert_inference_match, fits_int4, known_parties,
}
use knowledge_mesh.Control.Session.{
  ◌>>=◌, StoreError, Fault, works, fails, lost, Session, statement_with, statement, refuse_when,
  database,
}

abbrev pub new_match : Text → Text → Text → ℤ → InferenceMatch
new_match buyer seller peer estimated = record {
  buyer_id = buyer;
  seller_id = seller;
  seller_peer_id = peer;
  estimated_tokens = estimated;
  settled = false;
}

module _ {F : Type 0} where
  -- The database with one more match.
  abbrev pub with_match : Text → InferenceMatch → Db F → Db F
  with_match request row db = record db { matches = put db.matches request row }

  -- The database is as it was and no success is reported, or it has a match more, under a request id
  -- that had none.
  pub data IsRecorded (request : Text) (row : InferenceMatch) (before : Db F)
      : Result StoreError (Unit {0}) → Db F → Type 0 where
    not_recorded : {e : StoreError} → IsRecorded request row before (err e) before
    recorded :
        {r : Result StoreError (Unit {0})}
        → get before.matches request ≡ none
        → IsRecorded request row before r (with_match request row before)

  row-IsRecorded :
      (request : Text) (row : InferenceMatch) (db : Db F)
      → IsRecorded request row db
          (insert_match_row request row db).0
          (insert_match_row request row db).1
  unfolding insert_match_row
  row-IsRecorded request row db = elim (Option-cases (get db.matches request)) [
    | inr (m, there) ↦ rw there not_recorded
    | inl new ↦
        elim (Bool-cases
          (known_parties row.buyer_id row.seller_id db && fits_int4 row.estimated_tokens)) [
            | inl fine ↦ rw new (rw fine (recorded new))
            | inr unfit ↦ rw new (rw unfit not_recorded)
          ]
  ]

  lost-IsRecorded :
      {request : Text} {row : InferenceMatch} {db after : Db F} {r : Result StoreError (Unit {0})}
      → IsRecorded request row db r after
      → IsRecorded request row db (err database) after
  lost-IsRecorded not_recorded = not_recorded
  lost-IsRecorded (recorded new) = recorded new

  statement-IsRecorded :
      (request : Text) (row : InferenceMatch) (plan : List Fault) (db : Db F)
      → (let r = statement_with plan (insert_match_row request row) db in
          IsRecorded request row db r.0 r.1.db)
  unfolding statement_with
  statement-IsRecorded request row [] db = row-IsRecorded request row db
  statement-IsRecorded request row (works ∷ plan) db = row-IsRecorded request row db
  statement-IsRecorded request row (fails ∷ plan) db = not_recorded
  statement-IsRecorded request row (lost ∷ plan) db =
      lost-IsRecorded (row-IsRecorded request row db)

  -- Whatever goes wrong, InsertInferenceMatch leaves the database as it was and reports an error, or
  -- adds an unsettled match of the given buyer, seller and estimate under a request id that had none.
  pub insert_inference_match-IsRecorded :
      (request buyer seller peer : Text) (estimated : ℤ) (s : Session (Db F))
      → (let r = insert_inference_match request buyer seller peer estimated s in
          IsRecorded request (new_match buyer seller peer estimated) s.db r.0 r.1.db)
  unfolding insert_inference_match ◌>>=◌ refuse_when statement
  insert_inference_match-IsRecorded request buyer seller peer estimated s =
      elim (Bool-cases (is_empty (trim_space request))) [
        | inl refused ↦ rw refused not_recorded
        | inr allowed ↦
            rw allowed
              (statement-IsRecorded request (new_match buyer seller peer estimated) s.plan s.db)
      ]
