-- ===== src/Control/Sellers/Models.antt =====
-- postgres_seller.go: ReplaceSellerModels under faults.
use knowledge_mesh.Base.{
  ◌≡◌, List, [], ◌∷◌, ◌++◌, find, ap, refl, arith, select, Bool, not, Option, none, some,
  Option-cases, sym, ◌∙◌, inl, inr, true,
}
use knowledge_mesh.Base.Result.{ok, Result, err}
use knowledge_mesh.Base.Text.{Text, text_beq, text_beq_iff}
use knowledge_mesh.Control.Accounts.{has_seller_id}
use knowledge_mesh.Control.Billing.{row_or, select_row, write}
use knowledge_mesh.Control.Db.{SellerModelRecord, Db}
use knowledge_mesh.Control.Sellers.{
  insert_model, with_id, insert_models, delete_models, replace_body, insert_as,
  replace_seller_models,
}
use knowledge_mesh.Control.Sellers.Chosen.{
  append-nil, append_assoc, own_or_new-IsWanted, select-append, select-select, select-rejected,
  IsWanted,
}
use knowledge_mesh.Control.Session.{
  statement, seller_not_found, ◌>>=◌, StoreError, Session, pure, continue, transaction,
}
use knowledge_mesh.Control.Session.Faultless.{
  Faultless, pure-Faultless, statement-Faultless, bind-Faultless, fresh, IsAtomic,
  transaction-IsAtomic,
}
use knowledge_mesh.Seller.Registry.Command.{run}
use mathlib.Core.Path.{subst}

module _ {F : Type 0} where
  -- The row of a seller's model: the id as PostgreSQL reads it, and the rest of the model.
  pub record IsRow (as_uuid : Text → Option Text) (seller : Text)
      (given row : Text × SellerModelRecord F) : Type 0 where
    pub wanted : Text
    pub is_wanted : IsWanted given.1.id given.0 wanted
    pub read : as_uuid wanted ≡ some row.1.id
    pub owner : row.0 ≡ seller
    pub same_rest : row.1 ≡ record (given.1) { id = row.1.id }

  pub AreRows :
      (Text → Option Text)
      → Text
      → List (Text × SellerModelRecord F)
      → List (Text × SellerModelRecord F)
      → Type 0
  AreRows as_uuid seller [] [] = Unit
  AreRows as_uuid seller (m ∷ models) (row ∷ rows) =
      IsRow as_uuid seller m row × AreRows as_uuid seller models rows
  AreRows as_uuid seller _ _ = ⊥

  abbrev pub own_row : Text → Text × SellerModelRecord F → Bool
  own_row seller row = text_beq row.0 seller

  abbrev pub other_row : Text → Text × SellerModelRecord F → Bool
  other_row seller row = not (own_row seller row)

  -- The seller's rows are those of the given models, in their order; the rows of the others are as they
  -- were, in their order; and nothing else has changed.
  pub record IsReplaced (as_uuid : Text → Option Text) (seller : Text)
      (models : List (Text × SellerModelRecord F)) (before after : Db F) : Type 0 where
    pub own : AreRows as_uuid seller models (select (own_row seller) after.seller_models)
    pub others :
        select (other_row seller) after.seller_models
        ≡ select (other_row seller) before.seller_models
    pub same_rest : after ≡ record before { seller_models = after.seller_models }

  abbrev with_models : List (Text × SellerModelRecord F) → Db F → Db F
  with_models rows db = record db { seller_models = db.seller_models ++ rows }

  module _ (as_uuid : Text → Option Text) (seller : Text) where
    insert_models-Faultless :
        (models : List (Text × SellerModelRecord F))
        → Faultless (insert_models {F = F} as_uuid seller models)
    unfolding insert_models
    insert_models-Faultless [] = pure-Faultless tt
    insert_models-Faultless (m ∷ rest) =
        bind-Faultless (statement (insert_model as_uuid seller (with_id m)))
          (λ (_ : Unit {0}). insert_models as_uuid seller rest)
          (statement-Faultless (insert_model as_uuid seller (with_id m)))
          (λ _. insert_models-Faultless rest)

    replace_body-Faultless :
        (models : List (Text × SellerModelRecord F))
        → Faultless (replace_body {F = F} as_uuid seller models)
    unfolding replace_body
    replace_body-Faultless models =
        bind-Faultless
          (select_row seller_not_found λ db. find (has_seller_id seller) db.seller_users) _
          (statement-Faultless
            (row_or seller_not_found λ db. find (has_seller_id seller) db.seller_users))
          (λ u.
            bind-Faultless (write (delete_models seller)) _
              (statement-Faultless λ db. (ok tt, delete_models seller db))
              (λ _. insert_models-Faultless models))

    -- The row that an INSERT adds when it works.
    insert_model-IsRow :
        (given : Text × SellerModelRecord F) (db : Db F) {v : Unit {0}}
        → (insert_model as_uuid seller (with_id given) db).0 ≡ ok v
        → (row : Text × SellerModelRecord F) × IsRow as_uuid seller given row
          × ((insert_model as_uuid seller (with_id given) db).1 ≡ with_models (row ∷ []) db)
    unfolding insert_model
    insert_model-IsRow given db {v} h = go (as_uuid (with_id given).id) refl h
      where
        go :
            (o : Option Text)
            → as_uuid (with_id given).id ≡ o
            → (insert_as seller (with_id given) o db).0 ≡ ok v
            → (row : Text × SellerModelRecord F) × IsRow as_uuid seller given row
              × ((insert_as seller (with_id given) o db).1 ≡ with_models (row ∷ []) db)
        go none e h = cc
        go (some id) e h = (
          (seller, record (with_id given) { id = id }),
          record {
            wanted = (with_id given).id;
            is_wanted = own_or_new-IsWanted given.1.id given.0;
            read = e;
            owner = refl;
            same_rest = refl;
          },
          ground arith,
        )

    insert_models-run :
        (models : List (Text × SellerModelRecord F)) (db : Db F) {u : Unit {0}}
        {s' : Session (Db F)}
        → insert_models as_uuid seller models (fresh db) ≡ (ok u, s')
        → (rows : List (Text × SellerModelRecord F)) × AreRows as_uuid seller models rows
          × (s'.db ≡ with_models rows db)
    unfolding insert_models pure ◌>>=◌ statement continue AreRows
    insert_models-run [] db {u} {s'} h = (
      [],
      tt,
      sym (ap (λ (r : Result StoreError (Unit {0}) × Session (Db F)). r.1.db) h)
          ∙ ap (λ rows. record db { seller_models = rows }) (sym (append-nil db.seller_models)),
    )
    insert_models-run (m ∷ rest) db {u} {s'} h =
        go (insert_model as_uuid seller (with_id m) db) (λ v e. insert_model-IsRow m db {v = v} e)
          (λ db1 e. insert_models-run rest db1 e) h
      where
        go :
            (r : Result StoreError (Unit {0}) × Db F)
            → ((v : Unit {0})
                → r.0 ≡ ok v
                → (row : Text × SellerModelRecord F) × IsRow as_uuid seller m row
                  × (r.1 ≡ with_models (row ∷ []) db))
            → ((db1 : Db F)
                → insert_models as_uuid seller rest (fresh db1) ≡ (ok u, s')
                → (rows : List (Text × SellerModelRecord F)) × AreRows as_uuid seller rest rows
                  × (s'.db ≡ with_models rows db1))
            → continue r.0 (λ (_ : Unit {0}). insert_models as_uuid seller rest) (fresh r.1)
              ≡ (ok u, s')
            → (rows : List (Text × SellerModelRecord F)) × AreRows as_uuid seller (m ∷ rest) rows
              × (s'.db ≡ with_models rows db)
        go (ok v, db1) is_after later e =
            let (row, is_row, same) = is_after v refl in
            let (rows, are_rows, same_later) = later db1 e in
            (
              row ∷ rows,
              (is_row, are_rows),
              same_later
                  ∙ ap (with_models rows) same
                  ∙ ap (λ all_rows. record db { seller_models = all_rows })
                      (append_assoc db.seller_models (row ∷ []) rows),
            )
        go (err x, db1) is_after later e = cc

    AreRows-own :
        (models rows : List (Text × SellerModelRecord F))
        → AreRows as_uuid seller models rows
        → (select (own_row seller) rows ≡ rows) × (select (other_row seller) rows ≡ [])
    unfolding AreRows
    AreRows-own [] [] h = (refl, refl)
    AreRows-own [] (row ∷ rows) h = absurd h
    AreRows-own (m ∷ models) [] h = absurd h
    AreRows-own (m ∷ models) (row ∷ rows) (one, rest) =
        let (own, others) = AreRows-own models rows rest in
        let e : own_row seller row ≡ true = (text_beq_iff row.0 seller).1 one.owner in
        (rw e (ap (λ later. row ∷ later) own), rw e others)

    inserted-IsReplaced :
        (models rows : List (Text × SellerModelRecord F)) (before after : Db F)
        → AreRows as_uuid seller models rows
        → after ≡ with_models rows (delete_models seller before)
        → IsReplaced as_uuid seller models before after
    unfolding delete_models
    inserted-IsReplaced models rows before after are same =
        let kept = select (other_row seller) before.seller_models in
        let (own, others) = AreRows-own models rows are in
        rw same (record {
          own =
              subst (AreRows as_uuid seller models)
                (sym (
                  select-append (own_row seller) kept rows
                  ∙ ap (λ front. front ++ select (own_row seller) rows)
                      (select-rejected (own_row seller) before.seller_models)
                  ∙ own))
                are;
          others =
              select-append (other_row seller) kept rows
              ∙ ap (λ back. select (other_row seller) kept ++ back) others
              ∙ append-nil (select (other_row seller) kept)
              ∙ select-select (other_row seller) before.seller_models;
          same_rest = refl;
        })

    refused_pair :
        {e : StoreError} {u : Unit {0}} {s s' : Session (Db F)}
        → ◌≡◌ {A = Result StoreError (Unit {0}) × Session (Db F)} (err e, s) (ok u, s')
        → ⊥
    refused_pair h = cc

    replace_body-run :
        (models : List (Text × SellerModelRecord F)) (db : Db F) {u : Unit {0}}
        {s' : Session (Db F)}
        → replace_body as_uuid seller models (fresh db) ≡ (ok u, s')
        → IsReplaced as_uuid seller models db s'.db
    unfolding replace_body ◌>>=◌ statement continue
    replace_body-run models db {u} {s'} h =
        elim (Option-cases (find (has_seller_id seller) db.seller_users)) [
          | inl none_there ↦ absurd (refused_pair (rw none_there at h))
          | inr (v, row_there) ↦
              let (rows, are, same) =
                insert_models-run models (delete_models seller db) (rw row_there at h) in
              inserted-IsReplaced models rows db s'.db are same
        ]

    -- The models of the seller have been replaced, or the database is as it was and an error is reported.
    pub data ReplacesOrFails (models : List (Text × SellerModelRecord F)) (before : Db F)
        : Result StoreError (Unit {0}) → Db F → Type 0 where
      replaces :
          {r : Result StoreError (Unit {0})} {after : Db F}
          → IsReplaced as_uuid seller models before after
          → ReplacesOrFails models before r after
      fails_whole :
          {e : StoreError} {after : Db F}
          → after ≡ before
          → ReplacesOrFails models before (err e) after

    of_atomic :
        (models : List (Text × SellerModelRecord F)) (before : Db F)
        (r : Result StoreError (Unit {0}) × Session (Db F))
        → IsAtomic (replace_body as_uuid seller models) before r
        → ReplacesOrFails models before r.0 r.1.db
    of_atomic models before (ok u, s) a =
        let (s', run, same) = a.reported u refl in
        replaces (rw same (replace_body-run models before run))
    of_atomic models before (err e, s) a = elim a.all_or_nothing [
      | inl kept ↦ fails_whole kept
      | inr (u, s', run, same) ↦ replaces (rw same (replace_body-run models before run))
    ]

    -- Whatever statements fail and whatever replies are lost: after a call of ReplaceSellerModels the rows
    -- of the seller are the given models, in their order, each under its own id or else the new one, as
    -- PostgreSQL reads it as a UUID; those of the other sellers are unchanged, and so is the rest of the
    -- database. Or the database is as it was and the call reports an error.
    pub replace_seller_models-atomic :
        (models : List (Text × SellerModelRecord F)) (s : Session (Db F))
        → (let r = replace_seller_models as_uuid seller models s in
            ReplacesOrFails models s.db r.0 r.1.db)
    unfolding replace_seller_models
    replace_seller_models-atomic models s =
        of_atomic models s.db (transaction (replace_body as_uuid seller models) s) (
          transaction-IsAtomic (replace_body as_uuid seller models) (replace_body-Faultless models)
            s)
