-- ===== src/Control/Session.antt =====
-- A client of the database. A method runs statements against it in order; each statement may fail, and
-- may fail after the server has carried it out. What goes wrong is given beforehand as a plan.
pub mod Faultless
pub mod Frame
use knowledge_mesh.Base.{Bool, true, false, List, [], ◌∷◌, ◌≡◌}
use knowledge_mesh.Base.Result.{Result, ok, err}

-- The sentinel errors of postgres.go, the `errors.New` texts of its methods, and any other error that
-- the driver returns (`database`).
pub data StoreError : Type 0 where
  buyer_exists seller_exists seller_not_found model_not_found invalid_login : StoreError
  insufficient_balance quota_exceeded match_not_found duplicate_match : StoreError
  fields_required request_id_required empty_peer_id billing_not_found database : StoreError

-- A statement works, fails without effect, or takes effect and its reply is lost.
pub data Fault : Type 0 where
  works fails lost : Fault

pub record Session (S : Type 0) : Type 0 where
  pub db : S
  pub plan : List Fault

abbrev pub Exec : Type 0 → Type 0 → Type 0
Exec S A = Session S → Result StoreError A × Session S

-- What a statement does when the server runs it.
abbrev pub Effect : Type 0 → Type 0 → Type 0
Effect S A = S → Result StoreError A × S

module _ {S A : Type 0} where
  unfoldable pub pure : A → Exec S A
  pure a s = (ok a, s)

  unfoldable pub raise : StoreError → Exec S A
  raise e s = (err e, s)

  unfoldable pub statement_under :
      Fault → List Fault → Effect S A → S → Result StoreError A × Session S
  statement_under works plan op db = let (r, db') = op db in (r, record { db = db'; plan = plan })
  statement_under fails plan op db = (err database, record { db = db; plan = plan })
  statement_under lost plan op db =
      let (r, db') = op db in (err database, record { db = db'; plan = plan })

  -- One round trip. After the end of the plan everything works.
  unfoldable pub statement_with : List Fault → Effect S A → S → Result StoreError A × Session S
  unfolding statement_under
  statement_with [] op db = statement_under works [] op db
  statement_with (f ∷ plan) op db = statement_under f plan op db

  unfoldable pub statement : Effect S A → Exec S A
  unfolding statement_with
  statement op s = statement_with s.plan op s.db

module _ {S A B : Type 0} where
  unfoldable pub continue : Result StoreError A → (A → Exec S B) → Exec S B
  continue (ok a) f s = f a s
  continue (err e) f s = (err e, s)

  infixl 5 ◌>>=◌ ◌>>◌
  unfoldable pub ◌>>=◌ : Exec S A → (A → Exec S B) → Exec S B
  unfolding continue
  ◌>>=◌ m f s = let (r, s') = m s in continue r f s'

  abbrev pub ◌>>◌ : Exec S A → Exec S B → Exec S B
  first >> next = first >>= λ _. next

  pub bind_ok :
      (m : Exec S A) (f : A → Exec S B) {s s' : Session S} {a : A}
      → m s ≡ (ok a, s')
      → (m >>= f) s ≡ f a s'
  unfolding ◌>>=◌ continue
  bind_ok m f h = rw h

module _ {S : Type 0} where
  -- `if refused { return err }`
  unfoldable pub refuse_when : Bool → StoreError → Exec S (Unit {0})
  unfolding pure raise
  refuse_when true e = raise e
  refuse_when false e = pure tt

module _ {S A : Type 0} where
  -- COMMIT after a body that found the database `before` and left it `after`.
  unfoldable pub commit_under : Fault → List Fault → A → S → S → Result StoreError A × Session S
  commit_under works plan a before after = (ok a, record { db = after; plan = plan })
  commit_under fails plan a before after = (err database, record { db = before; plan = plan })
  commit_under lost plan a before after = (err database, record { db = after; plan = plan })

  unfoldable pub commit_with : List Fault → A → S → S → Result StoreError A × Session S
  unfolding commit_under
  commit_with [] a before after = commit_under works [] a before after
  commit_with (f ∷ plan) a before after = commit_under f plan a before after

  -- The deferred `tx.Rollback`, or the final `tx.Commit`.
  unfoldable pub finish : S → Result StoreError A → Exec S A
  unfolding commit_with
  finish before (err e) s = (err e, record { db = before; plan = s.plan })
  finish before (ok a) s = commit_with s.plan a before s.db

  unfoldable pub in_transaction : Exec S A → Exec S A
  unfolding finish
  in_transaction body s = let (r, s') = body s in finish s.db r s'

  -- BEGIN, the body, and COMMIT or ROLLBACK.
  unfoldable pub transaction : Exec S A → Exec S A
  unfolding in_transaction ◌>>=◌ statement
  transaction body = statement (λ db. (ok tt, db)) >>= λ (_ : Unit {0}). in_transaction body
