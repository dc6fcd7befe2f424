-- ===== src/Control/Session/Frame.antt =====
-- The client of the database, and the handlers over it: what a method keeps of the database, from what
-- each of its statements keeps.
use knowledge_mesh.Base.{Bool, true, false, List, [], ◌∷◌, if◌then◌else◌}
use knowledge_mesh.Base.Result.{Result, ok, err}
use knowledge_mesh.Control.Session.{
  ◌>>=◌, StoreError, Fault, works, fails, lost, Session, Exec, Effect, pure, raise, statement_with,
  statement, continue, refuse_when, commit_with, finish, in_transaction, transaction,
}

-- Whatever goes wrong, the database afterwards stands in the relation to the one before.
pub record Keeps {S R : Type 0} (P : S → S → Type 0) (m : Session S → R × Session S) : Type 0 where
  pub kept : (s : Session S) → P s.db (m s).1.db

pub record IsPreorder {S : Type 0} (P : S → S → Type 0) : Type 0 where
  pub same : (a : S) → P a a
  pub next : (a b c : S) → P a b → P b c → P a c

module _ {S : Type 0} (P : S → S → Type 0) ⦃order : IsPreorder P⦄ where
  statement_with-kept :
      {A : Type 0} (plan : List Fault) (op : Effect S A) (db : S)
      → P db (op db).1
      → P db (statement_with plan op db).1.db
  unfolding statement_with
  statement_with-kept [] op db h = h
  statement_with-kept (works ∷ plan) op db h = h
  statement_with-kept (fails ∷ plan) op db h = order.same db
  statement_with-kept (lost ∷ plan) op db h = h

  continue-kept :
      {A B : Type 0} (k : A → Exec S B)
      → ((a : A) → Keeps P (k a))
      → (before : S) (r : Result StoreError A × Session S) → P before r.1.db
      → P before (continue r.0 k r.1).1.db
  unfolding continue
  continue-kept k h before (ok a, s) p = order.next _ _ _ p ((h a).kept s)
  continue-kept k h before (err e, s) p = p

  commit-kept :
      {A : Type 0} (plan : List Fault) (a : A) (before after : S)
      → P before after
      → P before (commit_with plan a before after).1.db
  unfolding commit_with
  commit-kept [] a before after h = h
  commit-kept (works ∷ plan) a before after h = h
  commit-kept (fails ∷ plan) a before after h = order.same before
  commit-kept (lost ∷ plan) a before after h = h

  finish-kept :
      {A : Type 0} (before : S) (r : Result StoreError A × Session S)
      → P before r.1.db
      → P before (finish before r.0 r.1).1.db
  unfolding finish
  finish-kept before (ok a, s) h = commit-kept s.plan a before s.db h
  finish-kept before (err e, s) h = order.same before

module _ {S : Type 0} {P : S → S → Type 0} ⦃order : IsPreorder P⦄ where
  pub pure-Keeps : {A : Type 0} (a : A) → Keeps P (pure {S = S} a)
  unfolding pure
  pure-Keeps a = record { kept = λ s. order.same s.db }

  pub raise-Keeps : {A : Type 0} (e : StoreError) → Keeps P (raise {S = S} {A = A} e)
  unfolding raise
  raise-Keeps e = record { kept = λ s. order.same s.db }

  pub refuse_when-Keeps : (b : Bool) (e : StoreError) → Keeps P (refuse_when {S = S} b e)
  unfolding refuse_when
  refuse_when-Keeps true e = raise-Keeps e
  refuse_when-Keeps false e = pure-Keeps tt

  pub statement-Keeps :
      {A : Type 0} (op : Effect S A) → ((db : S) → P db (op db).1) → Keeps P (statement op)
  unfolding statement
  statement-Keeps op h = record { kept = λ s. statement_with-kept P s.plan op s.db (h s.db) }

  pub bind-Keeps :
      {A B : Type 0} (m : Exec S A) (k : A → Exec S B)
      → Keeps P m
      → ((a : A) → Keeps P (k a))
      → Keeps P (m >>= k)
  unfolding ◌>>=◌
  bind-Keeps m k h i = record { kept = λ s. continue-kept P k i s.db (m s) (h.kept s) }

  in_transaction-Keeps : {A : Type 0} (m : Exec S A) → Keeps P m → Keeps P (in_transaction m)
  unfolding in_transaction
  in_transaction-Keeps m h = record { kept = λ s. finish-kept P s.db (m s) (h.kept s) }

  pub transaction-Keeps : {A : Type 0} (m : Exec S A) → Keeps P m → Keeps P (transaction m)
  unfolding transaction
  transaction-Keeps m h =
      bind-Keeps (statement λ db. (ok tt, db)) (λ (_ : Unit {0}). in_transaction m)
        (statement-Keeps (λ db. (ok tt, db)) order.same) (λ _. in_transaction-Keeps m h)

  pub if-Keeps :
      {R : Type 0} (b : Bool) (m n : Session S → R × Session S)
      → Keeps P m
      → Keeps P n
      → Keeps P (if b then m else n)
  if-Keeps true m n h k = h
  if-Keeps false m n h k = k

pub ruleset keeps_rules =
    (pure-Keeps, raise-Keeps, refuse_when-Keeps, statement-Keeps, bind-Keeps, transaction-Keeps)
