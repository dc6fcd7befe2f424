-- ===== src/Control/Session/Faultless.antt =====
-- The client of the database: methods that, when they succeed, have met no fault that matters, and
-- transactions of them.
use knowledge_mesh.Base.{
  ◌≡◌, List, [], ◌∷◌, refl, ap, ◌∙◌, ◌⊎◌, inl, inr, Bool, true, false, if◌then◌else◌,
}
use knowledge_mesh.Base.Result.{ok, Result, err, ok_injective}
use knowledge_mesh.Control.Session.{
  ◌>>=◌, StoreError, Fault, works, fails, lost, Session, Exec, Effect, pure, raise, statement_with,
  statement, continue, refuse_when, commit_with, finish, in_transaction, transaction,
}

-- A session in which nothing goes wrong.
abbrev pub fresh : {S : Type 0} → S → Session S
fresh db = record { db = db; plan = [] }

abbrev pub calm : {S : Type 0} → Session S → Session S
calm s = fresh s.db

pub record Faultless {S A : Type 0} (m : Exec S A) : Type 0 where
  pub at : (s s' : Session S) (a : A) → m s ≡ (ok a, s') → m (calm s) ≡ (ok a, calm s')

module _ {S A : Type 0} where
  pub pure-Faultless : (a : A) → Faultless {S = S} (pure a)
  unfolding pure
  pure-Faultless a = record { at = λ s s' b h. cc }

  pub raise-Faultless : (e : StoreError) → Faultless {S = S} {A = A} (raise e)
  unfolding raise
  raise-Faultless e = record { at = λ s s' b h. cc }

  abbrev forget_plan : Result StoreError A × Session S → Result StoreError A × Session S
  forget_plan r = (r.0, calm r.1)

  statement_with-calm :
      (plan : List Fault) (op : Effect S A) (db : S) (a : A) (s' : Session S)
      → statement_with plan op db ≡ (ok a, s')
      → statement_with [] op db ≡ (ok a, calm s')
  unfolding statement_with
  statement_with-calm [] op db a s' h = ap forget_plan h
  statement_with-calm (works ∷ plan) op db a s' h = ap forget_plan h
  statement_with-calm (fails ∷ plan) op db a s' h = cc
  statement_with-calm (lost ∷ plan) op db a s' h = cc

  pub statement-Faultless : (op : Effect S A) → Faultless (statement op)
  unfolding statement
  statement-Faultless op = record { at = λ s s' a h. statement_with-calm s.plan op s.db a s' h }

module _ {S A : Type 0} where
  pub if-Faultless :
      (b : Bool) (m n : Exec S A) → Faultless m → Faultless n → Faultless (if b then m else n)
  if-Faultless true m n h k = h
  if-Faultless false m n h k = k

module _ {S : Type 0} where
  pub refuse_when-Faultless : (b : Bool) (e : StoreError) → Faultless {S = S} (refuse_when b e)
  unfolding refuse_when
  refuse_when-Faultless true e = raise-Faultless e
  refuse_when-Faultless false e = pure-Faultless tt

module _ {S A B : Type 0} where
  continue-calm :
      (f : A → Exec S B)
      → ((a : A) → Faultless (f a))
      → (m : Exec S A) (s : Session S) (r : Result StoreError A × Session S)
      → ((a : A) → r.0 ≡ ok a → m (calm s) ≡ (ok a, calm r.1))
      → (s' : Session S) (b : B) → continue r.0 f r.1 ≡ (ok b, s')
      → (m >>= f) (calm s) ≡ (ok b, calm s')
  unfolding continue ◌>>=◌
  continue-calm f calm_f m s (ok a, s1) before s' b h = rw (before a refl) ((calm_f a).at s1 s' b h)
  continue-calm f calm_f m s (err e, s1) before s' b h = cc

  pub bind-Faultless :
      (m : Exec S A) (f : A → Exec S B)
      → Faultless m
      → ((a : A) → Faultless (f a))
      → Faultless (m >>= f)
  unfolding ◌>>=◌
  bind-Faultless m f calm_m calm_f = record {
    at =
        λ s s' b h. continue-calm f calm_f m s (m s) (λ a e. calm_m.at s (m s).1 a (pair e)) s' b h;
  }
    where
      pair : {s : Session S} {a : A} → (m s).0 ≡ ok a → m s ≡ (ok a, (m s).1)
      pair {s} e = λ i. (e i, (m s).1)

pub ruleset faultless_rules = (
  pure-Faultless, raise-Faultless, statement-Faultless, refuse_when-Faultless, bind-Faultless,
  if-Faultless,
)

-- The database after a transaction is the one before it, or the one that the body, run with no
-- fault, makes of it in success. If the transaction reports success, it is the second.
pub record IsAtomic {S A : Type 0} (body : Exec S A) (before : S)
    (r : Result StoreError A × Session S) : Type 0 where
  pub all_or_nothing :
      (r.1.db ≡ before)
      ⊎ ((a : A) × (s' : Session S) × (body (fresh before) ≡ (ok a, calm s')) × (r.1.db ≡ s'.db))
  pub reported :
      (a : A)
      → r.0 ≡ ok a
      → (s' : Session S) × (body (fresh before) ≡ (ok a, calm s')) × (r.1.db ≡ s'.db)

module _ {S A : Type 0} (body : Exec S A) (calm_body : Faultless body) where
  commit-IsAtomic :
      (s s1 : Session S) (a : A) (plan : List Fault)
      → body (calm s) ≡ (ok a, calm s1)
      → IsAtomic body s.db (commit_with plan a s.db s1.db)
  unfolding commit_with
  commit-IsAtomic s s1 a [] h = record {
    all_or_nothing = inr (a, s1, h, refl);
    reported = λ b e. (s1, h ∙ ap (λ (c : A). (ok c, calm s1)) (ok_injective e), refl);
  }
  commit-IsAtomic s s1 a (works ∷ plan) h = record {
    all_or_nothing = inr (a, s1, h, refl);
    reported = λ b e. (s1, h ∙ ap (λ (c : A). (ok c, calm s1)) (ok_injective e), refl);
  }
  commit-IsAtomic s s1 a (fails ∷ plan) h = record {
    all_or_nothing = inl refl;
    reported = λ b e. cc;
  }
  commit-IsAtomic s s1 a (lost ∷ plan) h = record {
    all_or_nothing = inr (a, s1, h, refl);
    reported = λ b e. cc;
  }

  finish-IsAtomic :
      (s : Session S) (r : Result StoreError A × Session S)
      → ((a : A) → r.0 ≡ ok a → body (calm s) ≡ (ok a, calm r.1))
      → IsAtomic body s.db (finish s.db r.0 r.1)
  unfolding finish
  finish-IsAtomic s (ok a, s1) h = commit-IsAtomic s s1 a s1.plan (h a refl)
  finish-IsAtomic s (err e, s1) h = record { all_or_nothing = inl refl; reported = λ b e'. cc }

  in_transaction-IsAtomic : (s : Session S) → IsAtomic body s.db (in_transaction body s)
  unfolding in_transaction
  in_transaction-IsAtomic s =
      finish-IsAtomic s (body s) (λ a e. calm_body.at s (body s).1 a (λ i. (e i, (body s).1)))

  begin-IsAtomic :
      (s : Session S) (plan : List Fault)
      → IsAtomic body s.db (
          let r = statement_with {A = Unit {0}} plan (λ db. (ok tt, db)) s.db in
          continue r.0 (λ (_ : Unit {0}). in_transaction body) r.1)
  unfolding statement_with continue
  begin-IsAtomic s [] = in_transaction-IsAtomic (calm s)
  begin-IsAtomic s (works ∷ plan) = in_transaction-IsAtomic (record s { plan = plan })
  begin-IsAtomic s (fails ∷ plan) = record { all_or_nothing = inl refl; reported = λ b e. cc }
  begin-IsAtomic s (lost ∷ plan) = record { all_or_nothing = inl refl; reported = λ b e. cc }

  pub transaction-IsAtomic : (s : Session S) → IsAtomic body s.db (transaction body s)
  unfolding transaction
  transaction-IsAtomic s = begin-IsAtomic s s.plan
