-- ===== src/Control/Http/Steps.antt =====
-- internal/control: a handler taken apart, step by step.
use knowledge_mesh.Base.{ℕ, ◌≡◌, refl, ap, Bool, true, false, Option, none, some, List, [], ◌∷◌}
use knowledge_mesh.Base.Result.{Result, ok, err, ok_injective}
use knowledge_mesh.Control.Http.{
  ◌>>=◌, Serve, answer, refuse, proceed, with_status, attempt, or_refuse, require,
}
use knowledge_mesh.Control.Session.{
  StoreError, Fault, works, fails, lost, Session, Exec, statement_with, statement,
}

pub with_status-ok :
    {A : Type 0} (to_status : StoreError → ℕ) (r : Result StoreError A) (a : A)
    → with_status to_status r ≡ ok a
    → r ≡ ok a
with_status-ok to_status (ok b) a h = ap ok (ok_injective h)
with_status-ok to_status (err e) a h = cc

module _ {S : Type 0} where
  module _ {A B : Type 0} (Q : Result ℕ B → S → Type 0) where
    proceed-outcome :
        (k : A → Serve S B) (before : Result ℕ A × Session S)
        → ((status : ℕ) → before.0 ≡ err status → Q (err status) before.1.db)
        → ((a : A) → before.0 ≡ ok a → Q (k a before.1).0 (k a before.1).1.db)
        → Q (proceed before.0 k before.1).0 (proceed before.0 k before.1).1.db
    unfolding proceed
    proceed-outcome k (ok a, s) e h = h a refl
    proceed-outcome k (err status, s) e h = e status refl

    -- A step and the rest of the handler, for what is seen at the end.
    pub then-outcome :
        (m : Serve S A) (k : A → Serve S B) (s : Session S)
        → ((status : ℕ) → (m s).0 ≡ err status → Q (err status) (m s).1.db)
        → ((a : A) → (m s).0 ≡ ok a → Q (k a (m s).1).0 (k a (m s).1).1.db)
        → Q ((m >>= k) s).0 ((m >>= k) s).1.db
    unfolding ◌>>=◌
    then-outcome m k s e h = proceed-outcome k (m s) e h

    pub given-outcome :
        (o : Option A) (status : ℕ) (k : A → Serve S B) (s : Session S)
        → Q (err status) s.db
        → ((a : A) → o ≡ some a → Q (k a s).0 (k a s).1.db)
        → Q ((or_refuse o status >>= k) s).0 ((or_refuse o status >>= k) s).1.db
    unfolding ◌>>=◌ or_refuse proceed answer refuse
    given-outcome none status k s e h = e
    given-outcome (some a) status k s e h = h a refl

  module _ {B : Type 0} (Q : Result ℕ B → S → Type 0) where
    pub require-outcome :
        (b : Bool) (status : ℕ) (k : Unit {0} → Serve S B) (s : Session S)
        → Q (err status) s.db
        → (b ≡ true → Q (k tt s).0 (k tt s).1.db)
        → Q ((require b status >>= k) s).0 ((require b status >>= k) s).1.db
    unfolding ◌>>=◌ require proceed answer refuse
    require-outcome true status k s e h = h refl
    require-outcome false status k s e h = e

  module _ {A : Type 0} where
    pub attempt-ok :
        (to_status : StoreError → ℕ) (m : Exec S A) (s s1 : Session S) (a : A)
        → attempt to_status m s ≡ (ok a, s1)
        → m s ≡ (ok a, s1)
    unfolding attempt
    attempt-ok to_status m s s1 a h =
        λ i. (with_status-ok to_status (m s).0 a (λ j. (h j).0) i, (h i).1)

    -- What a SELECT answers is what the database holds.
    pub read-ok :
        (look : S → Result StoreError A) (s s' : Session S) (a : A)
        → statement (λ db. (look db, db)) s ≡ (ok a, s')
        → look s.db ≡ ok a
    unfolding statement
    read-ok look s s' a h = go s.plan h
      where
        go :
            (plan : List Fault)
            → statement_with plan (λ db. (look db, db)) s.db ≡ (ok a, s')
            → look s.db ≡ ok a
        go [] h = ap (λ (r : Result StoreError A × Session S). r.0) h
        go (works ∷ plan) h = ap (λ (r : Result StoreError A × Session S). r.0) h
        go (fails ∷ plan) h = cc
        go (lost ∷ plan) h = cc
