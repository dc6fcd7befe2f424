-- ===== src/Control/Http.antt =====
-- internal/control: the HTTP handlers. A handler answers with an error status or with a body; only the
-- status of an error is kept. JSON is decoded outside: a body that does not decode is `none`.
pub mod Tokens
pub mod Buyers
pub mod Sellers
pub mod Routes
pub mod Steps
pub mod Frame
pub mod Guards
pub mod Isolation
pub mod Matched
pub mod Settled
pub mod Funds
mod Examples
use knowledge_mesh.Base.{ℕ, Bool, true, false, Option, none, some}
use knowledge_mesh.Base.Result.{Result, ok, err}
use knowledge_mesh.Base.Text.{Text}
use knowledge_mesh.Control.Session.{StoreError, Session, Exec}

pub data Method : Type 0 where
  get_method post_method put_method patch_method other_method : Method

abbrev pub same_method : Method → Method → Bool
same_method get_method get_method = true
same_method post_method post_method = true
same_method put_method put_method = true
same_method patch_method patch_method = true
same_method other_method other_method = true
same_method _ _ = false

-- What a handler reads of a request; `path_id` is the `{id}` of the path.
pub record HttpRequest (B : Type 0) : Type 0 where
  pub method : Method
  pub authorization : Text
  pub path_id : Text
  pub body : Option B

abbrev pub Serve : Type 0 → Type 0 → Type 0
Serve S A = Session S → Result ℕ A × Session S

module _ {S A : Type 0} where
  unfoldable pub answer : A → Serve S A
  answer a s = (ok a, s)

  unfoldable pub refuse : ℕ → Serve S A
  refuse status s = (err status, s)

  unfoldable pub from_result : Result ℕ A → Serve S A
  from_result r s = (r, s)

module _ {S A B : Type 0} where
  unfoldable pub proceed : Result ℕ A → (A → Serve S B) → Serve S B
  proceed (ok a) k s = k a s
  proceed (err status) k s = (err status, s)

  infixl 5 ◌>>=◌ ◌>>◌
  unfoldable pub ◌>>=◌ : Serve S A → (A → Serve S B) → Serve S B
  unfolding proceed
  ◌>>=◌ m k s = proceed ((m s).0) k ((m s).1)

  abbrev pub ◌>>◌ : Serve S A → Serve S B → Serve S B
  first >> next = first >>= λ _. next

abbrev pub with_status : {A : Type 0} → (StoreError → ℕ) → Result StoreError A → Result ℕ A
with_status to_status (ok a) = ok a
with_status to_status (err e) = err (to_status e)

module _ {S A : Type 0} where
  -- A call of the store, with the status for each of its errors.
  unfoldable pub attempt : (StoreError → ℕ) → Exec S A → Serve S A
  attempt to_status m s = (with_status to_status ((m s).0), (m s).1)

  -- What a request must have, or the status without it.
  unfoldable pub or_refuse : Option A → ℕ → Serve S A
  unfolding answer refuse
  or_refuse (some a) status = answer a
  or_refuse none status = refuse status

  -- The decoded body, or 400.
  abbrev pub decoded : Option A → Serve S A
  decoded body = or_refuse body 400

module _ {S : Type 0} where
  unfoldable pub require : Bool → ℕ → Serve S (Unit {0})
  unfolding answer refuse
  require true status = answer tt
  require false status = refuse status
