-- ===== src/Control/Http/Isolation.antt =====
-- internal/control: no request touches the rows of an account that it is not served for.
use knowledge_mesh.Base.{
  Bool-cases, select, find, ◌≡◌, refl, ◌∙◌, ◌≢◌, inl, inr, Bool, not, List, [], ◌∷◌, ◌++◌, arith, ℕ,
  sym, ap,
}
use knowledge_mesh.Base.Assoc.{Assoc, get, put, get-put, update, get-update}
use knowledge_mesh.Base.Float.{Float}
use knowledge_mesh.Base.Text.{Text, text_beq, text_beq_iff}
use knowledge_mesh.Control.Accounts.{has_seller_id, put_new}
use knowledge_mesh.Control.Billing.Outcome.{moved}
use knowledge_mesh.Control.Db.{SellerUser, SellerModelRecord, Billing, Db}
use knowledge_mesh.Control.Frames.Settlement.{settle-Keeps}
use knowledge_mesh.Control.Http.Frame.{Actor, as_buyer, as_seller, new_buyer, new_seller, actor}
use knowledge_mesh.Control.Http.Frame.Allowed.{Allows}
use knowledge_mesh.Control.Http.Frame.Calls.{serve-Keeps}
use knowledge_mesh.Control.Http.Routes.{Call, HttpServer, serve}
use knowledge_mesh.Control.Matching.{present}
use knowledge_mesh.Control.Sellers.{change_where, delete_models}
use knowledge_mesh.Control.Session.{Session}
use knowledge_mesh.Control.Session.Frame.{IsPreorder}

module _ {F : Type 0} where
  -- The account and the wallet of a buyer are as before.
  pub record BuyerKept (y : Text) (before after : Db F) : Type 0 where
    pub account : get after.buyer_users y ≡ get before.buyer_users y
    pub wallet : get after.buyer_billing y ≡ get before.buyer_billing y

  abbrev of_seller : Text → Text × SellerModelRecord F → Bool
  of_seller x row = text_beq row.0 x

  -- The account and the models of a seller are as before.
  pub record SellerKept (x : Text) (before after : Db F) : Type 0 where
    pub account :
        find (has_seller_id x) after.seller_users ≡ find (has_seller_id x) before.seller_users
    pub models :
        select (of_seller x) after.seller_models ≡ select (of_seller x) before.seller_models

  instance abbrev BuyerKept-IsPreorder : {y : Text} → IsPreorder (BuyerKept y)
  BuyerKept-IsPreorder = record {
    same = λ a. record { account = refl; wallet = refl };
    next = λ a b c h k. record { account = k.account ∙ h.account; wallet = k.wallet ∙ h.wallet };
  }

  instance abbrev SellerKept-IsPreorder : {x : Text} → IsPreorder (SellerKept x)
  SellerKept-IsPreorder = record {
    same = λ a. record { account = refl; models = refl };
    next = λ a b c h k. record { account = k.account ∙ h.account; models = k.models ∙ h.models };
  }

get-update_other :
    {V : Type 0} (m : Assoc V) (k y : Text) (change : V → V)
    → k ≢ y
    → get (update m k change) y ≡ get m y
get-update_other m k y change n = ground (arith, get-update m k change y, text_beq_iff k y)

get-put_other :
    {V : Type 0} (m : Assoc V) (k y : Text) (v : V) → k ≢ y → get (put m k v) y ≡ get m y
get-put_other m k y v n = ground (arith, get-put m k v y, text_beq_iff k y)

get-put_new_other :
    (m : Assoc Billing) (k y : Text) (v : Billing) → k ≢ y → get (put_new m k v) y ≡ get m y
get-put_new_other m k y v n = elim (Bool-cases (present (get m k))) [
  | inl e ↦ rw e refl
  | inr e ↦ rw e (get-put_other m k y v n)
]

find-change_where :
    (rows : List SellerUser) (k x : Text) (change : SellerUser → SellerUser)
    → k ≢ x
    → ((u : SellerUser) → (change u).id ≡ u.id)
    → find (has_seller_id x) (change_where (has_seller_id k) change rows)
      ≡ find (has_seller_id x) rows
find-change_where [] k x change n same = refl
find-change_where (u ∷ rest) k x change n same = ground (
  arith,
  find-change_where rest k x change n same,
  same u,
  text_beq_iff u.id k,
  text_beq_iff u.id x,
)

find-append :
    (rows : List SellerUser) (row : SellerUser) (x : Text)
    → row.id ≢ x
    → find (has_seller_id x) (rows ++ (row ∷ [])) ≡ find (has_seller_id x) rows
find-append [] row x n = ground (arith, text_beq_iff row.id x)
find-append (u ∷ rest) row x n = ground (arith, find-append rest row x n)

module _ {F : Type 0} where
  select-deleted :
      (rows : List (Text × SellerModelRecord F)) (k x : Text)
      → k ≢ x
      → select (of_seller x) (select (λ row. not (of_seller k row)) rows)
        ≡ select (of_seller x) rows
  select-deleted [] k x n = refl
  select-deleted (row ∷ rest) k x n =
      ground (arith, select-deleted rest k x n, text_beq_iff row.0 k, text_beq_iff row.0 x)

  select-added :
      (rows : List (Text × SellerModelRecord F)) (k x : Text) (m : SellerModelRecord F)
      → k ≢ x
      → select (of_seller x) (rows ++ ((k, m) ∷ [])) ≡ select (of_seller x) rows
  select-added [] k x m n = ground (arith, text_beq_iff k x)
  select-added (row ∷ rest) k x m n = ground (arith, select-added rest k x m n)

  BuyerKept-Allows :
      (y : Text) (who : Actor)
      → who ≢ as_buyer y
      → who ≢ new_buyer y
      → Allows (BuyerKept {F = F} y) who
  unfolding delete_models moved
  BuyerKept-Allows y who n1 n2 = record {
    ledger = λ db t. record { account = refl; wallet = refl };
    matching = λ db request row. record { account = refl; wallet = refl };
    settling = λ tid1 tid2 buyer request tokens success e.
        settle-Keeps (BuyerKept y) tid1 tid2 buyer request tokens success
          (λ db. record { account = refl; wallet = refl })
          λ db seller t b s. record {
            account = refl;
            wallet = get-update_other db.buyer_billing buyer y _ λ same. n1 (e ∙ ap as_buyer same);
          };
    changing = λ seller change e same db. record { account = refl; wallet = refl };
    deleting = λ seller e db. record { account = refl; wallet = refl };
    adding = λ seller e db m. record { account = refl; wallet = refl };
    joining_buyer = λ id e db row. record {
      account = get-put_other db.buyer_users id y row λ same. n2 (e ∙ ap new_buyer same);
      wallet = refl;
    };
    opening_buyer = λ id e db row. record {
      account = refl;
      wallet = get-put_new_other db.buyer_billing id y row λ same. n2 (e ∙ ap new_buyer same);
    };
    joining_seller = λ id e db row i. record { account = refl; wallet = refl };
    opening_seller = λ id e db. record { account = refl; wallet = refl };
  }

  SellerKept-Allows :
      (x : Text) (who : Actor)
      → who ≢ as_seller x
      → who ≢ new_seller x
      → Allows (SellerKept {F = F} x) who
  unfolding delete_models moved
  SellerKept-Allows x who n1 n2 = record {
    ledger = λ db t. record { account = refl; models = refl };
    matching = λ db request row. record { account = refl; models = refl };
    settling = λ tid1 tid2 buyer request tokens success e.
        settle-Keeps (SellerKept x) tid1 tid2 buyer request tokens success
          (λ db. record { account = refl; models = refl })
          λ db seller t b s. record { account = refl; models = refl };
    changing = λ seller change e same db. record {
      account =
          find-change_where db.seller_users seller x change (λ i. n1 (e ∙ ap as_seller i)) same;
      models = refl;
    };
    deleting = λ seller e db. record {
      account = refl;
      models = select-deleted db.seller_models seller x λ i. n1 (e ∙ ap as_seller i);
    };
    adding = λ seller e db m. record {
      account = refl;
      models = select-added db.seller_models seller x m λ i. n1 (e ∙ ap as_seller i);
    };
    joining_buyer = λ id e db row. record { account = refl; models = refl };
    opening_buyer = λ id e db row. record { account = refl; models = refl };
    joining_seller = λ id e db row i. record {
      account = find-append db.seller_users row x λ same. n2 (e ∙ ap new_seller (sym i ∙ same));
      models = refl;
    };
    opening_seller = λ id e db. record { account = refl; models = refl };
  }

module _ {F : Type 0} ⦃f : Float F⦄ where
  -- Whatever goes wrong, a request that is not served for a buyer (its token is not the buyer's, and it
  -- does not register the buyer) leaves the buyer's account and wallet as they are.
  pub serve-BuyerKept :
      (pane : HttpServer F) (uuid : ℕ → Text) (c : Call F) (y : Text) (s : Session (Db F))
      → actor pane uuid c ≢ as_buyer y
      → actor pane uuid c ≢ new_buyer y
      → BuyerKept y s.db (serve pane uuid c s).1.db
  serve-BuyerKept pane uuid c y s n1 n2 =
      (serve-Keeps pane uuid c (BuyerKept-Allows y (actor pane uuid c) n1 n2)).kept s

  -- Whatever goes wrong, a request that is not served for a seller (its token is not the seller's, and it
  -- does not register the seller) leaves the seller's account and models as they are.
  pub serve-SellerKept :
      (pane : HttpServer F) (uuid : ℕ → Text) (c : Call F) (x : Text) (s : Session (Db F))
      → actor pane uuid c ≢ as_seller x
      → actor pane uuid c ≢ new_seller x
      → SellerKept x s.db (serve pane uuid c s).1.db
  serve-SellerKept pane uuid c x s n1 n2 =
      (serve-Keeps pane uuid c (SellerKept-Allows x (actor pane uuid c) n1 n2)).kept s
