-- ===== src/Control/Examples.antt =====
-- A small database, for the theorems on the store.
use knowledge_mesh.Base.{
  ℕ, ◌≡◌, refl, true, false, none, some, [], ◌∷◌, arith, if◌then◌else◌, Option,
}
use knowledge_mesh.Base.Assoc.{get, update}
use knowledge_mesh.Base.Float.{micros_float, Micros}
use knowledge_mesh.Base.Int.{pos, ◌+ℤ◌, add64}
use knowledge_mesh.Base.Result.{ok, err}
use knowledge_mesh.Base.Text.{Text, codes, text_beq, trim_space, is_empty, lower}
use knowledge_mesh.Control.Accounts.{clean_email, buyer_row, buyer_email_taken, register_buyer}
use knowledge_mesh.Control.Accounts.Half.{register_buyer_half}
use knowledge_mesh.Control.Billing.{settle_inference_match, clamp, match_of}
use knowledge_mesh.Control.Billing.Atomic.{SettlesOrFails, settle-atomic}
use knowledge_mesh.Control.Billing.Funds.{IsSound, Conserves, settle-Conserves, funds}
use knowledge_mesh.Control.Billing.Once.{HasSettled, settle_again}
use knowledge_mesh.Control.Billing.Outcome.{settle_outcome, run_of}
use knowledge_mesh.Control.Billing.Overlap.{
  overlapping_settlements, CanPayTwice, overlap_pays_twice,
}
use knowledge_mesh.Control.Billing.Payment.{settle-run, Paid, settle_pays}
use knowledge_mesh.Control.Db.{SellerUser, Billing, InferenceMatch, Db, SellerModelRecord}
use knowledge_mesh.Control.Sellers.{replace_seller_models}
use knowledge_mesh.Control.Sellers.Models.{ReplacesOrFails, replace_seller_models-atomic}
use knowledge_mesh.Control.Session.{
  ◌>>=◌, works, fails, lost, statement, refuse_when, commit_with, finish, in_transaction,
  transaction, request_id_required, buyer_exists, database,
}
use knowledge_mesh.Control.Session.Faultless.{fresh}

abbrev pub alice : Text
alice = codes "alice"

abbrev pub bob : Text
bob = codes "bob"

abbrev pub request_1 : Text
request_1 = codes "r1"

abbrev t1 : Text
t1 = codes "t1"

abbrev t2 : Text
t2 = codes "t2"

abbrev pub wallet : ℕ → Billing
wallet n = record { wallet_balance = pos n; token_quota = pos 1000; tokens_used = pos 0 }

abbrev pub open_row : InferenceMatch
open_row = record {
  buyer_id = alice;
  seller_id = bob;
  seller_peer_id = codes "p2";
  estimated_tokens = pos 40;
  settled = false;
}

abbrev pub bob_user : SellerUser
bob_user = record {
  id = bob;
  display_name = bob;
  email = codes "bob@mesh";
  password_hash = [];
  active = true;
  on_duty = true;
  peer_id = some (codes "p2");
  listen_addrs = [];
  ollama_config = none;
}

abbrev pub small_db : Db Micros
small_db = record {
  buyer_users =
      (
        alice,
        record { display_name = alice; email = codes "a@mesh"; password_hash = []; active = true },
      )
      ∷ [];
  seller_users = bob_user ∷ [];
  seller_models =
      (
        bob,
        record {
          id = codes "m1";
          name = codes "chat";
          version = [];
          skill_name = codes "Chat";
          model_name = codes "small";
          model_type = [];
          tuning_tier = [];
          hourly_tokens = pos 0;
          daily_tokens = pos 0;
          total_tokens = pos 0;
          rate_per_token = some 20;
          active = true;
          meta = [];
        },
      )
      ∷ [];
  buyer_billing = (alice, wallet 100) ∷ [];
  seller_billing = (bob, wallet 5) ∷ [];
  transactions = [];
  matches = (request_1, open_row) ∷ [];
}

pub sound : IsSound small_db
unfolding funds ◌+ℤ◌
sound = record { buyers = ground arith; sellers = ground arith; bounded = ground arith }

settled_once :
    (settle_inference_match t1 t2 alice request_1 (pos 40) true (fresh small_db)).0 ≡ ok tt
unfolding add64 settle_inference_match ◌>>=◌ refuse_when statement transaction in_transaction finish
    commit_with trim_space text_beq get update
settled_once = refl

settle-Conserves_example :
    Conserves small_db
      (settle_inference_match t1 t2 alice request_1
        (pos 40)
        true
        (record { db = small_db; plan = works ∷ lost ∷ [] })).1.db
settle-Conserves_example =
    settle-Conserves t1 t2 alice request_1 (pos 40) true
      (record { db = small_db; plan = works ∷ lost ∷ [] }) sound

settle-atomic_example : SettlesOrFails t1 t2 alice request_1 (pos 40) true small_db (
    settle_inference_match t1 t2 alice request_1
      (pos 40)
      true
      (record { db = small_db; plan = works ∷ fails ∷ [] }))
settle-atomic_example =
    settle-atomic t1 t2 alice request_1 (pos 40) true
      (record { db = small_db; plan = works ∷ fails ∷ [] })

found : match_of alice request_1 small_db ≡ some open_row
unfolding get text_beq
found = refl

settle_again_example :
    let db = (settle_inference_match t1 t2 alice request_1 (pos 40) true (fresh small_db)).1.db in
    HasSettled alice request_1 db
    × ((settle_inference_match t1 t2 alice request_1
          (pos 70)
          false
          (record { db = db; plan = works ∷ lost ∷ [] })).1.db
        ≡ db)
settle_again_example =
    settle_again t1 t2 t1 t2 alice request_1 (pos 40) (pos 70) true false (fresh small_db)
      (works ∷ lost ∷ []) settled_once

settle_pays_example :
    Paid t1 t2 alice bob request_1
      (pos 40)
      small_db
      (settle_inference_match t1 t2 alice request_1 (pos 40) true (fresh small_db)).1.db
settle_pays_example =
    settle_pays t1 t2 alice request_1 (pos 40) (fresh small_db) open_row sound found refl
      (omega arith) settled_once

settle-run_example :
    settle_inference_match t1 t2 alice request_1 (pos 400) true (fresh small_db) ≡ (
      if is_empty (trim_space request_1)
      then (err request_id_required, fresh small_db)
      else run_of small_db (settle_outcome t1 t2 alice request_1 (clamp (pos 400)) true small_db))
settle-run_example = settle-run t1 t2 alice request_1 (pos 400) true small_db

can_pay_twice : CanPayTwice alice request_1 (pos 40) small_db
unfolding get text_beq ◌+ℤ◌
can_pay_twice = record {
  row = open_row;
  b = wallet 100;
  s = wallet 5;
  found = refl;
  open_match = refl;
  buyer_row = refl;
  seller_row = refl;
  positive = omega arith;
  wallet = omega arith;
  wallet_fits = omega arith;
  used = omega arith;
  quota = omega arith;
  quota_fits = omega arith;
}

overlap_pays_twice_example :
    let r = overlapping_settlements t1 t2 t1 t2 alice request_1 (pos 40) (fresh small_db) in
    (r.0 ≡ ok tt)
    × (b' : Billing) × (get r.1.db.buyer_billing alice ≡ some b')
    × (b'.wallet_balance +ℤ pos 40 +ℤ pos 40 ≡ pos 100)
unfolding can_pay_twice
overlap_pays_twice_example =
    overlap_pays_twice alice request_1 (pos 40) small_db can_pay_twice t1 t2 t1 t2

abbrev small_model : SellerModelRecord Micros
small_model = record {
  id = [];
  name = codes "talk";
  version = [];
  skill_name = codes "Talk";
  model_name = codes "large";
  model_type = [];
  tuning_tier = [];
  hourly_tokens = pos 0;
  daily_tokens = pos 0;
  total_tokens = pos 0;
  rate_per_token = some 30;
  active = true;
  meta = [];
}

abbrev read_uuid : Text → Option Text
read_uuid id = some id

replace_seller_models-atomic_example :
    (let r =
        replace_seller_models read_uuid bob
          ((codes "u1", small_model) ∷ [])
          (record { db = small_db; plan = works ∷ works ∷ works ∷ works ∷ lost ∷ [] }) in
      ReplacesOrFails read_uuid bob ((codes "u1", small_model) ∷ []) small_db r.0 r.1.db)
replace_seller_models-atomic_example =
    replace_seller_models-atomic read_uuid bob ((codes "u1", small_model) ∷ [])
      (record { db = small_db; plan = works ∷ works ∷ works ∷ works ∷ lost ∷ [] })

nonblank :
    (is_empty (trim_space (codes "Cy")) ≡ false) × (is_empty (clean_email (codes "c@mesh")) ≡ false)
unfolding trim_space lower
nonblank = (refl, refl)

free_email : buyer_email_taken (clean_email (codes "c@mesh")) small_db ≡ false
unfolding text_beq trim_space lower
free_email = refl

no_such_buyer :
    (get small_db.buyer_users (codes "b9") ≡ none)
    × (get small_db.buyer_billing (codes "b9") ≡ none)
unfolding get text_beq
no_such_buyer = (refl, refl)

register_buyer_half_example :
    let r =
      register_buyer
        (λ w. some w)
        (codes "b9")
        (codes "Cy")
        (codes "c@mesh")
        (codes "pw")
        (record { db = small_db; plan = works ∷ fails ∷ [] }) in
    (r.0 ≡ err database)
    × (get r.1.db.buyer_users (codes "b9")
        ≡ some (buyer_row (codes "Cy") (codes "c@mesh") (codes "pw")))
    × (get r.1.db.buyer_billing (codes "b9") ≡ none)
    × ((register_buyer
          (λ w. some w)
          (codes "b10")
          (codes "Cy")
          (codes "c@mesh")
          (codes "pw")
          (fresh r.1.db)).0
        ≡ err buyer_exists)
register_buyer_half_example =
    register_buyer_half (λ w. some w) (codes "b9") (codes "b10") (codes "Cy") (codes "c@mesh")
      (codes "pw") (codes "pw") [] small_db nonblank.0 nonblank.1 refl refl no_such_buyer.0
      no_such_buyer.1 free_email
