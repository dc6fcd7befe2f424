-- ===== src/Control/Frames.antt =====
-- internal/control: what the methods of the store keep of the database, for any relation that the single
-- writes stand in.
pub mod Writes
pub mod Settlement
use knowledge_mesh.Base.{Bool, Option, none, some, List, [], ◌∷◌}
use knowledge_mesh.Base.Float.{Float}
use knowledge_mesh.Base.Int.{ℤ}
use knowledge_mesh.Base.Result.{Result, ok}
use knowledge_mesh.Base.Text.{Text}
use knowledge_mesh.Control.Accounts.{ignore_error, or_raise, login_buyer, login_seller}
use knowledge_mesh.Control.Billing.{buyer_snapshot, check_can_spend}
use knowledge_mesh.Control.Db.{SellerUser, Db}
use knowledge_mesh.Control.Matching.{
  matchable, visit_row, collect_nodes, list_seller_nodes, find_seller_id, models_of,
  load_seller_models,
}
use knowledge_mesh.Control.Sellers.{get_seller_profile}
use knowledge_mesh.Control.Session.{StoreError, Exec, statement}
use knowledge_mesh.Control.Session.Frame.{
  Keeps, IsPreorder, pure-Keeps, raise-Keeps, statement-Keeps, keeps_rules, bind-Keeps,
}
use knowledge_mesh.Control.Tracking.{get_match_seller}
use knowledge_mesh.Types.{SellerNode}

module _ {S : Type 0} {P : S → S → Type 0} ⦃order : IsPreorder P⦄ where
  pub ignore_error-Keeps : {A : Type 0} (m : Exec S A) → Keeps P m → Keeps P (ignore_error m)
  unfolding ignore_error
  ignore_error-Keeps m h = record { kept = λ s. h.kept s }

  pub or_raise-Keeps : {A : Type 0} (o : Option A) (e : StoreError) → Keeps P (or_raise {S = S} o e)
  unfolding or_raise
  or_raise-Keeps none e = raise-Keeps e
  or_raise-Keeps (some a) e = pure-Keeps a

  -- A statement that only reads.
  pub read-Keeps :
      {A : Type 0} (look : S → Result StoreError A) → Keeps P (statement λ db. (look db, db))
  read-Keeps look = statement-Keeps (λ db. (look db, db)) order.same

pub ruleset method_rules = (keeps_rules, ignore_error-Keeps, or_raise-Keeps, read-Keeps)

module _ {F : Type 0} {P : Db F → Db F → Type 0} ⦃order : IsPreorder P⦄ where
  pub check_can_spend-Keeps :
      (buyer : Text) (estimated : ℤ) → Keeps P (check_can_spend buyer estimated)
  unfolding check_can_spend buyer_snapshot
  check_can_spend-Keeps buyer estimated = search method_rules depth 14

  pub find_seller_id-Keeps : (peer : Text) → Keeps P (find_seller_id peer)
  unfolding find_seller_id
  find_seller_id-Keeps peer = search method_rules depth 14

  pub get_match_seller-Keeps : (request : Text) → Keeps P (get_match_seller request)
  unfolding get_match_seller
  get_match_seller-Keeps request = search method_rules depth 14

  pub get_seller_profile-Keeps : (id : Text) → Keeps P (get_seller_profile id)
  unfolding get_seller_profile
  get_seller_profile-Keeps id = search method_rules depth 14

  pub login_buyer-Keeps :
      (fits : Text → Text → Bool) (email password : Text)
      → Keeps P (login_buyer fits email password)
  unfolding login_buyer
  login_buyer-Keeps fits email password = search method_rules depth 20

  pub login_seller-Keeps :
      (fits : Text → Text → Bool) (email password : Text)
      → Keeps P (login_seller fits email password)
  unfolding login_seller
  login_seller-Keeps fits email password = search method_rules depth 20

module _ {F : Type 0} {P : Db F → Db F → Type 0} ⦃order : IsPreorder P⦄ ⦃f : Float F⦄ where
  visit_row-Keeps :
      (u : SellerUser) (o : Option Text) (others : Exec (Db F) (List (SellerNode F)))
      → Keeps P others
      → Keeps P (visit_row u o others)
  visit_row-Keeps u none others h = h
  visit_row-Keeps u (some peer) others h =
      bind-Keeps (load_seller_models u.id) _ (read-Keeps (λ db. ok (models_of u.id db)))
        λ models. search (method_rules, h) depth 14

  collect_nodes-Keeps : (rows : List SellerUser) → Keeps P (collect_nodes rows)
  unfolding collect_nodes
  collect_nodes-Keeps [] = pure-Keeps []
  collect_nodes-Keeps (u ∷ rest) =
      visit_row-Keeps u (matchable u) (collect_nodes rest) (collect_nodes-Keeps rest)

  pub list_seller_nodes-Keeps : Keeps P list_seller_nodes
  unfolding list_seller_nodes
  list_seller_nodes-Keeps = search (method_rules, collect_nodes-Keeps) depth 14
