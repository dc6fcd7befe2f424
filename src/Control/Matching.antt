-- ===== src/Control/Matching.antt =====
-- postgres_billing.go and postgres_seller.go: the sellers that can be matched, the node that stands for
-- one of them, and the record of a match.
pub mod Record
pub mod Listing
use mathlib.Core.Option
use knowledge_mesh.Base.{
  ltb, if◌then◌else◌, length, select, any, find, head_or, ◌-◌, ◌^◌, Bool, true, false, not, ◌&&◌,
  Option, none, some, List, [], ◌∷◌, map, nat_beq, ℕ,
}
use knowledge_mesh.Base.Assoc.{get, put}
use knowledge_mesh.Base.Float.{Float}
use knowledge_mesh.Base.Int.{ℤ, pos, negsuc, ltb_ℤ}
use knowledge_mesh.Base.Result.{ok, err}
use knowledge_mesh.Base.Sort.{slice_stable}
use knowledge_mesh.Base.Text.{Text, text_beq, trim_space, is_empty, fields, trim_left, trim_right}
use knowledge_mesh.Control.Billing.{select_row}
use knowledge_mesh.Control.Db.{SellerUser, SellerModelRecord, InferenceMatch, Db}
use knowledge_mesh.Control.Session.{
  ◌>>=◌, ◌>>◌, seller_not_found, duplicate_match, request_id_required, empty_peer_id, database,
  Exec, Effect, pure, statement, refuse_when,
}
use knowledge_mesh.Types.{Skill, RateLimits, SellerNode, no_limits, no_skill, no_node}

-- An order on texts by their bytes, for `ORDER BY name`.
unfoldable pub text_before : Text → Text → Bool
text_before [] [] = false
text_before [] (y ∷ ys) = true
text_before (x ∷ xs) [] = false
text_before (x ∷ xs) (y ∷ ys) =
    let rest = text_before xs ys in if nat_beq x y then rest else ltb x y

unfoldable pub estimate_tokens_for_match : Text → ℤ
estimate_tokens_for_match v =
    let trimmed = trim_space v in if is_empty trimmed then pos 1 else pos (length (fields trimmed))

-- SQL's `trim`, which cuts spaces only.
abbrev pub is_blank : ℕ → Bool
is_blank c = nat_beq c 32

unfoldable pub sql_trim : Text → Text
unfolding trim_left trim_right
sql_trim s = trim_right is_blank (trim_left is_blank s)

-- The WHERE clause of ListSellerNodesForMatch, with the peer id of the row.
unfoldable pub matchable : SellerUser → Option Text
unfolding sql_trim
matchable u =
    if u.active && u.on_duty
    then (elim u.peer_id [ none ↦ none | some p ↦ if is_empty (sql_trim p) then none else some p ])
    else none

abbrev pub has_peer : Text → SellerUser → Bool
has_peer peer u = elim u.peer_id [ none ↦ false | some p ↦ text_beq p peer ]

-- The column `estimated_tokens` is a 32-bit integer.
abbrev pub fits_int4 : ℤ → Bool
fits_int4 n = ltb_ℤ n (pos (2 ^ 31)) && not (ltb_ℤ n (negsuc (2 ^ 31 - 1)))

abbrev pub present {ℓ} : {A : Type ℓ} → Option A → Bool
present none = false
present (some a) = true

module _ {F : Type 0} where
  -- loadSellerModels
  unfoldable pub models_of : Text → Db F → List (SellerModelRecord F)
  unfolding text_before
  models_of seller db =
      slice_stable (λ (a b : SellerModelRecord F). text_before a.name b.name)
        (map (λ (row : Text × SellerModelRecord F). row.1)
          (select (λ (row : Text × SellerModelRecord F). text_beq row.0 seller) db.seller_models))

  abbrev pub load_seller_models : Text → Exec (Db F) (List (SellerModelRecord F))
  load_seller_models seller = statement λ db. (ok (models_of seller db), db)

  abbrev pub skill_of : SellerModelRecord F → Skill F
  skill_of m = record {
    name = m.skill_name;
    model_name = m.model_name;
    model_type = m.model_type;
    tuning_tier = m.tuning_tier;
    price = m.rate_per_token;
  }

  -- The loop that collects the skills of the active models.
  unfoldable pub active_skills : List (SellerModelRecord F) → List (Skill F)
  active_skills models = map skill_of (select (λ (m : SellerModelRecord F). m.active) models)

  -- The limits of the first model, active or not.
  abbrev pub first_limits : List (SellerModelRecord F) → RateLimits
  first_limits [] = no_limits
  first_limits (m ∷ rest) = record no_limits {
    hourly_tokens = m.hourly_tokens;
    daily_tokens = m.daily_tokens;
    total_tokens = m.total_tokens;
  }

module _ {F : Type 0} ⦃f : Float F⦄ where
  -- buildSellerNodeForMatch
  unfoldable pub build_seller_node :
      Text → Bool → List (SellerModelRecord F) → List Text → SellerNode F
  unfolding active_skills
  build_seller_node peer on_duty models listen_addrs =
      let skills = active_skills models in
      let first : Skill F = head_or skills no_skill in
      record no_node {
        peer_id = peer;
        listen_addrs = listen_addrs;
        skills = skills;
        model_name = first.model_name;
        model_type = first.model_type;
        tuning_tier = first.tuning_tier;
        price = first.price;
        reputation = f.one;
        on_duty = on_duty;
        token_limits = first_limits models;
      }

  abbrev pub add_node : SellerNode F → List (SellerNode F) → List (SellerNode F)
  add_node node nodes = elim node.skills [ [] ↦ nodes | s ∷ rest ↦ node ∷ nodes ]

  abbrev pub node_of : SellerUser → Text → List (SellerModelRecord F) → SellerNode F
  node_of u peer models = build_seller_node peer u.on_duty models u.listen_addrs

  -- One row: `none` is a row that the query leaves out.
  abbrev pub visit_row :
      SellerUser
      → Option Text
      → Exec (Db F) (List (SellerNode F))
      → Exec (Db F) (List (SellerNode F))
  visit_row u none others = others
  visit_row u (some peer) others = do
    models ← load_seller_models u.id
    nodes ← others
    pure (add_node (node_of u peer models) nodes)

  -- The loop over the rows: one query for the models of each seller, in turn.
  unfoldable pub collect_nodes : List SellerUser → Exec (Db F) (List (SellerNode F))
  unfolding build_seller_node matchable
  collect_nodes [] = pure []
  collect_nodes (u ∷ rest) = visit_row u (matchable u) (collect_nodes rest)

  -- ListSellerNodesForMatch
  unfoldable pub list_seller_nodes : Exec (Db F) (List (SellerNode F))
  unfolding collect_nodes
  list_seller_nodes = do rows ← statement λ db. (ok db.seller_users, db); collect_nodes rows

module _ {F : Type 0} where
  -- FindSellerIDByPeerID: the server returns the rows in an order of its own; the code takes the first.
  unfoldable pub find_seller_id : Text → Exec (Db F) Text
  find_seller_id peer = do
    refuse_when (is_empty (trim_space peer)) empty_peer_id
    select_row seller_not_found λ db.
        Option.map (λ (u : SellerUser). u.id) (find (has_peer (trim_space peer)) db.seller_users)

  abbrev pub known_parties : Text → Text → Db F → Bool
  known_parties buyer seller db =
      present (get db.buyer_users buyer)
      && any (λ (u : SellerUser). text_beq u.id seller) db.seller_users

  -- The INSERT into inference_matches: its primary key is the request id, and both parties are
  -- references to accounts.
  unfoldable pub insert_match_row : Text → InferenceMatch → Effect (Db F) (Unit {0})
  insert_match_row request row db =
      if present (get db.matches request)
      then (err duplicate_match, db)
      else if known_parties row.buyer_id row.seller_id db && fits_int4 row.estimated_tokens
      then (ok tt, record db { matches = put db.matches request row })
      else (err database, db)

  -- InsertInferenceMatch
  unfoldable pub insert_inference_match : Text → Text → Text → Text → ℤ → Exec (Db F) (Unit {0})
  unfolding insert_match_row
  insert_inference_match request buyer seller peer estimated = do
    refuse_when (is_empty (trim_space request)) request_id_required
    statement (
        insert_match_row request (record {
          buyer_id = buyer;
          seller_id = seller;
          seller_peer_id = peer;
          estimated_tokens = estimated;
          settled = false;
        }))
