-- ===== src/Control/Matching/Listing.antt =====
-- postgres_billing.go: the nodes that ListSellerNodesForMatch returns.
use knowledge_mesh.Base.{
  All, ◌≡◌, true, false, some, List, ◌∷◌, Option-cases, refl, sym, inl, inr, [], arith, Option,
  none,
}
use knowledge_mesh.Base.Float.{Float}
use knowledge_mesh.Base.Result.{Result, ok, err}
use knowledge_mesh.Base.Text.{Text, is_empty}
use knowledge_mesh.Control.Db.{SellerUser, SellerModelRecord, Db}
use knowledge_mesh.Control.Matching.{
  matchable, build_seller_node, add_node, node_of, active_skills, load_seller_models, collect_nodes,
  list_seller_nodes, visit_row, sql_trim,
}
use knowledge_mesh.Control.Session.{StoreError, Session, ◌>>=◌, Exec, continue, pure, statement}
use knowledge_mesh.Types.{Skill, SellerNode}
use mathlib.Core.Path.{subst}

matchable-some :
    (u : SellerUser) {peer : Text}
    → matchable u ≡ some peer
    → (u.on_duty ≡ true) × (is_empty (sql_trim peer) ≡ false)
unfolding matchable
matchable-some u {peer} h = elim (Option-cases u.peer_id) [
  | inl e ↦ absurd (ground (arith, e, h))
  | inr (p, e) ↦ ground (arith, e, h)
]

module _ {F : Type 0} ⦃f : Float F⦄ where
  -- A node for a match: it is on duty, has a peer id, has a skill, and its model and price are those of
  -- its first skill.
  pub record IsOffered (node : SellerNode F) : Type 0 where
    pub on_duty : node.on_duty ≡ true
    pub has_peer_id : is_empty (sql_trim node.peer_id) ≡ false
    pub leads :
        (first : Skill F) × (rest : List (Skill F)) × (node.skills ≡ first ∷ rest)
        × (node.price ≡ first.price)
        × (node.model_name ≡ first.model_name)

  node_of-IsOffered :
      (u : SellerUser) (peer : Text) (models : List (SellerModelRecord F)) (s : Skill F)
      (rest : List (Skill F))
      → matchable u ≡ some peer
      → active_skills models ≡ s ∷ rest
      → IsOffered (node_of u peer models)
  unfolding build_seller_node
  node_of-IsOffered u peer models s rest m e =
      let (duty, peer_is) = matchable-some u m in
      record { on_duty = duty; has_peer_id = peer_is; leads = (s, rest, e, rw e refl, rw e refl) }

  add_node-IsOffered :
      (u : SellerUser) (peer : Text) (models : List (SellerModelRecord F))
      (nodes : List (SellerNode F))
      → matchable u ≡ some peer
      → All IsOffered nodes
      → All IsOffered (add_node (node_of u peer models) nodes)
  unfolding build_seller_node
  add_node-IsOffered u peer models nodes m h = go (active_skills models) refl
    where
      go :
          (skills : List (Skill F))
          → active_skills models ≡ skills
          → All IsOffered (add_node (node_of u peer models) nodes)
      go [] e = rw e h
      go (s ∷ rest) e =
          subst
            (λ (skills : List (Skill F)).
              All IsOffered (elim skills [ [] ↦ nodes | s ∷ rest ↦ node_of u peer models ∷ nodes ]))
            (sym e) (node_of-IsOffered u peer models s rest m e, h)

-- A property of what a method returns when it succeeds.
abbrev Held : {S A : Type 0} → (A → Type 0) → Result StoreError A × Session S → Type 0
Held P (ok a, s) = P a
Held P (err e, s) = Unit

abbrev Returns : {S A : Type 0} → (A → Type 0) → Exec S A → Type 0
Returns {S} P m = (s : Session S) → Held P (m s)

module _ {S A B : Type 0} (P : A → Type 0) (Q : B → Type 0) (k : A → Exec S B) where
  continue-Held :
      ((a : A) → P a → Returns Q (k a))
      → (r : Result StoreError A × Session S) → Held P r
      → Held Q (continue r.0 k r.1)
  unfolding continue
  continue-Held h (ok a, s) p = h a p s
  continue-Held h (err e, s) p = tt

  bind-Returns :
      (m : Exec S A) → Returns P m → ((a : A) → P a → Returns Q (k a)) → Returns Q (m >>= k)
  unfolding ◌>>=◌
  bind-Returns m p h s = continue-Held h (m s) (p s)

module _ {S A : Type 0} where
  any_result : (m : Exec S A) → Returns (λ _. Unit) m
  any_result m s = go (m s)
    where
      go : (r : Result StoreError A × Session S) → Held {S = S} {A = A} (λ _. Unit) r
      go (ok a, s') = tt
      go (err e, s') = tt

module _ {F : Type 0} ⦃f : Float F⦄ where
  visit_row-IsOffered :
      (u : SellerUser) (o : Option Text) (others : Exec (Db F) (List (SellerNode F)))
      → matchable u ≡ o
      → Returns (All IsOffered) others
      → Returns (All IsOffered) (visit_row u o others)
  unfolding pure
  visit_row-IsOffered u none others m h = h
  visit_row-IsOffered u (some peer) others m h =
      bind-Returns (λ _. Unit) (All IsOffered) _ (load_seller_models u.id)
        (any_result (load_seller_models u.id))
        (λ models _.
          bind-Returns (All IsOffered) (All IsOffered) _ others h
            λ nodes offered s. add_node-IsOffered u peer models nodes m offered)

  collect_nodes-IsOffered :
      (rows : List SellerUser) → Returns (All (IsOffered {F = F})) (collect_nodes rows)
  unfolding collect_nodes pure
  collect_nodes-IsOffered [] = λ s. tt
  collect_nodes-IsOffered (u ∷ rest) =
      visit_row-IsOffered u (matchable u) (collect_nodes rest) refl (collect_nodes-IsOffered rest)

  -- When ListSellerNodesForMatch succeeds, whatever the database holds, every node that it returns is on
  -- duty, has a peer id that is not blank and a skill, and has the model and the price of its first skill.
  pub list_seller_nodes-IsOffered :
      (s s' : Session (Db F)) (nodes : List (SellerNode F))
      → list_seller_nodes s ≡ (ok nodes, s')
      → All IsOffered nodes
  unfolding list_seller_nodes
  list_seller_nodes-IsOffered s s' nodes h = subst (Held (All IsOffered)) h (
      bind-Returns (λ _. Unit) (All IsOffered) collect_nodes
        (statement λ db. (ok db.seller_users, db))
        (any_result (statement λ db. (ok db.seller_users, db)))
        (λ rows _. collect_nodes-IsOffered rows) s)
