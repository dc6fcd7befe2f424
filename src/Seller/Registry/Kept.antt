-- ===== src/Seller/Registry/Kept.antt =====
-- internal/seller/auth_registry.go: from the change of one node to the change of the file.
use knowledge_mesh.Base.{Bool-cases, All, ◌≡◌, inl, inr, Option, none, some, List, [], ◌∷◌}
use knowledge_mesh.Base.Result.{Result, ok, err, ◌>>=◌}
use knowledge_mesh.Base.Text.{Text}
use knowledge_mesh.Seller.Registry.{
  RegistryError, SellerRecord, File, absent, holds, garbage, Disk, writes, refuses, tears, load,
  save, has_peer_id, change_first, store_changes, with_seller,
}
use knowledge_mesh.Types.{AnthropicSellerConfig, OpenAiSellerConfig, OllamaSellerConfig, SellerNode}

-- A node is served by one backend at most.
abbrev pub AtMostOne :
    Option AnthropicSellerConfig → Option OpenAiSellerConfig → Option OllamaSellerConfig → Type 0
AtMostOne a none none = Unit
AtMostOne none (some o) none = Unit
AtMostOne none none (some l) = Unit
AtMostOne _ _ _ = ⊥

module _ {F : Type 0} where
  -- The advertised metadata agrees with the node, and the node has at most one backend.
  pub record IsConsistent (node : SellerNode F) : Type 0 where
    pub same_peer : node.metadata.peer_id ≡ node.peer_id
    pub same_duty : node.metadata.on_duty ≡ node.on_duty
    pub same_limits : node.metadata.token_limits ≡ node.token_limits
    pub one_backend : AtMostOne node.anthropic node.openai node.ollama

  abbrev pub IsKept : SellerRecord F → Type 0
  IsKept s = IsConsistent s.metadata

  abbrev pub FileKeeps : File F → Type 0
  FileKeeps (holds sellers) = All IsKept sellers
  FileKeeps _ = Unit

  -- What a method has computed, where it has not failed.
  abbrev pub NodeKept : Result RegistryError (SellerNode F) → Type 0
  NodeKept (ok node) = IsConsistent node
  NodeKept (err e) = Unit

  abbrev pub ListKept : Result RegistryError (SellerNode F × List (SellerRecord F)) → Type 0
  ListKept (ok (node, sellers)) = All IsKept sellers
  ListKept (err e) = Unit

  changed-ListKept :
      (s : SellerRecord F) (rest : List (SellerRecord F)) (r : Result RegistryError (SellerNode F))
      → NodeKept r
      → All IsKept rest
      → ListKept (r >>= λ node. ok (node, record s { metadata = node } ∷ rest))
  changed-ListKept s rest (ok node) k h = (k, h)
  changed-ListKept s rest (err e) k h = tt

  skipped-ListKept :
      (s : SellerRecord F) (r : Result RegistryError (SellerNode F × List (SellerRecord F)))
      → IsKept s
      → ListKept r
      → ListKept (r >>= λ q. ok (q.0, s ∷ q.1))
  skipped-ListKept s (ok (node, sellers)) k h = (k, h)
  skipped-ListKept s (err e) k h = tt

  change_first-ListKept :
      (peer : Text) (change : SellerNode F → Result RegistryError (SellerNode F))
      → ((node : SellerNode F) → IsConsistent node → NodeKept (change node))
      → (sellers : List (SellerRecord F)) → All IsKept sellers
      → ListKept (change_first peer change sellers)
  unfolding change_first
  change_first-ListKept peer change keeps [] h = tt
  change_first-ListKept peer change keeps (s ∷ rest) h = elim (Bool-cases (has_peer_id peer s)) [
    | inl here ↦ rw here (changed-ListKept s rest (change s.metadata) (keeps s.metadata h.0) h.1)
    | inr not_here ↦ rw not_here (
        skipped-ListKept s (change_first peer change rest) h.0
          (change_first-ListKept peer change keeps rest h.1))
  ]

  pub store_changes-FileKeeps :
      (disk : Disk) (file : File F)
      (r : Result RegistryError (SellerNode F × List (SellerRecord F)))
      → FileKeeps file
      → ListKept r
      → FileKeeps (store_changes disk file r).1
  unfolding save
  store_changes-FileKeeps writes file (ok (node, sellers)) old new = new
  store_changes-FileKeeps refuses file (ok (node, sellers)) old new = old
  store_changes-FileKeeps tears file (ok (node, sellers)) old new = tt
  store_changes-FileKeeps disk file (err e) old new = old

  pub with_seller-FileKeeps :
      (peer : Text) (change : SellerNode F → Result RegistryError (SellerNode F))
      → ((node : SellerNode F) → IsConsistent node → NodeKept (change node))
      → (disk : Disk) (file : File F) → FileKeeps file
      → FileKeeps (with_seller peer change disk file).1
  unfolding with_seller load
  with_seller-FileKeeps peer change keeps disk absent h =
      store_changes-FileKeeps disk absent (change_first peer change []) h
        (change_first-ListKept peer change keeps [] tt)
  with_seller-FileKeeps peer change keeps disk (holds sellers) h =
      store_changes-FileKeeps disk (holds sellers) (change_first peer change sellers) h
        (change_first-ListKept peer change keeps sellers h)
  with_seller-FileKeeps peer change keeps disk garbage h = tt

  pub set-FileKeeps :
      (peer : Text) (set : SellerNode F → SellerNode F)
      → ((node : SellerNode F) → IsConsistent node → IsConsistent (set node))
      → (disk : Disk) (file : File F) → FileKeeps file
      → FileKeeps (with_seller peer (λ node. ok (set node)) disk file).1
  set-FileKeeps peer set keeps disk file h =
      with_seller-FileKeeps peer (λ node. ok (set node)) keeps disk file h
