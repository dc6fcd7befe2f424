-- ===== src/Seller/Registry/Consistent.antt =====
-- internal/seller/auth_registry.go: what every record of the registry keeps.
use knowledge_mesh.Base.{
  Bool-cases, All, any, ℕ, ◌≡◌, refl, inl, inr, Bool, true, false, List, [], ◌∷◌, ◌++◌,
}
use knowledge_mesh.Base.Float.{Float}
use knowledge_mesh.Base.Int.{ℤ}
use knowledge_mesh.Base.Result.{Result, ok, err, ◌>>=◌, ◌>>◌, refuse_if}
use knowledge_mesh.Base.Text.{Text}
use knowledge_mesh.Buyer.Manager.{reset_if_bucket_changed, count_request}
use knowledge_mesh.Seller.Registry.{
  RegistryError, bad_credentials, RegisterInput, SellerRecord, File, absent, holds, garbage, Disk,
  load, put_on_duty, set_on_duty, with_anthropic, set_on_duty_with_anthropic, with_open_ai,
  set_on_duty_with_open_ai, with_ollama, set_on_duty_with_ollama, limit_tokens, set_token_limits,
  refuse_tokens, consume_tokens, check_and_consume, is_taken_by, record_of_input, add_seller,
  register,
}
use knowledge_mesh.Seller.Registry.Command.{
  Command, registers, turns_on_duty, turns_off_duty, uses_anthropic, uses_openai, uses_ollama,
  sets_token_limits, consumes_tokens, run,
}
use knowledge_mesh.Seller.Registry.Kept.{
  AtMostOne, IsConsistent, IsKept, FileKeeps, NodeKept, ListKept, store_changes-FileKeeps,
  with_seller-FileKeeps, set-FileKeeps,
}
use knowledge_mesh.Types.{SellerNode}

module _ {F : Type 0} where
  put_on_duty-IsConsistent :
      (on : Bool) (node : SellerNode F) → IsConsistent node → IsConsistent (put_on_duty on node)
  put_on_duty-IsConsistent on node c = record {
    same_peer = c.same_peer;
    same_duty = refl;
    same_limits = c.same_limits;
    one_backend = c.one_backend;
  }

  limit_tokens-IsConsistent :
      (hourly daily total : ℤ) (node : SellerNode F)
      → IsConsistent node
      → IsConsistent (limit_tokens hourly daily total node)
  limit_tokens-IsConsistent hourly daily total node c = record {
    same_peer = c.same_peer;
    same_duty = c.same_duty;
    same_limits = refl;
    one_backend = c.one_backend;
  }

  -- The three ways to go on duty with a backend.
  backend-IsConsistent :
      (node new : SellerNode F)
      → IsConsistent node
      → new.metadata ≡ (put_on_duty true node).metadata
      → new.peer_id ≡ node.peer_id
      → new.on_duty ≡ true
      → new.token_limits ≡ node.token_limits
      → AtMostOne new.anthropic new.openai new.ollama
      → IsConsistent new
  backend-IsConsistent node new c m p d l one = record {
    same_peer = rw m (rw p c.same_peer);
    same_duty = rw m (rw d refl);
    same_limits = rw m (rw l c.same_limits);
    one_backend = one;
  }

  then-NodeKept :
      (m : Result RegistryError (Unit {0})) (r : Result RegistryError (SellerNode F))
      → NodeKept r
      → NodeKept (m >> r)
  then-NodeKept (err e) r k = tt
  then-NodeKept (ok u) r k = k

  consume_tokens-NodeKept :
      (tokens : ℤ) (now : ℕ) (node : SellerNode F)
      → IsConsistent node
      → NodeKept (consume_tokens tokens now node)
  unfolding consume_tokens
  consume_tokens-NodeKept tokens now node c =
      then-NodeKept (refuse_tokens tokens now node) (ok counted) kept
    where
      counted : SellerNode F
      counted = record node {
        usage = count_request (reset_if_bucket_changed node.usage now) tokens;
      }

      kept : IsConsistent counted
      kept = record {
        same_peer = c.same_peer;
        same_duty = c.same_duty;
        same_limits = c.same_limits;
        one_backend = c.one_backend;
      }

module _ {F : Type 0} ⦃f : Float F⦄ (hash_password : Text → Text) where
  add_seller-ListKept :
      (new : SellerRecord F) (sellers : List (SellerRecord F))
      → IsKept new
      → All IsKept sellers
      → ListKept (add_seller hash_password new sellers)
  unfolding add_seller
  add_seller-ListKept new sellers k h =
      elim (Bool-cases (any (is_taken_by hash_password new.username new.email) sellers)) [
        | inl taken ↦ rw taken tt
        | inr free ↦ rw free (append_kept sellers h)
      ]
    where
      append_kept : (xs : List (SellerRecord F)) → All IsKept xs → All IsKept (xs ++ (new ∷ []))
      append_kept [] h = (k, tt)
      append_kept (x ∷ xs) h = (h.0, append_kept xs h.1)

  refuse_if-ListKept :
      (refused : Bool) (e : RegistryError)
      (r : Result RegistryError (SellerNode F × List (SellerRecord F)))
      → ListKept r
      → ListKept (refuse_if refused e >> r)
  refuse_if-ListKept true e r k = tt
  refuse_if-ListKept false e r k = k

  load-ListKept :
      (file : File F)
      (add : List (SellerRecord F) → Result RegistryError (SellerNode F × List (SellerRecord F)))
      → FileKeeps file
      → ((sellers : List (SellerRecord F)) → All IsKept sellers → ListKept (add sellers))
      → ListKept (load file >>= add)
  unfolding load
  load-ListKept absent add h k = k [] tt
  load-ListKept (holds sellers) add h k = k sellers h
  load-ListKept garbage add h k = tt

  register-FileKeeps :
      (input : RegisterInput F) (disk : Disk) (file : File F)
      → FileKeeps file
      → FileKeeps (register hash_password input disk file).1
  unfolding register
  register-FileKeeps input disk file h =
      let new = record_of_input hash_password input in
      let fresh : IsKept new = record {
        same_peer = refl;
        same_duty = refl;
        same_limits = refl;
        one_backend = tt;
      } in
      store_changes-FileKeeps disk file _ h (
        refuse_if-ListKept _ bad_credentials _ (
          load-ListKept file (λ sellers. add_seller hash_password new sellers) h
            (λ sellers k. add_seller-ListKept new sellers fresh k)))

  -- Every call of the registry that changes its file, on whatever arguments and however the write goes,
  -- keeps this of each record: the advertised metadata has the node's peer id, duty and token limits,
  -- and the node is configured for one backend at most.
  pub run-FileKeeps :
      (command : Command F) (disk : Disk) (file : File F)
      → FileKeeps file
      → FileKeeps (run hash_password command disk file).1
  unfolding run set_on_duty set_on_duty_with_anthropic set_on_duty_with_open_ai
      set_on_duty_with_ollama set_token_limits check_and_consume
  run-FileKeeps (registers input) disk file h = register-FileKeeps input disk file h
  run-FileKeeps (turns_on_duty peer) disk file h =
      set-FileKeeps peer (put_on_duty true) (put_on_duty-IsConsistent true) disk file h
  run-FileKeeps (turns_off_duty peer) disk file h =
      set-FileKeeps peer (put_on_duty false) (put_on_duty-IsConsistent false) disk file h
  run-FileKeeps (uses_anthropic peer cfg) disk file h =
      set-FileKeeps peer (with_anthropic cfg)
        (λ node c. backend-IsConsistent node (with_anthropic cfg node) c refl refl refl refl tt)
        disk file h
  run-FileKeeps (uses_openai peer cfg) disk file h =
      set-FileKeeps peer (with_open_ai cfg)
        (λ node c. backend-IsConsistent node (with_open_ai cfg node) c refl refl refl refl tt) disk
        file h
  run-FileKeeps (uses_ollama peer cfg) disk file h =
      set-FileKeeps peer (with_ollama cfg)
        (λ node c. backend-IsConsistent node (with_ollama cfg node) c refl refl refl refl tt) disk
        file h
  run-FileKeeps (sets_token_limits peer hourly daily total) disk file h =
      set-FileKeeps peer (limit_tokens hourly daily total)
        (limit_tokens-IsConsistent hourly daily total) disk file h
  run-FileKeeps (consumes_tokens peer tokens now) disk file h =
      with_seller-FileKeeps peer (consume_tokens tokens now) (consume_tokens-NodeKept tokens now)
        disk file h
