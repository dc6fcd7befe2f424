-- ===== src/Seller/Registry.antt =====
-- internal/seller/auth_registry.go: the sellers' accounts in a JSON file. JSON is taken to give back the
-- records that were written; SHA-256 is a parameter; times are seconds since 1970.
pub mod Command
pub mod Kept
pub mod Limits
pub mod Consistent
use knowledge_mesh.Base.{
  if◌then◌else◌, ℕ, Bool, true, not, ◌||◌, none, some, List, [], ◌∷◌, any, find, ◌++◌,
}
use knowledge_mesh.Base.Float.{Float}
use knowledge_mesh.Base.Int.{ℤ}
use knowledge_mesh.Base.Result.{Result, ok, err, ◌>>=◌, ◌>>◌, refuse_if, or_fail}
use knowledge_mesh.Base.Text.{Text, text_beq, equal_fold, to_lower, trim_space, is_empty}
use knowledge_mesh.Buyer.Manager.{reset_if_bucket_changed, exceeds, count_request}
use knowledge_mesh.Types.{
  Skill, ResourceHints, AnthropicSellerConfig, OpenAiSellerConfig, OllamaSellerConfig, SellerNode,
  no_metadata, no_node,
}

pub data RegistryError : Type 0 where
  user_already_exists bad_credentials no_such_seller seller_off_duty : RegistryError
  over_hourly_limit over_daily_limit over_total_limit io_error : RegistryError

pub record RegisterInput (F : Type 0) : Type 0 where
  pub username : Text
  pub email : Text
  pub password : Text
  pub peer_id : Text
  pub skills : List (Skill F)
  pub model_name : Text
  pub model_type : Text
  pub tuning_tier : Text
  pub price : F
  pub resource_hints : ResourceHints

pub record SellerRecord (F : Type 0) : Type 0 where
  pub username : Text
  pub email : Text
  pub password_hash : Text
  pub metadata : SellerNode F

-- The registry's file: not there, with its records, or with other bytes.
pub data File (F : Type 0) : Type 0 where
  absent : File F
  holds : List (SellerRecord F) → File F
  garbage : File F

-- What os.WriteFile does: it writes all, nothing, or fails after it has cut the file.
pub data Disk : Type 0 where
  writes refuses tears : Disk

module _ {F : Type 0} where
  unfoldable pub load : File F → Result RegistryError (List (SellerRecord F))
  load absent = ok []
  load (holds sellers) = ok sellers
  load garbage = err io_error

  -- Registry.save, and the return that follows it.
  unfoldable pub save :
      Disk
      → SellerNode F
      → List (SellerRecord F)
      → File F
      → Result RegistryError (SellerNode F) × File F
  save writes node sellers file = (ok node, holds sellers)
  save refuses node sellers file = (err io_error, file)
  save tears node sellers file = (err io_error, garbage)

  abbrev pub has_peer_id : Text → SellerRecord F → Bool
  has_peer_id peer s = text_beq s.metadata.peer_id peer

  -- findSellerByPeerID and the update at its index: the first record of the peer, and the change of it.
  unfoldable pub change_first :
      Text
      → (SellerNode F → Result RegistryError (SellerNode F))
      → List (SellerRecord F)
      → Result RegistryError (SellerNode F × List (SellerRecord F))
  change_first peer change [] = err no_such_seller
  change_first peer change (s ∷ rest) =
      if has_peer_id peer s
      then (change s.metadata >>= λ node. ok (node, record s { metadata = node } ∷ rest))
      else (change_first peer change rest >>= λ r. ok (r.0, s ∷ r.1))

  -- The answer of a method that has read the file: an error, or a node and the records to write.
  abbrev pub store_changes :
      Disk
      → File F
      → Result RegistryError (SellerNode F × List (SellerRecord F))
      → Result RegistryError (SellerNode F) × File F
  store_changes disk file (ok (node, sellers)) = save disk node sellers file
  store_changes disk file (err e) = (err e, file)

  -- The methods that read the file, change the node of a peer, and write the file.
  unfoldable pub with_seller :
      Text
      → (SellerNode F → Result RegistryError (SellerNode F))
      → Disk
      → File F
      → Result RegistryError (SellerNode F) × File F
  unfolding load change_first save
  with_seller peer change disk file =
      store_changes disk file (load file >>= λ sellers. change_first peer change sellers)

  abbrev pub put_on_duty : Bool → SellerNode F → SellerNode F
  put_on_duty on node = record node {
    on_duty = on;
    metadata = record (node.metadata) { on_duty = on };
  }

  unfoldable pub set_on_duty :
      Text → Bool → Disk → File F → Result RegistryError (SellerNode F) × File F
  unfolding with_seller
  set_on_duty peer on = with_seller peer λ node. ok (put_on_duty on node)

  abbrev pub with_anthropic : AnthropicSellerConfig → SellerNode F → SellerNode F
  with_anthropic cfg node = record (put_on_duty true node) {
    anthropic = some cfg;
    openai = none;
    ollama = none;
  }

  unfoldable pub set_on_duty_with_anthropic :
      Text → AnthropicSellerConfig → Disk → File F → Result RegistryError (SellerNode F) × File F
  unfolding with_seller
  set_on_duty_with_anthropic peer cfg = with_seller peer λ node. ok (with_anthropic cfg node)

  abbrev pub with_open_ai : OpenAiSellerConfig → SellerNode F → SellerNode F
  with_open_ai cfg node = record (put_on_duty true node) {
    openai = some cfg;
    anthropic = none;
    ollama = none;
  }

  unfoldable pub set_on_duty_with_open_ai :
      Text → OpenAiSellerConfig → Disk → File F → Result RegistryError (SellerNode F) × File F
  unfolding with_seller
  set_on_duty_with_open_ai peer cfg = with_seller peer λ node. ok (with_open_ai cfg node)

  abbrev pub with_ollama : OllamaSellerConfig → SellerNode F → SellerNode F
  with_ollama cfg node = record (put_on_duty true node) {
    ollama = some cfg;
    openai = none;
    anthropic = none;
  }

  unfoldable pub set_on_duty_with_ollama :
      Text → OllamaSellerConfig → Disk → File F → Result RegistryError (SellerNode F) × File F
  unfolding with_seller
  set_on_duty_with_ollama peer cfg = with_seller peer λ node. ok (with_ollama cfg node)

  abbrev pub limit_tokens : ℤ → ℤ → ℤ → SellerNode F → SellerNode F
  limit_tokens hourly daily total node =
      let limits = record (node.token_limits) {
        hourly_tokens = hourly;
        daily_tokens = daily;
        total_tokens = total;
      } in
      record node {
        token_limits = limits;
        metadata = record (node.metadata) { token_limits = limits };
      }

  unfoldable pub set_token_limits :
      Text → ℤ → ℤ → ℤ → Disk → File F → Result RegistryError (SellerNode F) × File F
  unfolding with_seller
  set_token_limits peer hourly daily total =
      with_seller peer λ node. ok (limit_tokens hourly daily total node)

  -- What checkAndConsume makes of a node. Its buckets and its comparisons are those of the buyer's limits.
  unfoldable pub refuse_tokens : ℤ → ℕ → SellerNode F → Result RegistryError (Unit {0})
  unfolding reset_if_bucket_changed exceeds
  refuse_tokens tokens now node =
      let usage = reset_if_bucket_changed node.usage now in
      let limits = node.token_limits in
      refuse_if (not node.on_duty) seller_off_duty
      >> refuse_if (exceeds limits.hourly_tokens usage.hourly_tokens tokens) over_hourly_limit
      >> refuse_if (exceeds limits.daily_tokens usage.daily_tokens tokens) over_daily_limit
      >> refuse_if (exceeds limits.total_tokens usage.total_tokens tokens) over_total_limit

  unfoldable pub consume_tokens : ℤ → ℕ → SellerNode F → Result RegistryError (SellerNode F)
  unfolding refuse_tokens reset_if_bucket_changed count_request
  consume_tokens tokens now node =
      let usage = count_request (reset_if_bucket_changed node.usage now) tokens in
      refuse_tokens tokens now node >> ok (record node { usage = usage })

  unfoldable pub check_and_consume :
      Text → ℤ → ℕ → Disk → File F → Result RegistryError (SellerNode F) × File F
  unfolding with_seller consume_tokens
  check_and_consume peer tokens now = with_seller peer (consume_tokens tokens now)

module _ {F : Type 0} ⦃f : Float F⦄ (hash_password : Text → Text) where
  -- The test of the loop in Register, on names that are trimmed already.
  abbrev pub is_taken_by : Text → Text → SellerRecord F → Bool
  is_taken_by username email s = equal_fold s.username username || equal_fold s.email email

  abbrev pub node_of_input : RegisterInput F → SellerNode F
  node_of_input input = record no_node {
    peer_id = input.peer_id;
    skills = input.skills;
    model_name = input.model_name;
    model_type = input.model_type;
    tuning_tier = input.tuning_tier;
    price = input.price;
    on_duty = true;
    resource_hints = input.resource_hints;
    metadata = record no_metadata {
      peer_id = input.peer_id;
      skills = input.skills;
      model_name = input.model_name;
      model_type = input.model_type;
      tuning_tier = input.tuning_tier;
      price = input.price;
      on_duty = true;
      resource_hints = input.resource_hints;
    };
  }

  abbrev pub record_of_input : RegisterInput F → SellerRecord F
  record_of_input input = record {
    username = trim_space input.username;
    email = trim_space (to_lower input.email);
    password_hash = hash_password input.password;
    metadata = node_of_input input;
  }

  -- The records with the new one, unless a name is taken.
  unfoldable pub add_seller :
      SellerRecord F
      → List (SellerRecord F)
      → Result RegistryError (SellerNode F × List (SellerRecord F))
  add_seller new sellers =
      if any (is_taken_by new.username new.email) sellers
      then err user_already_exists
      else ok (new.metadata, sellers ++ (new ∷ []))

  unfoldable pub register :
      RegisterInput F → Disk → File F → Result RegistryError (SellerNode F) × File F
  unfolding add_seller load save
  register input disk file =
      let new = record_of_input input in
      store_changes disk file (
        refuse_if (is_empty new.username || is_empty new.email || is_empty input.password)
          bad_credentials
        >> (load file >>= λ sellers. add_seller new sellers))

  -- The loop of Login over the records.
  abbrev pub matches_user : Text → SellerRecord F → Bool
  matches_user user s = equal_fold s.username user || equal_fold s.email user

  unfoldable pub login : Text → Text → File F → Result RegistryError (SellerNode F)
  unfolding load
  login user_text password file =
      let user = trim_space user_text in
      refuse_if (is_empty user || is_empty password) bad_credentials
      >> (load file >>= λ sellers.
          or_fail (find (matches_user user) sellers) bad_credentials >>= λ s.
          refuse_if (not (text_beq s.password_hash (hash_password password))) bad_credentials
          >> ok s.metadata)
