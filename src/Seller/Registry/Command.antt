-- ===== src/Seller/Registry/Command.antt =====
-- internal/seller/auth_registry.go: the calls that change the registry, as values.
use knowledge_mesh.Base.{ℕ, true, false}
use knowledge_mesh.Base.Float.{Float}
use knowledge_mesh.Base.Int.{ℤ}
use knowledge_mesh.Base.Result.{Result}
use knowledge_mesh.Base.Text.{Text}
use knowledge_mesh.Seller.Registry.{
  RegistryError, RegisterInput, File, Disk, set_on_duty, set_on_duty_with_anthropic,
  set_on_duty_with_open_ai, set_on_duty_with_ollama, set_token_limits, check_and_consume, register,
}
use knowledge_mesh.Types.{AnthropicSellerConfig, OpenAiSellerConfig, OllamaSellerConfig, SellerNode}

pub data Command (F : Type 0) : Type 0 where
  registers : RegisterInput F → Command F
  turns_on_duty turns_off_duty : Text → Command F
  uses_anthropic : Text → AnthropicSellerConfig → Command F
  uses_openai : Text → OpenAiSellerConfig → Command F
  uses_ollama : Text → OllamaSellerConfig → Command F
  sets_token_limits : Text → ℤ → ℤ → ℤ → Command F
  consumes_tokens : Text → ℤ → ℕ → Command F

module _ {F : Type 0} ⦃f : Float F⦄ (hash_password : Text → Text) where
  -- The methods of Registry and SellerStateManager.
  unfoldable pub run : Command F → Disk → File F → Result RegistryError (SellerNode F) × File F
  unfolding register set_on_duty set_on_duty_with_anthropic set_on_duty_with_open_ai
      set_on_duty_with_ollama set_token_limits check_and_consume
  run (registers input) = register hash_password input
  run (turns_on_duty peer) = set_on_duty peer true
  run (turns_off_duty peer) = set_on_duty peer false
  run (uses_anthropic peer cfg) = set_on_duty_with_anthropic peer cfg
  run (uses_openai peer cfg) = set_on_duty_with_open_ai peer cfg
  run (uses_ollama peer cfg) = set_on_duty_with_ollama peer cfg
  run (sets_token_limits peer hourly daily total) = set_token_limits peer hourly daily total
  run (consumes_tokens peer tokens now) = check_and_consume peer tokens now
