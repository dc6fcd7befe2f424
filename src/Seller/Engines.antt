-- ===== src/Seller/Engines.antt =====
-- internal/seller/engine.go and the engines of openai, anthropic and ollama: the choice of an engine and of
-- a model. The calls of the vendors are parameters.
-- The loop over the declared models of a backend, and what it falls back to when none is declared.
use knowledge_mesh.Base.{if◌then◌else◌, ◌||◌, Option, none, some, List, [], ◌∷◌, ◌++◌}
use knowledge_mesh.Base.Result.{Result, ok, err, or_fail}
use knowledge_mesh.Base.Text.{Text, codes, text_beq, trim_space, is_empty}
use knowledge_mesh.Types.{
  ModelDecl, AnthropicSellerConfig, OpenAiSellerConfig, OllamaSellerConfig, SellerNode,
  InferenceRequest,
}

unfoldable pub declared_model : Text → List ModelDecl → Option Text
declared_model requested [] = none
declared_model requested (m ∷ rest) =
    let later = declared_model requested rest in
    if text_beq m.id requested || text_beq m.name requested
    then some (if is_empty (trim_space m.name) then m.id else m.name)
    else later

abbrev or_default : Text → Text → Option Text
or_default requested default = some (if is_empty requested then default else requested)

abbrev resolve_in : Text → List ModelDecl → Text → Option Text
resolve_in default [] requested = or_default requested default
resolve_in default (m ∷ rest) requested = declared_model requested (m ∷ rest)

-- The answer "" of the three functions is `none`; a model whose name and id are both empty has the answer
-- "" as well.
abbrev not_blank : Option Text → Option Text
not_blank none = none
not_blank (some model) = if is_empty model then none else some model

unfoldable pub resolve_open_ai_model_id : Option OpenAiSellerConfig → Text → Option Text
unfolding declared_model
resolve_open_ai_model_id none requested = or_default requested (codes "gpt-4o-mini")
resolve_open_ai_model_id (some cfg) requested =
    not_blank (resolve_in (codes "gpt-4o-mini") cfg.models requested)

unfoldable pub resolve_anthropic_model_id : Option AnthropicSellerConfig → Text → Option Text
unfolding declared_model
resolve_anthropic_model_id none requested = or_default requested (codes "claude-3-5-haiku-20241022")
resolve_anthropic_model_id (some cfg) requested =
    not_blank (resolve_in (codes "claude-3-5-haiku-20241022") cfg.models requested)

unfoldable pub resolve_ollama_model_id : Option OllamaSellerConfig → Text → Option Text
unfolding declared_model
resolve_ollama_model_id none requested = or_default requested (codes "llama3:mock")
resolve_ollama_model_id (some cfg) requested =
    not_blank (resolve_in (codes "llama3:mock") cfg.models requested)

pub data ModelEngine : Type 0 where
  open_ai_engine : OpenAiSellerConfig → ModelEngine
  anthropic_engine : AnthropicSellerConfig → ModelEngine
  ollama_engine : OllamaSellerConfig → ModelEngine
  mock_engine : ModelEngine

pub data GenerateError : Type 0 where
  unknown_model inference_failed vendor_error : GenerateError

-- The clients: a configuration, a model and a prompt give the text of the reply, or nothing.
pub record Vendors : Type 0 where
  pub chat_completion : OpenAiSellerConfig → Text → Text → Option Text
  pub create_message : AnthropicSellerConfig → Text → Text → Option Text
  pub ollama_generate : OllamaSellerConfig → Text → Text → Option Text

abbrev pub call_with : Option Text → (Text → Option Text) → Result GenerateError Text
call_with none call = err unknown_model
call_with (some model) call = or_fail (call model) vendor_error

module _ {F : Type 0} where
  -- ModelEngineFromSellerNode
  unfoldable pub model_engine_of_node : SellerNode F → ModelEngine
  model_engine_of_node node =
      if node.on_duty
      then elim node.openai [
        | some cfg ↦ open_ai_engine cfg
        | none ↦ elim node.anthropic [
          | some cfg ↦ anthropic_engine cfg
          | none ↦ elim node.ollama [ some cfg ↦ ollama_engine cfg | none ↦ mock_engine ]
        ]
      ]
      else mock_engine

  -- Engine.Generate of the three backends, and MockModelEngine.Generate
  unfoldable pub generate :
      Vendors → ModelEngine → Text → InferenceRequest F → Result GenerateError Text
  unfolding resolve_open_ai_model_id resolve_anthropic_model_id resolve_ollama_model_id
  generate vendors (open_ai_engine cfg) prompt req =
      call_with (resolve_open_ai_model_id (some cfg) (trim_space req.model_name))
        λ model. vendors.chat_completion cfg model prompt
  generate vendors (anthropic_engine cfg) prompt req =
      call_with (resolve_anthropic_model_id (some cfg) (trim_space req.model_name))
        λ model. vendors.create_message cfg model prompt
  generate vendors (ollama_engine cfg) prompt req =
      call_with (resolve_ollama_model_id (some cfg) (trim_space req.model_name))
        λ model. vendors.ollama_generate cfg model prompt
  generate vendors mock_engine prompt req =
      if is_empty (trim_space prompt)
      then err inference_failed
      else ok (codes "mock-result:" ++ prompt)
