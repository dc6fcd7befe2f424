-- ===== src/Types.antt =====
-- pkg/types: the values that buyers, sellers and the control pane exchange. `F` is the type of floats;
-- Go's `int` and `int64` are `ℤ`.
use knowledge_mesh.Base.{Bool, false, Option, none, List, []}
use knowledge_mesh.Base.Float.{Float}
use knowledge_mesh.Base.Int.{ℤ, pos}
use knowledge_mesh.Base.Text.{Text}

pub record Skill (F : Type 0) : Type 0 where
  pub name : Text
  pub model_name : Text
  pub model_type : Text
  pub tuning_tier : Text
  pub price : F

pub record RateLimits : Type 0 where
  pub max_input_tokens : ℤ
  pub max_output_tokens : ℤ
  pub max_total_tokens : ℤ
  pub hourly_tokens : ℤ
  pub daily_tokens : ℤ
  pub total_tokens : ℤ

pub record UsageCounters : Type 0 where
  pub requests_served : ℤ
  pub input_tokens : ℤ
  pub output_tokens : ℤ
  pub total_tokens : ℤ
  pub hourly_tokens : ℤ
  pub daily_tokens : ℤ
  pub hour_bucket_unix : ℤ
  pub day_bucket_unix : ℤ

pub record ResourceHints : Type 0 where
  pub cpu_cores : ℤ
  pub memory_mb : ℤ
  pub gpus : ℤ

pub record NodeMetadata (F : Type 0) : Type 0 where
  pub peer_id : Text
  pub skills : List (Skill F)
  pub model_name : Text
  pub model_type : Text
  pub tuning_tier : Text
  pub price : F
  pub reputation : F
  pub on_duty : Bool
  pub token_limits : RateLimits
  pub resource_hints : ResourceHints

-- The declared models of a backend; the three backends use the same shape.
pub record ModelDecl : Type 0 where
  pub id : Text
  pub name : Text
  pub hourly_tokens : ℤ
  pub daily_tokens : ℤ
  pub total_tokens : ℤ

pub record AnthropicSellerConfig : Type 0 where
  pub api_key_env : Text
  pub models : List ModelDecl

pub record OpenAiSellerConfig : Type 0 where
  pub api_key_env : Text
  pub base_url : Text
  pub models : List ModelDecl

pub record OllamaSellerConfig : Type 0 where
  pub base_url : Text
  pub models : List ModelDecl

pub record SellerNode (F : Type 0) : Type 0 where
  pub peer_id : Text
  pub listen_addrs : List Text
  pub skills : List (Skill F)
  pub model_name : Text
  pub model_type : Text
  pub tuning_tier : Text
  pub price : F
  pub reputation : F
  pub on_duty : Bool
  pub token_limits : RateLimits
  pub resource_hints : ResourceHints
  pub usage : UsageCounters
  pub metadata : NodeMetadata F
  pub anthropic : Option AnthropicSellerConfig
  pub openai : Option OpenAiSellerConfig
  pub ollama : Option OllamaSellerConfig

pub record InferenceRequest (F : Type 0) : Type 0 where
  pub request_id : Text
  pub buyer_peer_id : Text
  pub model_name : Text
  pub model_type : Text
  pub tuning_tier : Text
  pub skill : Skill F
  pub input : Text
  pub max_price : F
  pub token_limits : RateLimits

pub record InferenceResponse (F : Type 0) : Type 0 where
  pub request_id : Text
  pub seller_peer_id : Text
  pub status : Text
  pub model_name : Text
  pub model_type : Text
  pub tuning_tier : Text
  pub output : Text
  pub price_charged : F
  pub reputation : F
  pub on_duty : Bool
  pub success : Bool
  pub error : Text
  pub token_usage : UsageCounters
  pub seller_metadata : NodeMetadata F

-- Go's zero values.
abbrev pub no_limits : RateLimits
no_limits = record {
  max_input_tokens = pos 0;
  max_output_tokens = pos 0;
  max_total_tokens = pos 0;
  hourly_tokens = pos 0;
  daily_tokens = pos 0;
  total_tokens = pos 0;
}

abbrev pub no_usage : UsageCounters
no_usage = record {
  requests_served = pos 0;
  input_tokens = pos 0;
  output_tokens = pos 0;
  total_tokens = pos 0;
  hourly_tokens = pos 0;
  daily_tokens = pos 0;
  hour_bucket_unix = pos 0;
  day_bucket_unix = pos 0;
}

abbrev pub no_hints : ResourceHints
no_hints = record { cpu_cores = pos 0; memory_mb = pos 0; gpus = pos 0 }

module _ {F : Type 0} ⦃f : Float F⦄ where
  abbrev pub no_metadata : NodeMetadata F
  no_metadata = record {
    peer_id = [];
    skills = [];
    model_name = [];
    model_type = [];
    tuning_tier = [];
    price = f.nought;
    reputation = f.nought;
    on_duty = false;
    token_limits = no_limits;
    resource_hints = no_hints;
  }

  abbrev pub no_node : SellerNode F
  no_node = record {
    peer_id = [];
    listen_addrs = [];
    skills = [];
    model_name = [];
    model_type = [];
    tuning_tier = [];
    price = f.nought;
    reputation = f.nought;
    on_duty = false;
    token_limits = no_limits;
    resource_hints = no_hints;
    usage = no_usage;
    metadata = no_metadata;
    anthropic = none;
    openai = none;
    ollama = none;
  }

  abbrev pub no_skill : Skill F
  no_skill = record {
    name = [];
    model_name = [];
    model_type = [];
    tuning_tier = [];
    price = f.nought;
  }

  abbrev pub no_response : InferenceResponse F
  no_response = record {
    request_id = [];
    seller_peer_id = [];
    status = [];
    model_name = [];
    model_type = [];
    tuning_tier = [];
    output = [];
    price_charged = f.nought;
    reputation = f.nought;
    on_duty = false;
    success = false;
    error = [];
    token_usage = no_usage;
    seller_metadata = no_metadata;
  }
