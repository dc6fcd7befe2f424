-- ===== src/Api.antt =====
-- internal/api/server.go: the HTTP server of a node. Its runtime is an interface; JSON is decoded and
-- encoded outside, so that a request has a decoded body or none, and a reply has the encoded value.
pub mod Prompt
pub mod Server
pub mod Inference
pub mod Node
pub mod Cases
pub mod Served
pub mod Agree
mod Examples
use knowledge_mesh.Base.{ℕ, Bool, Option, List}
use knowledge_mesh.Base.Int.{ℤ}
use knowledge_mesh.Base.Result.{Result}
use knowledge_mesh.Base.Text.{Text}
use knowledge_mesh.Control.Http.{Method}
use knowledge_mesh.Types.{InferenceRequest, InferenceResponse}

-- One message of a chat; an Anthropic message has its content undecoded.
pub record OpenAiChatMessage : Type 0 where
  pub role : Text
  pub content : Text

-- A block with the values of "type" and "text" that are texts.
pub record ContentBlock : Type 0 where
  pub type_of : Option Text
  pub text_of : Option Text

-- What `json.Unmarshal` makes of a content: a text, a list of blocks, or neither.
pub data RawContent : Type 0 where
  plain_text : Text → RawContent
  blocks : List ContentBlock → RawContent
  other_content : RawContent

pub record AnthropicMessage : Type 0 where
  pub role : Text
  pub content : RawContent

-- The bodies of the requests
pub record OpenAiChatCompletionsRequest : Type 0 where
  pub model : Text
  pub messages : List OpenAiChatMessage

pub record AnthropicMessagesRequest : Type 0 where
  pub model : Text
  pub max_tokens : ℤ
  pub messages : List AnthropicMessage

pub record BuyerRegisterBody : Type 0 where
  pub name : Text
  pub email : Text
  pub username : Text
  pub password : Text

pub record BuyerLoginBody : Type 0 where
  pub user : Text
  pub password : Text

-- The answers
pub record OpenAiCompletionUsages : Type 0 where
  pub prompt_tokens : ℤ
  pub completion_tokens : ℤ
  pub total_tokens : ℤ

pub record OpenAiChoice : Type 0 where
  pub index : ℤ
  pub message : OpenAiChatMessage
  pub finish_reason : Text

pub record OpenAiChatCompletionsResponse : Type 0 where
  pub id : Text
  pub object : Text
  pub created : ℤ
  pub model : Text
  pub choices : List OpenAiChoice
  pub usage : OpenAiCompletionUsages

pub record AnthropicContentBlock : Type 0 where
  pub block_type : Text
  pub text : Text

pub record AnthropicMessagesUsage : Type 0 where
  pub input_tokens : ℤ
  pub output_tokens : ℤ

pub record AnthropicMessagesResponse : Type 0 where
  pub id : Text
  pub kind : Text
  pub role : Text
  pub content : List AnthropicContentBlock
  pub model : Text
  pub stop_reason : Text
  pub usage : AnthropicMessagesUsage

pub record OpenAiModelItem : Type 0 where
  pub id : Text
  pub object : Text
  pub created : ℤ
  pub owned_by : Text

pub data ReplyBody : Type 0 where
  healthy : ReplyBody
  plain_error openai_error anthropic_error : Text → ReplyBody
  buyer_registered : Text → ReplyBody
  buyer_logged_in : Text → Text → ReplyBody
  model_list : List OpenAiModelItem → ReplyBody
  chat_completion : OpenAiChatCompletionsResponse → ReplyBody
  anthropic_message : AnthropicMessagesResponse → ReplyBody

pub record Reply : Type 0 where
  pub status : ℕ
  pub body : ReplyBody

-- What the handlers read of a request
pub record ApiRequest (B : Type 0) : Type 0 where
  pub method : Method
  pub session_id : Text
  pub authorization : Text
  pub body : Option B

-- MeshRuntime over a state `S` with errors `E`. A registration and a login return the buyer's id, the
-- login the session's id too.
pub record MeshRuntime (S E F : Type 0) : Type 0 where
  pub run_inference : Text → InferenceRequest F → S → Result E (InferenceResponse F) × S
  pub register : Text → Text → Text → S → Result E Text × S
  pub login : Text → Text → S → Result E (Text × Text) × S
  pub is_invalid_session : E → Bool
  pub error_text : E → Text
