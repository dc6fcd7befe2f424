-- ===== src/Api/Prompt.antt =====
-- internal/api/server.go: the session of a request and the prompt of its messages.
use knowledge_mesh.Api.{
  OpenAiChatMessage, ContentBlock, RawContent, plain_text, blocks, other_content, AnthropicMessage,
  ApiRequest,
}
use knowledge_mesh.Base.{
  ltb, if◌then◌else◌, length, ◌≡◌, refl, not, ◌&&◌, Option, none, some, List, [], ◌∷◌, ◌++◌,
}
use knowledge_mesh.Base.Text.{Text, codes, text_beq, lower, equal_fold, trim_space, is_empty}
use knowledge_mesh.Control.Http.Tokens.{take, drop}

-- `strings.Join` with line ends.
unfoldable pub join_lines : List Text → Text
join_lines [] = []
join_lines (line ∷ []) = line
join_lines (line ∷ next ∷ lines) = line ++ (10 ∷ join_lines (next ∷ lines))

abbrev pub unless_blank : Text → List Text → List Text
unless_blank line lines = if is_empty (trim_space line) then lines else line ∷ lines

unfoldable pub chat_lines : List OpenAiChatMessage → List Text
chat_lines [] = []
chat_lines (m ∷ messages) = unless_blank m.content (chat_lines messages)

unfoldable pub flatten_messages : List OpenAiChatMessage → Text
flatten_messages messages = join_lines (chat_lines messages)

-- The first block of type "text" whose text is one.
unfoldable pub first_text : List ContentBlock → Text
first_text [] = []
first_text (b ∷ rest) =
    let later = first_text rest in
    elim b.type_of [
      | none ↦ later
      | some t ↦
          if text_beq t (codes "text")
          then (elim b.text_of [ none ↦ later | some words ↦ words ])
          else later
    ]

abbrev pub extract_anthropic_text : RawContent → Text
extract_anthropic_text (plain_text words) = words
extract_anthropic_text (blocks bs) = first_text bs
extract_anthropic_text other_content = []

unfoldable pub anthropic_lines : List AnthropicMessage → List Text
anthropic_lines [] = []
anthropic_lines (m ∷ messages) =
    unless_blank (extract_anthropic_text m.content) (anthropic_lines messages)

unfoldable pub flatten_anthropic_messages : List AnthropicMessage → Text
flatten_anthropic_messages messages = join_lines (anthropic_lines messages)

unfoldable pub bearer_session : Text → Option Text
bearer_session auth =
    if ltb 7 (length auth) && equal_fold (take 7 auth) (codes "bearer ")
    then some (trim_space (drop 7 auth))
    else none

unfoldable pub parse_session : {B : Type 0} → ApiRequest B → Option Text
unfolding bearer_session
parse_session r =
    let h = trim_space r.session_id in
    if not (is_empty h) then some h else bearer_session (trim_space r.authorization)

joins : join_lines (codes "a" ∷ codes "b" ∷ []) ≡ codes "a" ++ (10 ∷ codes "b")
unfolding join_lines
joins = refl

bears : bearer_session (codes "Bearer tok") ≡ some (codes "tok")
unfolding bearer_session lower trim_space text_beq
bears = refl
