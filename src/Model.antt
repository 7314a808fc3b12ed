-- ===== src/Model.antt =====
-- internal/model/client.go: the prompts that a model gets.
use nisix.Common.{List, [], ◌∷◌, ◌++◌, if◌then◌else◌, is_nil}
use nisix.Common.Text.{Text, codes, eq_text, trim_space, to_lower, has_prefix, join}
use nisix.Domain.{AgentIdentity, ConversationMessage}

pub record Request : Type 0 where
  pub agent_id : Text
  pub session_key : Text
  pub user_text : Text
  pub history : List ConversationMessage
  pub conversation_summary : Text
  pub identity : AgentIdentity
  pub soul_text : Text
  pub project_context : Text
  pub skill_prompt : Text
  pub memory_hits : List Text

-- The lines of a part whose trimmed text is not empty.
abbrev part : (Text → List Text) → Text → List Text
part lines v = if is_nil v then [] else lines v

abbrev titled : Text → Text → List Text
titled title v = title ∷ v ∷ []

abbrev project_lines : Text → List Text
project_lines v = if has_prefix v (codes "#") then v ∷ [] else titled (codes "Project context:") v

unfoldable pub hit_lines : List Text → List Text
hit_lines [] = []
hit_lines (hit ∷ hits) = (codes "- " ++ hit) ∷ hit_lines hits

abbrev memory_lines : List Text → List Text
memory_lines [] = []
memory_lines (hit ∷ hits) = codes "Relevant memory files:" ∷ hit_lines (hit ∷ hits)

abbrev opening : Text → Text
opening name =
    if is_nil name
    then codes "You are a helpful assistant."
    else codes "You are " ++ name ++ codes "."

unfoldable pub system_lines : Request → List Text
system_lines req =
    opening (trim_space req.identity.name)
    ∷ (part (λ v. (codes "Persona emoji: " ++ v ++ codes ".") ∷ []) (trim_space req.identity.emoji)
        ++ part (λ v. (codes "Persona avatar: " ++ v ++ codes ".") ∷ [])
            (trim_space req.identity.avatar)
        ++ part (titled (codes "SOUL instructions:")) (trim_space req.soul_text)
        ++ part project_lines (trim_space req.project_context)
        ++ part (titled (codes "Active skills:")) (trim_space req.skill_prompt)
        ++ part (titled (codes "Conversation summary:")) (trim_space req.conversation_summary)
        ++ memory_lines req.memory_hits)

unfoldable pub build_system_prompt : Request → Text
build_system_prompt req = join (codes "\n") (system_lines req)

unfoldable pub normalize_conversation_role : Text → Text
normalize_conversation_role role =
    if eq_text (to_lower (trim_space role)) (codes "assistant")
    then codes "Assistant"
    else codes "User"

unfoldable pub history_lines : List ConversationMessage → List Text
history_lines [] = []
history_lines (msg ∷ history) =
    let rest = history_lines history in
    if is_nil (trim_space msg.text)
    then rest
    else (normalize_conversation_role msg.role ++ codes ": " ++ trim_space msg.text) ∷ rest

unfoldable pub build_user_prompt : Request → Text
build_user_prompt req =
    if is_nil req.history
    then trim_space req.user_text
    else join (codes "\n") (
        codes "Conversation history:"
        ∷ (history_lines req.history
            ++ codes "Current user message:" ∷ trim_space req.user_text ∷ []))
