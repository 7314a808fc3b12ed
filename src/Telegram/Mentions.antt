-- ===== src/Telegram/Mentions.antt =====
-- internal/channels/telegram.go: commands, mentions, and the text that is handed on.
use nisix.Common.{
  Bool, true, false, ◌&&◌, ◌||◌, not, Option, none, some, List, [], ◌∷◌, ◌++◌, if◌then◌else◌,
  is_nil,
}
use nisix.Common.Text.{
  Text, codes, eq_text, equal_fold, trim_space, to_lower, trim_prefix, has_prefix, contains, fields,
  join, cut, first_word,
}
use nisix.Telegram.{Adapter}

unfoldable pub is_group : Text → Bool
is_group chat_type =
    let c = to_lower (trim_space chat_type) in
    eq_text c (codes "group") || eq_text c (codes "supergroup")

abbrev is_start_or_help : Text → Bool
is_start_or_help cmd = eq_text cmd (codes "start") || eq_text cmd (codes "help")

-- `cmd` once "@bot" is taken off; another bot's command is none of ours.
abbrev for_bot : Text → Text → Option (Text × Text) → Bool
for_bot bot cmd none = is_start_or_help cmd
for_bot bot cmd (some (name, whose)) =
    if not (is_nil bot) && not (eq_text whose bot) then false else is_start_or_help name

unfoldable pub is_help_or_start_command : Adapter → Text → Bool
is_help_or_start_command t text =
    let first = trim_prefix (trim_space (first_word (fields (trim_space text)) text)) (codes "/") in
    if is_nil first
    then false
    else (let cmd = to_lower first in for_bot t.bot_username cmd (cut 64 cmd))

unfoldable pub help_text : Adapter → Text
help_text t =
    let base = codes "Nisix bot is online." ++ (10 ∷ codes "Use /help for this message.") in
    if is_nil t.bot_username
    then base
    else base
      ++ (10 ∷ (codes "In groups, mention @" ++ (t.bot_username ++ codes " in your prompt.")))

abbrev command_accepted : Text → Option (Text × Text) → Bool
command_accepted bot none = true
command_accepted bot (some (name, whose)) = if is_nil bot then false else equal_fold whose bot

abbrev first_command : Text → List Text → Bool
first_command bot [] = true
first_command bot (w ∷ ws) = command_accepted bot (cut 64 (trim_prefix w (codes "/")))

unfoldable pub accept_by_mention_policy : Adapter → Text → Text → Bool
unfolding is_group
accept_by_mention_policy t chat_type text =
    let msg = to_lower text in
    if not t.require_mention_in_groups
    then true
    else if not (is_group chat_type)
    then true
    else if has_prefix (trim_space msg) (codes "/")
    then first_command t.bot_username (fields (trim_space msg))
    else if is_nil t.bot_username
    then false
    else contains msg (64 ∷ t.bot_username)

abbrev is_mention : Text → Text → Bool
is_mention bot f = eq_text (to_lower f) (64 ∷ bot)

abbrev without_bot : Text → Text → Option (Text × Text) → Text
without_bot bot f none = f
without_bot bot f (some (name, whose)) = if equal_fold whose bot then name else f

-- The words behind the first, without mentions of the bot.
unfoldable pub drop_mentions : Text → List Text → List Text
drop_mentions bot [] = []
drop_mentions bot (f ∷ fs) =
    let rest = drop_mentions bot fs in if is_mention bot f then rest else f ∷ rest

-- The loop: the first word may be a command with the bot's name.
unfoldable pub clean_words : Text → List Text → List Text
unfolding drop_mentions
clean_words bot [] = []
clean_words bot (f ∷ fs) =
    let rest = drop_mentions bot fs in
    if is_mention bot f
    then rest
    else (if has_prefix f (codes "/") then without_bot bot f (cut 64 f) else f) ∷ rest

unfoldable pub sanitize_text : Adapter → Text → Text → Text
unfolding is_group clean_words
sanitize_text t chat_type text =
    if not (is_group chat_type)
    then trim_space text
    else if is_nil t.bot_username
    then trim_space text
    else trim_space (join (codes " ") (clean_words t.bot_username (fields text)))
