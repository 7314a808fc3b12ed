-- ===== src/Tests/Polling.antt =====
-- internal/channels/telegram.go on concrete updates.
use nisix.Common.Runes.{first_rune, rune_bytes, is_scalar, encode, decode_behind}
use nisix.Common.{
  ℕ, ◌≡◌, ◌≤◌, refl, true, false, none, some, List, [], ◌∷◌, length, take, All, arith,
}
use nisix.Common.Text.{Text, codes, trim_space, to_lower, trim_prefix, fields, cut, contains, join}
use nisix.Common.Int.{ℤ, pos, negsuc}
use nisix.Common.Decimal.{itoa, format_int}
use nisix.Common.Dict
use nisix.Domain.{InboundMessage, group}
use nisix.Telegram.{
  Adapter, TelegramOptions, TelegramMessage, TelegramUpdate, default_options, new_telegram_adapter,
  map_telegram_chat_type,
}
use nisix.Telegram.Dedupe.{has, is_duplicate_update}
use nisix.Telegram.Dedupe.Window.{answers, expected, answers-new}
use nisix.Telegram.Limits.{allow_by_rate_limit, allowed_by_allowlist}
use nisix.Telegram.Limits.Spacing.{passing, SpacedFrom, passing_spaced}
use nisix.Telegram.Chunks.{chunk_telegram_text, chunk_split, find_split, rune_at}
use nisix.Telegram.Chunks.Laws.{
  concat, IsChunk, IsUtf8, concat-chunk_telegram_text, chunk_telegram_text-IsChunk,
}
use nisix.Telegram.Mentions.{is_help_or_start_command, accept_by_mention_policy, sanitize_text}
use nisix.Telegram.Polling.{inbound, act, user_of, thread_of, handle_update, handle_updates}
use nisix.Telegram.Polling.Gates.{Admitted, handle_update-Admitted}
use nisix.Telegram.Polling.Offsets.{Confirmed, handle_updates-Confirmed}

abbrev bot : Adapter
bot = record {
  account_id = codes "ops";
  token = codes "t";
  bot_username = codes "nisixbot";
  auto_detect_bot_username = false;
  require_mention_in_groups = true;
  enable_help_commands = true;
  min_user_interval = 700;
  dedupe_window = 2;
  allowlist_mode = codes "off";
  allow_users = [];
  allow_chats = [];
  last_inbound_by_user = [];
  seen_update_order = [];
  seen_update_set = [];
}

abbrev mention : TelegramMessage
mention = record {
  message_id = pos 5;
  message_thread_id = pos 0;
  text = codes "@nisixbot hello there";
  chat = record { id = negsuc 41; type = codes "group" };
  from = some (record { id = pos 7; is_bot = false });
}

abbrev update : TelegramUpdate
update = record { update_id = pos 10; message = some mention }

abbrev handed_on : InboundMessage
handed_on = record {
  channel = codes "telegram";
  account_id = codes "ops";
  peer_id = codes "-42";
  peer_type = group;
  user_id = codes "7";
  text = codes "hello there";
  thread_id = [];
  run_id = [];
  at = 1000;
}

handles : (handle_update bot update 1000).1 ≡ inbound handed_on
unfolding handle_update is_duplicate_update trim_space allow_by_rate_limit Dict.get
    allowed_by_allowlist act is_help_or_start_command trim_prefix fields cut to_lower
    accept_by_mention_policy contains sanitize_text join format_int map_telegram_chat_type user_of
    thread_of itoa
handles = refl

handle_update-Admitted_example :
    ((is_duplicate_update bot update.update_id).1 ≡ false)
    × ((msg : TelegramMessage) × (update.message ≡ some msg)
        × Admitted (is_duplicate_update bot update.update_id).0 msg 1000 handed_on)
handle_update-Admitted_example = handle_update-Admitted bot update 1000 handed_on handles

handle_updates-Confirmed_example :
    (3 ≤ (handle_updates (λ m. true) bot 3 ((update, 1000) ∷ [])).1)
    × All (Confirmed (handle_updates (λ m. true) bot 3 ((update, 1000) ∷ [])).1) (
        take
          (length (handle_updates (λ m. true) bot 3 ((update, 1000) ∷ [])).2)
          ((update, 1000) ∷ []))
handle_updates-Confirmed_example = handle_updates-Confirmed (λ m. true) bot 3 ((update, 1000) ∷ [])

abbrev narrow : TelegramOptions
narrow = record default_options { dedupe_window = pos 2 }

abbrev ids : List ℤ
ids = pos 1 ∷ pos 2 ∷ pos 1 ∷ pos 3 ∷ pos 1 ∷ []

expected_test : expected 2 [] ids ≡ false ∷ false ∷ true ∷ false ∷ false ∷ []
unfolding expected has
expected_test = refl

answers-new_example :
    answers (new_telegram_adapter (codes "t") (some narrow)) ids
    ≡ expected (new_telegram_adapter (codes "t") (some narrow)).dedupe_window [] ids
answers-new_example = answers-new (codes "t") (some narrow) ids

abbrev posts : List (Text × ℕ)
posts = (codes "7", 1000) ∷ (codes "7", 1400) ∷ (codes "8", 1500) ∷ (codes "7", 1900) ∷ []

passing_test : passing bot (codes "7") posts ≡ 1000 ∷ 1900 ∷ []
unfolding passing allow_by_rate_limit Dict.get Dict.put
passing_test = refl

passing_spaced_example : SpacedFrom 700 none (passing bot (codes "7") posts)
unfolding Dict.get
passing_spaced_example = passing_spaced bot (codes "7") posts refl

chunk_test : chunk_telegram_text (codes "ab cd ef") 5 ≡ codes "ab" ∷ codes " cd" ∷ codes " ef" ∷ []
unfolding chunk_telegram_text chunk_split find_split rune_at first_rune rune_bytes is_scalar
chunk_test = refl

-- Two runes of two bytes, with a space between them.
abbrev accents : Text
accents = 195 ∷ 169 ∷ 32 ∷ 195 ∷ 160 ∷ []

accents_test : chunk_telegram_text accents 2 ≡ (195 ∷ 169 ∷ []) ∷ (32 ∷ 195 ∷ 160 ∷ []) ∷ []
unfolding chunk_telegram_text chunk_split find_split rune_at first_rune rune_bytes is_scalar
accents_test = refl

-- A byte that is no UTF-8 comes out as U+FFFD.
bad_byte_test :
    chunk_telegram_text (97 ∷ 255 ∷ 98 ∷ []) 2 ≡ (97 ∷ 239 ∷ 191 ∷ 189 ∷ []) ∷ (98 ∷ []) ∷ []
unfolding chunk_telegram_text chunk_split find_split rune_at first_rune rune_bytes is_scalar
bad_byte_test = refl

concat-chunk_telegram_text_example : concat (chunk_telegram_text accents 2) ≡ accents
unfolding IsUtf8 encode decode_behind rune_bytes is_scalar first_rune
concat-chunk_telegram_text_example = concat-chunk_telegram_text accents 2 refl

chunk_telegram_text-IsChunk_example : All (IsChunk 2) (chunk_telegram_text accents 2)
chunk_telegram_text-IsChunk_example =
    chunk_telegram_text-IsChunk accents 2 (omega arith) (omega arith)

-- A rest that fits a chunk is split at its last space all the same.
chunk_rest_test :
    chunk_telegram_text (codes "abcde f g") 5 ≡ codes "abcde" ∷ codes " f" ∷ codes " g" ∷ []
unfolding chunk_telegram_text chunk_split find_split rune_at first_rune rune_bytes is_scalar
chunk_rest_test = refl
