-- ===== src/Tests/Routing.antt =====
-- internal/router, internal/channels/hub.go, internal/security and internal/toolpolicy on concrete inputs.
use nisix.Common.{◌≡◌, refl, some, List, [], ◌∷◌, arith}
use nisix.Common.Text.{Text, codes, eq_text, equal_fold, to_lower, trim_space}
use nisix.Domain.{InboundMessage, OutboundMessage, direct}
use nisix.Router.{
  BindingRule, Resolver, session_key, resolve, resolve_from, matches, match_channel, match_account,
  new_route,
}
use nisix.Router.Laws.{IsChosen, resolve-IsChosen}
use nisix.Router.Keys.{NoColon, session_key_injective}
use nisix.ToolPolicy.{Policy}
use nisix.Hub.{normalize_hub_key, account_key, choose, or_else}
use nisix.Hub.History.{
  Registration, for_channel, for_account, run, account_sender, channel_sender, choose-run,
}

abbrev support : BindingRule
support = record {
  agent_id = codes "support";
  match = record { channel = codes "Telegram"; account_id = codes "*"; peer_id = codes "42" };
}

abbrev rules : Resolver
rules = record { bindings = support ∷ []; default_id = codes "main" }

abbrev question : InboundMessage
question = record {
  channel = codes " TELEGRAM";
  account_id = codes "Ops ";
  peer_id = codes "42";
  peer_type = direct;
  user_id = codes "7";
  text = codes "hello";
  thread_id = [];
  run_id = [];
  at = 1;
}

resolve_test : (resolve rules question).session_key ≡ codes "agent:support:telegram:ops:dm:42"
unfolding resolve resolve_from matches match_channel match_account new_route session_key equal_fold
    trim_space
resolve_test = refl

resolve-IsChosen_example : IsChosen rules question
resolve-IsChosen_example = resolve-IsChosen rules question

plain : NoColon (codes "main") × NoColon (codes "cli") × NoColon (codes "ops")
plain = ground arith

session_key_injective_example :
    (codes "main" ≡ codes "main")
    × (codes "cli" ≡ codes "cli")
    × (codes "ops" ≡ codes "ops")
    × (codes "a:b" ≡ codes "a:b")
session_key_injective_example =
    session_key_injective (codes "main") (codes "cli") (codes "ops") (codes "a:b") (codes "main")
      (codes "cli") (codes "ops") (codes "a:b") plain plain refl

abbrev read_only : Policy
read_only = record { allow = codes "time_now" ∷ []; deny = codes "shell_exec" ∷ [] }

abbrev registrations : List (Registration Text)
registrations =
    for_account (codes "telegram") (codes "Ops") (codes "bot two")
    ∷ for_channel (codes "telegram") (codes "bot one")
    ∷ []

abbrev answer : OutboundMessage
answer = record {
  channel = codes "telegram";
  account_id = codes "ops";
  target_id = codes "42";
  thread_id = [];
  session_key = [];
  text = codes "hi";
}

choose-run_example :
    choose (run (some (codes "stdout")) registrations) answer
    ≡ or_else
        (or_else (account_sender registrations answer) (channel_sender registrations answer))
        (some (codes "stdout"))
choose-run_example = choose-run (some (codes "stdout")) registrations answer

account_sender_test : account_sender registrations answer ≡ some (codes "bot two")
unfolding normalize_hub_key account_key eq_text to_lower trim_space
account_sender_test = refl
