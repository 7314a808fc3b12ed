-- ===== src/Router.antt =====
-- internal/router/router.go, with the BindingRule of internal/config/config.go.
pub mod Laws
pub mod Keys
use nisix.Common.{Bool, true, ◌&&◌, ◌||◌, not, List, [], ◌∷◌, ◌++◌, if◌then◌else◌, is_nil}
use nisix.Common.Text.{Text, codes, eq_text, trim_space, to_lower, equal_fold}
use nisix.Domain.{InboundMessage, Route}

pub record BindingMatch : Type 0 where
  pub channel : Text
  pub account_id : Text
  pub peer_id : Text

pub record BindingRule : Type 0 where
  pub agent_id : Text
  pub match : BindingMatch

-- The part of config.Config that the resolver reads: Bindings and Agents.DefaultID.
pub record Resolver : Type 0 where
  pub bindings : List BindingRule
  pub default_id : Text

abbrev pub default_account : Text
default_account = codes "default"

-- fmt.Sprintf("agent:%s:%s:%s:dm:%s", …)
unfoldable pub session_key : Text → Text → Text → Text → Text
session_key agent_id channel account_id peer_id =
    codes "agent:"
    ++ (agent_id ++ (58 ∷ (channel ++ (58 ∷ (account_id ++ (codes ":dm:" ++ peer_id))))))

abbrev pub or_else : Text → Text → Text
or_else [] d = d
or_else (c ∷ s) d = c ∷ s

unfoldable pub new_route : Text → Text → Text → Text → Text → Route
new_route agent_id channel account_id peer_id matched_by =
    let account = or_else account_id default_account in
    let peer = or_else peer_id (codes "unknown") in
    record {
      agent_id = agent_id;
      session_key = session_key agent_id channel account peer;
      matched_by = matched_by;
      channel = channel;
      account_id = account;
    }

unfoldable pub match_channel : BindingRule → Text → Bool
match_channel b channel = equal_fold (trim_space b.match.channel) channel

unfoldable pub match_account : BindingRule → Text → Bool
match_account b account_id =
    let rule = trim_space b.match.account_id in
    if is_nil rule
    then is_nil account_id || eq_text account_id default_account
    else if eq_text rule (codes "*")
    then true
    else equal_fold rule account_id

-- The three guards of the loop's body.
unfoldable pub matches : BindingRule → Text → Text → Text → Bool
matches b channel account_id peer_id =
    match_channel b channel
    && (match_account b account_id && (is_nil b.match.peer_id || eq_text b.match.peer_id peer_id))

unfoldable pub resolve_from : List BindingRule → Text → Text → Text → Text → Route
resolve_from [] default_id channel account_id peer_id =
    new_route default_id channel account_id peer_id (codes "default")
resolve_from (b ∷ bs) default_id channel account_id peer_id =
    let rest = resolve_from bs default_id channel account_id peer_id in
    if matches b channel account_id peer_id
    then new_route b.agent_id channel account_id peer_id (codes "binding")
    else rest

unfoldable pub resolve : Resolver → InboundMessage → Route
resolve r msg =
    resolve_from r.bindings r.default_id (to_lower (trim_space msg.channel))
      (to_lower (trim_space msg.account_id)) (trim_space msg.peer_id)
