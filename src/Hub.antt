-- ===== src/Hub.antt =====
-- internal/channels/hub.go: the hub that picks the sender of an outbound message. A sender is an
-- interface value, a parameter `S`; only senders that are not nil are registered.
pub mod History
use nisix.Common.{Option, none, some, List, [], ◌∷◌, if◌then◌else◌}
use nisix.Common.Text.{Text, codes, trim_space, to_lower}
use nisix.Common.Dict.{Dict, get, put}
use nisix.Domain.{OutboundMessage}

unfoldable pub normalize_hub_key : Text → Text
normalize_hub_key v = to_lower (trim_space v)

abbrev pub or_default : Text → Text
or_default [] = codes "default"
or_default (c ∷ s) = c ∷ s

-- The account's key, as RegisterAccount and Send compute it.
unfoldable pub account_key : Text → Text
unfolding normalize_hub_key
account_key v = or_default (normalize_hub_key v)

module _ {ℓ} (S : Type ℓ) where
  pub record MultiHub : Type ℓ where
    pub default_sender : Option S
    pub by_channel : Dict S
    pub by_channel_account : Dict (Dict S)

abbrev pub or_empty {ℓ} : {V : Type ℓ} → Option (Dict V) → Dict V
or_empty none = []
or_empty (some m) = m

abbrev pub or_else {ℓ} : {A : Type ℓ} → Option A → Option A → Option A
or_else none d = d
or_else (some a) d = some a

module _ {ℓ} {S : Type ℓ} where
  unfoldable pub new_multi_hub : Option S → MultiHub S
  new_multi_hub default_sender = record {
    default_sender = default_sender;
    by_channel = [];
    by_channel_account = [];
  }

  unfoldable pub register : MultiHub S → Text → S → MultiHub S
  register h channel sender = record h {
    by_channel = put h.by_channel (normalize_hub_key channel) sender;
  }

  unfoldable pub register_account : MultiHub S → Text → Text → S → MultiHub S
  register_account h channel account_id sender =
      let channel_key = normalize_hub_key channel in
      let inner = or_empty (get h.by_channel_account channel_key) in
      record h {
        by_channel_account =
            put h.by_channel_account channel_key (put inner (account_key account_id) sender);
      }

  -- The sender that Send calls: the account's, the channel's, or the fallback.
  unfoldable pub choose : MultiHub S → OutboundMessage → Option S
  choose h msg =
      let channel_key = normalize_hub_key msg.channel in
      or_else
        (or_else
          (get (or_empty (get h.by_channel_account channel_key)) (account_key msg.account_id))
          (get h.by_channel channel_key))
        h.default_sender

  -- A sender's own Send gives an error or none.
  unfoldable pub send {κ} :
      {E : Type κ} → (S → OutboundMessage → Option E) → MultiHub S → OutboundMessage → Option E
  unfolding choose
  send deliver h msg = elim (choose h msg) [ none ↦ none | some s ↦ deliver s msg ]
