-- ===== src/Hub/History.antt =====
-- The hub against a history of registrations, the latest first.
use nisix.Common.{
  ◌≡◌, refl, ◌&&◌, inl, inr, Bool-cases, Option, none, some, List, [], ◌∷◌, if◌then◌else◌,
}
use nisix.Common.Text.{Text, eq_text, eq_text_iff}
use nisix.Common.Dict
use nisix.Common.Dict.{get-put}
use nisix.Domain.{OutboundMessage}
use nisix.Hub.{
  MultiHub, new_multi_hub, register, register_account, choose, or_else, or_empty, account_key,
  normalize_hub_key,
}

module _ {ℓ} (S : Type ℓ) where
  pub data Registration : Type ℓ where
    for_channel : Text → S → Registration
    for_account : Text → Text → S → Registration

module _ {ℓ} {S : Type ℓ} where
  -- The hub after the registrations, the last of the list made first.
  pub run : Option S → List (Registration S) → MultiHub S
  run d [] = new_multi_hub d
  run d (for_channel channel s ∷ rest) = register (run d rest) channel s
  run d (for_account channel account s ∷ rest) = register_account (run d rest) channel account s

  -- The latest registration for the message's channel and account.
  abbrev pub account_sender : List (Registration S) → OutboundMessage → Option S
  account_sender [] msg = none
  account_sender (for_channel channel s ∷ rest) msg = account_sender rest msg
  account_sender (for_account channel account s ∷ rest) msg =
      if eq_text (normalize_hub_key channel) (normalize_hub_key msg.channel)
        && eq_text (account_key account) (account_key msg.account_id)
      then some s
      else account_sender rest msg

  -- The latest registration for the message's channel as a whole.
  abbrev pub channel_sender : List (Registration S) → OutboundMessage → Option S
  channel_sender [] msg = none
  channel_sender (for_channel channel s ∷ rest) msg =
      if eq_text (normalize_hub_key channel) (normalize_hub_key msg.channel)
      then some s
      else channel_sender rest msg
  channel_sender (for_account channel account s ∷ rest) msg = channel_sender rest msg

  run-default : (d : Option S) (h : List (Registration S)) → (run d h).default_sender ≡ d
  unfolding run register register_account new_multi_hub
  run-default d [] = refl
  run-default d (for_channel c s ∷ h) = run-default d h
  run-default d (for_account c a s ∷ h) = run-default d h

  run-by_channel :
      (d : Option S) (h : List (Registration S)) (msg : OutboundMessage)
      → Dict.get (run d h).by_channel (normalize_hub_key msg.channel) ≡ channel_sender h msg
  unfolding run register register_account new_multi_hub
  run-by_channel d [] msg = unfold Dict.get in refl
  run-by_channel d (for_channel c s ∷ h) msg = rw get-put (rw (run-by_channel d h msg))
  run-by_channel d (for_account c a s ∷ h) msg = run-by_channel d h msg

  -- A registration under one key, read through another key.
  get-or_empty-put :
      (m : Dict.Dict (Dict.Dict S)) (c c' a a' : Text) (s : S)
      → Dict.get (or_empty (Dict.get (Dict.put m c (Dict.put (or_empty (Dict.get m c)) a s)) c')) a'
        ≡ (if eq_text c c' && eq_text a a' then some s else Dict.get (or_empty (Dict.get m c')) a')
  get-or_empty-put m c c' a a' s = rw get-put (elim (Bool-cases (eq_text c c')) [
    | inl e ↦ let same = (eq_text_iff c c').0 e in rw (e, get-put, same)
    | inr e ↦ rw e
  ])

  run-by_account :
      (d : Option S) (h : List (Registration S)) (msg : OutboundMessage)
      → Dict.get
          (or_empty (Dict.get (run d h).by_channel_account (normalize_hub_key msg.channel)))
          (account_key msg.account_id)
        ≡ account_sender h msg
  unfolding run register register_account new_multi_hub
  run-by_account d [] msg = unfold Dict.get in refl
  run-by_account d (for_channel c s ∷ h) msg = run-by_account d h msg
  run-by_account d (for_account c a s ∷ h) msg = rw get-or_empty-put (rw (run-by_account d h msg))

  -- After any registrations, a message goes to the latest sender for its channel and account, else
  -- to the latest for its channel, else to the default sender.
  pub choose-run :
      (d : Option S) (h : List (Registration S)) (msg : OutboundMessage)
      → choose (run d h) msg ≡ or_else (or_else (account_sender h msg) (channel_sender h msg)) d
  unfolding choose
  choose-run d h msg = simp (run-by_account, run-by_channel, run-default)
