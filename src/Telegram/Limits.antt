-- ===== src/Telegram/Limits.antt =====
-- internal/channels/telegram.go: allowByRateLimit and allowedByAllowlist.
pub mod Spacing
use nisix.Common.{
  ℕ, ◌+◌, ◌≤◌, ◌≡◌, refl, ◌↔◌, ◌⊎◌, inl, inr, Bool, true, false, ◌&&◌, ◌||◌, Option, none, some,
  List, [], ◌∷◌, ltb, ◌==◌, if◌then◌else◌, arith, Bool-cases,
}
use nisix.Common.Text.{Text, codes, eq_text, eq_text_iff}
use nisix.Common.Dict
use nisix.Common.Sets.{member}
use nisix.Telegram.{Adapter}

-- `ok && now.Sub(last) < t.minUserInterval`
abbrev pub too_soon : ℕ → ℕ → Option ℕ → Bool
too_soon interval now none = false
too_soon interval now (some last) = ltb now (last + interval)

unfoldable pub allow_by_rate_limit : Adapter → Text → ℕ → Adapter × Bool
allow_by_rate_limit t user_id now =
    if t.min_user_interval == 0
    then (t, true)
    else if too_soon t.min_user_interval now (Dict.get t.last_inbound_by_user user_id)
    then (t, false)
    else (record t { last_inbound_by_user = Dict.put t.last_inbound_by_user user_id now }, true)

unfoldable pub allowed_by_allowlist : Adapter → Text → Text → Bool
allowed_by_allowlist t chat_id user_id =
    if eq_text t.allowlist_mode (codes "users")
    then member t.allow_users user_id
    else if eq_text t.allowlist_mode (codes "chats")
    then member t.allow_chats chat_id
    else if eq_text t.allowlist_mode (codes "users_or_chats")
    then member t.allow_users user_id || member t.allow_chats chat_id
    else if eq_text t.allowlist_mode (codes "users_and_chats")
    then member t.allow_users user_id && member t.allow_chats chat_id
    else true
