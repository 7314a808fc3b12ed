-- ===== src/Telegram/Polling/Offsets.antt =====
-- The offset with which the next answer is asked for.
use nisix.Common.{
  ℕ, ◌≤◌, ◌<◌, ◌≡◌, inl, inr, Bool, List, [], ◌∷◌, length, take, All, arith, Bool-cases,
}
use nisix.Common.Int.{ℤ, pos, negsuc}
use nisix.Domain.{InboundMessage}
use nisix.Telegram.{Adapter, TelegramUpdate}
use nisix.Telegram.Polling.{handle_update, next_offset, fails, handle_updates}

-- An update that an answer for `offset` does not bring again.
abbrev pub Confirmed : ℕ → TelegramUpdate × ℕ → Type 0
Confirmed offset (upd, now) = (n : ℕ) → upd.update_id ≡ pos n → n < offset

next_offset-grows : (offset : ℕ) (id : ℤ) → offset ≤ next_offset offset id
unfolding next_offset
next_offset-grows offset (negsuc n) = omega arith
next_offset-grows offset (pos n) = ground arith

next_offset-above : (offset n : ℕ) → n < next_offset offset (pos n)
unfolding next_offset
next_offset-above offset n = ground arith

Confirmed-later :
    (offset offset' : ℕ) (upd : TelegramUpdate) (now : ℕ)
    → next_offset offset upd.update_id ≤ offset'
    → Confirmed offset' (upd, now)
Confirmed-later offset offset' upd now le n e =
    let above = next_offset-above offset n in
    let le' : next_offset offset (pos n) ≤ offset' = rw e at le in omega arith

-- The loop over the updates of one answer never lowers the offset, and behind it are all updates that
-- the loop has handled, one for each action, the one whose onInbound failed included.
pub handle_updates-Confirmed :
    (on_inbound : InboundMessage → Bool) (t : Adapter) (offset : ℕ)
    (updates : List (TelegramUpdate × ℕ))
    → (offset ≤ (handle_updates on_inbound t offset updates).1)
      × All
          (Confirmed (handle_updates on_inbound t offset updates).1)
          (take (length (handle_updates on_inbound t offset updates).2) updates)
unfolding handle_updates
handle_updates-Confirmed on_inbound t offset [] = (omega arith, tt)
handle_updates-Confirmed on_inbound t offset ((upd, now) ∷ rest) =
    let (t', action) = handle_update t upd now in
    let offset' = next_offset offset upd.update_id in
    let grows = next_offset-grows offset upd.update_id in
    elim (Bool-cases (fails on_inbound action)) [
      | inl failed ↦ rw failed (grows, (Confirmed-later offset offset' upd now (omega arith), tt))
      | inr passed ↦
          let (le, all) = handle_updates-Confirmed on_inbound t' offset' rest in
          rw passed (
            omega arith,
            (Confirmed-later offset (handle_updates on_inbound t' offset' rest).1 upd now le, all),
          )
    ]
