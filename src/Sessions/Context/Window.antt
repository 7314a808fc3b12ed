-- ===== src/Sessions/Context/Window.antt =====
-- The window against the whole sequence of messages: the last ones are kept, the others summarised.
use mathlib.Core.List.{append-nil, append_assoc}
use nisix.Common.{
  suc, ◌+◌, ◌-◌, ◌≤◌, ◌<◌, ◌≡◌, refl, sym, ap, ◌∙◌, inl, inr, false, List, [], ◌∷◌, ◌++◌, ltb,
  if◌then◌else◌, length, take, drop, is_nil, length-append, length-drop, drop-append, take-append,
  take-suc, arith, Bool-cases,
}
use nisix.Common.Text.{Text}
use nisix.Sessions.{Entry, ContextMessage}
use nisix.Sessions.Budget.{Budget}
use nisix.Sessions.Summary.{append_conversation_summary}
use nisix.Sessions.Context.{push_message, context_message, apply_context_message, reset_context}

-- Roles and texts in the order in which applyContextMessage sees them.
unfoldable pub apply_messages : Budget → Entry → List (Text × Text) → Entry
apply_messages b e [] = e
apply_messages b e ((role, text) ∷ ms) = apply_messages b (apply_context_message e role text b) ms

-- The messages among them, which have a text.
unfoldable pub contexts : List (Text × Text) → List ContextMessage
contexts [] = []
contexts ((role, text) ∷ ms) =
    let msg = context_message role text in
    let rest = contexts ms in if is_nil msg.text then rest else msg ∷ rest

-- The summary of messages in order.
unfoldable pub summarize : Budget → Text → List ContextMessage → Text
summarize b s [] = s
summarize b s (m ∷ ms) = summarize b (append_conversation_summary s m b) ms

pub contexts-append :
    (xs ys : List (Text × Text)) → contexts (xs ++ ys) ≡ contexts xs ++ contexts ys
unfolding contexts
contexts-append [] ys = refl
contexts-append ((role, text) ∷ xs) ys = ground (arith, contexts-append xs ys)

summarize-append :
    (b : Budget) (s : Text) (ms : List ContextMessage) (m : ContextMessage)
    → summarize b s (ms ++ m ∷ []) ≡ append_conversation_summary (summarize b s ms) m b
unfolding summarize
summarize-append b s [] m = refl
summarize-append b s (x ∷ ms) m = summarize-append b (append_conversation_summary s x b) ms m

-- The state after all the messages: the last `history_limit` are kept word for word, the others are
-- counted and summarised in order.
pub record IsWindow (b : Budget) (all : List ContextMessage) (e : Entry) : Type 0 where
  pub recent : e.recent_messages ≡ drop (length all - b.history_limit) all
  pub counted : e.summarized_messages ≡ length all - b.history_limit
  pub summary : e.conversation_summary ≡ summarize b [] (take (length all - b.history_limit) all)

regroup {ℓ} : {A : Type ℓ} (xs : List A) (y : A) (ys : List A) → xs ++ y ∷ ys ≡ (xs ++ y ∷ []) ++ ys
regroup xs y ys = simp append_assoc

module _ (b : Budget) (positive : 0 < b.history_limit) where
  -- All messages fit.
  push-IsWindow_short :
      (all : List ContextMessage) (msg : ContextMessage) {e e' : Entry}
      → length all < b.history_limit
      → IsWindow b all e
      → e'.recent_messages ≡ e.recent_messages ++ msg ∷ []
      → e'.summarized_messages ≡ e.summarized_messages
      → e'.conversation_summary ≡ e.conversation_summary
      → IsWindow b (all ++ msg ∷ []) e'
  push-IsWindow_short all msg short w r c s =
      let k : length all - b.history_limit ≡ 0 = omega arith in
      let k' : length (all ++ msg ∷ []) - b.history_limit ≡ 0 =
        omega (arith, length-append all (msg ∷ [])) in
      record {
        recent = rw k' (r ∙ ap (λ (l : List ContextMessage). l ++ msg ∷ []) (rw k at w.recent));
        counted = rw k' (c ∙ w.counted ∙ k);
        summary = rw k' (s ∙ (rw k at w.summary));
      }

  -- The first of the window is promoted.
  push-IsWindow_full :
      (all : List ContextMessage) (msg p : ContextMessage) (r : List ContextMessage) {e e' : Entry}
      → b.history_limit ≤ length all
      → IsWindow b all e
      → e.recent_messages ≡ p ∷ r
      → e'.recent_messages ≡ r ++ msg ∷ []
      → e'.summarized_messages ≡ e.summarized_messages + 1
      → e'.conversation_summary ≡ append_conversation_summary e.conversation_summary p b
      → IsWindow b (all ++ msg ∷ []) e'
  push-IsWindow_full all msg p r full w split rec c s =
      let k = length all - b.history_limit in
      let k' : length (all ++ msg ∷ []) - b.history_limit ≡ suc k =
        omega (arith, length-append all (msg ∷ [])) in
      let fits : suc k ≤ length all = omega arith in
      let (rest, front) = take-suc k all (sym w.recent ∙ split) in
      record {
        recent = rw k' (
            rec
            ∙ ap (λ (l : List ContextMessage). l ++ msg ∷ []) (sym rest)
            ∙ sym (drop-append (suc k) all (msg ∷ []) fits));
        counted = rw k' (c ∙ (omega (arith, w.counted)));
        summary = rw k' (
            rw (take-append (suc k) all (msg ∷ []) fits, front, summarize-append)
              (s ∙ ap (λ (t : Text). append_conversation_summary t p b) w.summary));
      }

  length-recent :
      (all : List ContextMessage) (e : Entry)
      → IsWindow b all e
      → length e.recent_messages ≡ length all - (length all - b.history_limit)
  length-recent all e w = ap length w.recent ∙ length-drop (length all - b.history_limit) all

  push_message-IsWindow :
      (all : List ContextMessage) (e : Entry) (msg : ContextMessage) (recent : List ContextMessage)
      → e.recent_messages ≡ recent
      → IsWindow b all e
      → IsWindow b (all ++ msg ∷ []) (push_message e recent msg b)
  unfolding push_message
  push_message-IsWindow all e msg [] same w =
      push-IsWindow_short all msg
        (let n = length-recent all e w in let m = ap length same in omega arith) w
        (ap (λ (l : List ContextMessage). l ++ msg ∷ []) (sym same)) refl refl
  push_message-IsWindow all e msg (p ∷ r) same w =
      elim (Bool-cases (ltb (length (p ∷ r)) b.history_limit)) [
        | inl short ↦ rw short (
            push-IsWindow_short all msg
              (let n = length-recent all e w in let m = ap length same in ground arith) w
              (ap (λ (l : List ContextMessage). l ++ msg ∷ []) (sym same)) refl refl)
        | inr full ↦ rw full (
            push-IsWindow_full all msg p r
              (let n = length-recent all e w in let m = ap length same in ground arith) w same refl
              refl refl)
      ]

  pub apply-IsWindow :
      (all : List ContextMessage) (e : Entry) (role text : Text)
      → is_nil (context_message role text).text ≡ false
      → IsWindow b all e
      → IsWindow b (all ++ context_message role text ∷ []) (apply_context_message e role text b)
  unfolding apply_context_message
  apply-IsWindow all e role text full w =
      rw full (push_message-IsWindow all e (context_message role text) e.recent_messages refl w)

  reset-IsWindow : (e : Entry) → IsWindow b [] (reset_context b e)
  unfolding reset_context
  reset-IsWindow e = record {
    recent = rw k_zero refl;
    counted = sym k_zero;
    summary = rw k_zero (unfold summarize in refl);
  }
    where
      k_zero : 0 - b.history_limit ≡ 0
      k_zero = omega arith

  apply_messages-IsWindow_from :
      (ms : List (Text × Text)) (all : List ContextMessage) (e : Entry)
      → IsWindow b all e
      → IsWindow b (all ++ contexts ms) (apply_messages b e ms)
  unfolding apply_messages contexts apply_context_message
  apply_messages-IsWindow_from [] all e w = rw append-nil w
  apply_messages-IsWindow_from ((role, text) ∷ ms) all e w =
      let msg = context_message role text in
      elim (Bool-cases (is_nil msg.text)) [
        | inl blank ↦ rw (blank, apply_context_message) (apply_messages-IsWindow_from ms all e w)
        | inr full ↦
            rw (full, apply_context_message)
              (rw (regroup all msg (contexts ms)) (
                apply_messages-IsWindow_from ms (all ++ msg ∷ [])
                  (push_message e e.recent_messages msg b)
                  (push_message-IsWindow all e msg e.recent_messages refl w)))
      ]

  -- From the reset state, messages in order leave the last ones in the window and the others in the
  -- summary and in its count.
  pub apply_messages-IsWindow :
      (e : Entry) (ms : List (Text × Text))
      → IsWindow b (contexts ms) (apply_messages b (reset_context b e) ms)
  apply_messages-IsWindow e ms =
      apply_messages-IsWindow_from ms [] (reset_context b e) (reset-IsWindow e)

-- Applying a message changes the context only.
module _ (b : Budget) where
  push-session_key :
      (e : Entry) (r : List ContextMessage) (m : ContextMessage)
      → (push_message e r m b).session_key ≡ e.session_key
  unfolding push_message
  push-session_key e [] m = refl
  push-session_key e (p ∷ r) m = ground arith

  pub apply-session_key :
      (e : Entry) (role text : Text)
      → (apply_context_message e role text b).session_key ≡ e.session_key
  unfolding apply_context_message
  apply-session_key e role text =
      ground (arith, push-session_key e e.recent_messages (context_message role text))

  push-session_id :
      (e : Entry) (r : List ContextMessage) (m : ContextMessage)
      → (push_message e r m b).session_id ≡ e.session_id
  unfolding push_message
  push-session_id e [] m = refl
  push-session_id e (p ∷ r) m = ground arith

  pub apply-session_id :
      (e : Entry) (role text : Text)
      → (apply_context_message e role text b).session_id ≡ e.session_id
  unfolding apply_context_message
  apply-session_id e role text =
      ground (arith, push-session_id e e.recent_messages (context_message role text))
