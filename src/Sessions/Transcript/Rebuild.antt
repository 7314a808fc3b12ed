-- ===== src/Sessions/Transcript/Rebuild.antt =====
-- What a rebuilt context state holds, and how a transcript grows by a line.
use mathlib.Core.List.{append-nil, append_assoc}
use nisix.Common.{
  ℕ, ◌<◌, ◌≡◌, ◌≢◌, refl, sym, ap, ◌∙◌, ◌⊎◌, inl, inr, true, false, Option, none, some, List, [],
  ◌∷◌, ◌++◌, ◌==◌, if◌then◌else◌, is_nil, All, Bool-cases, Option-cases,
}
use nisix.Common.Text.{Text, codes, trim_space, split_byte}
use nisix.Common.TextLaws.{split_byte-append, split_byte_single}
use nisix.Sessions.{Entry, MessageRecord, ContextMessage}
use nisix.Sessions.Budget.{Budget}
use nisix.Sessions.Context.{
  is_context_message, context_message, apply_context_message, reset_context,
}
use nisix.Sessions.Context.Window.{
  apply_messages, contexts, contexts-append, apply-session_key, apply-session_id, IsWindow,
  apply_messages-IsWindow,
}
use nisix.Sessions.Transcript.{
  Codec, default_event, if_empty, normalize_message_record, record_of, lines, rebuild_lines,
  rebuild,
}

abbrev pair_of : Option MessageRecord → List (Text × Text)
pair_of none = []
pair_of (some rec) =
    if is_context_message rec.role rec.text rec.event_type then (rec.role, rec.text) ∷ [] else []

-- The roles and texts of the lines that hold context messages.
unfoldable pub pairs : Codec → Entry → List Text → List (Text × Text)
pairs c e [] = []
pairs c e (line ∷ rest) = pair_of (record_of c e line) ++ pairs c e rest

-- The context messages of a transcript, oldest first.
unfoldable pub transcript_messages : Codec → Entry → Option Text → List ContextMessage
transcript_messages c e none = []
transcript_messages c e (some b) = contexts (pairs c e (lines b))

rebuild_lines-eq-apply :
    (c : Codec) (e : Entry) (b : Budget) (acc : Entry) (ls : List Text)
    → rebuild_lines c e b acc ls ≡ apply_messages b acc (pairs c e ls)
unfolding rebuild_lines pairs apply_messages
rebuild_lines-eq-apply c e b acc [] = refl
rebuild_lines-eq-apply c e b acc (line ∷ rest) = elim (Option-cases (record_of c e line)) [
  | inl missing ↦ rw missing (rebuild_lines-eq-apply c e b acc rest)
  | inr (rec, found) ↦ elim (Bool-cases (is_context_message rec.role rec.text rec.event_type)) [
    | inl in_context ↦
        rw (found, in_context)
          (rebuild_lines-eq-apply c e b (apply_context_message acc rec.role rec.text b) rest)
    | inr other ↦ rw (found, other) (rebuild_lines-eq-apply c e b acc rest)
  ]
]

-- A rebuilt state has the last context messages of the transcript word for word, and a count and a
-- summary of those before, in order; of a missing file it is empty.
pub rebuild-IsWindow :
    (c : Codec) (b : Budget) (e : Entry) (file : Option Text)
    → 0 < b.history_limit
    → IsWindow b (transcript_messages c e file) (rebuild c b e file)
unfolding rebuild transcript_messages
rebuild-IsWindow c b e none h = unfold contexts apply_messages in apply_messages-IsWindow b h e []
rebuild-IsWindow c b e (some file) h =
    rw rebuild_lines-eq-apply (apply_messages-IsWindow b h e (pairs c e (lines file)))

pairs-append :
    (c : Codec) (e : Entry) (xs ys : List Text)
    → pairs c e (xs ++ ys) ≡ pairs c e xs ++ pairs c e ys
unfolding pairs
pairs-append c e [] ys = refl
pairs-append c e (x ∷ xs) ys = simp (pairs-append c e xs ys, append_assoc)

-- Every line of the file ends with a newline.
abbrev pub IsComplete : Text → Type 0
IsComplete file = (file ≡ []) ⊎ ((f : Text) × (file ≡ f ++ 10 ∷ []))

abbrev pub NoNewline : Text → Type 0
NoNewline = All (λ (c : ℕ). c ≢ 10)

blank-pairs : (c : Codec) (e : Entry) → pairs c e ([] ∷ []) ≡ []
unfolding pairs record_of trim_space
blank-pairs c e = refl

single-pairs :
    (c : Codec) (e : Entry) (line : Text)
    → NoNewline line
    → pairs c e (lines line) ≡ pair_of (record_of c e line)
unfolding lines
single-pairs c e line h = rw (split_byte_single 10 line h) (unfold pairs in simp append-nil)

empty-pairs : (c : Codec) (e : Entry) → pairs c e (lines []) ≡ []
unfolding lines split_byte
empty-pairs c e = blank-pairs c e

-- A newline at the end adds nothing, and ends the last line.
newline-pairs :
    (c : Codec) (e : Entry) (f t : Text)
    → pairs c e (lines (f ++ 10 ∷ t)) ≡ pairs c e (lines f) ++ pairs c e (lines t)
unfolding lines
newline-pairs c e f t =
    rw (split_byte-append 10 f t) (pairs-append c e (split_byte 10 f) (split_byte 10 t))

-- A line added to a file of complete lines adds the messages of that line.
pub pairs-append_line :
    (c : Codec) (e : Entry) (file line : Text)
    → IsComplete file
    → NoNewline line
    → pairs c e (lines (file ++ (line ++ 10 ∷ [])))
      ≡ pairs c e (lines file) ++ pair_of (record_of c e line)
pairs-append_line c e file line (inl empty) h =
    rw (empty, empty-pairs) (simp (newline-pairs, empty-pairs, append-nil, single-pairs c e line h))
pairs-append_line c e file line (inr (f, ends)) h =
    rw ends (simp (append_assoc, newline-pairs, empty-pairs, append-nil, single-pairs c e line h))

abbrev event_of : MessageRecord → Text
event_of rec = if_empty rec.event_type (default_event (if_empty rec.type (codes "message")))

normal-pair :
    (rec : MessageRecord) (e : Entry)
    → pair_of (some (normalize_message_record rec e)) ≡ (
        if is_context_message rec.role rec.text (event_of rec)
        then (rec.role, rec.text) ∷ []
        else [])
unfolding normalize_message_record
normal-pair rec e = elim (Bool-cases (rec.schema_version == 0)) [
  | inl zero_schema ↦ rw zero_schema
  | inr given ↦ rw given
]

-- The entry does not matter for the messages of a transcript.
pair_of-entry :
    (c : Codec) (e e' : Entry) (line : Text)
    → pair_of (record_of c e line) ≡ pair_of (record_of c e' line)
unfolding record_of
pair_of-entry c e e' line = elim (Bool-cases (is_nil (trim_space line))) [
  | inl blank ↦ rw blank
  | inr full ↦ elim (Option-cases (c.unmarshal (trim_space line))) [
    | inl bad ↦ rw (full, bad)
    | inr (rec, good) ↦ rw (full, good) (normal-pair rec e ∙ sym (normal-pair rec e'))
  ]
]

pairs-entry : (c : Codec) (e e' : Entry) (ls : List Text) → pairs c e ls ≡ pairs c e' ls
unfolding pairs
pairs-entry c e e' [] = refl
pairs-entry c e e' (line ∷ ls) = cc (pair_of-entry c e e' line, pairs-entry c e e' ls)

pub transcript_messages-entry :
    (c : Codec) (e e' : Entry) (file : Option Text)
    → transcript_messages c e file ≡ transcript_messages c e' file
unfolding transcript_messages
transcript_messages-entry c e e' none = refl
transcript_messages-entry c e e' (some b) = ap contexts (pairs-entry c e e' (lines b))

-- A record and the line that it is written as: the line has no newline and no space at its ends, and
-- reads back as the record.
pub record Writes (c : Codec) (rec : MessageRecord) (line : Text) : Type 0 where
  pub marshalled : c.marshal rec ≡ some line
  pub plain : NoNewline line
  pub trimmed : trim_space line ≡ line
  pub filled : is_nil line ≡ false
  pub read_back : c.unmarshal line ≡ some rec

-- The bytes of a transcript, which starts as an empty file.
abbrev pub bytes_of : Option Text → Text
bytes_of none = []
bytes_of (some b) = b

transcript-bytes :
    (c : Codec) (e : Entry) (file : Option Text)
    → transcript_messages c e file ≡ contexts (pairs c e (lines (bytes_of file)))
unfolding transcript_messages
transcript-bytes c e none = rw empty-pairs (unfold contexts in refl)
transcript-bytes c e (some b) = refl

if_empty-filled : (s d : Text) → is_nil s ≡ false → if_empty s d ≡ s
if_empty-filled [] d h = cc
if_empty-filled (c ∷ s) d h = refl

contexts-one :
    (role text : Text)
    → is_nil (context_message role text).text ≡ false
    → contexts ((role, text) ∷ []) ≡ context_message role text ∷ []
unfolding contexts
contexts-one role text h = rw h

written-pair :
    (c : Codec) (e : Entry) (rec : MessageRecord) (line : Text)
    → Writes c rec line
    → is_context_message rec.role rec.text rec.event_type ≡ true
    → is_nil rec.event_type ≡ false
    → pair_of (record_of c e line) ≡ (rec.role, rec.text) ∷ []
unfolding record_of
written-pair c e rec line w in_context event =
    rw (w.trimmed, w.filled, w.read_back)
      (normal-pair rec e ∙ (rw (if_empty-filled rec.event_type _ event, in_context)))

-- A context message that is written to a transcript of complete lines is its newest message.
pub transcript_messages-append :
    (c : Codec) (e : Entry) (file : Option Text) (rec : MessageRecord) (line : Text)
    → IsComplete (bytes_of file)
    → Writes c rec line
    → is_context_message rec.role rec.text rec.event_type ≡ true
    → is_nil rec.event_type ≡ false
    → is_nil (context_message rec.role rec.text).text ≡ false
    → transcript_messages c e (some (bytes_of file ++ (line ++ 10 ∷ [])))
      ≡ transcript_messages c e file ++ context_message rec.role rec.text ∷ []
transcript_messages-append c e file rec line whole w in_context event full =
    transcript-bytes c e (some (bytes_of file ++ (line ++ 10 ∷ [])))
    ∙ ap contexts (
        pairs-append_line c e (bytes_of file) line whole w.plain
        ∙ ap (λ (l : List (Text × Text)). pairs c e (lines (bytes_of file)) ++ l)
            (written-pair c e rec line w in_context event))
    ∙ contexts-append (pairs c e (lines (bytes_of file))) ((rec.role, rec.text) ∷ [])
    ∙ (rw (transcript-bytes c e file, contexts-one rec.role rec.text full))

-- A rebuild changes the context only.
module _ (c : Codec) (b : Budget) where
  apply_messages-session :
      (e : Entry) (ms : List (Text × Text))
      → ((apply_messages b e ms).session_key ≡ e.session_key)
        × ((apply_messages b e ms).session_id ≡ e.session_id)
  unfolding apply_messages
  apply_messages-session e [] = (refl, refl)
  apply_messages-session e ((role, text) ∷ ms) =
      let (key, id) = apply_messages-session (apply_context_message e role text b) ms in
      (key ∙ apply-session_key b e role text, id ∙ apply-session_id b e role text)

  pub rebuild-session_key :
      (e : Entry) (file : Option Text) → (rebuild c b e file).session_key ≡ e.session_key
  unfolding rebuild reset_context
  rebuild-session_key e none = refl
  rebuild-session_key e (some f) =
      rw (rebuild_lines-eq-apply c e b (reset_context b e) (lines f))
        ((apply_messages-session (reset_context b e) (pairs c e (lines f))).0)

  pub rebuild-session_id :
      (e : Entry) (file : Option Text) → (rebuild c b e file).session_id ≡ e.session_id
  unfolding rebuild reset_context
  rebuild-session_id e none = refl
  rebuild-session_id e (some f) =
      rw (rebuild_lines-eq-apply c e b (reset_context b e) (lines f))
        ((apply_messages-session (reset_context b e) (pairs c e (lines f))).1)
