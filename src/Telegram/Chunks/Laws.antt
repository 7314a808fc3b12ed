-- ===== src/Telegram/Chunks/Laws.antt =====
-- The chunks of a text: they are short, not empty, and put together again they are the text.
use mathlib.Core.List.{append-nil}
use nisix.Common.{
  ℕ, zero, suc, ◌-◌, ◌≤◌, ◌<◌, ◌≡◌, refl, sym, ap, ◌∙◌, inl, inr, false, ◌&&◌, List, [], ◌∷◌, ◌++◌,
  ◌==◌, leb, ltb, if◌then◌else◌, length, take, drop, length-take, length-drop, take-append-drop,
  All, All-take, All-drop, map, arith, Bool-cases,
}
use nisix.Common.Text.{Text}
use nisix.Common.Runes.{decode, decode_behind, encode}
use nisix.Common.Runes.Laws.{AllScalar, decode-encode, encode-append, decode_behind-AllScalar}
use nisix.Telegram.Chunks.{rune_at, find_split, chunk_split, chunk_from, chunk_telegram_text}

find_split_bounds :
    (seg : Text) (end i split : ℕ)
    → i < end
    → 0 < split
    → split ≤ end
    → (0 < find_split seg end i split) × (find_split seg end i split ≤ end)
unfolding find_split
find_split_bounds seg end zero split h p le = (p, le)
find_split_bounds seg end (suc i) split h p le = elim (Bool-cases (rune_at seg (suc i) == 10)) [
  | inl newline ↦ rw newline (omega arith, omega arith)
  | inr other ↦ rw other (
      find_split_bounds seg end i
        (if rune_at seg (suc i) == 32 && split == end then suc i else split) (omega arith)
        (ground arith) (ground arith))
]

split_at_end :
    (runes : Text) (end limit : ℕ)
    → 0 < end
    → end ≤ limit
    → end ≤ length runes
    → let split = find_split runes end (end - 1) end in
      (0 < (if split == 0 then end else split))
      × ((if split == 0 then end else split) ≤ limit)
      × ((if split == 0 then end else split) ≤ length runes)
split_at_end runes end limit h le le' =
    let (low, high) = find_split_bounds runes end (end - 1) end (omega arith) h (omega arith) in
    (ground arith, ground arith, ground arith)

chunk_split_bounds :
    (runes : Text) (limit : ℕ)
    → 0 < limit
    → 0 < length runes
    → (0 < chunk_split runes limit)
      × (chunk_split runes limit ≤ limit)
      × (chunk_split runes limit ≤ length runes)
unfolding chunk_split
chunk_split_bounds runes limit h p =
    split_at_end runes (if ltb (length runes) limit then length runes else limit) limit
      (ground arith) (ground arith) (ground arith)

-- A text of at least one rune and at most as many as the limit.
abbrev pub IsChunk : ℕ → Text → Type 0
IsChunk limit chunk = (0 < length (decode chunk)) × (length (decode chunk) ≤ limit)

abbrev pub concat : List Text → Text
concat [] = []
concat (c ∷ cs) = c ++ concat cs

-- The runes of a chunk.
IsPart : ℕ → Text → Type 0
IsPart limit runes = (0 < length runes) × (length runes ≤ limit) × AllScalar runes

chunk_from-lem :
    (fuel : ℕ) (runes : Text) (limit : ℕ)
    → 0 < limit
    → length runes ≤ fuel
    → AllScalar runes
    → (concat (chunk_from fuel runes limit) ≡ runes)
      × All (IsPart limit) (chunk_from fuel runes limit)
unfolding chunk_from IsPart
chunk_from-lem zero [] limit h f scalar = (refl, tt)
chunk_from-lem zero (c ∷ runes) limit h f scalar = absurd (omega arith)
chunk_from-lem (suc fuel) [] limit h f scalar = (refl, tt)
chunk_from-lem (suc fuel) (c ∷ runes) limit h f scalar =
    let split = chunk_split (c ∷ runes) limit in
    let (low, high, within) = chunk_split_bounds (c ∷ runes) limit h (omega arith) in
    let rest = drop split (c ∷ runes) in
    let left : length rest ≡ length (c ∷ runes) - split = length-drop split (c ∷ runes) in
    let (whole, chunks) =
      chunk_from-lem fuel rest limit h (omega arith) (All-drop _ split (c ∷ runes) scalar) in
    let size : length (take split (c ∷ runes)) ≡ split =
      (let n = length-take split (c ∷ runes) in omega arith) in
    (
      ap (λ (t : Text). take split (c ∷ runes) ++ t) whole ∙ take-append-drop split (c ∷ runes),
      ((omega arith, omega arith, All-take _ split (c ∷ runes) scalar), chunks),
    )

concat-encode : (parts : List Text) → concat (map encode parts) ≡ encode (concat parts)
concat-encode [] = unfold encode in refl
concat-encode (p ∷ parts) =
    ap (λ (t : Text). encode p ++ t) (concat-encode parts) ∙ sym (encode-append p (concat parts))

encode-IsChunk :
    (limit : ℕ) (parts : List Text)
    → All (IsPart limit) parts
    → All (IsChunk limit) (map encode parts)
unfolding IsPart
encode-IsChunk limit [] h = tt
encode-IsChunk limit (p ∷ parts) ((low, high, scalar), h) =
    (rw (decode-encode p scalar) (low, high), encode-IsChunk limit parts h)

long_parts :
    (text : Text) (limit : ℕ)
    → 0 < limit
    → (concat (chunk_from (length (decode text)) (decode text) limit) ≡ decode text)
      × All (IsPart limit) (chunk_from (length (decode text)) (decode text) limit)
long_parts text limit h =
    chunk_from-lem (length (decode text)) (decode text) limit h (omega arith)
      (decode_behind-AllScalar 0 text)

-- The text is UTF-8: its runes, as bytes, are the text.
unfoldable pub IsUtf8 : Text → Type 0
IsUtf8 text = encode (decode text) ≡ text

-- The chunks of a text that is UTF-8, put together again, are the text, whatever the limit.
pub concat-chunk_telegram_text :
    (text : Text) (limit : ℕ) → IsUtf8 text → concat (chunk_telegram_text text limit) ≡ text
unfolding chunk_telegram_text IsUtf8
concat-chunk_telegram_text text zero h = append-nil text
concat-chunk_telegram_text text (suc l) h =
    let nz : (suc l == 0) ≡ false = ground arith in
    elim (Bool-cases (leb (length (decode text)) (suc l))) [
      | inl fits ↦ rw (nz, fits) (append-nil text)
      | inr long ↦
          rw (nz, long)
            (concat-encode (chunk_from (length (decode text)) (decode text) (suc l))
              ∙ ap encode ((long_parts text (suc l) (omega arith)).0)
              ∙ h)
    ]

decode_some : (text : Text) → 0 < length text → 0 < length (decode text)
unfolding decode_behind
decode_some [] h = h
decode_some (c ∷ text) h = omega arith

-- Under a positive limit no chunk of a text that is not empty is empty or has more runes than the limit, so the
-- loop ends.
pub chunk_telegram_text-IsChunk :
    (text : Text) (limit : ℕ)
    → 0 < limit
    → 0 < length text
    → All (IsChunk limit) (chunk_telegram_text text limit)
unfolding chunk_telegram_text
chunk_telegram_text-IsChunk text zero h p = absurd (omega arith)
chunk_telegram_text-IsChunk text (suc l) h p =
    let nz : (suc l == 0) ≡ false = ground arith in
    elim (Bool-cases (leb (length (decode text)) (suc l))) [
      | inl fits ↦ rw (nz, fits) ((decode_some text p, ground arith), tt)
      | inr long ↦ rw (nz, long) (encode-IsChunk (suc l) _ ((long_parts text (suc l) h).1))
    ]
