-- ===== src/Telegram/Chunks.antt =====
-- internal/channels/telegram.go: chunkTelegramText, on the bytes of a text and its runes.
pub mod Laws
use nisix.Common.{
  ℕ, zero, suc, ◌-◌, Bool, ◌&&◌, List, [], ◌∷◌, ◌==◌, leb, ltb, if◌then◌else◌, length, take, drop,
  map,
}
use nisix.Common.Text.{Text}
use nisix.Common.Runes.{decode, decode_behind, encode}

abbrev pub telegram_max_message_len : ℕ
telegram_max_message_len = 4000

-- runes[i], 0 out of range, which the loop does not reach
unfoldable pub rune_at : Text → ℕ → ℕ
rune_at [] i = 0
rune_at (c ∷ s) zero = c
rune_at (c ∷ s) (suc i) = rune_at s i

-- The loop from `i` down to 1 over the runes of a chunk, which has `end` of them: a newline ends it,
-- and the last space counts while there is none.
unfoldable pub find_split : Text → ℕ → ℕ → ℕ → ℕ
find_split seg end zero split = split
find_split seg end (suc i) split =
    let rest =
      find_split seg end i (if rune_at seg (suc i) == 32 && split == end then suc i else split) in
    if rune_at seg (suc i) == 10 then suc i else rest

-- Where the next chunk ends, from its start.
unfoldable pub chunk_split : Text → ℕ → ℕ
unfolding find_split
chunk_split runes limit =
    let end = if ltb (length runes) limit then length runes else limit in
    let split = find_split runes end (end - 1) end in if split == 0 then end else split

-- The loop; the fuel bounds the number of chunks.
unfoldable pub chunk_from : ℕ → Text → ℕ → List Text
chunk_from zero runes limit = []
chunk_from (suc fuel) [] limit = []
chunk_from (suc fuel) (c ∷ runes) limit =
    let split = chunk_split (c ∷ runes) limit in
    take split (c ∷ runes) ∷ chunk_from fuel (drop split (c ∷ runes)) limit

-- The text is its bytes; a byte that is no UTF-8 comes out of []rune as U+FFFD.
unfoldable pub chunk_telegram_text : Text → ℕ → List Text
unfolding chunk_from decode_behind encode
chunk_telegram_text text limit =
    if limit == 0
    then text ∷ []
    else if leb (length (decode text)) limit
    then text ∷ []
    else map encode (chunk_from (length (decode text)) (decode text) limit)
