-- ===== src/Common/Runes/Laws.antt =====
-- Runes that come from a text are scalar, and scalar runes are read back from their bytes.
use Prim.Native.Nat.{ℕ, zero, suc, ◌+◌, ◌*◌, ◌-◌, ◌/◌, ◌%◌, ◌≤◌, ◌<◌}
use mathlib.Core.Path.{◌≡◌, refl, sym, ap, ◌∙◌}
use mathlib.Core.Bool.{Bool, true, false, ◌&&◌}
use mathlib.Core.List.{[], ◌∷◌, ◌++◌, append_assoc}
use native.Mathlib.Omega.{arith}
use nisix.Common.Tests.{leb, ltb, if◌then◌else◌}
use nisix.Common.Lists.{All}
use nisix.Common.Text.{Text}
use mathlib.Core.Logic.{inl, inr}
use nisix.Common.Tests.{Bool-cases}
use nisix.Common.Runes.{
  bad_byte, is_scalar, is_continuation, two_bytes, three_value, three_bytes, four_value, four_bytes,
  first_rune, decode_behind, decode, rune_bytes, encode,
}

abbrev pub AllScalar : Text → Type 0
AllScalar runes = All (λ r. is_scalar r ≡ true) runes

two_bytes-scalar : (a : ℕ) (s : Text) → a < 224 → is_scalar (two_bytes a s).0 ≡ true
unfolding is_scalar
two_bytes-scalar a [] h = refl
two_bytes-scalar a (b ∷ s) h = ground arith

chosen-scalar :
    (b : Bool) (v n : ℕ)
    → (b ≡ true → is_scalar v ≡ true)
    → is_scalar (if b then (v, n) else bad_byte).0 ≡ true
chosen-scalar true v n h = h refl
chosen-scalar false v n h = unfold is_scalar in refl

three_bytes-scalar : (a : ℕ) (s : Text) → is_scalar (three_bytes a s).0 ≡ true
three_bytes-scalar a [] = unfold is_scalar in refl
three_bytes-scalar a (b ∷ []) = unfold is_scalar in refl
three_bytes-scalar a (b ∷ c ∷ s) = chosen-scalar _ (three_value a b c) 2 (λ h. ground arith)

four_bytes-scalar : (a : ℕ) (s : Text) → is_scalar (four_bytes a s).0 ≡ true
four_bytes-scalar a [] = unfold is_scalar in refl
four_bytes-scalar a (b ∷ []) = unfold is_scalar in refl
four_bytes-scalar a (b ∷ c ∷ []) = unfold is_scalar in refl
four_bytes-scalar a (b ∷ c ∷ d ∷ s) = chosen-scalar _ (four_value a b c d) 3 (λ h. ground arith)

first_rune-scalar : (a : ℕ) (s : Text) → is_scalar (first_rune a s).0 ≡ true
unfolding first_rune
first_rune-scalar a s = elim (Bool-cases (ltb a 128)) [
  | inl one ↦ rw one (unfold is_scalar in ground arith)
  | inr more ↦ elim (Bool-cases (ltb a 224)) [
    | inl two ↦ rw (more, two) (two_bytes-scalar a s (ground arith))
    | inr long ↦ elim (Bool-cases (ltb a 240)) [
      | inl three ↦ rw (more, long, three) (three_bytes-scalar a s)
      | inr four ↦ rw (more, long, four) (four_bytes-scalar a s)
    ]
  ]
]

pub decode_behind-AllScalar : (skip : ℕ) (s : Text) → AllScalar (decode_behind skip s)
unfolding decode_behind
decode_behind-AllScalar zero [] = tt
decode_behind-AllScalar (suc skip) [] = tt
decode_behind-AllScalar (suc skip) (a ∷ s) = decode_behind-AllScalar skip s
decode_behind-AllScalar zero (a ∷ s) =
    (first_rune-scalar a s, decode_behind-AllScalar (first_rune a s).1 s)

first_rune-one : (r : ℕ) (s : Text) → r < 128 → first_rune r s ≡ (r, 0)
unfolding first_rune
first_rune-one r s h = (let one : ltb r 128 ≡ true = ground arith in rw one refl)

first_rune-two :
    (r a b : ℕ) (s : Text)
    → r ≡ a * 64 + b
    → b < 64
    → 128 ≤ r
    → r < 2048
    → first_rune (192 + a) ((128 + b) ∷ s) ≡ (r, 1)
unfolding first_rune
first_rune-two r a b s e lb low high =
    let not_one : ltb (192 + a) 128 ≡ false = ground arith in
    let two : ltb (192 + a) 224 ≡ true = ground arith in
    let good : (leb 194 (192 + a) && is_continuation (128 + b)) ≡ true = ground arith in
    let value : (192 + a - 192) * 64 + (128 + b - 128) ≡ r = omega arith in
    rw (not_one, two, good, value) refl

first_rune-three :
    (r a b c : ℕ) (s : Text)
    → r ≡ (a * 64 + b) * 64 + c
    → b < 64
    → c < 64
    → 2048 ≤ r
    → r < 65536
    → is_scalar r ≡ true
    → first_rune (224 + a) ((128 + b) ∷ (128 + c) ∷ s) ≡ (r, 2)
unfolding first_rune
first_rune-three r a b c s e lb lc low high scalar =
    let not_one : ltb (224 + a) 128 ≡ false = ground arith in
    let not_two : ltb (224 + a) 224 ≡ false = ground arith in
    let three : ltb (224 + a) 240 ≡ true = ground arith in
    let value : three_value (224 + a) (128 + b) (128 + c) ≡ r = omega arith in
    let good : (is_continuation (128 + b)
          && is_continuation (128 + c)
          && (leb 2048 r && is_scalar r))
        ≡ true =
      ground arith in
    rw (not_one, not_two, three, value, good) refl

first_rune-four :
    (r a b c d : ℕ) (s : Text)
    → r ≡ ((a * 64 + b) * 64 + c) * 64 + d
    → b < 64
    → c < 64
    → d < 64
    → 65536 ≤ r
    → is_scalar r ≡ true
    → first_rune (240 + a) ((128 + b) ∷ (128 + c) ∷ (128 + d) ∷ s) ≡ (r, 3)
unfolding first_rune
first_rune-four r a b c d s e lb lc ld low scalar =
    let not_one : ltb (240 + a) 128 ≡ false = ground arith in
    let not_two : ltb (240 + a) 224 ≡ false = ground arith in
    let not_three : ltb (240 + a) 240 ≡ false = ground arith in
    let value : four_value (240 + a) (128 + b) (128 + c) (128 + d) ≡ r = omega arith in
    let good : (is_continuation (128 + b)
          && is_continuation (128 + c)
          && is_continuation (128 + d)
          && (leb 65536 r && is_scalar r))
        ≡ true =
      ground arith in
    rw (not_one, not_two, not_three, value, good) refl

-- A scalar rune is read back from its bytes, whatever is behind them.
decode-rune_bytes :
    (r : ℕ) (s : Text) → is_scalar r ≡ true → decode (rune_bytes r ++ s) ≡ r ∷ decode s
unfolding rune_bytes decode_behind
decode-rune_bytes r s h = rw h (elim (Bool-cases (ltb r 128)) [
  | inl one ↦ rw (one, first_rune-one r s (ground arith)) refl
  | inr m1 ↦ elim (Bool-cases (ltb r 2048)) [
    | inl two ↦
        rw
          (
            m1,
            two,
            first_rune-two r (r / 64) (r % 64) s (omega arith) (omega arith) (ground arith)
                (ground arith),
          )
          refl
    | inr m2 ↦ elim (Bool-cases (ltb r 65536)) [
      | inl three ↦
          rw
            (
              m1,
              m2,
              three,
              first_rune-three r (r / 64 / 64) (r / 64 % 64) (r % 64) s (omega arith) (omega arith)
                  (omega arith) (ground arith) (ground arith) h,
            )
            refl
      | inr four ↦
          rw
            (
              m1,
              m2,
              four,
              first_rune-four r (r / 64 / 64 / 64) (r / 64 / 64 % 64) (r / 64 % 64) (r % 64) s
                  (omega arith) (omega arith) (omega arith) (omega arith) (ground arith) h,
            )
            refl
    ]
  ]
])

pub decode-encode : (runes : Text) → AllScalar runes → decode (encode runes) ≡ runes
unfolding encode
decode-encode [] h = unfold decode_behind in refl
decode-encode (r ∷ runes) (p, h) =
    decode-rune_bytes r (encode runes) p ∙ ap (λ (t : Text). r ∷ t) (decode-encode runes h)

pub encode-append : (s t : Text) → encode (s ++ t) ≡ encode s ++ encode t
unfolding encode
encode-append [] t = refl
encode-append (r ∷ s) t =
    ap (λ (u : Text). rune_bytes r ++ u) (encode-append s t)
    ∙ sym (append_assoc (rune_bytes r) (encode s) (encode t))
