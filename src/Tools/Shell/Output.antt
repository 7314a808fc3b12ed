-- ===== src/Tools/Shell/Output.antt =====
-- What the buffer of a command's output holds.
use mathlib.Core.List.{append_assoc, append-nil}
use nisix.Common.{
  ℕ, zero, suc, ◌+◌, ◌-◌, ◌≤◌, ◌<◌, ◌≡◌, refl, sym, ap, ◌∙◌, inl, inr, List, [], ◌∷◌, ◌++◌, ltb,
  arith, length, take, length-append, take_all, take-append, Bool-cases,
}
use nisix.Common.Text.{Text}
use nisix.Common.Int.{ℤ, positive_or}
use nisix.Tools.Shell.{LimitedBuffer, new_limited_buffer, write, max_shell_output_bytes}

-- The buffer after writes, one after the other.
pub write_all : LimitedBuffer → List Text → LimitedBuffer
write_all b [] = b
write_all b (p ∷ ps) = write_all (write b p).0 ps

pub concat : List Text → Text
concat [] = []
concat (p ∷ ps) = p ++ concat ps

-- What a buffer holds of the bytes that were written.
pub record Holds (limit : ℕ) (written : Text) (b : LimitedBuffer) : Type 0 where
  pub front : b.buf ≡ take limit written
  pub left : b.remaining ≡ limit - length written
  pub cut : b.truncated ≡ ltb limit (length written)

take-append_over :
    (n k : ℕ) (xs ys : Text) → length xs + k ≡ n → take n (xs ++ ys) ≡ xs ++ take k ys
take-append_over n k [] ys e = (let same : n ≡ k = omega arith in rw same refl)
take-append_over zero k (x ∷ xs) ys e = absurd (omega arith)
take-append_over (suc n) k (x ∷ xs) ys e =
    ap (λ r. x ∷ r) (take-append_over n k xs ys (omega arith))

take_over : (n : ℕ) (xs ys : Text) → n ≤ length xs → take n (xs ++ ys) ≡ take n xs
take_over n xs ys h = take-append n xs ys h

write-Holds :
    (limit : ℕ) (written p : Text) (b : LimitedBuffer)
    → Holds limit written b
    → Holds limit (written ++ p) (write b p).0
unfolding write
write-Holds limit written [] b h = rw (append-nil written) h
write-Holds limit written (c ∷ p) b h =
    (let n = length-append written (c ∷ p) in
      let left = h.left in
      elim (Bool-cases (ltb 0 b.remaining)) [
        | inr full ↦ simp full (record {
          front = h.front ∙ sym (take_over limit written (c ∷ p) (ground arith));
          left = left ∙ omega (arith, n, (let z : 0 < b.remaining → ⊥ = λ g. ground arith in z));
          cut = ground arith;
        })
        | inl space ↦
            (let short : length written ≤ limit = ground arith in
              let whole = h.front ∙ take_all limit written short in
              elim (Bool-cases (ltb b.remaining (length (c ∷ p)))) [
                | inl long ↦
                    simp (space, long)
                      (record {
                        front =
                            ap (λ r. r ++ take b.remaining (c ∷ p)) whole
                            ∙ sym
                                (take-append_over limit b.remaining written (c ∷ p) (ground arith));
                        left = ground arith;
                        cut = ground arith;
                      })
                | inr fits ↦
                    simp (space, fits)
                      (record {
                        front =
                            ap (λ r. r ++ c ∷ p) whole
                            ∙ sym (take_all limit (written ++ c ∷ p) (ground arith));
                        left = ground arith;
                        cut = ground arith;
                      })
              ])
      ])

write_all-Holds :
    (limit : ℕ) (written : Text) (b : LimitedBuffer) (ps : List Text)
    → Holds limit written b
    → Holds limit (written ++ concat ps) (write_all b ps)
unfolding write_all concat
write_all-Holds limit written b [] h = rw (append-nil written) h
write_all-Holds limit written b (p ∷ ps) h =
    rw (← append_assoc written p (concat ps))
      (write_all-Holds limit (written ++ p) (write b p).0 ps (write-Holds limit written p b h))

-- A buffer holds, after any writes, the first bytes of what was written, as many as the limit, and is
-- marked as truncated exactly if more were written; and a Write always reports that it took all of its bytes.
pub write_all-Holds_prefix :
    (limit : ℤ) (ps : List Text) (p : Text)
    → Holds
        (positive_or limit max_shell_output_bytes)
        (concat ps)
        (write_all (new_limited_buffer limit) ps)
      × ((write (write_all (new_limited_buffer limit) ps) p).1 ≡ length p)
write_all-Holds_prefix limit ps p = (
  write_all-Holds (positive_or limit max_shell_output_bytes) [] (new_limited_buffer limit) ps (
      unfold new_limited_buffer in
      record { front = sym (take_all _ [] (omega arith)); left = omega arith; cut = ground arith }),
  reports (write_all (new_limited_buffer limit) ps) p,
)
  where
    reports : (b : LimitedBuffer) (p : Text) → (write b p).1 ≡ length p
    reports b [] = unfold write in refl
    reports b (c ∷ p) = unfold write in ground arith
