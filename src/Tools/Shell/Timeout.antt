-- ===== src/Tools/Shell/Timeout.antt =====
-- The timeout of a call is bounded, and is the number of seconds that was asked for.
use nisix.Common.{
  ℕ, zero, suc, ◌*◌, ◌^◌, ◌≤◌, ◌<◌, ◌≡◌, ◌≢◌, sym, ap, ◌∙◌, inl, inr, Option, none, some, ltb,
  arith, Bool-cases,
}
use nisix.Common.Int.{ℤ, pos, negsuc}
use nisix.Tools.Shell.{
  ShellTool, Value, absent, int, float, string, other, as_int, second, seconds, duration, within,
  timeout_of, resolve_timeout,
}

-- Not above a number of nanoseconds.
abbrev pub AtMost : ℕ → ℤ → Type 0
AtMost max (pos n) = n ≤ max
AtMost max (negsuc n) = Unit

seconds_exact : (n : ℕ) → n * second < 2 ^ 63 → seconds n ≡ pos (n * second)
unfolding seconds
seconds_exact n h = ground arith

duration_injective : {v w : ℤ} → duration v ≡ duration w → v ≡ w
duration_injective e = cc

timeout_of-AtMost : (max : ℕ) (v : Option ℤ) (d : ℤ) → timeout_of max v ≡ duration d → AtMost max d
timeout_of-AtMost max none d e = absurd cc
timeout_of-AtMost max (some (pos zero)) d e = absurd cc
timeout_of-AtMost max (some (negsuc n)) d e = absurd cc
timeout_of-AtMost max (some (pos (suc n))) d e = go (seconds (suc n)) e
  where
    go : (w : ℤ) → within max w ≡ duration d → AtMost max d
    go (pos n) e = elim (Bool-cases (ltb max n)) [
      | inl over ↦ absurd (let f = rw over at e in cc)
      | inr fits ↦
          (let f = rw fits at e in let same = duration_injective f in rw (← same) (ground arith))
    ]
    go (negsuc n) e = (let same = duration_injective e in rw (← same) tt)

-- The timeout of a call.
pub record KeepsLimit (t : ShellTool) (v : Value) : Type 0 where
  pub bounded : (d : ℤ) → resolve_timeout t v ≡ duration d → AtMost t.max_timeout d
  pub exact :
      (n : ℕ)
      → as_int v ≡ some (pos (suc n))
      → suc n * second < 2 ^ 63
      → suc n * second ≤ t.max_timeout
      → resolve_timeout t v ≡ duration (pos (suc n * second))
  pub refused :
      (n : ℕ)
      → as_int v ≡ some (pos (suc n))
      → suc n * second < 2 ^ 63
      → t.max_timeout < suc n * second
      → (d : ℤ) → resolve_timeout t v ≢ duration d

-- An input that is an int is not absent.
resolve_timeout_of :
    (t : ShellTool) (v : Value) (sec : ℤ)
    → as_int v ≡ some sec
    → resolve_timeout t v ≡ timeout_of t.max_timeout (some sec)
unfolding resolve_timeout as_int
resolve_timeout_of t absent sec e = absurd cc
resolve_timeout_of t (int v) sec e = ap (timeout_of t.max_timeout) e
resolve_timeout_of t (float v) sec e = ap (timeout_of t.max_timeout) e
resolve_timeout_of t (string s) sec e = ap (timeout_of t.max_timeout) e
resolve_timeout_of t other sec e = absurd cc

bounded_of :
    (t : ShellTool) (v : Value) (d : ℤ)
    → t.default_timeout ≤ t.max_timeout
    → resolve_timeout t v ≡ duration d
    → AtMost t.max_timeout d
unfolding resolve_timeout
bounded_of t absent d h e = (let same = duration_injective e in rw (← same) h)
bounded_of t (int v) d h e = timeout_of-AtMost t.max_timeout _ d e
bounded_of t (float v) d h e = timeout_of-AtMost t.max_timeout _ d e
bounded_of t (string s) d h e = timeout_of-AtMost t.max_timeout _ d e
bounded_of t other d h e = timeout_of-AtMost t.max_timeout _ d e

-- For a tool whose default is within its maximum, a timeout is never above the maximum. A positive number of seconds whose nanoseconds do
-- not overflow 63 bits gives exactly that timeout up to the maximum, and is refused above it.
pub resolve_timeout-KeepsLimit :
    (t : ShellTool) (v : Value) → t.default_timeout ≤ t.max_timeout → KeepsLimit t v
resolve_timeout-KeepsLimit t v h = record {
  bounded = λ d e. bounded_of t v d h e;
  exact = λ n e fits le.
      resolve_timeout_of t v (pos (suc n)) e
      ∙ ap (within t.max_timeout) (seconds_exact (suc n) fits)
      ∙ ground arith;
  refused = λ n e fits over d g.
      (let f =
          sym (
            resolve_timeout_of t v (pos (suc n)) e
            ∙ ap (within t.max_timeout) (seconds_exact (suc n) fits))
          ∙ g in
        ground arith);
}
