-- ===== src/Sessions/Budget.antt =====
-- internal/sessions/manager.go: the budget of the model context and its signature.
use nisix.Common.{ℕ, ◌<◌, ◌≡◌, refl, [], ◌∷◌, ◌++◌, All, arith}
use nisix.Common.Text.{Text, codes}
use nisix.Common.Int.{ℤ, positive_or, positive_or-pos}
use nisix.Common.Decimal.{itoa, itoa-IsDigit, itoa_injective, IsDigit}
use nisix.Sessions.{context_state_version}

-- ContextBudget as a caller gives it.
pub record ContextBudget : Type 0 where
  pub history_limit : ℤ
  pub summary_max_chars : ℤ
  pub summary_line_max_chars : ℤ

-- ContextBudget as the manager keeps it, after normalizeContextBudget: every field is positive.
pub record Budget : Type 0 where
  pub history_limit : ℕ
  pub summary_max_chars : ℕ
  pub summary_line_max_chars : ℕ

unfoldable pub normalize_context_budget : ContextBudget → Budget
normalize_context_budget b = record {
  history_limit = positive_or b.history_limit 24;
  summary_max_chars = positive_or b.summary_max_chars 1800;
  summary_line_max_chars = positive_or b.summary_line_max_chars 180;
}

pub record IsPositive (b : Budget) : Type 0 where
  pub history : 0 < b.history_limit
  pub summary : 0 < b.summary_max_chars
  pub line : 0 < b.summary_line_max_chars

pub normalize-IsPositive : (b : ContextBudget) → IsPositive (normalize_context_budget b)
unfolding normalize_context_budget
normalize-IsPositive b = record {
  history = positive_or-pos b.history_limit 24 (omega arith);
  summary = positive_or-pos b.summary_max_chars 1800 (omega arith);
  line = positive_or-pos b.summary_line_max_chars 180 (omega arith);
}

-- fmt.Sprintf("v%d:h%d:s%d:l%d", …)
unfoldable pub context_state_signature : Budget → Text
context_state_signature b =
    codes "v"
    ++ (itoa context_state_version
        ++ (codes ":h"
            ++ (itoa b.history_limit
                ++ (codes ":s"
                    ++ (itoa b.summary_max_chars
                        ++ (codes ":l" ++ itoa b.summary_line_max_chars))))))

-- Digits end at the first byte that is no digit.
digits_injective :
    (x y s t : Text)
    → All IsDigit x
    → All IsDigit y
    → x ++ (58 ∷ s) ≡ y ++ (58 ∷ t)
    → (x ≡ y) × (s ≡ t)
digits_injective [] [] s t hx hy e = (refl, cc)
digits_injective [] (d ∷ y) s t hx hy e = let h : 58 ≡ d = cc in absurd (omega arith)
digits_injective (c ∷ x) [] s t hx hy e = let h : c ≡ 58 = cc in absurd (omega arith)
digits_injective (c ∷ x) (d ∷ y) s t hx hy e =
    let (same, rest) = digits_injective x y s t hx.1 hy.1 (cc) in
    let first : c ≡ d = cc in (cc, rest)

drop_version :
    (s t : Text)
    → codes "v" ++ (itoa context_state_version ++ (codes ":h" ++ s))
      ≡ codes "v" ++ (itoa context_state_version ++ (codes ":h" ++ t))
    → s ≡ t
drop_version s t e =
    let v = itoa context_state_version in
    let h : v ++ (codes ":h" ++ s) ≡ v ++ (codes ":h" ++ t) = cc in
    let (_, same) =
      digits_injective v v (codes "h" ++ s) (codes "h" ++ t) (itoa-IsDigit 1) (itoa-IsDigit 1) h in
    cc

-- Two budgets have one signature only if they are equal, so a change of the budget is always seen.
context_state_signature_injective :
    (b c : Budget) → context_state_signature b ≡ context_state_signature c → b ≡ c
unfolding context_state_signature
context_state_signature_injective b c e =
    let e1 = drop_version _ _ e in
    let (same_h, e2) =
      digits_injective _ _ _ _ (itoa-IsDigit b.history_limit) (itoa-IsDigit c.history_limit) e1 in
    let e3 : itoa b.summary_max_chars ++ (codes ":l" ++ itoa b.summary_line_max_chars)
        ≡ itoa c.summary_max_chars ++ (codes ":l" ++ itoa c.summary_line_max_chars) =
      cc in
    let (same_s, e4) =
      digits_injective _ _ _ _ (itoa-IsDigit b.summary_max_chars) (itoa-IsDigit c.summary_max_chars)
        e3 in
    let same_l : itoa b.summary_line_max_chars ≡ itoa c.summary_line_max_chars = cc in
    let h = itoa_injective _ _ same_h in
    let s = itoa_injective _ _ same_s in
    let l = itoa_injective _ _ same_l in
    λ i. record { history_limit = h i; summary_max_chars = s i; summary_line_max_chars = l i }
