-- ===== src/Router/Keys.antt =====
-- Session keys: what a key tells of the route that it was made from.
use nisix.Common.{ℕ, ◌≡◌, refl, ◌≢◌, [], ◌∷◌, ◌++◌, All}
use nisix.Common.Text.{Text, codes}
use nisix.Router.{session_key}

abbrev pub NoColon : Text → Type 0
NoColon = All (λ (c : ℕ). c ≢ 58)

-- What stands before the first colon is determined.
append_colon_injective :
    (x y s t : Text) → NoColon x → NoColon y → x ++ (58 ∷ s) ≡ y ++ (58 ∷ t) → (x ≡ y) × (s ≡ t)
append_colon_injective [] [] s t hx hy e = (refl, cc)
append_colon_injective [] (d ∷ y) s t hx hy e = absurd (hy.0 (cc))
append_colon_injective (c ∷ x) [] s t hx hy e = absurd (hx.0 (cc))
append_colon_injective (c ∷ x) (d ∷ y) s t hx hy e =
    let (same, rest) = append_colon_injective x y s t hx.1 hy.1 (cc) in
    let first : c ≡ d = cc in (cc, rest)

-- Two routes have one session key only if they have the same agent, channel, account and peer, as
-- long as no agent, channel or account holds a colon. The peer may hold colons.
pub session_key_injective :
    (agent channel account peer agent' channel' account' peer' : Text)
    → NoColon agent × NoColon channel × NoColon account
    → NoColon agent' × NoColon channel' × NoColon account'
    → session_key agent channel account peer ≡ session_key agent' channel' account' peer'
    → (agent ≡ agent') × (channel ≡ channel') × (account ≡ account') × (peer ≡ peer')
unfolding session_key
session_key_injective a c k p a' c' k' p' h h' e =
    let e1 : a ++ (58 ∷ (c ++ (58 ∷ (k ++ (codes ":dm:" ++ p)))))
        ≡ a' ++ (58 ∷ (c' ++ (58 ∷ (k' ++ (codes ":dm:" ++ p'))))) =
      cc in
    let (same_a, e2) = append_colon_injective a a' _ _ h.0 h'.0 e1 in
    let (same_c, e3) = append_colon_injective c c' _ _ h.1 h'.1 e2 in
    let (same_k, e4) = append_colon_injective k k' _ _ h.2 h'.2 e3 in (same_a, same_c, same_k, cc)
