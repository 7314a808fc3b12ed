-- ===== src/Security.antt =====
-- internal/security/auth.go: the token that opens the gateway.
use nisix.Common.{
  ◌≡◌, refl, ◌↔◌, ◌⊎◌, inl, Option, none, some, List, [], ◌∷◌, arith, is_nil, not, if◌then◌else◌,
}
use nisix.Common.Text.{Text, codes, eq_text, eq_text_iff}

pub record Principal : Type 0 where
  pub id : Text
  pub role : Text
  pub scopes : List Text

abbrev pub admin_principal : Text → Principal
admin_principal id = record {
  id = id;
  role = codes "operator";
  scopes = codes "operator.admin" ∷ [];
}

-- `none` is the error "security: invalid token"; the first argument is the configured token.
unfoldable pub authenticate : Text → Text → Option Principal
unfolding eq_text
authenticate configured token =
    if is_nil configured
    then some (admin_principal (codes "local"))
    else if not (eq_text token configured)
    then none
    else some (admin_principal (codes "operator"))

-- A token is accepted exactly if no token is configured or it is the configured one.
pub authenticate_iff :
    (configured token : Text)
    → (authenticate configured token ≡ none → ⊥) ↔ ((configured ≡ []) ⊎ (token ≡ configured))
unfolding authenticate
authenticate_iff [] token = (λ _. inl refl, λ _ e. cc)
authenticate_iff (c ∷ s) token = ground (arith, eq_text_iff token (c ∷ s))
