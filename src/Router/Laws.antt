-- ===== src/Router/Laws.antt =====
-- Which binding a message is routed by, and that routing reads names up to case and space.
use nisix.Common.{
  ◌≡◌, refl, ◌⊎◌, inl, inr, ◌≢◌, ap, true, false, List, [], ◌∷◌, ◌++◌, All, arith, Bool-cases,
}
use nisix.Common.Text.{Text, codes, trim_space, to_lower}
use nisix.Common.TextLaws.{trim_space_idem, normal_idem}
use nisix.Domain.{InboundMessage}
use nisix.Router.{
  BindingRule, Resolver, matches, new_route, or_else, default_account, resolve_from, resolve,
}

-- The bindings before `b` do not match, and `b` does.
pub record IsFirstMatch (bs : List BindingRule) (c a p : Text) (b : BindingRule) : Type 0 where
  pub before : List BindingRule
  pub after : List BindingRule
  pub listed : bs ≡ before ++ b ∷ after
  pub skipped : All (λ x. matches x c a p ≡ false) before
  pub matched : matches b c a p ≡ true

module _ (default_id c a p : Text) where
  resolve_from_chosen :
      (bs : List BindingRule)
      → ((b : BindingRule) × IsFirstMatch bs c a p b
          × (resolve_from bs default_id c a p ≡ new_route b.agent_id c a p (codes "binding")))
        ⊎ (All (λ x. matches x c a p ≡ false) bs
            × (resolve_from bs default_id c a p ≡ new_route default_id c a p (codes "default")))
  unfolding resolve_from
  resolve_from_chosen [] = inr (tt, refl)
  resolve_from_chosen (b ∷ bs) = elim (Bool-cases (matches b c a p)) [
    | inl e ↦
        inl (b, record { before = []; after = bs; listed = refl; skipped = tt; matched = e }, rw e)
    | inr e ↦ elim (resolve_from_chosen bs) [
      | inl (d, first, same) ↦ inl (
        d,
        record {
          before = b ∷ first.before;
          after = first.after;
          listed = ap (λ (l : List BindingRule). b ∷ l) first.listed;
          skipped = (e, first.skipped);
          matched = first.matched;
        },
        rw e same,
      )
      | inr (none_of, same) ↦ inr ((e, none_of), rw e same)
    ]
  ]

-- The route of a message is that of the first binding that matches its normalised channel, account and
-- peer, or that of the default agent, and then no binding matches.
abbrev pub IsChosen : Resolver → InboundMessage → Type 0
IsChosen r msg =
    let c : Text = to_lower (trim_space msg.channel) in
    let a : Text = to_lower (trim_space msg.account_id) in
    let p : Text = trim_space msg.peer_id in
    ((b : BindingRule) × IsFirstMatch r.bindings c a p b
      × (resolve r msg ≡ new_route b.agent_id c a p (codes "binding")))
    ⊎ (All (λ x. matches x c a p ≡ false) r.bindings
        × (resolve r msg ≡ new_route r.default_id c a p (codes "default")))

-- A message goes to the agent of the first binding that matches its normalised channel, account and
-- peer, and to the default agent if no binding matches.
pub resolve-IsChosen : (r : Resolver) (msg : InboundMessage) → IsChosen r msg
unfolding resolve
resolve-IsChosen r msg = resolve_from_chosen r.default_id _ _ _ r.bindings

-- A message with its channel, account and peer already normalised.
abbrev pub normalised : InboundMessage → InboundMessage
normalised msg = record msg {
  channel = to_lower (trim_space msg.channel);
  account_id = to_lower (trim_space msg.account_id);
  peer_id = trim_space msg.peer_id;
}

-- Upper or lower case and surrounding space in the channel and the account, and surrounding space
-- in the peer, do not change the route.
pub resolve-normalised :
    (r : Resolver) (msg : InboundMessage) → resolve r (normalised msg) ≡ resolve r msg
unfolding resolve
resolve-normalised r msg = simp (normal_idem, trim_space_idem)

or_else_normal :
    (s : Text)
    → to_lower (trim_space s) ≡ s
    → let d = or_else s default_account in (d ≢ []) × (to_lower (trim_space d) ≡ d)
unfolding to_lower trim_space
or_else_normal [] h = (λ e. cc, refl)
or_else_normal (c ∷ s) h = (λ e. cc, h)

new_route_normal :
    (agent c a p by : Text)
    → to_lower (trim_space a) ≡ a
    → ((new_route agent c a p by).account_id ≢ [])
      × (to_lower (trim_space (new_route agent c a p by).account_id)
          ≡ (new_route agent c a p by).account_id)
unfolding new_route
new_route_normal agent c a p by h = or_else_normal a h

resolve_from-account_id :
    (bs : List BindingRule) (d c a p : Text)
    → (resolve_from bs d c a p).account_id ≡ or_else a default_account
unfolding resolve_from new_route
resolve_from-account_id [] d c a p = refl
resolve_from-account_id (b ∷ bs) d c a p = ground (arith, resolve_from-account_id bs d c a p)

resolve_from-channel :
    (bs : List BindingRule) (d c a p : Text) → (resolve_from bs d c a p).channel ≡ c
unfolding resolve_from new_route
resolve_from-channel [] d c a p = refl
resolve_from-channel (b ∷ bs) d c a p = ground (arith, resolve_from-channel bs d c a p)

pub resolve-account_id :
    (r : Resolver) (msg : InboundMessage)
    → (resolve r msg).account_id ≡ or_else (to_lower (trim_space msg.account_id)) default_account
unfolding resolve
resolve-account_id r msg = resolve_from-account_id r.bindings _ _ _ _

pub resolve-channel :
    (r : Resolver) (msg : InboundMessage)
    → (resolve r msg).channel ≡ to_lower (trim_space msg.channel)
unfolding resolve
resolve-channel r msg = resolve_from-channel r.bindings _ _ _ _

-- The account of a route is never empty, is lower case and has no surrounding space.
pub resolve_normal_account :
    (r : Resolver) (msg : InboundMessage)
    → ((resolve r msg).account_id ≢ [])
      × (to_lower (trim_space (resolve r msg).account_id) ≡ (resolve r msg).account_id)
resolve_normal_account r msg = rw resolve-account_id (or_else_normal _ (normal_idem msg.account_id))
