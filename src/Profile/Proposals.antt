-- ===== src/Profile/Proposals.antt =====
-- internal/profile/proposals.go: the proposals that wait for their user's consent.
use nisix.Common.{ℕ, ◌+◌, ◌*◌, not, Option, none, some, [], ◌∷◌, ◌++◌, ltb, if◌then◌else◌}
use nisix.Common.Text.{Text, codes, eq_text, trim_space, to_upper}
use nisix.Common.Dict
use nisix.Common.Dict.{Dict}
use nisix.Common.Int.{ℤ, positive_or}
use nisix.Common.Decimal.{itoa}
use nisix.Profile.{UpdateRequest, Proposal}

pub record ProposalStore : Type 0 where
  pub proposals : Dict Proposal
  -- nanoseconds
  pub ttl : ℕ

unfoldable pub new_proposal_store : ℤ → ProposalStore
unfolding positive_or
new_proposal_store ttl = record { proposals = []; ttl = positive_or ttl (600 * 1_000_000_000) }

abbrev pub id_at : ℕ → Text
id_at now = codes "prop-" ++ itoa now

unfoldable pub create : ℕ → ProposalStore → Text → UpdateRequest → Text → ProposalStore × Proposal
create now s session_key req summary =
    let p : Proposal = record {
      id = id_at now;
      session_key = session_key;
      request = req;
      summary = summary;
      created_at = now;
      expires_at = now + s.ttl;
    } in
    (record s { proposals = Dict.put s.proposals (id_at now) p }, p)

unfoldable pub delete : ProposalStore → Text → ProposalStore
delete s id = record s { proposals = Dict.remove s.proposals id }

abbrev pub if_alive : ℕ → ProposalStore → Text → Option Proposal → ProposalStore × Option Proposal
if_alive now s id none = (s, none)
if_alive now s id (some p) = if ltb p.expires_at now then (delete s id, none) else (s, some p)

unfoldable pub get : ℕ → ProposalStore → Text → ProposalStore × Option Proposal
get now s id = if_alive now s id (Dict.get s.proposals id)

abbrev pub newer : Proposal → Option Proposal → Option Proposal
newer p none = some p
newer p (some out) = if ltb out.created_at p.created_at then some p else some out

-- The proposals that have not expired, and the newest of those that are asked for.
unfoldable pub latest_in :
    ℕ → Text → Text → Dict Proposal → Option Proposal → Dict Proposal × Option Proposal
unfolding eq_text trim_space to_upper
latest_in now session file [] out = ([], out)
latest_in now session file ((id, p) ∷ ps) out =
    let skipped = latest_in now session file ps out in
    let taken = latest_in now session file ps (newer p out) in
    if ltb p.expires_at now
    then skipped
    else if not (eq_text (trim_space p.session_key) session)
    then ((id, p) ∷ skipped.0, skipped.1)
    else if not (eq_text (to_upper (trim_space p.request.file)) file)
    then ((id, p) ∷ skipped.0, skipped.1)
    else ((id, p) ∷ taken.0, taken.1)

unfoldable pub latest : ℕ → ProposalStore → Text → Text → ProposalStore × Option Proposal
unfolding latest_in trim_space to_upper
latest now s session_key file =
    let (kept, out) =
      latest_in now (trim_space session_key) (to_upper (trim_space file)) s.proposals none in
    (record s { proposals = kept }, out)
