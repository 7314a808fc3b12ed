-- ===== src/Profile/Service/Consent.antt =====
-- The proposals of a profile: how they come and go, and when one is applied.
use nisix.Common.{
  ℕ, ◌≡◌, ◌≤◌, ◌<◌, ◌≢◌, refl, ◌∙◌, ◌⊎◌, inl, inr, Option, none, some, [], ◌∷◌, ltb, arith, All,
  Bool-cases, Option-cases,
}
use nisix.Common.Text.{Text, eq_text, eq_text_iff, eq_text_refl, trim_space}
use nisix.Common.Dict
use nisix.Common.Dict.{Dict, get-remove}
use nisix.Profile.{
  ProfileConfig, UpdateRequest, UpdateResult, Proposal, Answer, done, failed, proposal_invalid,
}
use nisix.Profile.Detect.{detect_high_confidence}
use nisix.Profile.Files.{Files, FileIo}
use nisix.Profile.Proposals
use nisix.Profile.Proposals.{ProposalStore, new_proposal_store, if_alive, newer}
use nisix.Profile.Service.{
  Service, new_service, update, propose, maybe_create_proposal, apply_get, apply_delete,
  apply_found, apply_among, own_proposal, Others, latest_proposal,
}

-- Every proposal is stored under its own id.
abbrev pub IsKept : Dict Proposal → Type 0
IsKept ps = All (λ (e : Text × Proposal). e.1.id ≡ e.0) ps

IsKept-get :
    (ps : Dict Proposal) (k : Text) (p : Proposal) → IsKept ps → Dict.get ps k ≡ some p → p.id ≡ k
unfolding Dict.get
IsKept-get [] k p h e = absurd cc
IsKept-get ((j, q) ∷ ps) k p (own, h) e = ground (arith, eq_text_iff j k, IsKept-get ps k p h)

IsKept-remove : (ps : Dict Proposal) (k : Text) → IsKept ps → IsKept (Dict.remove ps k)
unfolding Dict.remove
IsKept-remove [] k h = tt
IsKept-remove ((j, q) ∷ ps) k (own, h) = elim (Bool-cases (eq_text j k)) [
  | inl e ↦ rw e (IsKept-remove ps k h)
  | inr e ↦ rw e ((own, IsKept-remove ps k h))
]

create-IsKept :
    (now : ℕ) (s : ProposalStore) (key : Text) (req : UpdateRequest) (summary : Text)
    → IsKept s.proposals
    → IsKept (Proposals.create now s key req summary).0.proposals
unfolding Proposals.create Dict.put
create-IsKept now s key req summary h = (refl, IsKept-remove s.proposals _ h)

get-IsKept :
    (now : ℕ) (s : ProposalStore) (id : Text)
    → IsKept s.proposals
    → IsKept (Proposals.get now s id).0.proposals
unfolding Proposals.get Proposals.delete
get-IsKept now s id h = go (Dict.get s.proposals id)
  where
    go : (o : Option Proposal) → IsKept (if_alive now s id o).0.proposals
    go none = h
    go (some p) = elim (Bool-cases (ltb p.expires_at now)) [
      | inl e ↦ rw e (IsKept-remove s.proposals id h)
      | inr e ↦ rw e h
    ]

latest_in-IsKept :
    (now : ℕ) (session file : Text) (ps : Dict Proposal) (out : Option Proposal)
    → IsKept ps
    → IsKept (Proposals.latest_in now session file ps out).0
unfolding Proposals.latest_in
latest_in-IsKept now session file [] out h = tt
latest_in-IsKept now session file ((id, p) ∷ ps) out (own, h) = ground (
  arith,
  latest_in-IsKept now session file ps out h,
  latest_in-IsKept now session file ps (newer p out) h,
)

-- The steps of a service, at any times and answers of the file system. The look and the deletion of a call of
-- ApplyProposal are steps of their own, so that the calls interleave.
pub data Step : Service → Service → Type 0 where
  message :
      (now : ℕ) (s : Service) (session_key text : Text)
      → Step s (maybe_create_proposal now s session_key text).0
  looked :
      (now : ℕ) (s : Service) (session_key id : Text) → Step s (apply_get now s session_key id).0
  updated :
      (s : Service) (id : Text) (answer : Answer UpdateResult) → Step s (apply_delete s id answer)
  asked :
      (now : ℕ) (s : Service) (session_key file : Text)
      → Step s (latest_proposal now s session_key file).0

pub data Reachable (cfg : ProfileConfig) : Service → Type 0 where
  start : Reachable cfg (new_service cfg)
  after : {s t : Service} → Reachable cfg s → Step s t → Reachable cfg t

propose-IsKept :
    (now : ℕ) (s : Service) (session_key : Text) (o : Option (UpdateRequest × Text))
    → IsKept s.proposals.proposals
    → IsKept (propose now s session_key o).0.proposals.proposals
propose-IsKept now s session_key none h = h
propose-IsKept now s session_key (some (req, summary)) h =
    ground (arith, create-IsKept now s.proposals session_key req summary h)

maybe_create_proposal-IsKept :
    (now : ℕ) (s : Service) (session_key text : Text)
    → IsKept s.proposals.proposals
    → IsKept (maybe_create_proposal now s session_key text).0.proposals.proposals
unfolding maybe_create_proposal
maybe_create_proposal-IsKept now s session_key text h =
    ground (arith, propose-IsKept now s session_key (detect_high_confidence text) h)

apply_delete-IsKept :
    (s : Service) (id : Text) (answer : Answer UpdateResult)
    → IsKept s.proposals.proposals
    → IsKept (apply_delete s id answer).proposals.proposals
unfolding Proposals.delete apply_delete
apply_delete-IsKept s id (failed e) h = h
apply_delete-IsKept s id (done u) h = IsKept-remove s.proposals.proposals id h

step-IsKept :
    {s t : Service} → Step s t → IsKept s.proposals.proposals → IsKept t.proposals.proposals
step-IsKept (message now s session_key text) h =
    maybe_create_proposal-IsKept now s session_key text h
step-IsKept (looked now s session_key id) h =
    unfold apply_get in get-IsKept now s.proposals (trim_space id) h
step-IsKept (updated s id answer) h = apply_delete-IsKept s id answer h
step-IsKept (asked now s session_key file) h =
    unfold latest_proposal Proposals.latest in latest_in-IsKept now _ _ s.proposals.proposals none h

Reachable-IsKept :
    (cfg : ProfileConfig) {s : Service} → Reachable cfg s → IsKept s.proposals.proposals
Reachable-IsKept cfg start = unfold new_service new_proposal_store in tt
Reachable-IsKept cfg (after r x) = step-IsKept x (Reachable-IsKept cfg r)

-- Why a proposal is not applied.
pub data IsInvalid (now : ℕ) (s : Service) (session_key id : Text) : Type 0 where
  unknown : Dict.get s.proposals.proposals (trim_space id) ≡ none → IsInvalid now s session_key id
  expired :
      (p : Proposal)
      → Dict.get s.proposals.proposals (trim_space id) ≡ some p
      → p.expires_at < now
      → IsInvalid now s session_key id
  foreign :
      (p : Proposal)
      → Dict.get s.proposals.proposals (trim_space id) ≡ some p
      → trim_space p.session_key ≢ trim_space session_key
      → IsInvalid now s session_key id

-- A refused proposal changes no file.
pub record Refused (now : ℕ) (s : Service) (files : Files) (session_key id : Text)
    (after : Service × (Files × Answer UpdateResult)) : Type 0 where
  pub why : IsInvalid now s session_key id
  pub answer : after.1 ≡ (files, failed proposal_invalid)

-- A proposal is applied by its own session before it expires, as the update that it stands for, on the service
-- and the files as the other calls have left them. In the state that a success leaves, no look finds
-- its id; a failure changes no proposal.
pub record Applied (io : FileIo) (others : Others) (s : Service) (files : Files)
    (session_key id : Text) (after : Service × (Files × Answer UpdateResult)) : Type 0 where
  pub proposal : Proposal
  pub found : Dict.get s.proposals.proposals (trim_space id) ≡ some proposal
  pub alive : io.now ≤ proposal.expires_at
  pub own : trim_space proposal.session_key ≡ trim_space session_key
  pub ran :
      after.1
      ≡ update io (others.before_update s files).0 (others.before_update s files).1 proposal.request
  pub used :
      (u : UpdateResult)
      → after.1.1 ≡ done u
      → (now : ℕ) (other_session : Text) → (apply_get now after.0 other_session id).1 ≡ none
  pub kept :
      ((u : UpdateResult) → after.1.1 ≢ done u)
      → after.0 ≡ others.before_delete (others.before_update s files).0

apply_delete-done :
    (s : Service) (id : Text) (answer : Answer UpdateResult) (u : UpdateResult)
    → answer ≡ done u
    → Dict.get (apply_delete s id answer).proposals.proposals id ≡ none
unfolding apply_delete Proposals.delete
apply_delete-done s id (failed e) u h = absurd cc
apply_delete-done s id (done v) u h =
    get-remove s.proposals.proposals id id ∙ simp (eq_text_refl id)

apply_delete-failed :
    (s : Service) (id : Text) (answer : Answer UpdateResult)
    → ((u : UpdateResult) → answer ≢ done u)
    → apply_delete s id answer ≡ s
unfolding apply_delete
apply_delete-failed s id (failed e) h = refl
apply_delete-failed s id (done u) h = absurd (h u refl)

-- A look for an id that no proposal has finds none.
apply_get-unknown :
    (now : ℕ) (s : Service) (session_key id : Text)
    → Dict.get s.proposals.proposals (trim_space id) ≡ none
    → (apply_get now s session_key id).1 ≡ none
unfolding apply_get Proposals.get
apply_get-unknown now s session_key id h = rw h refl

apply_found-Applied :
    (io : FileIo) (others : Others) (s : Service) (files : Files) (session_key id : Text)
    (p : Proposal)
    → Dict.get s.proposals.proposals (trim_space id) ≡ some p
    → p.id ≡ trim_space id
    → io.now ≤ p.expires_at
    → Refused io.now s files session_key id
        (apply_found io others files (s, own_proposal session_key (some p)))
      ⊎ Applied io others s files session_key id
          (apply_found io others files (s, own_proposal session_key (some p)))
apply_found-Applied io others s files session_key id p found same alive =
    elim (Bool-cases (eq_text (trim_space p.session_key) (trim_space session_key))) [
      | inr e ↦ inl (
          simp e (record {
            why = foreign p found (λ own.
                (let g = (eq_text_iff (trim_space p.session_key) (trim_space session_key)).1 own in
                  cc));
            answer = refl;
          }))
      | inl e ↦ inr (
          simp e (
            let t = (others.before_update s files).0 in
            let answer = (update io t (others.before_update s files).1 p.request).1 in
            record {
              proposal = p;
              found = found;
              alive = alive;
              own = (eq_text_iff (trim_space p.session_key) (trim_space session_key)).0 e;
              ran = refl;
              used = λ u h now other_session.
                  apply_get-unknown now _ other_session id
                    (rw (← same) (apply_delete-done (others.before_delete t) p.id answer u h));
              kept = λ h. apply_delete-failed (others.before_delete t) p.id answer h;
            }))
    ]

-- ApplyProposal among any other calls, in every state that the steps of calls lead to. A proposal is applied only
-- with the consent of its own session and before it expires, by the update that it stands for. In the state that a
-- success leaves, a look for its id is refused; a failure leaves the proposals as the other calls have them.
-- Otherwise the call is refused, because the id is unknown, or the proposal has expired or belongs to another session,
-- and changes no file.
pub apply_proposal-Applied :
    (cfg : ProfileConfig) (s : Service)
    → Reachable cfg s
    → (io : FileIo) (others : Others) (files : Files) (session_key id : Text)
    → Refused io.now s files session_key id (apply_among io others s files session_key id)
      ⊎ Applied io others s files session_key id (apply_among io others s files session_key id)
unfolding apply_among apply_get Proposals.get
apply_proposal-Applied cfg s reach io others files session_key id =
    elim (Option-cases (Dict.get s.proposals.proposals (trim_space id))) [
      | inl e ↦ inl (record { why = unknown e; answer = rw e refl })
      | inr (p, e) ↦ elim (Bool-cases (ltb p.expires_at io.now)) [
        | inl late ↦ inl (record { why = expired p e (ground arith); answer = rw (e, late) refl })
        | inr early ↦
            rw (e, early)
              (apply_found-Applied io others s files session_key id p e
                (IsKept-get s.proposals.proposals (trim_space id) p (Reachable-IsKept cfg reach) e)
                (ground arith))
      ]
    ]
