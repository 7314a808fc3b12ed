-- ===== src/Gateway/Ws/Abort.antt =====
-- Which run chat.abort cancels.
use mathlib.Core.Path.{subst}
use nisix.Common.{
  ℕ, zero, suc, ◌≡◌, refl, sym, ap, ◌∙◌, ◌⊎◌, inl, inr, true, false, Option, none, some, [], ◌∷◌,
  ◌++◌, is_nil, take, drop, some_injective, Bool-cases,
}
use nisix.Common.Text.{Text, eq_text, eq_text_iff, trim_space}
use nisix.Common.Dict
use nisix.Common.Dict.{Dict}
use nisix.Gateway.Ws.{ChatAbortParams, Io, find_session, with_id, find_run_to_abort}

-- A run is listed among the active ones.
abbrev pub IsActive : Text × Text → Dict Text → Type 0
IsActive run [] = ⊥
IsActive run (r ∷ runs) = (r ≡ run) ⊎ IsActive run runs

-- A run is the one asked for: the one with the id, or, without an id, one of the session.
abbrev pub IsWanted : ChatAbortParams → Text × Text → Type 0
IsWanted p (run_id, key) =
    ((is_nil (trim_space p.run_id) ≡ false) × (run_id ≡ trim_space p.run_id))
    ⊎ ((is_nil (trim_space p.run_id) ≡ true)
        × (is_nil (trim_space p.session_key) ≡ false)
        × (key ≡ trim_space p.session_key))

get-IsActive :
    (runs : Dict Text) (rid key : Text) → Dict.get runs rid ≡ some key → IsActive (rid, key) runs
unfolding Dict.get
get-IsActive [] rid key e = absurd (cc)
get-IsActive ((r, k) ∷ runs) rid key e = elim (Bool-cases (eq_text r rid)) [
  | inl same ↦
      let k_key : k ≡ key = some_injective (rw same at e) in
      let r_rid : r ≡ rid = (eq_text_iff r rid).0 same in inl (cc)
  | inr other ↦ inr (get-IsActive runs rid key (rw other at e))
]

find_session-IsActive :
    (runs : Dict Text) (key : Text) (run : Text × Text)
    → find_session runs key ≡ some run
    → IsActive run runs × (run.1 ≡ key)
unfolding find_session
find_session-IsActive [] key run e = absurd (cc)
find_session-IsActive ((r, k) ∷ runs) key run e = elim (Bool-cases (eq_text k key)) [
  | inl same ↦
      let found : (r, k) ≡ run = some_injective (rw same at e) in
      (inl found, ap (λ (x : Text × Text). x.1) (sym found) ∙ (eq_text_iff k key).0 same)
  | inr other ↦
      let (active, at_key) = find_session-IsActive runs key run (rw other at e) in
      (inr active, at_key)
]

IsActive-append :
    (run : Text × Text) (xs ys : Dict Text)
    → IsActive run (xs ++ ys)
    → IsActive run xs ⊎ IsActive run ys
IsActive-append run [] ys h = inr h
IsActive-append run (x ∷ xs) ys (inl e) = inl (inl e)
IsActive-append run (x ∷ xs) ys (inr h) = elim (IsActive-append run xs ys h) [
  | inl left ↦ inl (inr left)
  | inr right ↦ inr right
]

IsActive-drop :
    (run : Text × Text) (n : ℕ) (xs : Dict Text) → IsActive run (drop n xs) → IsActive run xs
IsActive-drop run zero xs h = h
IsActive-drop run (suc n) [] h = h
IsActive-drop run (suc n) (x ∷ xs) h = inr (IsActive-drop run n xs h)

IsActive-take :
    (run : Text × Text) (n : ℕ) (xs : Dict Text) → IsActive run (take n xs) → IsActive run xs
IsActive-take run zero xs h = absurd h
IsActive-take run (suc n) [] h = h
IsActive-take run (suc n) (x ∷ xs) (inl e) = inl e
IsActive-take run (suc n) (x ∷ xs) (inr h) = inr (IsActive-take run n xs h)

-- A run that chat.abort finds is active, and it is the one asked for: the one with the id if an id is
-- given, else one of the session, wherever the iteration over the runs starts.
pub find_run_to_abort-IsWanted :
    (io : Io) (runs : Dict Text) (p : ChatAbortParams) (run : Text × Text)
    → find_run_to_abort io runs p ≡ some run
    → IsActive run runs × IsWanted p run
unfolding find_run_to_abort
find_run_to_abort-IsWanted io runs p run e = elim (Bool-cases (is_nil (trim_space p.run_id))) [
  | inr given ↦ by_id given (Dict.get runs (trim_space p.run_id)) refl (rw given at e)
  | inl no_id ↦ elim (Bool-cases (is_nil (trim_space p.session_key))) [
    | inl no_key ↦ let nothing = rw (no_id, no_key) at e in absurd (cc)
    | inr key_given ↦
        let (active, at_key) =
          find_session-IsActive (drop io.turn runs ++ take io.turn runs) (trim_space p.session_key)
            run (rw (no_id, key_given) at e) in
        (
          elim (IsActive-append run (drop io.turn runs) (take io.turn runs) active) [
            | inl left ↦ IsActive-drop run io.turn runs left
            | inr right ↦ IsActive-take run io.turn runs right
          ],
          inr (no_id, key_given, at_key),
        )
  ]
]
  where
    by_id :
        is_nil (trim_space p.run_id) ≡ false
        → (found : Option Text) → Dict.get runs (trim_space p.run_id) ≡ found
        → with_id (trim_space p.run_id) found ≡ some run
        → IsActive run runs × IsWanted p run
    by_id given none at_id e = absurd (cc)
    by_id given (some key) at_id e =
        let found : (trim_space p.run_id, key) ≡ run = some_injective e in
        (
          subst (λ (x : Text × Text). IsActive x runs) found
              (get-IsActive runs (trim_space p.run_id) key at_id),
          inl (given, ap (λ (x : Text × Text). x.0) (sym found)),
        )
