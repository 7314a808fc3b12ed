-- ===== src/Sessions/Store.antt =====
-- internal/sessions/store.go: the interface Store and what the session manager relies on.
pub mod Memory
pub mod File
use nisix.Common.{◌≡◌, Bool, true, Option, none, some, List, map, if◌then◌else◌}
use nisix.Common.Text.{Text, eq_text}
use nisix.Common.Dict.{Dict}
use nisix.Sessions.{Entry}

-- The Boolean argument of `put` says whether the system calls of a save succeed; that of its result,
-- whether Put returned no error.
pub record Store (St : Type 0) : Type 0 where
  pub get : St → Text → Option Entry
  pub put : Bool → St → Entry → St × Bool
  pub list : St → List Entry
  pub get-put :
      (io : Bool) (s : St) (e : Entry) (k : Text)
      → get (put io s e).0 k ≡ (if eq_text e.session_key k then some e else get s k)
  pub put_succeeds : (s : St) (e : Entry) → (put true s e).1 ≡ true

unfoldable pub values : Dict Entry → List Entry
values m = map (λ (p : Text × Entry). p.1) m
