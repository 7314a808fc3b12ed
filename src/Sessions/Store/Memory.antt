-- ===== src/Sessions/Store/Memory.antt =====
-- internal/sessions/store.go: InMemoryStore.
use nisix.Common.{◌≡◌, refl, Bool, true, Option, some, List, [], if◌then◌else◌}
use nisix.Common.Text.{Text, eq_text}
use nisix.Common.Dict
use nisix.Common.Dict.{Dict, get-put}
use nisix.Sessions.{Entry}
use nisix.Sessions.Store.{Store, values}

pub record InMemoryStore : Type 0 where
  pub entries : Dict Entry

unfoldable pub new_in_memory_store : InMemoryStore
new_in_memory_store = record { entries = [] }

unfoldable pub get : InMemoryStore → Text → Option Entry
get s key = Dict.get s.entries key

unfoldable pub put : Bool → InMemoryStore → Entry → InMemoryStore × Bool
put io s e = (record { entries = Dict.put s.entries e.session_key e }, true)

unfoldable pub list : InMemoryStore → List Entry
list s = values s.entries

pub get-put_memory :
    (io : Bool) (s : InMemoryStore) (e : Entry) (k : Text)
    → get (put io s e).0 k ≡ (if eq_text e.session_key k then some e else get s k)
unfolding get put
get-put_memory io s e k = get-put s.entries e.session_key k e

pub put-succeeds : (s : InMemoryStore) (e : Entry) → (put true s e).1 ≡ true
unfolding put
put-succeeds s e = refl

-- The store in memory is a store.
abbrev pub in_memory_store : Store InMemoryStore
in_memory_store = record {
  get = get;
  put = put;
  list = list;
  get-put = get-put_memory;
  put_succeeds = put-succeeds;
}
