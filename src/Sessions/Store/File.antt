-- ===== src/Sessions/Store/File.antt =====
-- internal/sessions/store.go: FileStore. encoding/json is the parameter `Codec`. Of the file system
-- the model keeps the bytes at the store's path: a save that fails leaves them as they were, since
-- only the rename at its end touches them.
use nisix.Common.{
  ◌≡◌, ◌≢◌, refl, ◌∙◌, Bool, true, false, Option, none, some, List, [], ◌∷◌, if◌then◌else◌, arith,
}
use nisix.Common.Text.{Text, eq_text}
use nisix.Common.Dict
use nisix.Common.Dict.{Dict, get-put}
use nisix.Sessions.{Entry}
use nisix.Sessions.Store.{Store, values}

-- json.MarshalIndent and json.Unmarshal at map[string]Entry; `none` is an error.
pub record Codec : Type 0 where
  pub marshal : Dict Entry → Option Text
  pub unmarshal : Text → Option (Dict Entry)

pub record FileStore : Type 0 where
  pub entries : Dict Entry
  -- no file is none
  pub disk : Option Text

module _ (c : Codec) where
  abbrev parsed : Text → Option (Dict Entry)
  parsed [] = some []
  parsed (b ∷ bs) = c.unmarshal (b ∷ bs)

  abbrev loaded : Option Text → Option (Dict Entry) → Option FileStore
  loaded disk none = none
  loaded disk (some d) = some (record { entries = d; disk = disk })

  -- NewFileStore on what the disk holds; the Boolean says whether an existing file can be read, and
  -- `none` is an error.
  unfoldable pub new_file_store : Bool → Option Text → Option FileStore
  new_file_store readable none = some (record { entries = []; disk = none })
  new_file_store readable (some b) = if readable then loaded (some b) (parsed b) else none

  abbrev save_bytes : Bool → FileStore → Option Text → FileStore × Bool
  save_bytes io s none = (s, false)
  save_bytes io s (some b) = if io then (record s { disk = some b }, true) else (s, false)

  -- saveLocked
  unfoldable pub save : Bool → FileStore → FileStore × Bool
  save io s = save_bytes io s (c.marshal s.entries)

  unfoldable pub get : FileStore → Text → Option Entry
  get s key = Dict.get s.entries key

  unfoldable pub put : Bool → FileStore → Entry → FileStore × Bool
  unfolding save
  put io s e = save io (record s { entries = Dict.put s.entries e.session_key e })

  unfoldable pub list : FileStore → List Entry
  list s = values s.entries

  entries-put :
      (io : Bool) (s : FileStore) (e : Entry)
      → (put io s e).0.entries ≡ Dict.put s.entries e.session_key e
  unfolding put
  entries-put io s e = ground arith

  pub get-put_file :
      (io : Bool) (s : FileStore) (e : Entry) (k : Text)
      → get (put io s e).0 k ≡ (if eq_text e.session_key k then some e else get s k)
  unfolding get
  get-put_file io s e k = rw entries-put (get-put s.entries e.session_key k e)

  pub put-succeeds :
      ((d : Dict Entry) → c.marshal d ≢ none)
      → (s : FileStore) (e : Entry) → (put true s e).1 ≡ true
  unfolding put
  put-succeeds total s e = ground (arith, total (Dict.put s.entries e.session_key e))

  -- A store in a file is a store, where every map of entries has an encoding.
  abbrev pub file_store : ((d : Dict Entry) → c.marshal d ≢ none) → Store FileStore
  file_store total = record {
    get = get;
    put = put;
    list = list;
    get-put = get-put_file;
    put_succeeds = put-succeeds total;
  }

  -- The encoding of a map is not empty and reads back as a map with the same entries.
  pub record RoundTrips (d : Dict Entry) : Type 0 where
    pub bytes : Text
    pub encoded : c.marshal d ≡ some bytes
    pub filled : bytes ≢ []
    pub back : Dict Entry
    pub decoded : c.unmarshal bytes ≡ some back
    pub same : (k : Text) → Dict.get back k ≡ Dict.get d k

  abbrev pub reads : Option FileStore → Text → Option Entry
  reads none k = none
  reads (some s) k = get s k

  parsed_of_filled : (b : Text) → b ≢ [] → parsed b ≡ c.unmarshal b
  parsed_of_filled [] h = absurd (h refl)
  parsed_of_filled (x ∷ b) h = refl

  -- A Put whose save succeeds survives a restart: a store that is loaded from the disk afterwards
  -- finds the entry under its key, and under every other key what the old store found.
  pub reload-put :
      (s : FileStore) (e : Entry) (k : Text)
      → RoundTrips (Dict.put s.entries e.session_key e)
      → ((put true s e).1 ≡ true)
        × (reads (new_file_store true (put true s e).0.disk) k
            ≡ (if eq_text e.session_key k then some e else get s k))
  unfolding put new_file_store get
  reload-put s e k r = rw (r.encoded) (
    refl,
    rw (parsed_of_filled r.bytes r.filled, r.decoded)
        (r.same k ∙ get-put s.entries e.session_key k e),
  )

  -- A Put whose save fails reports it, leaves the file as it was, and still changes the entries in
  -- memory, so that Get finds the entry until a restart.
  pub put-fails :
      (s : FileStore) (e : Entry) (k : Text)
      → ((put false s e).1 ≡ false)
        × ((put false s e).0.disk ≡ s.disk)
        × (get (put false s e).0 k ≡ (if eq_text e.session_key k then some e else get s k))
  put-fails s e k =
      (unfold put in ground arith, unfold put in ground arith, get-put_file false s e k)
