-- ===== src/Tests/Transcripts.antt =====
-- internal/sessions on a concrete session. The encoding knows one record, which is enough for one line.
use Prim.Native.Nat.{min, max}
use nisix.Common.{
  ◌-◌, ◌+◌, ◌+◌, ◌≤◌, ◌≡◌, refl, inl, true, false, none, some, List, [], ◌∷◌, length, take, drop,
  All, if◌then◌else◌, arith,
}
use nisix.Common.Text.{Text, codes, eq_text, eq_text_refl, trim_space, to_lower, split_byte}
use nisix.Common.Int.{pos, positive_or}
use nisix.Common.Decimal.{itoa}
use nisix.Common.Dict
use nisix.Common.Dict.{Dict}
use nisix.Sessions.{Entry, MessageRecord, AppendOptions, context_state_version}
use nisix.Sessions.Budget.{Budget, context_state_signature}
use nisix.Sessions.Summary.{append_conversation_summary}
use nisix.Sessions.Summary.Bounds.{length-append_conversation_summary}
use nisix.Sessions.Context.{is_context_message}
use nisix.Sessions.Context.Window.{IsWindow, summarize}
use nisix.Sessions.Transcript
use nisix.Sessions.Transcript.{rebuild, record_of, lines, normalize_message_record}
use nisix.Sessions.Transcript.Rebuild.{transcript_messages, rebuild-IsWindow, Writes}
use nisix.Sessions.History.{
  HistoryFilter, HistoryPage, passes, page, page_start, slice, history_page,
}
use nisix.Sessions.History.Filters.{InFilter, history_page-InFilter}
use nisix.Sessions.History.Pages.{limit_of, page_bounds, follow, follow_all}
use nisix.Sessions.Store.Memory.{get, InMemoryStore, in_memory_store}
use nisix.Sessions.Store.File
use nisix.Sessions.Store.File.{FileStore, RoundTrips, reads, new_file_store, reload-put, put-fails}
use nisix.Sessions.Manager.{Manager, Io, record_for, is_fresh, append_with_options, model_context}
use nisix.Sessions.Manager.Append.{
  AllSucceed, IsCoherent, Appended, AppendedTwice, messages, append-IsCoherent, append-stale,
}
use nisix.Sessions.Manager.Reads.{Returned, model_context-newest}

abbrev small : Budget
small = record { history_limit = 2; summary_max_chars = 100; summary_line_max_chars = 20 }

abbrev larger : Budget
larger = record small { history_limit = 3 }

abbrev entry : Entry
entry = record {
  session_key = codes "k";
  session_id = codes "s";
  agent_id = codes "main";
  updated_at = 5;
  context_state_version = context_state_version;
  context_state_sig = context_state_signature small;
  summarized_messages = 0;
  conversation_summary = [];
  recent_messages = [];
}

abbrev good : Io
good = record {
  mkdir = true;
  open_file = true;
  short_write = none;
  read = true;
  save = true;
  now = 9;
  unix_nano = 9;
}

good-AllSucceed : AllSucceed good
good-AllSucceed = record { mkdir = refl; open_file = refl; write = refl; read = refl; save = refl }

abbrev options : AppendOptions
options = record {
  event_type = [];
  run_id = [];
  kind = [];
  provider = [];
  aborted = false;
  tool_call = none;
  usage = none;
  metadata = [];
}

abbrev hello : MessageRecord
hello = record_for good entry (codes "user") (codes "hello") options

abbrev codec : Transcript.Codec
codec = record { marshal = λ rec. some (codes "{}"); unmarshal = λ line. some hello }

hello-Writes : Writes codec hello (codes "{}")
unfolding trim_space
hello-Writes = record {
  marshalled = refl;
  plain = ground arith;
  trimmed = refl;
  filled = refl;
  read_back = refl;
}

abbrev manager : Budget → Manager InMemoryStore
manager b = record { store = record { entries = (codes "k", entry) ∷ [] }; files = []; budget = b }

small-IsWindow : IsWindow small [] entry
unfolding summarize
small-IsWindow = record { recent = refl; counted = refl; summary = refl }

fresh : is_fresh small entry ≡ true
unfolding is_fresh
fresh = ground (arith, eq_text_refl (context_state_signature small))

stale : is_fresh larger entry ≡ false
unfolding is_fresh context_state_signature itoa eq_text
stale = refl

in_context : is_context_message (codes "user") (codes "hello") hello.event_type ≡ true
unfolding is_context_message record_for trim_space to_lower eq_text
in_context = refl

found_entry : in_memory_store.get (manager small).store (codes "k") ≡ some entry
unfolding get Dict.get
found_entry = refl

manager-IsCoherent : IsCoherent in_memory_store codec (manager small) entry
unfolding transcript_messages get Dict.get
manager-IsCoherent = record { stored = refl; window = small-IsWindow; complete = inl refl }

append-IsCoherent_example :
    Appended in_memory_store codec
      (manager small)
      (append_with_options in_memory_store codec good
        (manager small)
        entry
        (codes "user")
        (codes "hello")
        options)
      entry
      (codes "user")
      (codes "hello")
append-IsCoherent_example =
    append-IsCoherent in_memory_store codec good (manager small) entry entry (codes "user")
      (codes "hello") options (codes "{}") good-AllSucceed (omega arith) refl refl
      manager-IsCoherent fresh in_context hello-Writes

-- Three messages at most are kept now; the entry was made when two were.
append-stale_example :
    AppendedTwice in_memory_store codec
      (manager larger)
      (append_with_options in_memory_store codec good
        (manager larger)
        entry
        (codes "user")
        (codes "hello")
        options)
      entry
      (codes "user")
      (codes "hello")
unfolding Dict.get
append-stale_example =
    append-stale in_memory_store codec good (manager larger) entry entry (codes "user")
      (codes "hello") options (codes "{}") good-AllSucceed (omega arith) refl found_entry (inl refl)
      stale in_context hello-Writes

model_context-newest_example :
    Returned in_memory_store codec small
      (messages in_memory_store codec (manager small) entry)
      (model_context in_memory_store codec good (manager small) (codes "k")).1
model_context-newest_example =
    model_context-newest in_memory_store codec good (manager small) (codes "k") entry (omega arith)
      found_entry refl refl (λ h. manager-IsCoherent.window)

abbrev talk : List (Text × Text)
talk =
    (codes "user", codes "one")
    ∷ (codes "assistant", codes "two")
    ∷ (codes "user", codes "three")
    ∷ []

rebuild-IsWindow_example :
    IsWindow small
      (transcript_messages codec entry (some (codes "{}")))
      (rebuild codec small entry (some (codes "{}")))
rebuild-IsWindow_example = rebuild-IsWindow codec small entry (some (codes "{}")) (omega arith)

abbrev filter : HistoryFilter
filter = record {
  limit = pos 1;
  role = codes "user";
  from = 0;
  to = 0;
  before = 0;
  after = 0;
  cursor = [];
}

abbrev page_of_hello : HistoryPage
page_of_hello = record { messages = hello ∷ []; next_cursor = []; prev_cursor = []; total = 1 }

history_page_test : history_page codec entry filter (some (codes "{}")) ≡ some page_of_hello
unfolding history_page page page_start slice passes record_of lines split_byte trim_space
    normalize_message_record record_for eq_text positive_or
history_page_test = refl

history_page-InFilter_example : All (InFilter filter) (hello ∷ [])
history_page-InFilter_example =
    history_page-InFilter codec entry filter (some (codes "{}")) page_of_hello history_page_test

page_bounds_example :
    (p : HistoryPage) × (page filter (hello ∷ hello ∷ []) ≡ some p)
    × (p.total ≡ 2)
    × (length p.messages ≡ min (limit_of filter) (2 - page_start filter.cursor (limit_of filter) 2))
    × (p.messages
        ≡ take
            (length p.messages)
            (drop (page_start filter.cursor (limit_of filter) 2) (hello ∷ hello ∷ [])))
    × (2 ≤ page_start filter.cursor (limit_of filter) 2 + limit_of filter → p.next_cursor ≡ [])
unfolding positive_or
page_bounds_example = page_bounds filter (hello ∷ hello ∷ []) (omega arith)

follow_all_example :
    follow 3 (record filter { cursor = itoa 0 }) (hello ∷ hello ∷ []) ≡ some (hello ∷ hello ∷ [])
unfolding positive_or
follow_all_example = follow_all filter (hello ∷ hello ∷ []) (omega arith)

length-append_conversation_summary_example :
    length (
      append_conversation_summary
        (codes "- User: one")
        (record { role = codes "assistant"; text = codes "two" })
        small)
    ≤ max 100 (max 23 (13 + 20))
length-append_conversation_summary_example =
    length-append_conversation_summary (codes "- User: one")
      (record { role = codes "assistant"; text = codes "two" }) small (omega arith)

abbrev json : File.Codec
json = record { marshal = λ d. some (codes "{}"); unmarshal = λ b. some ((codes "k", entry) ∷ []) }

abbrev empty_store : FileStore
empty_store = record { entries = []; disk = none }

json-RoundTrips : RoundTrips json (Dict.put [] (codes "k") entry)
unfolding Dict.put Dict.remove
json-RoundTrips = record {
  bytes = codes "{}";
  encoded = refl;
  filled = λ e. cc;
  back = (codes "k", entry) ∷ [];
  decoded = refl;
  same = λ k. refl;
}

reload-put_example :
    ((File.put json true empty_store entry).1 ≡ true)
    × (reads json
          (new_file_store json true (File.put json true empty_store entry).0.disk)
          (codes "j")
        ≡ (if eq_text (codes "k") (codes "j")
            then some entry
            else File.get json empty_store (codes "j")))
reload-put_example = reload-put json empty_store entry (codes "j") json-RoundTrips
