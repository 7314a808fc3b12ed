-- ===== src/Tests/Connecting.antt =====
-- internal/gateway/ws.go on a concrete connection.
use nisix.Common.{◌≡◌, ◌⊎◌, refl, inr, true, none, some, [], ◌∷◌}
use nisix.Common.Text.{Text, codes, eq_text, trim_space}
use nisix.Common.Int.{pos}
use nisix.Common.Dict
use nisix.Router.{Resolver}
use nisix.Security.{authenticate}
use nisix.Gateway.Ws.{
  RequestFrame, ConnectParams, ChatAbortParams, Decoder, Io, Connection, new_connection,
  validate_request, handle_request, find_run_to_abort, find_session, request, opened, after,
}
use nisix.Gateway.Ws.Handshake.{IsSafe, Reachable-IsSafe}
use nisix.Gateway.Ws.Abort.{IsActive, IsWanted, find_run_to_abort-IsWanted}

abbrev good : Io
good = record { written = true; now = 9; unix_nano = 9; turn = 1 }

abbrev params : ConnectParams
params = record { min_protocol = pos 1; max_protocol = pos 1; token = codes "secret" }

abbrev json : Decoder (Unit {0})
json = record { connect = λ p. some params; chat_send = λ p. none; chat_abort = λ p. none }

abbrev serve : Text → Unit {0} → Text ⊎ Text
serve method p = inr (codes "METHOD_NOT_FOUND")

abbrev rules : Resolver
rules = record { bindings = []; default_id = codes "main" }

abbrev connect_frame : RequestFrame (Unit {0})
connect_frame = record { type = codes "req"; id = codes "1"; method = codes "connect"; params = tt }

abbrev after_connect : Connection
after_connect =
    (handle_request json serve rules (codes "secret") good new_connection connect_frame).0

greets : after_connect.connected ≡ true
unfolding handle_request validate_request eq_text new_connection authenticate
greets = refl

new_connection-is_open : new_connection.is_open ≡ true
unfolding new_connection
new_connection-is_open = refl

Reachable-IsSafe_example : IsSafe (codes "secret") after_connect
Reachable-IsSafe_example =
    Reachable-IsSafe json serve rules (codes "secret")
      (after opened (request good connect_frame new_connection-is_open refl))

abbrev abort : ChatAbortParams
abort = record { run_id = codes " "; session_key = codes "k" }

abbrev two_runs : Dict.Dict Text
two_runs = (codes "r1", codes "j") ∷ (codes "r2", codes "k") ∷ []

finds : find_run_to_abort good two_runs abort ≡ some (codes "r2", codes "k")
unfolding find_run_to_abort find_session trim_space eq_text
finds = refl

find_run_to_abort-IsWanted_example :
    IsActive (codes "r2", codes "k") two_runs × IsWanted abort (codes "r2", codes "k")
find_run_to_abort-IsWanted_example =
    find_run_to_abort-IsWanted good two_runs abort (codes "r2", codes "k") finds
