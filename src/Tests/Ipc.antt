-- ===== src/Tests/Ipc.antt =====
-- A conversation with the daemon over the lines of crates/ipc, with texts of one letter.
use my_deskflow.Prelude.{
  ℕ, ◌≡◌, ◌≢◌, none, refl, arith, String, true, List, [], ◌∷◌, ◌==◌, if◌then◌else◌,
}
use my_deskflow.Prelude.Bytes.{Bytes}
use my_deskflow.Core.Error.{Result, ok, err}
use my_deskflow.Core.Config.{server}
use my_deskflow.Daemon.Requests.{
  IpcRequest, start_server_request, stop_server_request, shutdown, IpcResponse, done,
  handle_request,
}
use my_deskflow.Daemon.Socket.{Process, answer_request, converse-daemon}
use my_deskflow.Daemon.Lifecycle.{start_server, stop_server}
use my_deskflow.Daemon.Startup.{set_up_role}
use my_deskflow.Ipc.Transport.{Json, Lines, newline, IpcMessage, response, event, converse}
use my_deskflow.Ipc.Transport.Requests.{IsLine, IsAsked, IsGiven, given, handle_all}
use my_deskflow.Tests.Disk.{in_role}
use my_deskflow.Tests.Surroundings.{here}

abbrev letter : IpcRequest → Result String Bytes
letter start_server_request = ok (b'r' ∷ [])
letter stop_server_request = ok (b's' ∷ [])
letter shutdown = ok (b'q' ∷ [])
letter _ = err "unsupported"

abbrev line_of : Bytes → Result String IpcRequest
line_of [] = err "empty"
line_of (c ∷ cs) =
    if c == b'r'
    then ok start_server_request
    else if c == b's'
    then ok stop_server_request
    else ok shutdown

abbrev requests : Json IpcRequest
requests = record { to_vec = letter; from_str = line_of }

abbrev letter_of : IpcResponse → Result String Bytes
letter_of done = ok (b'd' ∷ [])
letter_of _ = err "unsupported"

abbrev responses : Json IpcResponse
responses = record { to_vec = letter_of; from_str = λ text. err "not read" }

-- A message is the response `done`, but for the text "e".
abbrev message_of : Bytes → Result String (IpcMessage IpcResponse Bytes)
message_of [] = err "empty"
message_of (c ∷ cs) = ok (if c == b'e' then event cs else response done)

abbrev messages : Json (IpcMessage IpcResponse Bytes)
messages = record { to_vec = λ v. err "not written"; from_str = message_of }

abbrev without_newlines : Bytes → Bytes
without_newlines [] = []
without_newlines (c ∷ cs) =
    let rest = without_newlines cs in if c == newline then rest else c ∷ rest

abbrev lines : Lines
lines = record { is_utf8 = λ text. true; trim_end = without_newlines }

abbrev process : Process
unfolding set_up_role
process = record {
  daemon = (set_up_role 5 (9 ∷ []) (in_role server) server).0;
  bound = [];
  bindings = λ n. ok (n, none);
  handled = 0;
}

-- The server is started and stopped, and the daemon shut down before the last request.
abbrev session : List IpcRequest
session = start_server_request ∷ stop_server_request ∷ shutdown ∷ stop_server_request ∷ []

converse-daemon_example :
    converse requests responses messages lines (answer_request here) process session
    ≡ handle_all (answer_request here) process session
unfolding given answer_request handle_request start_server stop_server process
converse-daemon_example =
    converse-daemon requests responses messages lines here process session
      (asks_start, (asks_stop, (asks_shutdown, (asks_stop, tt)))) (says_done, (says_done, tt))
  where
    one_line :
        (c : ℕ) → c ≢ newline → without_newlines (c ∷ newline ∷ []) ≡ c ∷ [] → IsLine lines (c ∷ [])
    one_line c other trimmed = record { no_newline = (other, tt); utf8 = refl; trimmed = trimmed }

    asks_start :
        IsAsked requests responses messages lines (answer_request here) start_server_request
    asks_start = record {
      text = b'r' ∷ [];
      written = refl;
      line = one_line b'r' (λ e. absurd (omega arith)) refl;
      read = refl;
    }

    asks_stop : IsAsked requests responses messages lines (answer_request here) stop_server_request
    asks_stop = record {
      text = b's' ∷ [];
      written = refl;
      line = one_line b's' (λ e. absurd (omega arith)) refl;
      read = refl;
    }

    asks_shutdown : IsAsked requests responses messages lines (answer_request here) shutdown
    asks_shutdown = record {
      text = b'q' ∷ [];
      written = refl;
      line = one_line b'q' (λ e. absurd (omega arith)) refl;
      read = refl;
    }

    says_done : IsGiven requests responses messages lines (answer_request here) done
    says_done = record {
      text = b'd' ∷ [];
      written = refl;
      line = one_line b'd' (λ e. absurd (omega arith)) refl;
      read = refl;
    }
