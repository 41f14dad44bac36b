-- ===== src/Daemon/Socket.antt =====
-- The daemon of crates/daemon/src/ipc_server.rs behind its socket: `handle_request` at the end of the
-- lines of crates/ipc/src/transport.rs.
use my_deskflow.Prelude.{ℕ, ◌+◌, ◌≡◌, Option, List, All}
use my_deskflow.Core.Error.{Error, Result}
use my_deskflow.Daemon.Lifecycle.{Bound}
use my_deskflow.Daemon.Requests.{Daemon, IpcRequest, IpcResponse, Surroundings, handle_request}
use my_deskflow.Ipc.Transport.{Json, Lines, IpcMessage, converse}
use my_deskflow.Ipc.Transport.Requests.{
  IsAsked, IsGiven, given, handle_all, converse-refines_handle_all,
}

-- The daemon with the endpoints that are bound, and what binding one would give at each request.
pub record Process : Type 0 where
  pub daemon : Daemon
  pub bound : List ℕ
  pub bindings : ℕ → Result Error Bound
  pub handled : ℕ

-- A request of a client: the response, if the process goes on.
unfoldable pub answer_request : Surroundings → Process → IpcRequest → Process × Option IpcResponse
answer_request e p r =
    let after = handle_request e (p.bindings p.handled) p.daemon p.bound r in
    (
      record p { daemon = after.daemon; bound = after.bound; handled = p.handled + 1 },
      after.response,
    )

-- A conversation with the daemon over its socket, with no other client meanwhile, refines direct
-- calls of handle_request, when every request is written as a line that is read back, and so is
-- every response that is given: the requests are handled in their order and the client reads
-- exactly the responses, up to the first request at which the process exits without one, and that
-- is read as the end of the connection.
pub converse-daemon :
    {X : Type 0} (requests : Json IpcRequest) (responses : Json IpcResponse)
    (messages : Json (IpcMessage IpcResponse X)) (lines : Lines) (e : Surroundings) (p : Process)
    (reqs : List IpcRequest)
    → All (IsAsked requests responses messages lines (answer_request e)) reqs
    → All
        (IsGiven requests responses messages lines (answer_request e))
        (given (answer_request e) p reqs)
    → converse requests responses messages lines (answer_request e) p reqs
      ≡ handle_all (answer_request e) p reqs
converse-daemon requests responses messages lines e p reqs asked gives =
    converse-refines_handle_all requests responses messages lines (answer_request e) p reqs asked
      gives
