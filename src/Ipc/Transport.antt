-- ===== src/Ipc/Transport.antt =====
-- crates/ipc/src/transport.rs, and the loop of a connection in crates/daemon/src/ipc_server.rs. A
-- direction of the socket is the list of its bytes; serde_json and what the standard library does to
-- a line of text are parameters.
pub mod Requests
use my_deskflow.Prelude.{
  ℕ, zero, suc, String, Bool, true, false, Option, none, some, List, [], ◌∷◌, ◌++◌, ◌==◌,
  if◌then◌else◌,
}
use my_deskflow.Prelude.Bytes.{Bytes}
use my_deskflow.Core.Error.{Result, ok, err, ◌>>=◌, map_err}

-- `serde_json::to_vec` and `from_str` at a type.
pub record Json (T : Type 0) : Type 0 where
  pub to_vec : T → Result String Bytes
  pub from_str : Bytes → Result String T

-- `String::from_utf8` of a line, by whether it succeeds, and `trim_end`.
pub record Lines : Type 0 where
  pub is_utf8 : Bytes → Bool
  pub trim_end : Bytes → Bytes

pub data IpcError : Type 0 where
  disconnected : IpcError  -- "ipc peer disconnected"
  invalid_utf8 : IpcError
  serialize : String → IpcError
  parse : String → IpcError
  unexpected_event : IpcError

abbrev pub newline : ℕ
newline = 10

-- `write_json_line`: the bytes behind those that were written.
unfoldable pub write_json_line : {T : Type 0} → Json T → Bytes → T → Result IpcError Bytes
write_json_line json written val = do
  line ← map_err serialize (json.to_vec val)
  ok (written ++ (line ++ (newline ∷ [])))

-- `read_line`: up to and with the newline, or to the end; the line and what is left.
unfoldable pub read_line : Bytes → Bytes × Bytes
read_line [] = ([], [])
read_line (c ∷ cs) =
    let rest = read_line cs in if c == newline then (c ∷ [], cs) else (c ∷ rest.0, rest.1)

abbrev pub parse_line : {T : Type 0} → Json T → Lines → Bytes × Bytes → Result IpcError (T × Bytes)
parse_line json lines ([], rest) = err disconnected
parse_line json lines (c ∷ cs, rest) =
    if lines.is_utf8 (c ∷ cs)
    then (map_err parse (json.from_str (lines.trim_end (c ∷ cs))) >>= λ v. ok (v, rest))
    else err invalid_utf8

unfoldable pub read_json_line : {T : Type 0} → Json T → Lines → Bytes → Result IpcError (T × Bytes)
unfolding read_line
read_json_line json lines stream = parse_line json lines (read_line stream)

-- `IpcMessage`.
pub data IpcMessage (R E : Type 0) : Type 0 where
  response : R → IpcMessage R E
  event : E → IpcMessage R E

module _ {Q R E : Type 0} (requests : Json Q) (responses : Json R)
    (messages : Json (IpcMessage R E)) (lines : Lines) {S : Type 0}
    (handle : S → Q → S × Option R) where
  -- `write_response`; a request without a response ends the process, and nothing is written.
  pub write_answer : Option R → Result IpcError Bytes
  write_answer none = ok []
  write_answer (some r) = write_json_line responses [] r

  -- One round of the task that serves a connection: the state, the bytes of the response, and
  -- those of the stream that are left.
  unfoldable pub serve_request : S → Bytes → Result IpcError (S × Bytes × Bytes)
  unfolding write_answer
  serve_request s stream = do
    (req, rest) ← read_json_line requests lines stream
    answer ← write_answer (handle s req).1
    ok ((handle s req).0, answer, rest)

  -- What a client has to read behind that: nothing more where the task ends.
  pub served : S → Bytes → S × Bytes
  served s stream = elim (serve_request s stream) [
    | ok (s', answer, rest) ↦ (s', answer)
    | err e ↦ (s, [])
  ]

  pub only_response : IpcMessage R E × Bytes → Result IpcError R
  only_response (response r, rest) = ok r
  only_response (event x, rest) = err unexpected_event

  -- `IpcClient::request`, with the daemon at the other end.
  unfoldable pub request : S → Q → Result IpcError (S × R)
  unfolding only_response served
  request s req = do
    sent ← write_json_line requests [] req
    message ← read_json_line messages lines (served s sent).1
    r ← only_response message
    ok ((served s sent).0, r)

  -- The requests of a client, one after the other.
  unfoldable pub converse : S → List Q → Result IpcError (S × List R)
  converse s [] = ok (s, [])
  converse s (req ∷ reqs) =
      let later = λ (done : S × R). converse done.0 reqs >>= λ rest. ok (rest.0, done.1 ∷ rest.1) in
      request s req >>= later
