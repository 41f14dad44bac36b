-- ===== src/Cli.antt =====
-- crates/cli/src/main.rs: the request of a command, and what is printed of the response. Parsing the
-- command line and the layout of the output are calls of libraries.
use my_deskflow.Prelude.{ℕ, String, ◌≡◌, refl, none, some, List}
use my_deskflow.Prelude.Bytes.{Bytes}
use my_deskflow.Core.Error.{Error, Result}
use my_deskflow.Core.Config.{Config}
use my_deskflow.Daemon.Lifecycle.{Bound}
use my_deskflow.Daemon.Requests.{
  Daemon, IpcRequest, get_status, get_config, connect, disconnect, emergency_stop_request,
  subscribe_events, shutdown, IpcResponse, Surroundings, handle_request,
}

pub data Command : Type 0 where
  status config fingerprint watch emergency shut_down : Command
  connect_to : Bytes → Command
  disconnect_from : String → Command

unfoldable pub request_for : Command → IpcRequest
request_for Command.status = get_status
request_for Command.config = get_config
request_for Command.fingerprint = get_status
request_for Command.watch = subscribe_events
request_for Command.emergency = emergency_stop_request
request_for Command.shut_down = shutdown
request_for (connect_to addr) = connect addr none
request_for (disconnect_from peer) = disconnect peer

-- What is printed; `watch` waits for messages and prints each.
pub data Output : Type 0 where
  response : IpcResponse → Output
  toml : Config → Output
  hash : Bytes → Output
  waits : Output

abbrev config_output : IpcResponse → Output
config_output (IpcResponse.config c) = toml c
config_output r = response r

abbrev hash_output : IpcResponse → Output
hash_output (IpcResponse.status s) = hash s.local_fingerprint
hash_output r = response r

unfoldable pub output_for : Command → IpcResponse → Output
output_for Command.config r = config_output r
output_for Command.fingerprint r = hash_output r
output_for Command.watch r = waits
output_for command r = response r

-- The daemon refuses to send events, and the command that watches them waits all the same.
pub watch_waits :
    (e : Surroundings) (binding : Result Error Bound) (d : Daemon) (bound : List ℕ)
    → (message : String) × ((handle_request e binding d bound (request_for Command.watch)).response
        ≡ some (IpcResponse.failure message))
      × (output_for Command.watch (IpcResponse.failure message) ≡ waits)
unfolding request_for handle_request output_for
watch_waits e binding d bound = ("event streaming not yet implemented", refl, refl)
