-- ===== src/Network/PeerLoop.antt =====
-- crates/network/src/peer_loop.rs: the tasks of a connection that `run_peer_loop` spawns and races,
-- between the byte streams of the connection and the two channels of the daemon. A stream is the
-- list of the bytes that the other side puts on it before it ends; stream 0 is the control stream,
-- and the auxiliary ones follow in the order in which they are accepted. The order of the tasks'
-- turns is the list of the events. Of a frame whose write fails nothing is on the stream.
pub mod Accounts
pub mod Faithful
pub mod Ending
pub mod Joined
use my_deskflow.Prelude.{
  ℕ, ◌+◌, Bool, true, false, ◌&&◌, not, Option, none, some, List, [], ◌∷◌, ◌++◌, ltb, ◌==◌, length,
  if◌then◌else◌,
}
use my_deskflow.Core.Error.{ok, err}
use my_deskflow.Protocol.Message.{Message}
use my_deskflow.Protocol.Codec.{Bincode}
use my_deskflow.Protocol.Stream.{write_message, read_message}

-- Both channels are `mpsc::channel::<Message>(256)`.
abbrev pub channel_bound : ℕ
channel_bound = 256

-- A loop over `read_message` with its stream: what is still to be read, and a message that is read
-- and waits in `inbound.send`. `whole` is the stream as it was opened.
pub record Reader : Type 0 where
  pub whole : List ℕ
  pub stream : List ℕ
  pub held : Option Message
  pub running : Bool

abbrev pub opened : List ℕ → Reader
opened bytes = record { whole = bytes; stream = bytes; held = none; running = true }

abbrev pub unopened : Reader
unopened = record { whole = []; stream = []; held = none; running = false }

-- Where `run_peer_loop` is: in its `select!`, behind it, or dropped by its caller.
pub data Race : Type 0 where
  racing returned dropped : Race

pub record PeerLoop : Type 0 where
  pub race : Race
  pub writing : Bool  -- `write_loop` runs
  pub accepting : Bool  -- `accept_streams_loop` runs
  pub outbound : List Message
  pub written : List ℕ
  pub readers : ℕ → Reader
  pub streams : ℕ
  pub inbound : List (ℕ × Message)
  pub taken : List (ℕ × Message)
  pub listening : Bool  -- the receiver of `inbound` is there

abbrev pub spawned : List ℕ → PeerLoop
spawned bytes = record {
  race = racing;
  writing = true;
  accepting = true;
  outbound = [];
  written = [];
  readers = λ i. if i == 0 then opened bytes else unopened;
  streams = 1;
  inbound = [];
  taken = [];
  listening = true;
}

-- What happens next: a turn of a task, of the daemon at the other ends of the channels, or of the
-- caller.
pub data Event : Type 0 where
  sent : Message → Event  -- `PeerHandle::send` has room for its message
  senders_dropped : Event
  write : Bool → Event  -- a turn of `write_loop`, and whether the connection takes the bytes
  read forward : ℕ → Event  -- a turn of a reader: `read_message`, and then `inbound.send`
  accepted : List ℕ → Event  -- `accept_uni` or `accept_bi`
  accept_failed : Event
  take : Event  -- the daemon takes a message
  receiver_dropped : Event
  select : Event  -- the `select!` is polled
  cancel : Event  -- the future of `run_peer_loop` is dropped

abbrev pub update_reader : ℕ → Reader → (ℕ → Reader) → ℕ → Reader
update_reader i r readers j = if j == i then r else readers j

-- A turn of `write_loop`: nothing to do while the channel is empty, and the end with the first
-- message that cannot be written.
write_turn : Bincode → Bool → List Message → PeerLoop → PeerLoop
write_turn b takes [] s = s
write_turn b takes (m ∷ ms) s = elim (write_message b s.written m) [
  | ok bytes ↦
      if takes
      then record s { outbound = ms; written = bytes }
      else record s { outbound = ms; writing = false }
  | err e ↦ record s { outbound = ms; writing = false }
]

-- `read_message` of a reader that holds nothing; its first error ends the loop.
read_turn : Bincode → Reader → Reader
read_turn b r = elim (read_message b r.stream).outcome [
  | ok (m, rest) ↦ record r { stream = rest; held = some m }
  | err e ↦ record r { running = false }
]

abbrev pub is_idle : Reader → Bool
is_idle r = elim r.held [ none ↦ r.running | some m ↦ false ]

-- `inbound.send(msg).await`: it waits while the channel is full, and fails without a receiver.
forward_turn : ℕ → Reader → Option Message → PeerLoop → PeerLoop
forward_turn i r none s = s
forward_turn i r (some m) s =
    if not s.listening
    then record s { readers = update_reader i (record r { running = false }) s.readers }
    else if ltb (length s.inbound) channel_bound
    then record s {
      inbound = s.inbound ++ ((i, m) ∷ []);
      readers = update_reader i (record r { held = none }) s.readers;
    }
    else s

take_turn : List (ℕ × Message) → PeerLoop → PeerLoop
take_turn [] s = s
take_turn (x ∷ xs) s = record s { inbound = xs; taken = s.taken ++ (x ∷ []) }

-- `tokio::select!` over the three handles: it returns when one of the tasks has ended, and drops
-- the handles of the others.
abbrev pub select_turn : PeerLoop → Race → Race
select_turn s racing =
    if s.writing && (s.readers 0).running && s.accepting then racing else returned
select_turn s returned = returned
select_turn s dropped = dropped

abbrev pub cancel_turn : Race → Race
cancel_turn racing = dropped
cancel_turn returned = returned
cancel_turn dropped = dropped

is_empty : List Message → Bool
is_empty [] = true
is_empty (m ∷ ms) = false

-- One turn. A turn of a task that has ended, and a send into a full channel, change nothing.
unfoldable pub step : Bincode → PeerLoop → Event → PeerLoop
unfolding write_turn read_turn forward_turn take_turn is_empty
step b s (sent m) =
    if s.writing && ltb (length s.outbound) channel_bound
    then record s { outbound = s.outbound ++ (m ∷ []) }
    else s
step b s senders_dropped = if is_empty s.outbound then record s { writing = false } else s
step b s (write takes) = if s.writing then write_turn b takes s.outbound s else s
step b s (read i) =
    if is_idle (s.readers i)
    then record s { readers = update_reader i (read_turn b (s.readers i)) s.readers }
    else s
step b s (forward i) =
    if (s.readers i).running then forward_turn i (s.readers i) (s.readers i).held s else s
step b s (accepted bytes) =
    if s.accepting
    then record s {
      readers = update_reader s.streams (opened bytes) s.readers;
      streams = s.streams + 1;
    }
    else s
step b s accept_failed = record s { accepting = false }
step b s take = take_turn s.inbound s
step b s receiver_dropped = record s { listening = false }
step b s select = record s { race = select_turn s s.race }
step b s cancel = record s { race = cancel_turn s.race }

unfoldable pub run : Bincode → PeerLoop → List Event → PeerLoop
unfolding step
run b s [] = s
run b s (e ∷ es) = run b (step b s e) es
