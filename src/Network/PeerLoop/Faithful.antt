-- ===== src/Network/PeerLoop/Faithful.antt =====
-- What the daemon receives of the streams of a connection of crates/network/src/peer_loop.rs, over
-- every order of the turns of its tasks.
use my_deskflow.Prelude.{
  ℕ, ◌<◌, ◌≤◌, ◌≡◌, refl, sym, ap, ◌∙◌, Bool, true, false, ◌&&◌, Bool-cases, if_ind, arith, ◌==◌,
  Option, none, some, List, [], ◌∷◌, ◌++◌, length, ltb, inl, inr, Option-cases, subst,
}
use mathlib.Core.List.{append_assoc, append-nil}
use my_deskflow.Prelude.Tagged.{from}
use my_deskflow.Core.Error.{Result-cases}
use my_deskflow.Protocol.Message.{Message}
use my_deskflow.Protocol.Codec.{Bincode}
use my_deskflow.Protocol.Stream.{write_message, read_message}
use my_deskflow.Network.PeerLoop.{
  PeerLoop, Reader, is_idle, is_empty, channel_bound, Event, sent, senders_dropped, write, read,
  forward, accepted, accept_failed, take, receiver_dropped, select, cancel, step, write_turn,
  read_turn, forward_turn, take_turn, run, unopened, spawned, update_reader,
}
use my_deskflow.Network.PeerLoop.Accounts.{
  messages, delivered, pending, IsFaithful, running-lt, replace, open_stream, messages-ok,
}

abbrev pub IsFaithfulState : Bincode → PeerLoop → Type 0
IsFaithfulState b s = IsFaithful b (delivered s) s.readers s.streams

-- A reader's turn takes the next message of its stream, or finds none.
read_turn_keeps :
    (b : Bincode) (r : Reader)
    → is_idle r ≡ true
    → (r.running ≡ true)
      × ((read_turn b r).whole ≡ r.whole)
      × (pending b (read_turn b r) ≡ pending b r)
unfolding read_turn
read_turn_keeps b r idle = elim (Option-cases r.held) [
  | inr (m, e) ↦ absurd (let bad = rw e at idle in cc)
  | inl e ↦
      let runs = rw e at idle in
      elim (Result-cases (read_message b r.stream).outcome) [
        | inl ((m, rest), ok_e) ↦ (
          runs,
          rw (ok_e, read_turn) refl,
          rw (ok_e, read_turn) (rw e (sym (messages-ok b r.stream m rest ok_e))),
        )
        | inr (x, err_e) ↦ (runs, rw (err_e, read_turn) refl, rw (err_e, read_turn) refl)
      ]
]

read_lem :
    (b : Bincode) (s : PeerLoop) (i : ℕ)
    → IsFaithfulState b s
    → IsFaithfulState b (step b s (read i))
unfolding step from
read_lem b s i f = elim (Bool-cases (is_idle (s.readers i))) [
  | inr e ↦ rw e f
  | inl e ↦
      let r = s.readers i in
      let (runs, same, kept) = read_turn_keeps b r e in
      rw e (
        subst (λ items. IsFaithful b items (update_reader i (read_turn b r) s.readers) s.streams)
          (append-nil (delivered s))
          (replace b (delivered s) s.readers s.streams f i (read_turn b r) []
            (running-lt b (delivered s) s.readers s.streams f i runs) same (λ j h. refl) kept))
]

from_one : (i : ℕ) (m : Message) → from i ((i, m) ∷ []) ≡ m ∷ []
unfolding from
from_one i m = ground arith

from_other : (i j : ℕ) (m : Message) → (j == i) ≡ false → from j ((i, m) ∷ []) ≡ []
unfolding from
from_other i j m e = rw e refl

module _ (b : Bincode) (s : PeerLoop) (i : ℕ) (m : Message) (f : IsFaithfulState b s)
    (runs : (s.readers i).running ≡ true) (h : (s.readers i).held ≡ some m) where
  i-lt : i < s.streams
  i-lt = running-lt b (delivered s) s.readers s.streams f i runs

  -- The receiver is gone: the reader ends with its message.
  ended_lem :
      IsFaithful b
        (delivered s)
        (update_reader i (record (s.readers i) { running = false }) s.readers)
        s.streams
  unfolding from
  ended_lem =
      subst
        (λ items.
          IsFaithful b items (update_reader i (record (s.readers i) { running = false }) s.readers)
            s.streams)
        (append-nil (delivered s))
        (replace b (delivered s) s.readers s.streams f i (record (s.readers i) { running = false })
          [] i-lt refl (λ j e. refl) refl)

  sent_lem :
      IsFaithful b
        (s.taken ++ (s.inbound ++ ((i, m) ∷ [])))
        (update_reader i (record (s.readers i) { held = none }) s.readers)
        s.streams
  sent_lem =
      subst
        (λ items.
          IsFaithful b items (update_reader i (record (s.readers i) { held = none }) s.readers)
            s.streams)
        (append_assoc s.taken s.inbound ((i, m) ∷ []))
        (replace b (delivered s) s.readers s.streams f i (record (s.readers i) { held = none })
          ((i, m) ∷ []) i-lt refl (λ j e. from_other i j m e) (rw (from_one i m) (rw h refl)))

  forward_some : IsFaithfulState b (forward_turn i (s.readers i) (some m) s)
  unfolding forward_turn
  forward_some = elim (Bool-cases s.listening) [
    | inr e ↦ rw e ended_lem
    | inl e ↦ elim (Bool-cases (ltb (length s.inbound) channel_bound)) [
      | inl room ↦ rw e (rw room sent_lem)
      | inr full ↦ rw e (rw full f)
    ]
  ]

forward_held :
    (b : Bincode) (s : PeerLoop) (i : ℕ) (o : Option Message)
    → (s.readers i).held ≡ o
    → (s.readers i).running ≡ true
    → IsFaithfulState b s
    → IsFaithfulState b (forward_turn i (s.readers i) o s)
unfolding forward_turn
forward_held b s i none h runs f = f
forward_held b s i (some m) h runs f = forward_some b s i m f runs h

forward_lem :
    (b : Bincode) (s : PeerLoop) (i : ℕ)
    → IsFaithfulState b s
    → IsFaithfulState b (step b s (forward i))
unfolding step
forward_lem b s i f =
    if_ind (IsFaithfulState b) (s.readers i).running
      (λ e. forward_held b s i (s.readers i).held refl e f) (λ e. f)

write_turn_lem :
    (b : Bincode) (s : PeerLoop) (takes : Bool) (ms : List Message)
    → IsFaithfulState b s
    → IsFaithfulState b (write_turn b takes ms s)
unfolding write_turn
write_turn_lem b s takes [] f = f
write_turn_lem b s takes (m ∷ ms) f = elim (Result-cases (write_message b s.written m)) [
  | inl (bytes, e) ↦ rw (e, write_turn) (if_ind (IsFaithfulState b) takes (λ t. f) (λ t. f))
  | inr (x, e) ↦ rw (e, write_turn) f
]

take_turn_lem :
    (b : Bincode) (s : PeerLoop) (items : List (ℕ × Message))
    → items ≡ s.inbound
    → IsFaithfulState b s
    → IsFaithfulState b (take_turn items s)
unfolding take_turn
take_turn_lem b s [] e f = f
take_turn_lem b s (x ∷ xs) e f =
    subst (λ items. IsFaithful b items s.readers s.streams)
      (ap (λ q. s.taken ++ q) (sym e) ∙ sym (append_assoc s.taken (x ∷ []) xs)) f

step-IsFaithful :
    (b : Bincode) (s : PeerLoop) (e : Event) → IsFaithfulState b s → IsFaithfulState b (step b s e)
unfolding step
step-IsFaithful b s (sent m) f =
    if_ind (IsFaithfulState b) (s.writing && ltb (length s.outbound) channel_bound) (λ e. f)
      (λ e. f)
step-IsFaithful b s senders_dropped f =
    if_ind (IsFaithfulState b) (is_empty s.outbound) (λ e. f) (λ e. f)
step-IsFaithful b s (write takes) f =
    if_ind (IsFaithfulState b) s.writing (λ e. write_turn_lem b s takes s.outbound f) (λ e. f)
step-IsFaithful b s (read i) f = read_lem b s i f
step-IsFaithful b s (forward i) f = forward_lem b s i f
step-IsFaithful b s (accepted bytes) f =
    if_ind (IsFaithfulState b) s.accepting
      (λ e. open_stream b (delivered s) s.readers s.streams bytes f) (λ e. f)
step-IsFaithful b s accept_failed f = f
step-IsFaithful b s take f = take_turn_lem b s s.inbound refl f
step-IsFaithful b s receiver_dropped f = f
step-IsFaithful b s select f = f
step-IsFaithful b s cancel f = f

run-IsFaithful :
    (b : Bincode) (s : PeerLoop) (es : List Event)
    → IsFaithfulState b s
    → IsFaithfulState b (run b s es)
unfolding run
run-IsFaithful b s [] f = f
run-IsFaithful b s (e ∷ es) f = run-IsFaithful b (step b s e) es (step-IsFaithful b s e f)

spawned-IsFaithful : (b : Bincode) (bytes : List ℕ) → IsFaithfulState b (spawned bytes)
unfolding from
spawned-IsFaithful b bytes = record { accounts = counted; fresh = rest }
  where
    counted :
        (i : ℕ)
        → pending b ((spawned bytes).readers i) ≡ messages b ((spawned bytes).readers i).whole
    counted i = elim (Bool-cases (i == 0)) [ inl e ↦ rw e refl | inr e ↦ rw e refl ]

    rest : (i : ℕ) → 1 ≤ i → (spawned bytes).readers i ≡ unopened
    rest i le = ground arith

-- Over every order of the turns of the tasks of a connection, the daemon and the caller, also
-- behind the return of run_peer_loop and the drop of its future, and for each stream: the messages
-- of the stream, up to its first error, are those that were delivered to the daemon from that
-- stream, in that order and once each, then the one that its reader holds, if any, and then those
-- that are still to be read.
pub run-delivers :
    (b : Bincode) (bytes : List ℕ) (es : List Event) (i : ℕ)
    → from i (delivered (run b (spawned bytes) es))
        ++ pending b ((run b (spawned bytes) es).readers i)
      ≡ messages b ((run b (spawned bytes) es).readers i).whole
run-delivers b bytes es i =
    (run-IsFaithful b (spawned bytes) es (spawned-IsFaithful b bytes)).accounts i
