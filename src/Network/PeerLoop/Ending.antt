-- ===== src/Network/PeerLoop/Ending.antt =====
-- When `run_peer_loop` of crates/network/src/peer_loop.rs returns, and the bounds of its channels.
use my_deskflow.Prelude.{
  ℕ, ◌<◌, ◌≤◌, ◌≡◌, refl, false, ◌&&◌, not, Bool-cases, if_ind, arith, ltb→lt, Option, none, some,
  List, [], ◌∷◌, length, length-append, ltb, inl, inr, ◌⊎◌,
}
use my_deskflow.Protocol.Message.{Message}
use my_deskflow.Protocol.Codec.{Bincode}
use my_deskflow.Network.PeerLoop.{
  PeerLoop, Reader, Race, racing, returned, dropped, Event, sent, senders_dropped, write, read,
  forward, accepted, accept_failed, take, receiver_dropped, select, cancel, channel_bound, step,
  write_turn, read_turn, forward_turn, take_turn, spawned, run, select_turn, cancel_turn,
}

-- One of the three tasks of the race has ended.
abbrev pub HasEnded : PeerLoop → Type 0
HasEnded s = (s.writing && (s.readers 0).running && s.accepting) ≡ false

pub step-streams :
    (b : Bincode) (s : PeerLoop) (e : Event) → 0 < s.streams → 0 < (step b s e).streams
unfolding step write_turn read_turn forward_turn take_turn
step-streams b s (sent m) lt = ground arith
step-streams b s senders_dropped lt = ground arith
step-streams b s (write takes) lt = ground arith
step-streams b s (read i) lt = ground arith
step-streams b s (forward i) lt = ground arith
step-streams b s (accepted bytes) lt = ground arith
step-streams b s accept_failed lt = lt
step-streams b s take lt = ground arith
step-streams b s receiver_dropped lt = lt
step-streams b s select lt = lt
step-streams b s cancel lt = lt

-- A turn never starts a reader that has ended, unless it opens it.
step-HasEnded :
    (b : Bincode) (s : PeerLoop) (e : Event) → 0 < s.streams → HasEnded s → HasEnded (step b s e)
unfolding step write_turn read_turn forward_turn take_turn
step-HasEnded b s (sent m) lt h = ground arith
step-HasEnded b s senders_dropped lt h = ground arith
step-HasEnded b s (write takes) lt h = ground arith
step-HasEnded b s (read i) lt h = ground arith
step-HasEnded b s (forward i) lt h = ground arith
step-HasEnded b s (accepted bytes) lt h = ground arith
step-HasEnded b s accept_failed lt h = ground arith
step-HasEnded b s take lt h = ground arith
step-HasEnded b s receiver_dropped lt h = h
step-HasEnded b s select lt h = h
step-HasEnded b s cancel lt h = h

select_returned :
    (s : PeerLoop) (r : Race) → select_turn s r ≡ returned → (r ≡ returned) ⊎ HasEnded s
select_returned s racing h = elim (Bool-cases (s.writing && (s.readers 0).running && s.accepting)) [
  | inl e ↦ absurd (let bad = rw e at h in cc)
  | inr e ↦ inr e
]
select_returned s returned h = inl refl
select_returned s dropped h = absurd (cc)

cancel_returned : (r : Race) → cancel_turn r ≡ returned → r ≡ returned
cancel_returned racing h = absurd (cc)
cancel_returned returned h = refl
cancel_returned dropped h = absurd (cc)

-- Only a poll of the `select!` behind the end of a task lets `run_peer_loop` return.
step-returned :
    (b : Bincode) (s : PeerLoop) (e : Event)
    → (step b s e).race ≡ returned
    → (s.race ≡ returned) ⊎ HasEnded s
unfolding step write_turn read_turn forward_turn take_turn
step-returned b s (sent m) h = inl (ground arith)
step-returned b s senders_dropped h = inl (ground arith)
step-returned b s (write takes) h = inl (ground arith)
step-returned b s (read i) h = inl (ground arith)
step-returned b s (forward i) h = inl (ground arith)
step-returned b s (accepted bytes) h = inl (ground arith)
step-returned b s accept_failed h = inl h
step-returned b s take h = inl (ground arith)
step-returned b s receiver_dropped h = inl h
step-returned b s select h = select_returned s s.race h
step-returned b s cancel h = inl (cancel_returned s.race h)

run-IsOver :
    (b : Bincode) (s : PeerLoop) (es : List Event)
    → 0 < s.streams
    → (s.race ≡ returned → HasEnded s)
    → (run b s es).race ≡ returned
    → HasEnded (run b s es)
unfolding run
run-IsOver b s [] lt over h = over h
run-IsOver b s (e ∷ es) lt over h =
    run-IsOver b (step b s e) es (step-streams b s e lt)
      (λ r. elim (step-returned b s e r) [
        | inl before ↦ (step-HasEnded b s e lt (over before))
        | inr ended ↦ (step-HasEnded b s e lt ended)
      ])
      h

-- `run_peer_loop` returns only when one of its three tasks has ended: the writer, the reader of the
-- control stream, or the acceptance of further streams.
pub run_returns :
    (b : Bincode) (bytes : List ℕ) (es : List Event)
    → (run b (spawned bytes) es).race ≡ returned
    → HasEnded (run b (spawned bytes) es)
run_returns b bytes es = run-IsOver b (spawned bytes) es (omega arith) (λ h. absurd (cc))

abbrev pub IsBounded : PeerLoop → Type 0
IsBounded s = (length s.inbound ≤ channel_bound) × (length s.outbound ≤ channel_bound)

forward_turn-IsBounded :
    (i : ℕ) (r : Reader) (o : Option Message) (s : PeerLoop)
    → IsBounded s
    → IsBounded (forward_turn i r o s)
unfolding forward_turn
forward_turn-IsBounded i r none s k = k
forward_turn-IsBounded i r (some m) s k =
    if_ind IsBounded (not s.listening) (λ e. k)
      (λ e.
        if_ind IsBounded (ltb (length s.inbound) channel_bound)
          (λ room.
            let lt = ltb→lt (length s.inbound) channel_bound room in
            (omega (arith, length-append {0} s.inbound ((i, m) ∷ [])), k.1))
          (λ full. k))

step-IsBounded : (b : Bincode) (s : PeerLoop) (e : Event) → IsBounded s → IsBounded (step b s e)
unfolding step write_turn read_turn take_turn
step-IsBounded b s (sent m) k = ground (arith, length-append {0} s.outbound (m ∷ []))
step-IsBounded b s senders_dropped k = ground arith
step-IsBounded b s (write takes) k = ground arith
step-IsBounded b s (read i) k = ground arith
step-IsBounded b s (forward i) k =
    if_ind IsBounded (s.readers i).running
      (λ e. forward_turn-IsBounded i (s.readers i) (s.readers i).held s k) (λ e. k)
step-IsBounded b s (accepted bytes) k = ground arith
step-IsBounded b s accept_failed k = k
step-IsBounded b s take k = ground arith
step-IsBounded b s receiver_dropped k = k
step-IsBounded b s select k = k
step-IsBounded b s cancel k = k

-- Neither channel ever holds more than its bound.
pub run-IsBounded :
    (b : Bincode) (s : PeerLoop) (es : List Event) → IsBounded s → IsBounded (run b s es)
unfolding run
run-IsBounded b s [] k = k
run-IsBounded b s (e ∷ es) k = run-IsBounded b (step b s e) es (step-IsBounded b s e k)
