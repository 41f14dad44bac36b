-- ===== src/Network/PeerLoop/Joined.antt =====
-- Two ends of a connection of crates/network/src/peer_loop.rs: what one end writes on the control
-- stream is what the other end reads from it.
use mathlib.Core.List.{append_assoc, append-nil}
use my_deskflow.Prelude.{
  ℕ, suc, ◌<◌, ◌≡◌, refl, sym, ap, ◌∙◌, Bool, true, ◌&&◌, if_ind, Bool-cases, arith, ltb, List, [],
  ◌∷◌, ◌++◌, length, All, All-append, inl, inr, if◌then◌else◌, Option, none, some, not, subst,
}
use my_deskflow.Prelude.Tagged.{from}
use my_deskflow.Core.Error.{ok, protocol, map_err, map_err-ok, bind_inversion, Result-cases}
use my_deskflow.Protocol.Message.{Message}
use my_deskflow.Protocol.Codec.{Bincode, RoundTrips, encode_frame}
use my_deskflow.Protocol.Stream.{write_message, write_loop}
use my_deskflow.Protocol.Stream.Sessions.{
  sent as encodable, sent-ok, write_loop-ok, read_loop-write_loop,
}
use my_deskflow.Network.PeerLoop.{
  PeerLoop, is_idle, is_empty, Event, sent, senders_dropped, write, read, forward, accepted,
  accept_failed, take, receiver_dropped, select, cancel, channel_bound, step, write_turn, read_turn,
  forward_turn, take_turn, spawned, run,
}
use my_deskflow.Network.PeerLoop.Accounts.{messages, delivered, pending}
use my_deskflow.Network.PeerLoop.Faithful.{run-delivers}
use my_deskflow.Network.PeerLoop.Ending.{step-streams}

-- The message that a turn puts into the outbound channel, if it has room and its receiver.
abbrev pub put_by : PeerLoop → Event → List Message
put_by s (sent m) = if s.writing && ltb (length s.outbound) channel_bound then m ∷ [] else []
put_by s _ = []

-- The messages that the daemon could send over a run.
unfoldable pub put_over : Bincode → PeerLoop → List Event → List Message
put_over b s [] = []
put_over b s (e ∷ es) = put_by s e ++ put_over b (step b s e) es

abbrev Encodes : Bincode → Message → Type 0
Encodes b m = (bytes : List ℕ) × (encode_frame b m ≡ ok bytes)

encodable-All : (b : Bincode) (ms : List Message) → All (Encodes b) ms → encodable b ms ≡ ms
unfolding encodable
encodable-All b [] all = refl
encodable-All b (m ∷ ms) ((bytes, e), all) =
    sent-ok b m ms bytes e ∙ ap (λ l. m ∷ l) (encodable-All b ms all)

write_message-Encodes :
    (b : Bincode) (written bytes : List ℕ) (m : Message)
    → write_message b written m ≡ ok bytes
    → Encodes b m
unfolding write_message
write_message-Encodes b written bytes m e =
    let (frame, framed, same) =
      bind_inversion (map_err (λ _. protocol "encode") (encode_frame b m)) _ e in
    (frame, map_err-ok (λ _. protocol "encode") (encode_frame b m) framed)

-- One more message behind those that were written.
write_loop-snoc :
    (b : Bincode) (written bytes : List ℕ) (ms : List Message) (m : Message)
    → All (Encodes b) ms
    → write_message b (write_loop b written ms) m ≡ ok bytes
    → write_loop b written (ms ++ m ∷ []) ≡ bytes
unfolding write_loop
write_loop-snoc b written bytes [] m all e = rw (e, write_loop)
write_loop-snoc b written bytes (n ∷ ms) m ((frame, e'), all) e =
    write_loop-ok b n (ms ++ m ∷ []) written frame e'
    ∙ write_loop-snoc b (written ++ frame) bytes ms m all
        (ap (λ w. write_message b w m) (sym (write_loop-ok b n ms written frame e')) ∙ e)

-- Of the messages that were put into the channel, those that were written and the others.
pub record Sends (b : Bincode) (all : List Message) (s : PeerLoop) : Type 0 where
  pub done : List Message
  pub unsent : List Message
  pub encodes : All (Encodes b) done
  pub split : all ≡ done ++ unsent
  pub wrote : s.written ≡ write_loop b [] done
  pub waits : s.writing ≡ true → unsent ≡ s.outbound

module _ (b : Bincode) (all : List Message) (s : PeerLoop) (k : Sends b all s) where
  -- A turn that writes nothing and puts nothing into the channel.
  unwritten :
      (t : PeerLoop)
      → t.written ≡ s.written
      → (t.writing ≡ true → (s.writing ≡ true) × (s.outbound ≡ t.outbound))
      → Sends b (all ++ []) t
  unwritten t same still = record {
    done = k.done;
    unsent = k.unsent;
    encodes = k.encodes;
    split = append-nil all ∙ k.split;
    wrote = same ∙ k.wrote;
    waits = λ w. k.waits (still w).0 ∙ (still w).1;
  }

  put_one :
      (m : Message) → Sends b (all ++ (m ∷ [])) (record s { outbound = s.outbound ++ (m ∷ []) })
  put_one m = record {
    done = k.done;
    unsent = k.unsent ++ (m ∷ []);
    encodes = k.encodes;
    split = ap (λ l. l ++ (m ∷ [])) k.split ∙ append_assoc k.done k.unsent (m ∷ []);
    wrote = k.wrote;
    waits = λ w. ap (λ l. l ++ (m ∷ [])) (k.waits w);
  }

  -- The writer takes the first message that waits.
  write_one :
      (m : Message) (ms : List Message) (bytes : List ℕ)
      → s.writing ≡ true
      → s.outbound ≡ m ∷ ms
      → write_message b s.written m ≡ ok bytes
      → Sends b (all ++ []) (record s { outbound = ms; written = bytes })
  write_one m ms bytes w o e = record {
    done = k.done ++ (m ∷ []);
    unsent = ms;
    encodes =
        All-append (Encodes b) k.done (m ∷ []) k.encodes
          (write_message-Encodes b s.written bytes m e, tt);
    split =
        append-nil all
        ∙ (k.split
            ∙ (ap (λ l. k.done ++ l) (k.waits w ∙ o) ∙ sym (append_assoc k.done (m ∷ []) ms)));
    wrote = sym (
        write_loop-snoc b [] bytes k.done m k.encodes
          (ap (λ v. write_message b v m) (sym k.wrote) ∙ e));
    waits = λ _. refl;
  }

  write_turn-Sends :
      (takes : Bool) (ms : List Message)
      → s.writing ≡ true
      → s.outbound ≡ ms
      → Sends b (all ++ []) (write_turn b takes ms s)
  unfolding write_turn
  write_turn-Sends takes [] w o = unwritten s refl (λ w. (w, refl))
  write_turn-Sends takes (m ∷ ms) w o = elim (Result-cases (write_message b s.written m)) [
    | inr (x, e) ↦ rw (e, write_turn) (unwritten _ refl (λ w. absurd (cc)))
    | inl (bytes, e) ↦
        rw (e, write_turn)
          (if_ind (Sends b (all ++ [])) takes (λ t. write_one m ms bytes w o e)
            (λ t. unwritten _ refl (λ w. absurd (cc))))
  ]

step-Sends :
    (b : Bincode) (all : List Message) (s : PeerLoop) (e : Event)
    → Sends b all s
    → Sends b (all ++ put_by s e) (step b s e)
unfolding step forward_turn take_turn
step-Sends b all s (sent m) k =
    elim (Bool-cases (s.writing && ltb (length s.outbound) channel_bound)) [
      | inl room ↦ rw room (put_one b all s k m)
      | inr full ↦ rw full (unwritten b all s k s refl (λ w. (w, refl)))
    ]
step-Sends b all s senders_dropped k =
    if_ind (Sends b (all ++ [])) (is_empty s.outbound)
      (λ t. unwritten b all s k _ refl (λ w. absurd (cc)))
      (λ t. unwritten b all s k s refl (λ w. (w, refl)))
step-Sends b all s (write takes) k =
    if_ind (Sends b (all ++ [])) s.writing (λ w. write_turn-Sends b all s k takes s.outbound w refl)
      (λ t. unwritten b all s k s refl (λ w. (w, refl)))
step-Sends b all s (read i) k =
    if_ind (Sends b (all ++ [])) (is_idle (s.readers i))
      (λ t. unwritten b all s k _ refl (λ w. (w, refl)))
      (λ t. unwritten b all s k s refl (λ w. (w, refl)))
step-Sends b all s (forward i) k =
    if_ind (Sends b (all ++ [])) (s.readers i).running (λ t. forwarded (s.readers i).held)
      (λ t. unwritten b all s k s refl (λ w. (w, refl)))
  where
    forwarded : (o : Option Message) → Sends b (all ++ []) (forward_turn i (s.readers i) o s)
    forwarded none = unwritten b all s k s refl (λ w. (w, refl))
    forwarded (some m) =
        if_ind (Sends b (all ++ [])) (not s.listening)
          (λ t. unwritten b all s k _ refl (λ w. (w, refl)))
          (λ t.
            if_ind (Sends b (all ++ [])) (ltb (length s.inbound) channel_bound)
              (λ t. unwritten b all s k _ refl (λ w. (w, refl)))
              (λ t. unwritten b all s k s refl (λ w. (w, refl))))
step-Sends b all s (accepted bytes) k =
    if_ind (Sends b (all ++ [])) s.accepting (λ t. unwritten b all s k _ refl (λ w. (w, refl)))
      (λ t. unwritten b all s k s refl (λ w. (w, refl)))
step-Sends b all s accept_failed k = unwritten b all s k _ refl (λ w. (w, refl))
step-Sends b all s take k = taken s.inbound
  where
    taken : (items : List (ℕ × Message)) → Sends b (all ++ []) (take_turn items s)
    taken [] = unwritten b all s k s refl (λ w. (w, refl))
    taken (x ∷ xs) = unwritten b all s k _ refl (λ w. (w, refl))
step-Sends b all s receiver_dropped k = unwritten b all s k _ refl (λ w. (w, refl))
step-Sends b all s select k = unwritten b all s k _ refl (λ w. (w, refl))
step-Sends b all s cancel k = unwritten b all s k _ refl (λ w. (w, refl))

run-Sends :
    (b : Bincode) (all : List Message) (s : PeerLoop) (es : List Event)
    → Sends b all s
    → Sends b (all ++ put_over b s es) (run b s es)
unfolding run put_over
run-Sends b all s [] k = subst (λ l. Sends b l s) (sym (append-nil all)) k
run-Sends b all s (e ∷ es) k =
    subst (λ l. Sends b l (run b (step b s e) es))
      (append_assoc all (put_by s e) (put_over b (step b s e) es))
      (run-Sends b (all ++ put_by s e) (step b s e) es (step-Sends b all s e k))

spawned-Sends : (b : Bincode) (bytes : List ℕ) → Sends b [] (spawned bytes)
unfolding write_loop
spawned-Sends b bytes = record {
  done = [];
  unsent = [];
  encodes = tt;
  split = refl;
  wrote = refl;
  waits = λ w. refl;
}

-- The control stream stays the one that it was opened as.
step-control :
    (b : Bincode) (s : PeerLoop) (e : Event)
    → 0 < s.streams
    → ((step b s e).readers 0).whole ≡ (s.readers 0).whole
unfolding step write_turn read_turn forward_turn take_turn
step-control b s (sent m) lt = ground arith
step-control b s senders_dropped lt = ground arith
step-control b s (write takes) lt = ground arith
step-control b s (read i) lt = ground arith
step-control b s (forward i) lt = ground arith
step-control b s (accepted bytes) lt = ground arith
step-control b s accept_failed lt = refl
step-control b s take lt = ground arith
step-control b s receiver_dropped lt = refl
step-control b s select lt = refl
step-control b s cancel lt = refl

run-control :
    (b : Bincode) (s : PeerLoop) (es : List Event)
    → 0 < s.streams
    → ((run b s es).readers 0).whole ≡ (s.readers 0).whole
unfolding run
run-control b s [] lt = refl
run-control b s (e ∷ es) lt =
    run-control b (step b s e) es (step-streams b s e lt) ∙ step-control b s e lt

messages-Sends :
    (b : Bincode)
    → RoundTrips b
    → (ms : List Message) → All (Encodes b) ms
    → messages b (write_loop b [] ms) ≡ ms
messages-Sends b r ms all =
    read_loop-write_loop b r ms (suc (length (write_loop b [] ms))) (omega arith)
    ∙ encodable-All b ms all

-- Two connected ends, over every order of the turns at each of them, where bincode reads back what
-- it wrote: the messages that one end put into its outbound channel, in that order and once each,
-- are those of its control stream that were delivered at the other end, then those that the other
-- end still holds or has to read, then some that are not sent, which are those in the channel
-- while the writer runs.
pub run-joined :
    (b : Bincode)
    → RoundTrips b
    → (bytes : List ℕ) (here there : List Event)
    → let s = run b (spawned bytes) here in
      let t = run b (spawned s.written) there in
      (unsent : List Message) × (put_over b (spawned bytes) here
        ≡ (from 0 (delivered t) ++ pending b (t.readers 0)) ++ unsent)
      × (s.writing ≡ true → unsent ≡ s.outbound)
run-joined b r bytes here there =
    let s = run b (spawned bytes) here in
    let k = run-Sends b [] (spawned bytes) here (spawned-Sends b bytes) in
    let arrived =
      run-delivers b s.written there 0
      ∙ (ap (messages b) (run-control b (spawned s.written) there (omega arith))
          ∙ (ap (messages b) k.wrote ∙ messages-Sends b r k.done k.encodes)) in
    (k.unsent, k.split ∙ ap (λ l. l ++ k.unsent) (sym arrived), k.waits)
