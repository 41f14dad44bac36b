-- ===== src/Network/Connection/Events.antt =====
-- What a connection announces, on both sides.
use my_deskflow.Prelude.{
  String, ◌≡◌, refl, ap, ◌∙◌, arith, inl, inr, ◌⊎◌, none, some, List, [], ◌∷◌,
}
use my_deskflow.Core.Error.{
  Error, Result, ok, err, ◌>>=◌, map_err, network, map_err-ok, bind_inversion, Result-cases,
}
use my_deskflow.Protocol.Message.{Message, welcome, Welcome}
use my_deskflow.Routing.Session.{PeerHandle}
use my_deskflow.Network.Handshake.{LocalPeer, client_hello, accept_welcome}
use my_deskflow.Network.Supervisor.{connected, disconnected}
use my_deskflow.Network.Connection.{
  Done, Dialing, Future, awaited, dropped_early, dropped_in_loop, establish, around_loop,
  failed_with, connect_once,
}

-- Every step up to the reply succeeds.
pub record Reaches (d : Dialing) (cfg : LocalPeer) (pins : List String) : Type 0 where
  pub configured : d.client_rustls_config pins ≡ ok tt
  pub quic : d.quic_config ≡ ok tt
  pub connects : d.connect ≡ ok tt
  pub shakes : d.handshake ≡ ok tt
  pub opens : d.open_bi ≡ ok tt
  pub writes : d.write_message (client_hello cfg) ≡ ok tt

accept_welcome-ok :
    (m : Message) (p : PeerHandle)
    → accept_welcome m ≡ ok p
    → (w : Welcome) × (m ≡ welcome w)
      × (p ≡ record { peer_id = w.peer_id; peer_name = w.peer_name })
unfolding accept_welcome
accept_welcome-ok (welcome w) p h = (w, refl, ground arith)
accept_welcome-ok _ p h = absurd (cc)

-- A step that gives nothing.
step_ok :
    (r : Result Error Done) (next : Result Error PeerHandle) {p : PeerHandle}
    → (r >>= λ _. next) ≡ ok p
    → (r ≡ ok tt) × (next ≡ ok p)
step_ok (ok tt) next h = (refl, h)
step_ok (err e) next h = absurd (cc)

-- A connection that is made went through every step.
establish-ok :
    (d : Dialing) (cfg : LocalPeer) (pins : List String) (p : PeerHandle)
    → establish d cfg pins ≡ ok p
    → Reaches d cfg pins × ((m : Message) × (d.read_message ≡ ok m) × (accept_welcome m ≡ ok p))
unfolding establish
establish-ok d cfg pins p h =
    let (e0, h0) = step_ok (d.client_rustls_config pins) _ h in
    let (e1, h1) = step_ok (map_err network d.quic_config) _ h0 in
    let (e2, h2) = step_ok (map_err network d.connect) _ h1 in
    let (e3, h3) = step_ok (map_err network d.handshake) _ h2 in
    let (e4, h4) = step_ok (map_err network d.open_bi) _ h3 in
    let (e5, h5) = step_ok (d.write_message (client_hello cfg)) _ h4 in
    (
      record {
        configured = e0;
        quic = map_err-ok network d.quic_config e1;
        connects = map_err-ok network d.connect e2;
        shakes = map_err-ok network d.handshake e3;
        opens = map_err-ok network d.open_bi e4;
        writes = e5;
      },
      bind_inversion d.read_message accept_welcome h5,
    )

-- The ways that a dial to the server of a welcome ends.
abbrev pub Ends : Dialing → LocalPeer → List String → Welcome → Type 0
Ends d cfg pins w =
    let p : PeerHandle = record { peer_id = w.peer_id; peer_name = w.peer_name } in
    (connect_once d cfg pins ≡ (connected p ∷ disconnected w.peer_id ∷ [], some (ok tt)))
    ⊎ (connect_once d cfg pins ≡ (connected p ∷ [], none))

loop-Ends :
    (future : Future) (p : PeerHandle)
    → ((around_loop future p).0 ≡ [])
      ⊎ ((around_loop future p ≡ (connected p ∷ disconnected p.peer_id ∷ [], some (ok tt)))
          ⊎ (around_loop future p ≡ (connected p ∷ [], none)))
unfolding around_loop
loop-Ends awaited p = inr (inl refl)
loop-Ends dropped_early p = inl refl
loop-Ends dropped_in_loop p = inr (inr refl)

failed-nothing : (future : Future) (e : Error) → (failed_with future e).0 ≡ []
failed-nothing awaited e = refl
failed-nothing dropped_early e = refl
failed-nothing dropped_in_loop e = refl

-- Whatever the libraries answer, and wherever the future of a dial is dropped, the dial announces
-- nothing, or every step succeeded, the server's reply was a welcome, and the dial announces a
-- connection to the peer that the welcome names, followed by its end exactly if the dial returns.
pub connect_once_announces :
    (d : Dialing) (cfg : LocalPeer) (pins : List String)
    → ((connect_once d cfg pins).0 ≡ [])
      ⊎ ((w : Welcome) × Reaches d cfg pins × (d.read_message ≡ ok (welcome w)) × Ends d cfg pins w)
unfolding connect_once
connect_once_announces d cfg pins = elim (Result-cases (establish d cfg pins)) [
  | inr (e, failed) ↦ inl (rw (failed, connect_once) (failed-nothing d.future e))
  | inl (p, made) ↦
      let (steps, (m, read, accepted)) = establish-ok d cfg pins p made in
      let (w, reply, named) = accept_welcome-ok m p accepted in
      let same : connect_once d cfg pins
          ≡ around_loop d.future (record { peer_id = w.peer_id; peer_name = w.peer_name }) =
        rw (made, connect_once) (ap (around_loop d.future) named) in
      elim (loop-Ends d.future (record { peer_id = w.peer_id; peer_name = w.peer_name })) [
        | inl quiet ↦ inl (ap (λ x. x.0) same ∙ quiet)
        | inr (inl whole) ↦ inr (w, steps, read ∙ ap ok reply, inl (same ∙ whole))
        | inr (inr cut) ↦ inr (w, steps, read ∙ ap ok reply, inr (same ∙ cut))
      ]
]
