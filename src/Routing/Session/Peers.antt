-- ===== src/Routing/Session/Peers.antt =====
-- Peers of the server session of crates/daemon/src/session.rs: the automatic neighbour, and what
-- becomes of captured input when the last peer is gone.
use my_deskflow.Prelude.{
  ◌⊎◌, inl, ◌≡◌, refl, sym, false, arith, Option, none, some, List, [], ◌∷◌, ◌++◌, All, map,
}
use my_deskflow.Core.Screen.{ScreenId, PeerId}
use my_deskflow.Core.Event.{InputEvent}
use my_deskflow.Routing.Edge.{remote, observe, force_local, set_auto_peer}
use my_deskflow.Routing.Session.{
  Server, PeerHandle, Input, connected, disconnected, captured, peer, drain_step, is_emergency,
  peer_step, step, run, retain,
}
use my_deskflow.Routing.Session.Routes.{drain_step_stranded}

-- The automatic neighbour that a list of peers calls for.
abbrev pub auto_of : List PeerHandle → Option ScreenId
auto_of [] = none
auto_of (p ∷ ps) = some 1

auto_of-append : (ps : List PeerHandle) (p : PeerHandle) → auto_of (ps ++ (p ∷ [])) ≡ some 1
auto_of-append [] p = refl
auto_of-append (q ∷ ps) p = refl

drain_step-peers :
    (s : Server) (e : InputEvent)
    → ((drain_step s e).0.peers ≡ s.peers) × ((drain_step s e).0.edge.auto_peer ≡ s.edge.auto_peer)
unfolding drain_step force_local observe
drain_step-peers s e = (ground arith, ground arith)

-- What removing peers leaves is no reason to set the neighbour, only to clear it.
auto_of-retain :
    (id : PeerId) (ps : List PeerHandle)
    → (auto_of (retain id ps) ≡ none) ⊎ (auto_of (retain id ps) ≡ auto_of ps)
unfolding retain
auto_of-retain id [] = inl refl
auto_of-retain id (p ∷ ps) = ground (arith, auto_of-retain id ps)

step-auto :
    (s : Server) (i : Input)
    → s.edge.auto_peer ≡ auto_of s.peers
    → (step s i).0.edge.auto_peer ≡ auto_of (step s i).0.peers
unfolding step peer_step set_auto_peer
step-auto s (captured e) h = let (same, auto) = drain_step-peers s e in rw (same, auto) h
step-auto s (peer (connected p)) h = sym (auto_of-append s.peers p)
step-auto s (peer (disconnected id)) h = ground (arith, auto_of-retain id s.peers)

-- Over every run, crossings have an automatic neighbour exactly while some peer is connected.
pub run-auto :
    (s : Server) (is : List Input)
    → s.edge.auto_peer ≡ auto_of s.peers
    → (run s is).0.edge.auto_peer ≡ auto_of (run s is).0.peers
unfolding run
run-auto s [] h = h
run-auto s (i ∷ is) h = run-auto (step s i).0 is (step-auto s i h)

retain_everyone :
    (id : PeerId) (ps : List PeerHandle) → All (λ p. p.peer_id ≡ id) ps → retain id ps ≡ []
unfolding retain
retain_everyone id [] h = refl
retain_everyone id (p ∷ ps) h = ground (arith, retain_everyone id ps h.1)

stranded :
    (s : Server) (screen : ScreenId) (es : List InputEvent)
    → s.edge.route ≡ remote screen
    → s.peers ≡ []
    → All (λ e. is_emergency e ≡ false) es
    → ((run s (map captured es)).1 ≡ []) × ((run s (map captured es)).0.edge.route ≡ remote screen)
unfolding run step
stranded s screen [] r f q = (refl, r)
stranded s screen (e ∷ es) r f q =
    let (quiet, away, alone) = drain_step_stranded s e screen r f q.0 in
    let (silent, lost) = stranded (drain_step s e).0 screen es away alone q.1 in
    (rw (quiet, silent) refl, lost)

-- When the last peer disconnects while the route is remote, a run of captured events other than
-- the emergency hotkey that follows, while no peer connects, has no effect at all, and the route
-- stays remote.
pub disconnect_strands :
    (s : Server) (screen : ScreenId) (id : PeerId) (es : List InputEvent)
    → s.edge.route ≡ remote screen
    → All (λ p. p.peer_id ≡ id) s.peers
    → All (λ e. is_emergency e ≡ false) es
    → let end = run s (peer (disconnected id) ∷ map captured es) in
      (end.1 ≡ []) × (end.0.edge.route ≡ remote screen)
unfolding run step peer_step set_auto_peer
disconnect_strands s screen id es r same q =
    stranded (peer_step s (disconnected id)).0 screen es (ground arith)
      (retain_everyone id s.peers same) q
