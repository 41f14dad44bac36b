-- ===== src/Network/Supervisor/Stale.antt =====
-- The tracked peers of a client of crates/network/src/client.rs.
use my_deskflow.Prelude.{
  ℕ, ◌≡◌, ◌≢◌, refl, subst, sym, Bool-cases, arith, List, inl, inr, ◌⊎◌, All, [], ◌∷◌, ◌++◌, ◌==◌,
}
use my_deskflow.Core.Screen.{PeerId}
use my_deskflow.Routing.Session.{PeerHandle, retain}
use my_deskflow.Network.Supervisor.{
  dial, hang_up, Supervisor, waiting, dialing, running, Input, command, established, ended,
  supervise, track, run_client,
}

-- The peer that the supervisor is connected to.
abbrev pub active : Supervisor → List PeerHandle
active (running server p) = p ∷ []
active _ = []

-- No command arrives while a connection runs.
abbrev pub Undisturbed : Supervisor → List Input → Type 0
unfolding supervise
Undisturbed s [] = Unit
Undisturbed (running server p) (command c ∷ is) = ⊥
Undisturbed s (i ∷ is) = Undisturbed (supervise s i).0 is

retain_self : (p : PeerHandle) → retain p.peer_id (p ∷ []) ≡ []
unfolding retain
retain_self p = ground arith

-- While no command cancels a running connection, the tracked peers are the one connected to.
pub run_client-active :
    (s : Supervisor) (is : List Input)
    → Undisturbed s is
    → (run_client s (active s) is).1 ≡ active (run_client s (active s) is).0
unfolding run_client supervise track retain Undisturbed
run_client-active s [] u = refl
run_client-active waiting (command (dial n) ∷ is) u = run_client-active (dialing n) is u
run_client-active waiting (command hang_up ∷ is) u = run_client-active waiting is u
run_client-active waiting (established p ∷ is) u = run_client-active waiting is u
run_client-active waiting (ended ∷ is) u = run_client-active waiting is u
run_client-active (dialing m) (command (dial n) ∷ is) u = run_client-active (dialing n) is u
run_client-active (dialing m) (command hang_up ∷ is) u = run_client-active waiting is u
run_client-active (dialing m) (established p ∷ is) u = run_client-active (running m p) is u
run_client-active (dialing m) (ended ∷ is) u = run_client-active waiting is u
run_client-active (running m p) (established q ∷ is) u = run_client-active (running m p) is u
run_client-active (running m p) (ended ∷ is) u =
    subst (λ ps. (run_client waiting ps is).1 ≡ active (run_client waiting ps is).0)
      (sym (retain_self p)) (run_client-active waiting is u)
run_client-active (running m p) (command c ∷ is) u = absurd u

-- A handle with that id is tracked.
abbrev pub Tracked : PeerId → List PeerHandle → Type 0
Tracked id [] = ⊥
Tracked id (p ∷ ps) = (p.peer_id ≡ id) ⊎ Tracked id ps

-- No connection to that peer is made.
abbrev pub Avoids : PeerId → Input → Type 0
Avoids id (established p) = p.peer_id ≢ id
Avoids id _ = Unit

Tracked-append :
    (id : PeerId) (ps : List PeerHandle) (p : PeerHandle)
    → Tracked id ps
    → Tracked id (ps ++ (p ∷ []))
Tracked-append id [] p h = absurd h
Tracked-append id (q ∷ ps) p (inl h) = inl h
Tracked-append id (q ∷ ps) p (inr h) = inr (Tracked-append id ps p h)

Tracked-retain :
    (id id' : PeerId) (ps : List PeerHandle) → id' ≢ id → Tracked id ps → Tracked id (retain id' ps)
unfolding retain
Tracked-retain id id' [] ne h = absurd h
Tracked-retain id id' (q ∷ ps) ne (inl h) = elim (Bool-cases (q.peer_id == id')) [
  | inl e ↦ absurd (ne (ground arith))
  | inr e ↦ rw e (inl h)
]
Tracked-retain id id' (q ∷ ps) ne (inr h) =
    let rest = Tracked-retain id id' ps ne h in
    elim (Bool-cases (q.peer_id == id')) [ inl e ↦ rw e rest | inr e ↦ rw e (inr rest) ]

-- The running connection, if any, is to another peer.
abbrev Elsewhere : PeerId → Supervisor → Type 0
Elsewhere id (running server p) = p.peer_id ≢ id
Elsewhere id _ = Unit

run_client-Tracked :
    (id : PeerId) (s : Supervisor) (peers : List PeerHandle) (is : List Input)
    → Elsewhere id s
    → Tracked id peers
    → All (Avoids id) is
    → Tracked id (run_client s peers is).1
unfolding run_client supervise track
run_client-Tracked id s peers [] away h avoid = h
run_client-Tracked id s peers (command (dial n) ∷ is) away h avoid =
    run_client-Tracked id (dialing n) peers is tt h avoid.1
run_client-Tracked id s peers (command hang_up ∷ is) away h avoid =
    run_client-Tracked id waiting peers is tt h avoid.1
run_client-Tracked id waiting peers (established p ∷ is) away h avoid =
    run_client-Tracked id waiting peers is tt h avoid.1
run_client-Tracked id waiting peers (ended ∷ is) away h avoid =
    run_client-Tracked id waiting peers is tt h avoid.1
run_client-Tracked id (dialing n) peers (established p ∷ is) away h avoid =
    run_client-Tracked id (running n p) (peers ++ (p ∷ [])) is avoid.0 (Tracked-append id peers p h)
      avoid.1
run_client-Tracked id (dialing n) peers (ended ∷ is) away h avoid =
    run_client-Tracked id waiting peers is tt h avoid.1
run_client-Tracked id (running n q) peers (established p ∷ is) away h avoid =
    run_client-Tracked id (running n q) peers is away h avoid.1
run_client-Tracked id (running n q) peers (ended ∷ is) away h avoid =
    run_client-Tracked id waiting (retain q.peer_id peers) is tt
      (Tracked-retain id q.peer_id peers away h) avoid.1

-- A peer whose running connection is hung up stays tracked over every run that makes no further
-- connection to it: nothing announces its disconnection.
pub hang_up_strands :
    (n : ℕ) (p : PeerHandle) (peers : List PeerHandle) (is : List Input)
    → Tracked p.peer_id peers
    → All (Avoids p.peer_id) is
    → Tracked p.peer_id (run_client (running n p) peers (command hang_up ∷ is)).1
unfolding run_client supervise track
hang_up_strands n p peers is h avoid = run_client-Tracked p.peer_id waiting peers is tt h avoid
