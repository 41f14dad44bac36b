-- ===== src/Tests/Clipboard.antt =====
-- The clipboard manager over the stub backend, with a sum in place of blake3.
use my_deskflow.Prelude.{ℕ, ◌+◌, refl, none, List, [], ◌∷◌}
use my_deskflow.Prelude.Maps.{lookup}
use my_deskflow.Protocol.Message.{ClipboardPayload, plain_text, clipboard_data}
use my_deskflow.Routing.Session.{PeerHandle}
use my_deskflow.Clipboard.Backend.{StubBackend, stub_write, stub_backend, originator_of}
use my_deskflow.Clipboard.Manager.{ClipboardManager}
use my_deskflow.Clipboard.Manager.Runs.{
  Event, tick, inbound, run, IsKnown, IsSilentOn, run-IsSilentOn,
}

abbrev checksum : List ℕ → ℕ
checksum [] = 0
checksum (x ∷ xs) = x + checksum xs

abbrev bob : PeerHandle
bob = record { peer_id = 2; peer_name = "bob" }

abbrev greeting : ClipboardPayload
greeting = record { format = plain_text; bytes = 104 ∷ 105 ∷ []; originator = 2; hash = 209 }

abbrev empty_board : StubBackend
empty_board = record { formats = []; contents = [] }

abbrev manager : ClipboardManager stub_backend checksum
unfolding stub_backend
manager = record {
  originators = (77, 1) ∷ [];
  last_hash = none;
  local_peer_id = 1;
  board = empty_board;
}

manager_knows : IsKnown manager.originators 77
unfolding manager originator_of lookup
manager_knows = (1, refl)

-- The board comes back to content that was announced before.
abbrev again : List (Event stub_backend checksum)
unfolding stub_backend
again =
    inbound bob (clipboard_data greeting)
    ∷ tick (stub_write (record greeting { bytes = 77 ∷ [] }) empty_board) (bob ∷ [])
    ∷ []

run-IsSilentOn_example :
    IsSilentOn stub_backend checksum 77 (run stub_backend checksum manager again)
run-IsSilentOn_example = run-IsSilentOn stub_backend checksum manager again 77 manager_knows
