-- ===== src/Tests/Transfer.antt =====
-- File transfer at concrete inputs: a disk that holds one file, and a sum in place of blake3.
use my_deskflow.Prelude.{
  ℕ, ◌+◌, ◌≡◌, refl, some, List, [], ◌∷◌, ◌++◌, ◌==◌, length, arith, All, if◌then◌else◌,
}
use my_deskflow.Prelude.Maps.{lookup, insert}
use mathlib.Core.List.{append_assoc, append-nil}
use my_deskflow.Core.Error.{ok, err}
use my_deskflow.Protocol.Message.{FileEntry}
use my_deskflow.Transfer.Paths.{sanitize}
use my_deskflow.Transfer.Paths.Safe.{IsPlain, sanitize-IsPlain}
use my_deskflow.Transfer.Receiver.{FileSystem, Blake3, Receiver, fresh, begin, write_chunks}
use my_deskflow.Transfer.Receiver.Delivery.{Incremental, Appends, IsReceived}
use my_deskflow.Transfer.Sender.{build_entry, send_file}
use my_deskflow.Transfer.Sender.Delivery.{contents, send_file-delivers}

abbrev pub one_file : FileSystem
one_file = record {
  Disk = List ℕ;
  create_dir_all = λ p d. (d, ok tt);
  create = λ p d. ([], ok tt);
  write_at =
      λ p offset new d. if offset == length d then (d ++ new, ok tt) else (d, err "not at the end");
  read = λ p d. some d;
}

one_file-Appends : Appends one_file
one_file-Appends = record { write_at-end = λ p old new d h. (d ++ new, ground arith, ground arith) }

abbrev pub total : List ℕ → ℕ
total [] = 0
total (x ∷ xs) = x + total xs

abbrev pub summing : Blake3
summing = record { Hasher = List ℕ; new = []; update = λ h x. h ++ x; finalize = total }

summing-Incremental : Incremental summing
summing-Incremental = record {
  update-nil = append-nil;
  update-update = λ h x y. append_assoc h x y;
}

-- "a/b"
sanitize-IsPlain_example : All IsPlain ((97 ∷ []) ∷ (98 ∷ []) ∷ [])
unfolding sanitize
sanitize-IsPlain_example = sanitize-IsPlain (97 ∷ 47 ∷ 98 ∷ []) ((97 ∷ []) ∷ (98 ∷ []) ∷ []) refl

abbrev reads : List (List ℕ)
reads = (1 ∷ 2 ∷ []) ∷ (3 ∷ 4 ∷ []) ∷ (5 ∷ []) ∷ []

abbrev entry : FileEntry
unfolding build_entry
entry = build_entry summing (97 ∷ []) reads

abbrev begun : Receiver one_file summing
unfolding begin sanitize
begun =
    (begin one_file summing (record { drop_dir = []; transfers = []; disk = [] }) 7
      (record { files = entry ∷ []; total_bytes = 5 })).0

abbrev begun_received : IsReceived one_file summing begun 7 0 entry []
unfolding begun lookup insert entry
begun_received = record {
  progress =
      fresh one_file summing (record { files = entry ∷ []; total_bytes = 5 })
        (((97 ∷ []) ∷ []) ∷ []);
  path = (97 ∷ []) ∷ [];
  found = refl;
  path_at = refl;
  received_at = refl;
  hasher_at = refl;
  entry_at = refl;
  read_at = refl;
}

send_file-delivers_example :
    ((write_chunks one_file summing begun (send_file 2 7 0 0 reads)).1 ≡ ok tt)
    × IsReceived one_file summing
        (write_chunks one_file summing begun (send_file 2 7 0 0 reads)).0
        7
        0
        (build_entry summing (97 ∷ []) reads)
        (contents reads)
unfolding build_entry entry
send_file-delivers_example =
    send_file-delivers one_file summing one_file-Appends summing-Incremental 2 7 0 (97 ∷ []) reads
      begun (omega arith) (refl, (refl, omega arith)) (omega arith) begun_received
