-- ===== src/Tests/Offers.antt =====
-- Sets of files at concrete inputs: a disk with one file of three bytes, and a link that breaks.
use my_deskflow.Prelude.{ℕ, ◌≡◌, refl, false, List, [], ◌∷◌, ◌==◌, inl, inr, if◌then◌else◌}
use my_deskflow.Core.Error.{Error, ok, err, not_connected}
use my_deskflow.Protocol.Message.{FileOffer}
use my_deskflow.Transfer.Receiver.{Receiver}
use my_deskflow.Transfer.Manager.{Source, Link, abs_path, build_manifest, send_files, handle_offer}
use my_deskflow.Transfer.Manager.Absolute.{absolute_is_refused}
use my_deskflow.Transfer.Manager.Offers.{Wrote, send_files-Wrote}
use my_deskflow.Transfer.Sender.{build_entry, send_file}
use my_deskflow.Tests.Transfer.{one_file, summing}

abbrev three_bytes : Source
three_bytes = record { join = λ root f. f; open_file = λ f. ok ((1 ∷ 2 ∷ 3 ∷ []) ∷ []) }

abbrev broken : Link
broken = record {
  send = λ o. ok tt;
  open_bi = ok tt;
  write_message = λ c. if c.file_index == 0 then ok tt else err not_connected;
}

-- `a` and `/b`.
abbrev files : List (List ℕ)
files = (97 ∷ []) ∷ (47 ∷ 98 ∷ []) ∷ []

send_files-Wrote_example : Wrote 7 (send_files three_bytes broken summing 7 [] files false)
send_files-Wrote_example = send_files-Wrote three_bytes broken summing 7 [] files false

-- The chunk of the second file is not written.
broken_result : (send_files three_bytes broken summing 7 [] files false).result ≡ err not_connected
unfolding send_files build_manifest send_file abs_path build_entry
broken_result = refl

abbrev offer : FileOffer
offer = record {
  transfer_id = 7;
  manifest = record {
    files =
        record { relative_path = 97 ∷ []; size = 3; blake3 = 6 }
        ∷ record { relative_path = 47 ∷ 98 ∷ []; size = 3; blake3 = 6 }
        ∷ [];
    total_bytes = 6;
  };
  compressed = false;
}

abbrev waiting_receiver : Receiver one_file summing
waiting_receiver = record { drop_dir = []; transfers = []; disk = [] }

absolute_is_refused_example :
    ((x : Error) × ((handle_offer one_file summing waiting_receiver offer).1 ≡ err x))
    × ((handle_offer one_file summing waiting_receiver offer).0.transfers ≡ [])
unfolding build_manifest build_entry
absolute_is_refused_example =
    absolute_is_refused three_bytes summing one_file waiting_receiver [] files offer refl
      (inr (inl refl))
