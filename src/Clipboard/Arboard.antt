-- ===== src/Clipboard/Arboard.antt =====
-- crates/clipboard/src/lib.rs, `ArboardBackend`: which calls of arboard and of the image crate a
-- read or a write makes, with their errors. Both crates are parameters; a text is the list of its
-- bytes, and a state of the parameter is what the clipboard of the system holds.
pub mod RoundTrip
use my_deskflow.Prelude.{
  ℕ, ◌*◌, ◌%◌, ◌^◌, String, Bool, true, false, Option, none, some, List, [], ◌∷◌, ◌++◌, ◌==◌,
  length, if◌then◌else◌,
}
use my_deskflow.Core.Error.{Error, Result, ok, err, ◌>>=◌, map_err, other}
use my_deskflow.Protocol.Message.{
  ClipboardFormat, plain_text, html, rtf, png, uri_list, ClipboardPayload,
}

abbrev pub Done : Type 0
Done = Unit

-- `arboard::ImageData` and `RgbaImage`: four bytes for each pixel.
pub record ImageData : Type 0 where
  pub width : ℕ
  pub height : ℕ
  pub bytes : List ℕ

-- arboard's clipboard and the PNG codec of the image crate.
pub record Libraries : Type 1 where
  pub Clipboard : Type 0
  pub init : Clipboard → Result String Done
  pub get_text : Clipboard → Result String (List ℕ)
  pub get_image : Clipboard → Result String ImageData
  pub set_text : List ℕ → Clipboard → Clipboard × Result String Done
  pub set_image : ImageData → Clipboard → Clipboard × Result String Done
  pub is_utf8 : List ℕ → Bool
  pub from_raw : ℕ → ℕ → List ℕ → Option ImageData
  pub encode_png : ImageData → Result String (List ℕ)
  pub decode_png : List ℕ → Result String ImageData

abbrev pub is_nonempty : Result String (List ℕ) → Bool
is_nonempty (ok []) = false
is_nonempty (ok (c ∷ cs)) = true
is_nonempty (err e) = false

abbrev pub is_image : Result String ImageData → Bool
is_image (ok img) = true
is_image (err e) = false

-- `.ok_or_else(…)` behind `RgbaImage::from_raw`.
abbrev pub or_bad_dimensions : Option ImageData → Result Error ImageData
or_bad_dimensions none = err (other "clipboard image: bad dimensions")
or_bad_dimensions (some rgba) = ok rgba

module _ (l : Libraries) where
  -- `inner`: whether arboard was initialised, and the system's clipboard.
  pub record ArboardBackend : Type 0 where
    pub initialised : Bool
    pub clipboard : l.Clipboard

  ensure : ArboardBackend → Result Error ArboardBackend
  ensure s =
      if s.initialised
      then ok s
      else (map_err other (l.init s.clipboard) >>= (λ _. ok (record s { initialised = true })))

  unfoldable pub list_formats : ArboardBackend → Result Error (List ClipboardFormat)
  unfolding ensure
  list_formats s = ensure s >>= λ c. ok (
      (if is_nonempty (l.get_text c.clipboard) then plain_text ∷ [] else [])
      ++ (if is_image (l.get_image c.clipboard) then png ∷ [] else []))

  read_format : ClipboardFormat → l.Clipboard → Result Error (List ℕ)
  read_format plain_text c = map_err other (l.get_text c)
  read_format png c = map_err other (l.get_image c) >>= λ img.
      or_bad_dimensions (l.from_raw (img.width % 2 ^ 32) (img.height % 2 ^ 32) img.bytes)
      >>= λ rgba. map_err other (l.encode_png rgba)
  read_format _ c = ok []

  unfoldable pub read : ClipboardFormat → ArboardBackend → Result Error (List ℕ)
  unfolding ensure read_format
  read f s = ensure s >>= λ c. read_format f c.clipboard

  -- A call that sets the clipboard, with its error.
  set_with : ArboardBackend → l.Clipboard × Result String Done → ArboardBackend × Result Error Done
  set_with s (c, result) = (record s { clipboard = c }, map_err other result)

  write_text : List ℕ → ArboardBackend → ArboardBackend × Result Error Done
  unfolding set_with
  write_text bytes s =
      if l.is_utf8 bytes
      then set_with s (l.set_text bytes s.clipboard)
      else (s, err (other "clipboard utf8"))

  -- An image that cannot be decoded is logged and dropped.
  write_image : Result String ImageData → ArboardBackend → ArboardBackend × Result Error Done
  unfolding set_with
  write_image (ok img) s = set_with s (l.set_image img s.clipboard)
  write_image (err e) s = (s, ok tt)

  write_payload : ClipboardFormat → List ℕ → ArboardBackend → ArboardBackend × Result Error Done
  unfolding write_text write_image
  write_payload plain_text bytes s = write_text bytes s
  write_payload png bytes s = write_image (l.decode_png bytes) s
  write_payload _ bytes s = (s, ok tt)

  write_ensured :
      Result Error ArboardBackend
      → ClipboardPayload
      → ArboardBackend
      → ArboardBackend × Result Error Done
  unfolding write_payload
  write_ensured (err e) p s = (s, err e)
  write_ensured (ok s') p s = write_payload p.format p.bytes s'

  unfoldable pub write : ClipboardPayload → ArboardBackend → ArboardBackend × Result Error Done
  unfolding ensure write_ensured
  write p s = write_ensured (ensure s) p s
