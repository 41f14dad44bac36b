-- ===== src/Clipboard/Backend.antt =====
-- crates/clipboard/src/lib.rs: the backend's operations, the stub backend and the registry of
-- originators. A backend that can fail is a parameter; the arboard backend is none of this.
pub mod Stub
use my_deskflow.Prelude.{
  ℕ, String, Bool, true, false, ◌||◌, Option, none, some, List, [], ◌∷◌, ◌++◌, ◌==◌, lookup, insert,
  if◌then◌else◌,
}
use my_deskflow.Core.Screen.{PeerId}
use my_deskflow.Core.Error.{Error, Result, ok, err}
use my_deskflow.Protocol.Message.{
  Digest, ClipboardFormat, plain_text, html, rtf, png, uri_list, ClipboardPayload,
}

-- `ClipboardBackend`: what a read returns and what a write leaves.
pub record ClipboardBackend : Type 1 where
  pub Board : Type 0
  pub list_formats : Board → Result Error (List ClipboardFormat)
  pub read : ClipboardFormat → Board → Result Error (List ℕ)
  pub write : ClipboardPayload → Board → Board

-- `OriginatorRegistry`.
abbrev pub OriginatorRegistry : Type 0
OriginatorRegistry = List (ℕ × PeerId)

unfoldable pub record_originator : OriginatorRegistry → Digest → PeerId → OriginatorRegistry
record_originator seen hash originator = insert hash originator seen

unfoldable pub originator_of : OriginatorRegistry → Digest → Option PeerId
originator_of seen hash = lookup hash seen

-- A format as the key that a map has it under.
abbrev pub format_key : ClipboardFormat → ℕ
format_key plain_text = 0
format_key html = 1
format_key rtf = 2
format_key png = 3
format_key uri_list = 4

pub record StubBackend : Type 0 where
  pub formats : List ClipboardFormat
  pub contents : List (ℕ × List ℕ)

abbrev pub has_format : ClipboardFormat → List ClipboardFormat → Bool
has_format f [] = false
has_format f (g ∷ gs) = format_key g == format_key f || has_format f gs

unfoldable pub stub_list_formats : StubBackend → Result Error (List ClipboardFormat)
stub_list_formats s = ok s.formats

unfoldable pub stub_read : ClipboardFormat → StubBackend → Result Error (List ℕ)
stub_read f s = elim (lookup (format_key f) s.contents) [ none ↦ ok [] | some b ↦ ok b ]

unfoldable pub stub_write : ClipboardPayload → StubBackend → StubBackend
stub_write p s = record {
  formats = if has_format p.format s.formats then s.formats else s.formats ++ (p.format ∷ []);
  contents = insert (format_key p.format) p.bytes s.contents;
}

unfoldable pub stub_backend : ClipboardBackend
unfolding stub_list_formats stub_read stub_write
stub_backend = record {
  Board = StubBackend;
  list_formats = stub_list_formats;
  read = stub_read;
  write = stub_write;
}
