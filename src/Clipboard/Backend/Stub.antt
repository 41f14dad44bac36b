-- ===== src/Clipboard/Backend/Stub.antt =====
-- The stub backend of crates/clipboard/src/lib.rs.
use my_deskflow.Prelude.{◌≡◌, arith, true, List, [], ◌∷◌, lookup-insert, lookup-insert_other, ◌++◌}
use my_deskflow.Core.Error.{ok}
use my_deskflow.Protocol.Message.{ClipboardFormat, ClipboardPayload}
use my_deskflow.Clipboard.Backend.{format_key, has_format, StubBackend, stub_read, stub_write}

has_format-append :
    (f : ClipboardFormat) (gs : List ClipboardFormat) → has_format f (gs ++ (f ∷ [])) ≡ true
has_format-append f [] = ground arith
has_format-append f (g ∷ gs) = ground (arith, has_format-append f gs)

-- After a write the format is listed and reads give the bytes written; other formats read as
-- before.
pub stub_read-write :
    (p : ClipboardPayload) (f : ClipboardFormat) (s : StubBackend)
    → (has_format p.format (stub_write p s).formats ≡ true)
      × ((stub_read p.format (stub_write p s) ≡ ok p.bytes)
          × ((format_key f ≡ format_key p.format → ⊥)
              → stub_read f (stub_write p s) ≡ stub_read f s))
unfolding stub_read stub_write
stub_read-write p f s =
    let listed = has_format-append p.format s.formats in
    let same = lookup-insert (format_key p.format) p.bytes s.contents in
    (
      ground arith,
      (
        ground arith,
        λ ne.
            let other =
              lookup-insert_other (format_key f) (format_key p.format) p.bytes s.contents ne in
            ground arith,
      ),
    )
