-- ===== src/Clipboard/Arboard/RoundTrip.antt =====
-- What the clipboard of crates/clipboard/src/lib.rs holds behind a write, and which writes are lost.
use native.Mathlib.Nat.{mod-eq_of_lt}
use my_deskflow.Prelude.{ℕ, ◌<◌, ◌^◌, ◌≡◌, refl, sym, ap, ◌∙◌, true, if_ind, String, some, List}
use my_deskflow.Core.Error.{Error, Result, ok, err, map_err-ok, other}
use my_deskflow.Protocol.Message.{ClipboardFormat, plain_text, png, ClipboardPayload}
use my_deskflow.Clipboard.Arboard.{
  Done, ImageData, Libraries, ArboardBackend, ensure, read_format, read, set_with, write_text,
  write_image, write_payload, write_ensured, write,
}

-- arboard keeps what it is given until it is given something else, and text and image replace one
-- another only where the system says so: what is set is what is read.
pub record Keeps (l : Libraries) : Type 0 where
  pub text_kept :
      (t : List ℕ) (c : l.Clipboard)
      → (l.set_text t c).1 ≡ ok tt
      → l.get_text (l.set_text t c).0 ≡ ok t
  pub image_kept :
      (img : ImageData) (c : l.Clipboard)
      → (l.set_image img c).1 ≡ ok tt
      → l.get_image (l.set_image img c).0 ≡ ok img

-- PNG is lossless on decoded images, whose dimensions are `u32`s and whose buffer fits them.
pub record IsLossless (l : Libraries) : Type 0 where
  pub small :
      (bytes : List ℕ) (img : ImageData)
      → l.decode_png bytes ≡ ok img
      → (img.width < 2 ^ 32) × (img.height < 2 ^ 32)
  pub fits :
      (bytes : List ℕ) (img : ImageData)
      → l.decode_png bytes ≡ ok img
      → l.from_raw img.width img.height img.bytes ≡ some img
  pub encodes :
      (bytes : List ℕ) (img : ImageData)
      → l.decode_png bytes ≡ ok img
      → (out : List ℕ) × (l.encode_png img ≡ ok out) × (l.decode_png out ≡ ok img)

module _ (l : Libraries) where
  ensure-ready : (s : ArboardBackend l) → s.initialised ≡ true → ensure l s ≡ ok s
  unfolding ensure
  ensure-ready s ready =
      if_ind (λ r. r ≡ ok s) s.initialised (λ e. refl) (λ e. absurd (let bad = rw ready at e in cc))

  set_with-read :
      (s : ArboardBackend l) (set : l.Clipboard × Result String Done)
      → (set_with l s set).1 ≡ ok tt
      → set.1 ≡ ok tt
  unfolding set_with
  set_with-read s (c, result) e = map_err-ok other result e

module _ (l : Libraries) (k : Keeps l) where
  -- What an initialised backend reads of a format.
  read-ready :
      (f : ClipboardFormat) (s : ArboardBackend l)
      → s.initialised ≡ true
      → read l f s ≡ read_format l f s.clipboard
  unfolding read
  read-ready f s ready = rw (ensure-ready l s ready) refl

  write-ready :
      (p : ClipboardPayload) (s : ArboardBackend l)
      → s.initialised ≡ true
      → write l p s ≡ write_payload l p.format p.bytes s
  unfolding write write_ensured
  write-ready p s ready = rw (ensure-ready l s ready) refl

  write_text-kept :
      (t : List ℕ) (s : ArboardBackend l)
      → (write_text l t s).1 ≡ ok tt
      → ((write_text l t s).0.initialised ≡ s.initialised)
        × (l.get_text (write_text l t s).0.clipboard ≡ ok t)
  unfolding write_text set_with
  write_text-kept t s =
      if_ind
        (λ (r : ArboardBackend l × Result Error Done).
          r.1 ≡ ok tt → (r.0.initialised ≡ s.initialised) × (l.get_text r.0.clipboard ≡ ok t))
        (l.is_utf8 t)
        (λ e done.
          (refl, k.text_kept t s.clipboard (map_err-ok other (l.set_text t s.clipboard).1 done)))
        (λ e bad. absurd (cc))

  write_image-kept :
      (img : ImageData) (s : ArboardBackend l)
      → (write_image l (ok img) s).1 ≡ ok tt
      → ((write_image l (ok img) s).0.initialised ≡ s.initialised)
        × (l.get_image (write_image l (ok img) s).0.clipboard ≡ ok img)
  unfolding write_image set_with
  write_image-kept img s done =
      (refl, k.image_kept img s.clipboard (map_err-ok other (l.set_image img s.clipboard).1 done))

  -- A text that is written without an error is what a read of the text gives.
  pub read-write_text :
      (p : ClipboardPayload) (s : ArboardBackend l)
      → p.format ≡ plain_text
      → s.initialised ≡ true
      → (write l p s).1 ≡ ok tt
      → read l plain_text (write l p s).0 ≡ ok p.bytes
  unfolding read_format write_payload
  read-write_text p s text ready done =
      let same : write l p s ≡ write_text l p.bytes s = write-ready p s ready ∙ rw text refl in
      let (kept, got) = write_text-kept p.bytes s (ap (λ r. r.1) (sym same) ∙ done) in
      rw same (rw (read-ready plain_text (write_text l p.bytes s).0 (kept ∙ ready)) (rw got refl))

  -- Where arboard keeps what it is given and PNG is lossless on decoded images: a PNG that can be
  -- decoded and that an initialised backend writes without an error reads back as a PNG that
  -- decodes to the same image.
  pub read-write_png :
      IsLossless l
      → (p : ClipboardPayload) (img : ImageData) (s : ArboardBackend l) → p.format ≡ png
      → s.initialised ≡ true
      → l.decode_png p.bytes ≡ ok img
      → (write l p s).1 ≡ ok tt
      → (out : List ℕ) × (read l png (write l p s).0 ≡ ok out) × (l.decode_png out ≡ ok img)
  unfolding read_format write_payload
  read-write_png lossless p img s image ready decoded done =
      let same : write l p s ≡ write_image l (ok img) s =
        write-ready p s ready ∙ rw image (rw decoded refl) in
      let (kept, got) = write_image-kept img s (ap (λ r. r.1) (sym same) ∙ done) in
      let (out, encoded, again) = lossless.encodes p.bytes img decoded in
      let (w, h) = lossless.small p.bytes img decoded in
      (
        out,
        rw same (
            rw (read-ready png (write_image l (ok img) s).0 (kept ∙ ready)) (
              rw got (
                rw (mod-eq_of_lt w) (
                  rw (mod-eq_of_lt h)
                    (rw (lossless.fits p.bytes img decoded) (rw encoded refl)))))),
        again,
      )

  -- A PNG that cannot be decoded is lost without an error: the clipboard keeps what it had.
  pub write_undecodable :
      (p : ClipboardPayload) (s : ArboardBackend l) (e : String)
      → p.format ≡ png
      → s.initialised ≡ true
      → l.decode_png p.bytes ≡ err e
      → write l p s ≡ (s, ok tt)
  unfolding write_payload write_image
  write_undecodable p s e image ready undecodable =
      write-ready p s ready ∙ rw image (rw undecodable refl)
