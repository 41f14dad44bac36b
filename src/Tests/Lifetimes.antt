-- ===== src/Tests/Lifetimes.antt =====
-- The capture of Windows over its calls, a server that is started twice, the uinput device and the
-- system's clipboard, at concrete inputs.
use my_deskflow.Prelude.{
  ℕ, ◌<◌, String, ◌≡◌, ◌≢◌, refl, subst, true, false, Option, none, some, List, [], ◌∷◌, arith,
  ◌==◌, if◌then◌else◌, All, ◌+◌,
}
use my_deskflow.Prelude.Int.{pos, negsuc}
use my_deskflow.Core.Error.{Result, ok, err}
use my_deskflow.Core.Event.{InputEvent, MouseEvent}
use my_deskflow.Protocol.Message.{ClipboardPayload, png}
use my_deskflow.Platform.LinuxInject.{
  inject_batch, release_all_modifiers, x_axis, y_axis, vertical_wheel, vertical_wheel_hi_res,
  horizontal_wheel, horizontal_wheel_hi_res,
}
use my_deskflow.Platform.LinuxInject.Device.{UInput, LinuxInject, new, device}
use my_deskflow.Platform.LinuxInject.Device.Declared.{IsDeclared, new-IsDeclared}
use my_deskflow.Platform.WindowsCapture.Lifecycle.{
  WindowsCapture, fresh, started, stopped, installed, received, joined, step, run, no_call,
}
use my_deskflow.Platform.WindowsCapture.Lifecycle.Stopped.{stop_waits}
use my_deskflow.Daemon.Lifecycle.{DaemonState}
use my_deskflow.Daemon.Sessions.{Host, start, stop, turn, serve, serve_all}
use my_deskflow.Daemon.Sessions.Deaf.{restart_is_deaf}
use my_deskflow.Clipboard.Arboard.{ImageData, Libraries, ArboardBackend, read, write}
use my_deskflow.Clipboard.Arboard.RoundTrip.{Keeps, IsLossless, read-write_png}

abbrev captures : WindowsCapture
captures = run fresh (started 0 true true ∷ installed (some 7) (some 8) ∷ [])

stop_waits_example : (run captures (stopped ∷ received ∷ joined ∷ joined ∷ [])).call ≢ no_call
unfolding run
stop_waits_example =
    stop_waits captures (received ∷ joined ∷ joined ∷ []) refl refl (tt, (tt, (tt, tt)))

abbrev idle : DaemonState
idle = record {
  capturing = false;
  peers = [];
  server_controller = none;
  listening = false;
  listen_addr = none;
  has_server_factory = true;
}

-- A host whose server was started once, as session 0, with endpoint 3.
abbrev first_run : Host
first_run =
    serve_all (record { daemon = idle; capture = fresh; sessions = 0 })
      (start (ok (3, none)) ∷ turn (installed (some 7) (some 8)) ∷ [])

restart_is_deaf_example :
    ((serve (serve_all first_run (stop ∷ [])) (start (ok (4, none)))).sessions
      ≡ (serve_all first_run (stop ∷ [])).sessions + 1)
    × ((serve (serve_all first_run (stop ∷ [])) (start (ok (4, none)))).capture.sink ≡ some 0)
    × (0 < (serve_all first_run (stop ∷ [])).sessions)
unfolding serve_all step
restart_is_deaf_example =
    restart_is_deaf 0 first_run (stop ∷ []) (4, none) (omega arith)
      (record { runs = refl; feeds = refl; no_stop = refl }) (tt, tt) refl

-- A kernel that takes everything but key 84, and a crate that lists three keys.
abbrev small : UInput
small = record {
  open_file = ok tt;
  set_evbit = λ k. ok tt;
  set_keybit = λ k. if k == 84 then err "refused" else ok tt;
  set_relbit = λ a. ok tt;
  create = ok tt;
  keys = 12 ∷ 84 ∷ 30 ∷ 272 ∷ [];
  is_key = λ k. if k == 272 then false else true;
  from_code = λ k. true;
}

abbrev moved : InputEvent
moved = InputEvent.mouse (MouseEvent.move_relative (pos 3) (negsuc 1))

abbrev made : LinuxInject
made = device (277 ∷ 278 ∷ 274 ∷ 273 ∷ 272 ∷ 30 ∷ 12 ∷ []) (
    horizontal_wheel_hi_res ∷ vertical_wheel_hi_res ∷ horizontal_wheel ∷ vertical_wheel ∷ y_axis
    ∷ x_axis ∷ [])

new-IsDeclared_example :
    All (IsDeclared small made) (inject_batch (record { x = pos 0; y = pos 0 }) moved).batch
    × All (IsDeclared small made) release_all_modifiers
unfolding new
new-IsDeclared_example = new-IsDeclared small made refl (record { x = pos 0; y = pos 0 }) moved

abbrev present {ℓ} : {A : Type ℓ} → Option A → Result String A
present none = err "empty"
present (some a) = ok a

-- Images of one pixel, behind two bytes.
decode_pixel : List ℕ → Result String ImageData
decode_pixel (x ∷ y ∷ r ∷ g ∷ b ∷ a ∷ []) =
    ok (record { width = 1; height = 1; bytes = r ∷ g ∷ b ∷ a ∷ [] })
decode_pixel _ = err "no pixel"

-- A board that holds a text and an image.
abbrev board : Libraries
board = record {
  Clipboard = Option (List ℕ) × Option ImageData;
  init = λ c. ok tt;
  get_text = λ c. present c.0;
  get_image = λ c. present c.1;
  set_text = λ t c. ((some t, c.1), ok tt);
  set_image = λ img c. ((c.0, some img), ok tt);
  is_utf8 = λ t. true;
  from_raw = λ w h bytes. some (record { width = w; height = h; bytes = bytes });
  encode_png = λ img. ok (0 ∷ 0 ∷ img.bytes);
  decode_png = decode_pixel;
}

board-Keeps : Keeps board
board-Keeps = record { text_kept = λ t c h. refl; image_kept = λ img c h. refl }

image_eq : {i j : ImageData} → ◌≡◌ {A = Result String ImageData} (ok i) (ok j) → i ≡ j
image_eq h = cc

pixel_of :
    (bytes : List ℕ) (img : ImageData)
    → decode_pixel bytes ≡ ok img
    → (img.width ≡ 1) × (img.height ≡ 1) × (decode_pixel (0 ∷ 0 ∷ img.bytes) ≡ ok img)
unfolding decode_pixel
pixel_of (x ∷ y ∷ r ∷ g ∷ b ∷ a ∷ []) img h = (
  ground arith,
  ground arith,
  subst (λ (i : ImageData). decode_pixel (0 ∷ 0 ∷ i.bytes) ≡ ok i) (image_eq h) refl,
)
pixel_of _ img h = absurd (cc)

board-IsLossless : IsLossless board
board-IsLossless = record {
  small = λ bytes img h. let (w, k, again) = pixel_of bytes img h in (omega arith, omega arith);
  fits = λ bytes img h. refl;
  encodes = λ bytes img h. (0 ∷ 0 ∷ img.bytes, refl, (pixel_of bytes img h).2);
}

abbrev pixel : ClipboardPayload
pixel = record { format = png; bytes = 9 ∷ 9 ∷ 1 ∷ 2 ∷ 3 ∷ 4 ∷ []; originator = 1; hash = 5 }

abbrev ready : ArboardBackend board
ready = record { initialised = true; clipboard = (none, none) }

read-write_png_example :
    (out : List ℕ) × (read board png (write board pixel ready).0 ≡ ok out)
    × (decode_pixel out ≡ ok (record { width = 1; height = 1; bytes = 1 ∷ 2 ∷ 3 ∷ 4 ∷ [] }))
unfolding write decode_pixel
read-write_png_example =
    read-write_png board board-Keeps board-IsLossless pixel
      (record { width = 1; height = 1; bytes = 1 ∷ 2 ∷ 3 ∷ 4 ∷ [] }) ready refl refl refl refl
