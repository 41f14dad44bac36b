-- ===== src/Tests/Platform.antt =====
-- The Linux injector at concrete inputs.
use my_deskflow.Prelude.{◌≡◌, List, [], ◌∷◌, arith}
use my_deskflow.Prelude.Int.{pos, negsuc, ◌+ℤ◌}
use my_deskflow.Core.Screen.{Point}
use my_deskflow.Core.Event.{InputEvent, MouseEvent, Button, pressed}
use my_deskflow.Platform.LinuxInject.{inject_batch}
use my_deskflow.Platform.LinuxInject.Pointer.{moves_x, moves_y, inject_all, inject_all-moves}

abbrev origin : Point
origin = record { x = pos 0; y = pos 0 }

abbrev strokes : List InputEvent
strokes =
    InputEvent.mouse (MouseEvent.move (pos 10) (pos 20))
    ∷ InputEvent.mouse (MouseEvent.button Button.left pressed)
    ∷ InputEvent.mouse (MouseEvent.move_relative (negsuc 3) (pos 5))
    ∷ []

inject_all-moves_example :
    ((inject_all origin strokes).last_pos.x ≡ pos 0 +ℤ moves_x (inject_all origin strokes).batch)
    × ((inject_all origin strokes).last_pos.y ≡ pos 0 +ℤ moves_y (inject_all origin strokes).batch)
unfolding inject_batch ◌+ℤ◌
inject_all-moves_example =
    inject_all-moves origin strokes (omega arith) (omega arith)
      ((omega arith, omega arith), (tt, ((omega arith, omega arith), tt)))
