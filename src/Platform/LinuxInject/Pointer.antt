-- ===== src/Platform/LinuxInject/Pointer.antt =====
-- What the batches of crates/platform/src/linux/inject.rs move the pointer by.
use my_deskflow.Prelude.{
  ◌&&◌, if◌then◌else◌, Option, none, some, ℕ, ◌^◌, ◌≤◌, ◌<◌, ◌≡◌, refl, ap, subst, ◌∙◌, sym, arith,
  true, List, [], ◌∷◌, ◌++◌,
}
use my_deskflow.Prelude.Int.{
  ℤ, pos, negsuc, pos_part, neg_part, ◌+ℤ◌, ◌-ℤ◌, eqb_ℤ, wrap_i32, int_laws,
}
use my_deskflow.Core.Screen.{Point}
use my_deskflow.Core.Event.{InputEvent, MouseEvent, KeyState}
use my_deskflow.Routing.Edge.{sub_i32}
use my_deskflow.Platform.LinuxInject.{
  EvdevEvent, rel_event, syn, x_axis, y_axis, Injected, inject_batch, button_to_evdev, hid_to_evdev,
  vertical_wheel, vertical_wheel_hi_res, horizontal_wheel, horizontal_wheel_hi_res, key_batch,
  wheel, report, saturating_add, move_to,
}

-- The distance that a batch moves the pointer to the right, and down.
abbrev pub moves_x : List EvdevEvent → ℤ
moves_x [] = pos 0
moves_x (rel_event x_axis n ∷ es) = n +ℤ moves_x es
moves_x (_ ∷ es) = moves_x es

abbrev pub moves_y : List EvdevEvent → ℤ
moves_y [] = pos 0
moves_y (rel_event y_axis n ∷ es) = n +ℤ moves_y es
moves_y (_ ∷ es) = moves_y es

-- A coordinate whose distances fit an i32.
abbrev pub IsNear : ℤ → Type 0
IsNear (pos n) = n < 2 ^ 30
IsNear (negsuc n) = n < 2 ^ 30

-- The event leaves the cursor near.
abbrev pub StaysNear : Point → InputEvent → Type 0
StaysNear last (InputEvent.mouse (MouseEvent.move x y)) = IsNear x × IsNear y
StaysNear last (InputEvent.mouse (MouseEvent.move_relative dx dy)) =
    IsNear (last.x +ℤ dx) × IsNear (last.y +ℤ dy)
StaysNear last _ = Unit

sub_i32_near : (a b : ℤ) → IsNear a → IsNear b → wrap_i32 (a -ℤ b) ≡ a -ℤ b
unfolding wrap_i32 ◌-ℤ◌
sub_i32_near (pos a) (pos b) h k = ground arith
sub_i32_near (pos a) (negsuc b) h k = ground arith
sub_i32_near (negsuc a) (pos b) h k = ground arith
sub_i32_near (negsuc a) (negsuc b) h k = ground arith

near_parts : (a : ℤ) → IsNear a → (pos_part a < 2 ^ 30) × (neg_part a ≤ 2 ^ 30)
near_parts (pos n) h = (h, ground arith)
near_parts (negsuc n) h = (ground arith, ground arith)

saturating_add_near : (a b : ℤ) → IsNear (a +ℤ b) → saturating_add a b ≡ a +ℤ b
saturating_add_near a b h = let parts = near_parts (a +ℤ b) h in ground arith

-- The batch moves the pointer by what the known position changes by.
abbrev Follows : Point → Injected → Type 0
Follows last done =
    (done.last_pos.x ≡ last.x +ℤ moves_x done.batch)
    × (done.last_pos.y ≡ last.y +ℤ moves_y done.batch)

moves-still : (a : ℤ) → a ≡ a +ℤ pos 0
moves-still a = grind int_laws

-- A batch that moves by nothing may be left out.
abbrev motion : ℤ → ℤ → List EvdevEvent
motion dx dy =
    if eqb_ℤ dx (pos 0) && eqb_ℤ dy (pos 0)
    then []
    else rel_event x_axis dx ∷ rel_event y_axis dy ∷ syn ∷ []

plus_zero : (a : ℤ) → a +ℤ pos 0 ≡ a
plus_zero a = grind int_laws

zero_test : (a : ℤ) → eqb_ℤ a (pos 0) ≡ true → a ≡ pos 0
zero_test (pos n) h = ground arith
zero_test (negsuc n) h = ground arith

moves-motion : (dx dy : ℤ) → (moves_x (motion dx dy) ≡ dx) × (moves_y (motion dx dy) ≡ dy)
moves-motion dx dy =
    let zero_x = zero_test dx in
    let zero_y = zero_test dy in
    let same_x = plus_zero dx in let same_y = plus_zero dy in (ground arith, ground arith)

across : (a b : ℤ) → b ≡ a +ℤ (b -ℤ a)
across a b = grind int_laws

move_to-Follows :
    (last target : Point)
    → IsNear last.x
    → IsNear last.y
    → IsNear target.x
    → IsNear target.y
    → Follows last (move_to last target)
move_to-Follows last target hx hy kx ky =
    let dx = sub_i32 target.x last.x in
    let dy = sub_i32 target.y last.y in
    let moved = moves-motion dx dy in
    (
      across last.x target.x
          ∙ ap (λ d. last.x +ℤ d) (sym (moved.0 ∙ sub_i32_near target.x last.x kx hx)),
      across last.y target.y
          ∙ ap (λ d. last.y +ℤ d) (sym (moved.1 ∙ sub_i32_near target.y last.y ky hy)),
    )

move_relative-Follows : (a d : ℤ) → IsNear (a +ℤ d) → saturating_add a d ≡ a +ℤ (d +ℤ pos 0)
move_relative-Follows a d h = saturating_add_near a d h ∙ ap (λ n. a +ℤ n) (sym (plus_zero d))

-- No movement: keys, buttons and wheels.
key_batch-still :
    (code : Option ℕ) (s : KeyState)
    → (moves_x (key_batch code s) ≡ pos 0) × (moves_y (key_batch code s) ≡ pos 0)
key_batch-still none s = (refl, refl)
key_batch-still (some code) s = (refl, refl)

wheels-still :
    (n m : ℤ)
    → let es = report (
        wheel vertical_wheel vertical_wheel_hi_res n
        ++ wheel horizontal_wheel horizontal_wheel_hi_res m) in
      (moves_x es ≡ pos 0) × (moves_y es ≡ pos 0)
wheels-still n m = (ground arith, ground arith)

inject_batch-Follows :
    (last : Point) (e : InputEvent)
    → IsNear last.x
    → IsNear last.y
    → StaysNear last e
    → Follows last (inject_batch last e)
unfolding inject_batch
inject_batch-Follows last (InputEvent.mouse (MouseEvent.move x y)) hx hy near =
    move_to-Follows last (record { x = x; y = y }) hx hy near.0 near.1
inject_batch-Follows last (InputEvent.mouse (MouseEvent.move_relative dx dy)) hx hy near =
    (move_relative-Follows last.x dx near.0, move_relative-Follows last.y dy near.1)
inject_batch-Follows last (InputEvent.mouse (MouseEvent.button b s)) hx hy near =
    let still = key_batch-still (button_to_evdev b) s in
    (rw still.0 (moves-still last.x), rw still.1 (moves-still last.y))
inject_batch-Follows last (InputEvent.mouse (MouseEvent.scroll d)) hx hy near =
    let still = wheels-still d.vertical d.horizontal in
    (rw still.0 (moves-still last.x), rw still.1 (moves-still last.y))
inject_batch-Follows last (InputEvent.key key) hx hy near =
    let still = key_batch-still (hid_to_evdev key.code) key.state in
    (rw still.0 (moves-still last.x), rw still.1 (moves-still last.y))
inject_batch-Follows last _ hx hy near = (moves-still last.x, moves-still last.y)

assoc_ℤ : (a b c : ℤ) → a +ℤ (b +ℤ c) ≡ (a +ℤ b) +ℤ c
assoc_ℤ a b c = grind int_laws

moves_x-append : (es fs : List EvdevEvent) → moves_x (es ++ fs) ≡ moves_x es +ℤ moves_x fs
moves_x-append [] fs = grind int_laws
moves_x-append (rel_event x_axis n ∷ es) fs =
    ap (λ m. n +ℤ m) (moves_x-append es fs) ∙ assoc_ℤ n (moves_x es) (moves_x fs)
moves_x-append (_ ∷ es) fs = moves_x-append es fs

moves_y-append : (es fs : List EvdevEvent) → moves_y (es ++ fs) ≡ moves_y es +ℤ moves_y fs
moves_y-append [] fs = grind int_laws
moves_y-append (rel_event y_axis n ∷ es) fs =
    ap (λ m. n +ℤ m) (moves_y-append es fs) ∙ assoc_ℤ n (moves_y es) (moves_y fs)
moves_y-append (_ ∷ es) fs = moves_y-append es fs

chained :
    {end both : ℤ} (start mid first second : ℤ)
    → mid ≡ start +ℤ first
    → end ≡ mid +ℤ second
    → both ≡ first +ℤ second
    → end ≡ start +ℤ both
chained start mid first second h k l =
    k ∙ ap (λ m. m +ℤ second) h ∙ sym (assoc_ℤ start first second) ∙ ap (λ m. start +ℤ m) (sym l)

stays :
    (last : Point) (e : InputEvent)
    → IsNear last.x
    → IsNear last.y
    → StaysNear last e
    → IsNear (inject_batch last e).last_pos.x × IsNear (inject_batch last e).last_pos.y
unfolding inject_batch
stays last (InputEvent.mouse (MouseEvent.move x y)) hx hy near = near
stays last (InputEvent.mouse (MouseEvent.move_relative dx dy)) hx hy near = (
  subst IsNear (sym (saturating_add_near last.x dx near.0)) near.0,
  subst IsNear (sym (saturating_add_near last.y dy near.1)) near.1,
)
stays last (InputEvent.mouse (MouseEvent.button b s)) hx hy near = (hx, hy)
stays last (InputEvent.mouse (MouseEvent.scroll d)) hx hy near = (hx, hy)
stays last _ hx hy near = (hx, hy)

-- The batches of a run of events, one behind the other.
unfoldable pub inject_all : Point → List InputEvent → Injected
inject_all last [] = record { last_pos = last; batch = [] }
inject_all last (e ∷ es) =
    let done = inject_batch last e in
    let rest = inject_all done.last_pos es in
    record { last_pos = rest.last_pos; batch = done.batch ++ rest.batch }

abbrev pub AllNear : Point → List InputEvent → Type 0
AllNear last [] = Unit
AllNear last (e ∷ es) = StaysNear last e × AllNear (inject_batch last e).last_pos es

-- Over a run of events that keep the cursor's coordinates from -2^30 to 2^30, the pointer is moved
-- by exactly what the position that the injector knows changes by, on both axes.
pub inject_all-moves :
    (last : Point) (es : List InputEvent)
    → IsNear last.x
    → IsNear last.y
    → AllNear last es
    → ((inject_all last es).last_pos.x ≡ last.x +ℤ moves_x (inject_all last es).batch)
      × ((inject_all last es).last_pos.y ≡ last.y +ℤ moves_y (inject_all last es).batch)
unfolding inject_all
inject_all-moves last [] hx hy near = (moves-still last.x, moves-still last.y)
inject_all-moves last (e ∷ es) hx hy near =
    let done = inject_batch last e in
    let next = stays last e hx hy near.0 in
    let rest = inject_all-moves done.last_pos es next.0 next.1 near.1 in
    let here = inject_batch-Follows last e hx hy near.0 in
    let after = inject_all done.last_pos es in
    (
      chained last.x done.last_pos.x (moves_x done.batch) (moves_x after.batch) here.0 (rest.0)
          (moves_x-append done.batch after.batch),
      chained last.y done.last_pos.y (moves_y done.batch) (moves_y after.batch) here.1 (rest.1)
          (moves_y-append done.batch after.batch),
    )
