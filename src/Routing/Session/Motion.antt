-- ===== src/Routing/Session/Motion.antt =====
-- Forwarded movement of crates/daemon/src/session.rs: the deltas that a peer is sent add up to the
-- distance that the captured cursor travelled.
use my_deskflow.Prelude.{
  ◌+◌, ◌^◌, ◌<◌, ◌≡◌, refl, sym, ap, ◌∙◌, All, map, arith, some, List, [], ◌∷◌, ◌++◌,
}
use my_deskflow.Prelude.Int.{
  int_laws, ℤ, pos, pos_part, neg_part, ◌+ℤ◌, ◌-ℤ◌, IsI32, wrap_i32_of_IsI32,
}
use my_deskflow.Core.Screen.{ScreenId, Point}
use my_deskflow.Protocol.Message.{Message, from_input}
use my_deskflow.Routing.Edge.{remote, observe, sub_i32}
use my_deskflow.Routing.Edge.Crossing.{moved_to}
use my_deskflow.Routing.Session.{
  Server, Effect, PeerHandle, try_send, drain_step, first, delta, forward_delta, is_emergency,
  apply_decision, run, step, captured,
}

-- A movement, and the sum of two.
abbrev pub Movement : Type 0
Movement = ℤ × ℤ

abbrev pub add : Movement → Movement → Movement
add a b = (a.0 +ℤ b.0, a.1 +ℤ b.1)

-- The movement that an effect sends out, and the total of some effects.
pub movement_of : Effect → Movement
movement_of (try_send p (Message.mouse_move_relative dx dy)) = (dx, dy)
movement_of _ = (pos 0, pos 0)

pub moved : List Effect → Movement
moved [] = (pos 0, pos 0)
moved (e ∷ es) = add (movement_of e) (moved es)

-- The last of some positions.
unfoldable pub last_point : Point → List Point → Point
last_point p [] = p
last_point p (q ∷ qs) = last_point q qs

-- Within 2^30 of the origin, so that differences are exact in 32 bits.
abbrev pub Near : Point → Type 0
Near p = (pos_part p.x + neg_part p.x < 2 ^ 30) × (pos_part p.y + neg_part p.y < 2 ^ 30)

small-IsI32 :
    (a b : ℤ) → pos_part a + neg_part a < 2 ^ 30 → pos_part b + neg_part b < 2 ^ 30 → IsI32 (a -ℤ b)
unfolding ◌-ℤ◌
small-IsI32 a b ha hb = ground arith

pub sub_i32_near :
    (a b : ℤ)
    → pos_part a + neg_part a < 2 ^ 30
    → pos_part b + neg_part b < 2 ^ 30
    → sub_i32 a b ≡ a -ℤ b
sub_i32_near a b ha hb = wrap_i32_of_IsI32 (a -ℤ b) (small-IsI32 a b ha hb)

+ℤ_zero : (a : ℤ) → a +ℤ pos 0 ≡ a
+ℤ_zero a = omega int_laws

moved-forward_delta : (p : PeerHandle) (d : Point) → moved (forward_delta p d) ≡ (d.x, d.y)
unfolding moved movement_of forward_delta from_input
moved-forward_delta p d = ground (arith, +ℤ_zero d.x, +ℤ_zero d.y)

-- One move while remote, from a known position.
drain_step-move :
    (s : Server) (screen : ScreenId) (p : PeerHandle) (from to : Point)
    → s.edge.route ≡ remote screen
    → first s.peers ≡ some p
    → s.last_mouse ≡ some from
    → ((drain_step s (moved_to to)).1 ≡ forward_delta p (delta (some from) to))
      × ((drain_step s (moved_to to)).0.last_mouse ≡ some to)
      × ((drain_step s (moved_to to)).0.edge.route ≡ remote screen)
      × ((drain_step s (moved_to to)).0.peers ≡ s.peers)
unfolding drain_step apply_decision observe is_emergency
drain_step-move s screen p from to r f l = (ground arith, ground arith, ground arith, ground arith)

+ℤ_zero_left : (a : ℤ) → pos 0 +ℤ a ≡ a
+ℤ_zero_left a = omega int_laws

+ℤ_assoc : (a b c : ℤ) → a +ℤ b +ℤ c ≡ a +ℤ (b +ℤ c)
+ℤ_assoc a b c = omega int_laws

add_zero : (m : ℤ × ℤ) → add (pos 0, pos 0) m ≡ m
add_zero m = rw (+ℤ_zero_left m.0, +ℤ_zero_left m.1) refl

add_assoc : (l m n : ℤ × ℤ) → add (add l m) n ≡ add l (add m n)
add_assoc l m n = rw (+ℤ_assoc l.0 m.0 n.0, +ℤ_assoc l.1 m.1 n.1) refl

moved-append : (xs ys : List Effect) → moved (xs ++ ys) ≡ add (moved xs) (moved ys)
unfolding moved
moved-append [] ys = sym (add_zero (moved ys))
moved-append (x ∷ xs) ys =
    ap (add (movement_of x)) (moved-append xs ys)
    ∙ sym (add_assoc (movement_of x) (moved xs) (moved ys))

step_between : (a b c : ℤ) → b -ℤ a +ℤ (c -ℤ b) ≡ c -ℤ a
step_between a b c = omega int_laws

-- From `from` over `to` to the end is from `from` to the end.
add-delta :
    (a b c : Point)
    → add (b.x -ℤ a.x, b.y -ℤ a.y) (c.x -ℤ b.x, c.y -ℤ b.y) ≡ (c.x -ℤ a.x, c.y -ℤ a.y)
add-delta a b c = rw (step_between a.x b.x c.x, step_between a.y b.y c.y) refl

-0 : (a : ℤ) → a -ℤ a ≡ pos 0
-0 a = omega int_laws

-- While the route is remote, with a first peer, a known last position and that and all later
-- positions within 2^30 of the origin, the deltas sent for captured moves, nothing else happening,
-- add up to the distance from the known position to the last one.
pub moved-run :
    (s : Server) (screen : ScreenId) (p : PeerHandle) (from : Point) (to : List Point)
    → s.edge.route ≡ remote screen
    → first s.peers ≡ some p
    → s.last_mouse ≡ some from
    → Near from
    → All Near to
    → moved (run s (map captured (map moved_to to))).1
      ≡ ((last_point from to).x -ℤ from.x, (last_point from to).y -ℤ from.y)
unfolding run step last_point moved
moved-run s screen p from [] r f l near all = rw (-0 from.x, -0 from.y) refl
moved-run s screen p from (q ∷ qs) r f l near all =
    let (sent, seen, away, same) = drain_step-move s screen p from q r f l in
    let next = (drain_step s (moved_to q)).0 in
    let ih = moved-run next screen p q qs away (ap first same ∙ f) seen all.0 all.1 in
    let one : moved (drain_step s (moved_to q)).1 ≡ (q.x -ℤ from.x, q.y -ℤ from.y) =
      ap moved sent
      ∙ (moved-forward_delta p (delta (some from) q)
          ∙ rw (sub_i32_near q.x from.x all.0.0 near.0, sub_i32_near q.y from.y all.0.1 near.1)
              refl) in
    (moved-append (drain_step s (moved_to q)).1 (run next (map captured (map moved_to qs))).1
      ∙ (rw (one, ih) (add-delta from q (last_point q qs))))
