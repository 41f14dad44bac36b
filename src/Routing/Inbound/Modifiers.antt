-- ===== src/Routing/Inbound/Modifiers.antt =====
-- Modifier keys that `resync_modifiers` of crates/daemon/src/session.rs leaves held.
use my_deskflow.Prelude.{
  ◌<◌, ◌≤◌, ◌≡◌, refl, Bool, true, ◌&&◌, List, [], ◌∷◌, arith, zero, suc, ◌==◌, ==_iff, bit_and,
  ◌++◌, All, All-append, if_ind,
}
use my_deskflow.Core.Modifiers.{
  ModifierState, empty, shift, ctrl, alt, super, contains, insert, remove,
}
use my_deskflow.Core.Event.{
  InputEvent, KeyCode, KeyState, pressed, released, left_shift, left_ctrl, left_alt, left_super,
  right_shift, right_ctrl, right_alt, right_super,
}
use my_deskflow.Routing.Inbound.{Action, inject, release_all_modifiers, press, resync_modifiers}

-- The modifier that a key is.
pub flag_of : KeyCode → ModifierState
flag_of left_shift = shift
flag_of right_shift = shift
flag_of left_ctrl = ctrl
flag_of right_ctrl = ctrl
flag_of left_alt = alt
flag_of right_alt = alt
flag_of left_super = super
flag_of right_super = super
flag_of _ = empty

hold : ModifierState → KeyState → ModifierState → ModifierState
hold held pressed flag = insert held flag
hold held released flag = remove held flag

-- The modifiers that the operating system holds after some actions.
pub held_after : ModifierState → List Action → ModifierState
held_after held [] = held
held_after held (release_all_modifiers ∷ rest) = held_after empty rest
held_after held (inject (InputEvent.key k) ∷ rest) =
    held_after (hold held k.state (flag_of k.code)) rest
held_after held (_ ∷ rest) = held_after held rest

-- A test on all the modifier sets up to one.
up_to : (ModifierState → Bool) → ModifierState → Bool
up_to test zero = test zero
up_to test (suc m) = test (suc m) && up_to test m

up_to_elim :
    (test : ModifierState → Bool) (last m : ModifierState)
    → up_to test last ≡ true
    → m ≤ last
    → test m ≡ true
unfolding up_to
up_to_elim test zero zero every _ = every
up_to_elim test zero (suc m) every le = absurd (omega arith)
up_to_elim test (suc last) m every le = ground (arith, up_to_elim test last m)

resync_table : up_to (λ m. held_after empty (resync_modifiers m) == bit_and m 0b1111) 127 ≡ true
unfolding up_to held_after resync_modifiers hold flag_of contains insert
resync_table = refl

-- Whatever was held before, after a resynchronisation to a set of the seven modifiers exactly its
-- Shift, Ctrl, Alt and Super are held.
pub held_after-resync_modifiers :
    (held target : ModifierState)
    → target < 128
    → held_after held (resync_modifiers target) ≡ bit_and target 0b1111
unfolding held_after resync_modifiers
held_after-resync_modifiers held target h =
    (==_iff (held_after empty (resync_modifiers target)) (bit_and target 0b1111)).0
      (up_to_elim _ 127 target resync_table (omega arith))

-- A release of the modifiers, or a key.
abbrev pub IsKeyAction : Action → Type 0
IsKeyAction release_all_modifiers = Unit {0}
IsKeyAction (inject (InputEvent.key k)) = Unit {0}
IsKeyAction _ = ⊥

pub resync_modifiers-IsKeyAction :
    (target : ModifierState) → All IsKeyAction (resync_modifiers target)
unfolding resync_modifiers press
resync_modifiers-IsKeyAction target = (tt, four)
  where
    one : (flag : ModifierState) (code : KeyCode) → All IsKeyAction (press target flag code)
    one flag code = if_ind (All IsKeyAction) (contains target flag) (λ c. (tt, tt)) (λ c. tt)

    four : All IsKeyAction (
        press target shift left_shift
        ++ (press target ctrl left_ctrl
            ++ (press target alt left_alt ++ press target super left_super)))
    four = All-append IsKeyAction _ _ (one shift left_shift) (
        All-append IsKeyAction _ _ (one ctrl left_ctrl)
          (All-append IsKeyAction _ _ (one alt left_alt) (one super left_super)))
