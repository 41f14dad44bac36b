-- ===== src/Platform/WindowsCapture/Drain.antt =====
-- What the drain thread of crates/platform/src/windows/capture.rs hands to the sink.
use my_deskflow.Prelude.{
  ℕ, ◌≡◌, refl, none, ◌%◌, ◌^◌, Bool, true, false, List, [], ◌∷◌, ◌++◌, map, ap, sym, ap,
}
use mathlib.Core.List.{append_assoc}
use my_deskflow.Core.Modifiers.{ModifierState}
use my_deskflow.Core.Event.{InputEvent, MouseEvent, pressed}
use my_deskflow.Platform.WindowsKeymap.{VirtualKey, vk_to_keycode}
use my_deskflow.Platform.WindowsCapture.{
  RawEvent, note_key, update_modifiers, translate, drain_raw, drain_all,
}
use my_deskflow.Platform.WindowsCapture.HeldKeys.{note_keys}

-- The moves among raw events, as the sink gets them.
pub moves : List RawEvent → List InputEvent
moves [] = []
moves (RawEvent.mouse_move x y ∷ raws) = InputEvent.mouse (MouseEvent.move x y) ∷ moves raws
moves (raw ∷ raws) = moves raws

-- Rounds under one value of the flag.
abbrev pub rounds_at : Bool → List RawEvent → List (Bool × RawEvent)
rounds_at capturing = map (λ raw. (capturing, raw))

moves-cons :
    (raw : RawEvent) (raws : List RawEvent) → moves (raw ∷ raws) ≡ moves (raw ∷ []) ++ moves raws
unfolding moves
moves-cons (RawEvent.key_down vk scan) raws = refl
moves-cons (RawEvent.key_up vk scan) raws = refl
moves-cons (RawEvent.mouse_move x y) raws = refl
moves-cons (RawEvent.mouse_button b down) raws = refl
moves-cons (RawEvent.mouse_scroll h delta) raws = refl

module _ (value : VirtualKey → ℕ) where
  -- One round while capturing is off.
  drain_off_round :
      (m : ModifierState) (raw : RawEvent)
      → drain_raw value false m raw ≡ (note_keys value m (raw ∷ []), moves (raw ∷ []))
  unfolding drain_raw note_keys note_key moves translate
  drain_off_round m (RawEvent.key_down vk scan) = refl
  drain_off_round m (RawEvent.key_up vk scan) = refl
  drain_off_round m (RawEvent.mouse_move x y) = refl
  drain_off_round m (RawEvent.mouse_button b down) = refl
  drain_off_round m (RawEvent.mouse_scroll h delta) = refl

  -- The rounds while capturing is off let only the moves out and note every key.
  pub drain_all-off :
      (m : ModifierState) (raws : List RawEvent) (later : List (Bool × RawEvent))
      → drain_all value m (rounds_at false raws ++ later) ≡ (
        (drain_all value (note_keys value m raws) later).0,
        moves raws ++ (drain_all value (note_keys value m raws) later).1,
      )
  unfolding drain_all note_keys moves
  drain_all-off m [] later = refl
  drain_all-off m (raw ∷ raws) later = rw (drain_off_round m raw) (
      let ih = drain_all-off (note_key value m raw) raws later in
      rw (ih, moves-cons raw raws)
        (ap (λ l. ((drain_all value (note_keys value (note_key value m raw) raws) later).0, l))
          (sym (append_assoc (moves (raw ∷ [])) (moves raws) _))))

  -- The key that is pressed first once capturing is on goes out after the moves of before, with the
  -- modifiers that every key event of before left, itself included.
  pub drain_all-first_key :
      (m : ModifierState) (raws : List RawEvent) (vk scan : ℕ)
      → (drain_all value m (rounds_at false raws ++ ((true, RawEvent.key_down vk scan) ∷ []))).1
        ≡ moves raws
          ++ (InputEvent.key (record {
            code = vk_to_keycode value (vk % 2 ^ 16);
            state = pressed;
            modifiers = update_modifiers value (note_keys value m raws) vk true;
            character = none;
          })
              ∷ [])
  unfolding drain_all drain_raw note_key translate
  drain_all-first_key m raws vk scan =
      rw (drain_all-off m raws ((true, RawEvent.key_down vk scan) ∷ [])) refl
