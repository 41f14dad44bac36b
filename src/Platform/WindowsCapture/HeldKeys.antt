-- ===== src/Platform/WindowsCapture/HeldKeys.antt =====
-- The modifiers that the drain thread of crates/platform/src/windows/capture.rs keeps.
use my_deskflow.Prelude.{
  ℕ, ◌%◌, ◌^◌, ◌<◌, ◌≡◌, ◌≢◌, ◌∙◌, refl, arith, Bool, true, false, Option, none, some, ◌==◌, inl,
  inr, subst, Option-cases, List, [], ◌∷◌, if◌then◌else◌,
}
use my_deskflow.Core.Modifiers.{
  ModifierState, shift, ctrl, alt, super, caps_lock, num_lock, contains,
}
use my_deskflow.Core.Modifiers.Laws.{IsFlag, contains-insert, contains-remove, insert-remove_lt}
use my_deskflow.Platform.WindowsKeymap.{VirtualKey}
use my_deskflow.Platform.WindowsKeymap.RoundTrip.{IsInjective}
use my_deskflow.Platform.WindowsCapture.ModifierKeys.{modifier_of, flag_of-modifier_of}
use my_deskflow.Platform.WindowsCapture.{
  flag_of, update_modifiers, note_key, RawEvent, key_down, key_up, mouse_move, mouse_button,
  mouse_scroll,
}

if_IsFlag :
    (b : Bool) (k f : ModifierState) (rest : Option ModifierState)
    → IsFlag k
    → (rest ≡ some f → IsFlag f)
    → (if b then some k else rest) ≡ some f
    → IsFlag f
if_IsFlag true k f rest is_k later h = subst IsFlag (cc) is_k
if_IsFlag false k f rest is_k later h = later h

no-IsFlag : (f : ModifierState) → none ≡ some f → IsFlag f
no-IsFlag f h = cc

module _ (value : VirtualKey → ℕ) where
  flag_of-IsFlag : (vk : ℕ) (f : ModifierState) → flag_of value vk ≡ some f → IsFlag f
  unfolding flag_of
  flag_of-IsFlag vk f h =
      if_IsFlag _ shift f _ (inl refl)
        (if_IsFlag _ ctrl f _ (inr (inl refl)) (
          if_IsFlag _ alt f _ (inr (inr (inl refl))) (
            if_IsFlag _ super f _ (inr (inr (inr (inl refl)))) (
              if_IsFlag _ caps_lock f _ (inr (inr (inr (inr (inl refl))))) (
                if_IsFlag _ num_lock f _ (inr (inr (inr (inr (inr (inl refl)))))) (no-IsFlag f))))))
        h

  -- A key event of a modifier key sets or clears exactly that key's flag.
  pub contains-update_modifiers :
      (m : ModifierState) (vk : ℕ) (down : Bool) (f g : ModifierState)
      → m < 128
      → flag_of value (vk % 2 ^ 16) ≡ some f
      → IsFlag g
      → contains (update_modifiers value m vk down) g ≡ (if f == g then down else contains m g)
  unfolding update_modifiers
  contains-update_modifiers m vk true f g lt h is_g =
      let law = contains-insert m f g lt (flag_of-IsFlag (vk % 2 ^ 16) f h) is_g in ground arith
  contains-update_modifiers m vk false f g lt h is_g =
      let law = contains-remove m f g lt (flag_of-IsFlag (vk % 2 ^ 16) f h) is_g in ground arith

  update_modifiers_lt :
      (m : ModifierState) (vk : ℕ) (down : Bool) → m < 128 → update_modifiers value m vk down < 128
  unfolding update_modifiers
  update_modifiers_lt m vk down lt = elim (Option-cases (flag_of value (vk % 2 ^ 16))) [
    | inl none_of ↦ ground arith
    | inr (f, h) ↦
        let below = insert-remove_lt m f lt (flag_of-IsFlag (vk % 2 ^ 16) f h) in ground arith
  ]

  -- The modifiers behind a run of raw events.
  unfoldable pub note_keys : ModifierState → List RawEvent → ModifierState
  note_keys m [] = m
  note_keys m (raw ∷ raws) = note_keys (note_key value m raw) raws

  note_keys_lt : (m : ModifierState) (raws : List RawEvent) → m < 128 → note_keys m raws < 128
  unfolding note_keys note_key
  note_keys_lt m [] lt = lt
  note_keys_lt m (key_down vk scan ∷ raws) lt =
      note_keys_lt (update_modifiers value m vk true) raws (update_modifiers_lt m vk true lt)
  note_keys_lt m (key_up vk scan ∷ raws) lt =
      note_keys_lt (update_modifiers value m vk false) raws (update_modifiers_lt m vk false lt)
  note_keys_lt m (mouse_move x y ∷ raws) lt = note_keys_lt m raws lt
  note_keys_lt m (mouse_button b down ∷ raws) lt = note_keys_lt m raws lt
  note_keys_lt m (mouse_scroll h delta ∷ raws) lt = note_keys_lt m raws lt

  -- From any set of the seven flags, whatever events came before, with whatever keys still held,
  -- the press of a key that stands for a modifier (left, right or plain Shift, Ctrl or Alt, left
  -- or right Super, Caps Lock, Num Lock) leaves the modifier set, its release leaves it cleared,
  -- and the other modifiers stay as they were, when the keys have different numbers and that of
  -- this key has 16 bits.
  pub note_keys-last :
      (inj : IsInjective value) (m : ModifierState) (raws : List RawEvent) (key : VirtualKey)
      (down : Bool) (f : ModifierState)
      → m < 128
      → value key < 2 ^ 16
      → modifier_of key ≡ some f
      → let after = update_modifiers value (note_keys m raws) (value key) down in
        (contains after f ≡ down)
        × ((g : ModifierState)
            → IsFlag g
            → g ≢ f
            → contains after g ≡ contains (note_keys m raws) g)
  note_keys-last inj m raws key down f lt small is_f =
      let whole : value key % 2 ^ 16 ≡ value key = omega arith in
      let found : flag_of value (value key % 2 ^ 16) ≡ some f =
        rw whole (flag_of-modifier_of value inj key ∙ is_f) in
      let law = λ (g : ModifierState) (is_g : IsFlag g).
        contains-update_modifiers (note_keys m raws) (value key) down f g (note_keys_lt m raws lt)
          found is_g in
      (
        (let here = law f (flag_of-IsFlag (value key % 2 ^ 16) f found) in ground arith),
        λ g is_g other. (let there = law g is_g in ground arith),
      )
