-- ===== src/Platform/WindowsCapture/ModifierKeys.antt =====
-- Which keys are modifiers, against the table of `update_modifiers` of
-- crates/platform/src/windows/capture.rs.
use my_deskflow.Prelude.{
  ℕ, zero, suc, get_elem?, ◌≡◌, refl, ap, sym, true, false, ◌==◌, ==_iff, Bool-cases, inl, inr,
  Option, none, some, List, [], ◌∷◌, All,
}
use my_deskflow.Core.Modifiers.{ModifierState, shift, ctrl, alt, super, caps_lock, num_lock}
use my_deskflow.Platform.WindowsKeymap.{VirtualKey}
use my_deskflow.Platform.WindowsKeymap.RoundTrip.{IsInjective}
use my_deskflow.Platform.WindowsCapture.{is_one_of, flag_of}

-- The modifier that a key is, if any.
unfoldable pub modifier_of : VirtualKey → Option ModifierState
modifier_of VirtualKey.lshift = some shift
modifier_of VirtualKey.rshift = some shift
modifier_of VirtualKey.shift = some shift
modifier_of VirtualKey.lcontrol = some ctrl
modifier_of VirtualKey.rcontrol = some ctrl
modifier_of VirtualKey.control = some ctrl
modifier_of VirtualKey.lmenu = some alt
modifier_of VirtualKey.rmenu = some alt
modifier_of VirtualKey.menu = some alt
modifier_of VirtualKey.lwin = some super
modifier_of VirtualKey.rwin = some super
modifier_of VirtualKey.capital = some caps_lock
modifier_of VirtualKey.numlock = some num_lock
modifier_of _ = none

abbrev number : Option ModifierState → ℕ
number none = 0
number (some f) = f

-- A number that tells modifiers apart.
class_of : VirtualKey → ℕ
unfolding modifier_of
class_of key = number (modifier_of key)

abbrev shift_keys : List VirtualKey
shift_keys = VirtualKey.lshift ∷ VirtualKey.rshift ∷ VirtualKey.shift ∷ []

abbrev ctrl_keys : List VirtualKey
ctrl_keys = VirtualKey.lcontrol ∷ VirtualKey.rcontrol ∷ VirtualKey.control ∷ []

abbrev alt_keys : List VirtualKey
alt_keys = VirtualKey.lmenu ∷ VirtualKey.rmenu ∷ VirtualKey.menu ∷ []

abbrev super_keys : List VirtualKey
super_keys = VirtualKey.lwin ∷ VirtualKey.rwin ∷ []

abbrev caps_keys : List VirtualKey
caps_keys = VirtualKey.capital ∷ []

abbrev num_keys : List VirtualKey
num_keys = VirtualKey.numlock ∷ []

module _ (value : VirtualKey → ℕ) (inj : IsInjective value) where
  differs :
      (name key : VirtualKey)
      → (class_of name == class_of key) ≡ false
      → (value name == value key) ≡ false
  differs name key apart = elim (Bool-cases (value name == value key)) [
    | inr e ↦ e
    | inl e ↦
        let same : name ≡ key = inj name key ((==_iff (value name) (value key)).0 e) in
        let equal = (==_iff (class_of name) (class_of key)).1 (ap class_of same) in absurd (cc)
  ]

  absent :
      (names : List VirtualKey) (key : VirtualKey)
      → All (λ name. (class_of name == class_of key) ≡ false) names
      → is_one_of value names (value key) ≡ false
  unfolding is_one_of
  absent [] key far = refl
  absent (name ∷ names) key far = rw (differs name key far.0, absent names key far.1) refl

  present :
      (names : List VirtualKey) (i : ℕ) (key : VirtualKey)
      → get_elem? names i ≡ some key
      → is_one_of value names (value key) ≡ true
  unfolding is_one_of
  present [] i key h = absurd (cc)
  present (name ∷ names) zero key h =
      let same : name ≡ key = cc in
      let equal = (==_iff (value name) (value key)).1 (ap value same) in rw equal refl
  present (name ∷ names) (suc i) key h = elim (Bool-cases (value name == value key)) [
    | inl e ↦ rw e refl
    | inr e ↦ rw e (present names i key h)
  ]

  unlisted :
      (key : VirtualKey)
      → class_of key ≡ 0
      → modifier_of key ≡ none
      → flag_of value (value key) ≡ modifier_of key
  unfolding flag_of class_of
  unlisted key other ordinary =
      rw
        (
          absent shift_keys key (rw other refl, (rw other refl, (rw other refl, tt))),
          absent ctrl_keys key (rw other refl, (rw other refl, (rw other refl, tt))),
          absent alt_keys key (rw other refl, (rw other refl, (rw other refl, tt))),
          absent super_keys key (rw other refl, (rw other refl, tt)),
          absent caps_keys key (rw other refl, tt),
          absent num_keys key (rw other refl, tt),
        )
        (sym ordinary)

  -- The table of `update_modifiers` gives a key the modifier that it is.
  pub flag_of-modifier_of : (key : VirtualKey) → flag_of value (value key) ≡ modifier_of key
  unfolding flag_of modifier_of class_of
  flag_of-modifier_of VirtualKey.lshift = rw (present shift_keys 0 VirtualKey.lshift refl) refl
  flag_of-modifier_of VirtualKey.rshift = rw (present shift_keys 1 VirtualKey.rshift refl) refl
  flag_of-modifier_of VirtualKey.shift = rw (present shift_keys 2 VirtualKey.shift refl) refl
  flag_of-modifier_of VirtualKey.lcontrol =
      rw
        (
          absent shift_keys VirtualKey.lcontrol (refl, (refl, (refl, tt))),
          present ctrl_keys 0 VirtualKey.lcontrol refl,
        )
        refl
  flag_of-modifier_of VirtualKey.rcontrol =
      rw
        (
          absent shift_keys VirtualKey.rcontrol (refl, (refl, (refl, tt))),
          present ctrl_keys 1 VirtualKey.rcontrol refl,
        )
        refl
  flag_of-modifier_of VirtualKey.control =
      rw
        (
          absent shift_keys VirtualKey.control (refl, (refl, (refl, tt))),
          present ctrl_keys 2 VirtualKey.control refl,
        )
        refl
  flag_of-modifier_of VirtualKey.lmenu =
      rw
        (
          absent shift_keys VirtualKey.lmenu (refl, (refl, (refl, tt))),
          absent ctrl_keys VirtualKey.lmenu (refl, (refl, (refl, tt))),
          present alt_keys 0 VirtualKey.lmenu refl,
        )
        refl
  flag_of-modifier_of VirtualKey.rmenu =
      rw
        (
          absent shift_keys VirtualKey.rmenu (refl, (refl, (refl, tt))),
          absent ctrl_keys VirtualKey.rmenu (refl, (refl, (refl, tt))),
          present alt_keys 1 VirtualKey.rmenu refl,
        )
        refl
  flag_of-modifier_of VirtualKey.menu =
      rw
        (
          absent shift_keys VirtualKey.menu (refl, (refl, (refl, tt))),
          absent ctrl_keys VirtualKey.menu (refl, (refl, (refl, tt))),
          present alt_keys 2 VirtualKey.menu refl,
        )
        refl
  flag_of-modifier_of VirtualKey.lwin =
      rw
        (
          absent shift_keys VirtualKey.lwin (refl, (refl, (refl, tt))),
          absent ctrl_keys VirtualKey.lwin (refl, (refl, (refl, tt))),
          absent alt_keys VirtualKey.lwin (refl, (refl, (refl, tt))),
          present super_keys 0 VirtualKey.lwin refl,
        )
        refl
  flag_of-modifier_of VirtualKey.rwin =
      rw
        (
          absent shift_keys VirtualKey.rwin (refl, (refl, (refl, tt))),
          absent ctrl_keys VirtualKey.rwin (refl, (refl, (refl, tt))),
          absent alt_keys VirtualKey.rwin (refl, (refl, (refl, tt))),
          present super_keys 1 VirtualKey.rwin refl,
        )
        refl
  flag_of-modifier_of VirtualKey.capital =
      rw
        (
          absent shift_keys VirtualKey.capital (refl, (refl, (refl, tt))),
          absent ctrl_keys VirtualKey.capital (refl, (refl, (refl, tt))),
          absent alt_keys VirtualKey.capital (refl, (refl, (refl, tt))),
          absent super_keys VirtualKey.capital (refl, (refl, tt)),
          present caps_keys 0 VirtualKey.capital refl,
        )
        refl
  flag_of-modifier_of VirtualKey.numlock =
      rw
        (
          absent shift_keys VirtualKey.numlock (refl, (refl, (refl, tt))),
          absent ctrl_keys VirtualKey.numlock (refl, (refl, (refl, tt))),
          absent alt_keys VirtualKey.numlock (refl, (refl, (refl, tt))),
          absent super_keys VirtualKey.numlock (refl, (refl, tt)),
          absent caps_keys VirtualKey.numlock (refl, tt),
          present num_keys 0 VirtualKey.numlock refl,
        )
        refl
  flag_of-modifier_of _ = unlisted _ refl refl
