-- ===== src/Platform/WindowsKeymap/RoundTrip.antt =====
-- The two translations of crates/platform/src/windows/keymap.rs against one another.
use my_deskflow.Prelude.{
  ℕ, ◌≡◌, ◌≢◌, refl, subst, arith, some, List, [], ◌∷◌, ◌==◌, if◌then◌else◌, Bool-cases, ◌∙◌, inl,
  inr, ==_iff, All,
}
use my_deskflow.Core.Event.{KeyCode}
use my_deskflow.Platform.WindowsKeymap.{VirtualKey, arms, match_arm, vk_to_keycode, keycode_to_vk}

VirtualKey-discrete : Discrete VirtualKey
VirtualKey-discrete = hlevel

-- Different constants have different values.
abbrev pub IsInjective : (VirtualKey → ℕ) → Type 0
IsInjective value = (vk vk' : VirtualKey) → value vk ≡ value vk' → vk ≡ vk'

find_name : List (VirtualKey × KeyCode) → VirtualKey → KeyCode
find_name [] vk = KeyCode.unknown
find_name ((name, code) ∷ rest) vk = elim (VirtualKey-discrete name vk) [
  | yes _ ↦ code
  | no _ ↦ find_name rest vk
]

match_arm-eq-find_name :
    (value : VirtualKey → ℕ)
    → IsInjective value
    → (rows : List (VirtualKey × KeyCode)) (vk : VirtualKey)
    → match_arm value rows (value vk) ≡ find_name rows vk
unfolding match_arm find_name
match_arm-eq-find_name value inj [] vk = refl
match_arm-eq-find_name value inj ((name, code) ∷ rest) vk =
    let ih = match_arm-eq-find_name value inj rest vk in
    elim (VirtualKey-discrete name vk)
      as (λ decided.
        (if value name == value vk then code else match_arm value rest (value vk))
        ≡ elim decided [ yes _ ↦ code | no _ ↦ find_name rest vk ]) [
          | yes same ↦ rw same (ground arith)
          | no other ↦ elim (Bool-cases (value name == value vk)) [
            | inl clash ↦ absurd (other (inj name vk ((==_iff _ _).0 clash)))
            | inr apart ↦ rw apart ih
          ]
        ]

named :
    {key : KeyCode} {name vk : VirtualKey}
    → some name ≡ some vk
    → find_name arms name ≡ key
    → find_name arms vk ≡ key
named {key} h found = subst (λ n. find_name arms n ≡ key) (cc) found

find_name-keycode_to_vk :
    (key : KeyCode) (vk : VirtualKey) → keycode_to_vk key ≡ some vk → find_name arms vk ≡ key
unfolding find_name keycode_to_vk VirtualKey-discrete
find_name-keycode_to_vk KeyCode.unknown vk h = cc
find_name-keycode_to_vk KeyCode.a vk h = named h refl
find_name-keycode_to_vk _ vk h = named h refl

match_arm-back :
    (value : VirtualKey → ℕ) (rows : List (VirtualKey × KeyCode)) (n : ℕ)
    → All (λ row. keycode_to_vk row.1 ≡ some row.0) rows
    → match_arm value rows n ≢ KeyCode.unknown
    → (vk : VirtualKey) × (keycode_to_vk (match_arm value rows n) ≡ some vk) × (value vk ≡ n)
unfolding match_arm
match_arm-back value [] n back known = absurd (known refl)
match_arm-back value ((name, code) ∷ rest) n back known = elim (Bool-cases (value name == n)) [
  | inl hit ↦ (name, rw hit back.0, (==_iff _ _).0 hit)
  | inr miss ↦ rw miss (match_arm-back value rest n back.1 (rw miss at known))
]

arms_back : All (λ row. keycode_to_vk row.1 ≡ some row.0) arms
unfolding keycode_to_vk
arms_back = ground arith

-- The two tables are inverse to one another, if different constants have different values: a key
-- code with a virtual key is what that key's value is read as, and a value that is read as a known
-- key code is that of the virtual key which the code is written as.
pub keycode_to_vk-vk_to_keycode :
    (value : VirtualKey → ℕ)
    → IsInjective value
    → ((key : KeyCode) (vk : VirtualKey)
        → keycode_to_vk key ≡ some vk
        → vk_to_keycode value (value vk) ≡ key)
      × ((n : ℕ)
          → vk_to_keycode value n ≢ KeyCode.unknown
          → (vk : VirtualKey) × (keycode_to_vk (vk_to_keycode value n) ≡ some vk) × (value vk ≡ n))
unfolding vk_to_keycode
keycode_to_vk-vk_to_keycode value inj = (
  λ key vk h. match_arm-eq-find_name value inj arms vk ∙ find_name-keycode_to_vk key vk h,
  λ n known. match_arm-back value arms n arms_back known,
)
