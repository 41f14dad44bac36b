-- ===== src/Core/Modifiers.antt =====
-- crates/core/src/event.rs, `ModifierState`: the bit set of held modifier keys, a `u16`.
pub mod Laws
use my_deskflow.Prelude.{ℕ, ◌-◌, ◌^◌, Bool, bit_and, bit_or, ◌==◌}

abbrev pub ModifierState : Type 0
ModifierState = ℕ

abbrev pub shift : ModifierState
shift = 0b0000_0001

abbrev pub ctrl : ModifierState
ctrl = 0b0000_0010

abbrev pub alt : ModifierState
alt = 0b0000_0100

abbrev pub super : ModifierState
super = 0b0000_1000

abbrev pub caps_lock : ModifierState
caps_lock = 0b0001_0000

abbrev pub num_lock : ModifierState
num_lock = 0b0010_0000

abbrev pub alt_gr : ModifierState
alt_gr = 0b0100_0000

abbrev pub empty : ModifierState
empty = 0

-- `bitflags`' `contains`, `insert` and `remove`.
unfoldable pub contains : ModifierState → ModifierState → Bool
contains m flag = bit_and m flag == flag

unfoldable pub insert : ModifierState → ModifierState → ModifierState
insert m flag = bit_or m flag

unfoldable pub remove : ModifierState → ModifierState → ModifierState
remove m flag = bit_and m (2 ^ 16 - 1 - flag)
