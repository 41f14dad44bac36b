-- ===== src/Platform/WindowsKeymap.antt =====
-- crates/platform/src/windows/keymap.rs: virtual key codes and key codes. The constants `VK_…` of the
-- windows crate go by their names; their values are a parameter, `value`.
pub mod RoundTrip
use my_deskflow.Prelude.{ℕ, Option, none, some, List, [], ◌∷◌, ◌==◌, if◌then◌else◌}
use my_deskflow.Core.Event.{KeyCode}

-- The constants that the backend names.
pub data VirtualKey : Type 0 where
  a b c d e f g h i j k l m n o p q r s t u v w x y z digit0 digit1 digit2 : VirtualKey
  digit3 digit4 digit5 digit6 digit7 digit8 digit9 return escape back tab : VirtualKey
  space oem_minus oem_plus oem_4 oem_6 oem_5 oem_1 oem_7 oem_3 oem_comma : VirtualKey
  oem_period oem_2 capital f1 f2 f3 f4 f5 f6 f7 f8 f9 f10 f11 f12 snapshot : VirtualKey
  scroll pause insert home prior delete end next right left down up lcontrol : VirtualKey
  lshift lmenu lwin rcontrol rshift rmenu rwin shift control menu numlock : VirtualKey

-- The arms of the match of `vk_to_keycode`, in their order.
abbrev pub arms : List (VirtualKey × KeyCode)
arms =
    (VirtualKey.a, KeyCode.a)
    ∷ (VirtualKey.b, KeyCode.b)
    ∷ (VirtualKey.c, KeyCode.c)
    ∷ (VirtualKey.d, KeyCode.d)
    ∷ (VirtualKey.e, KeyCode.e)
    ∷ (VirtualKey.f, KeyCode.f)
    ∷ (VirtualKey.g, KeyCode.g)
    ∷ (VirtualKey.h, KeyCode.h)
    ∷ (VirtualKey.i, KeyCode.i)
    ∷ (VirtualKey.j, KeyCode.j)
    ∷ (VirtualKey.k, KeyCode.k)
    ∷ (VirtualKey.l, KeyCode.l)
    ∷ (VirtualKey.m, KeyCode.m)
    ∷ (VirtualKey.n, KeyCode.n)
    ∷ (VirtualKey.o, KeyCode.o)
    ∷ (VirtualKey.p, KeyCode.p)
    ∷ (VirtualKey.q, KeyCode.q)
    ∷ (VirtualKey.r, KeyCode.r)
    ∷ (VirtualKey.s, KeyCode.s)
    ∷ (VirtualKey.t, KeyCode.t)
    ∷ (VirtualKey.u, KeyCode.u)
    ∷ (VirtualKey.v, KeyCode.v)
    ∷ (VirtualKey.w, KeyCode.w)
    ∷ (VirtualKey.x, KeyCode.x)
    ∷ (VirtualKey.y, KeyCode.y)
    ∷ (VirtualKey.z, KeyCode.z)
    ∷ (VirtualKey.digit0, KeyCode.num0)
    ∷ (VirtualKey.digit1, KeyCode.num1)
    ∷ (VirtualKey.digit2, KeyCode.num2)
    ∷ (VirtualKey.digit3, KeyCode.num3)
    ∷ (VirtualKey.digit4, KeyCode.num4)
    ∷ (VirtualKey.digit5, KeyCode.num5)
    ∷ (VirtualKey.digit6, KeyCode.num6)
    ∷ (VirtualKey.digit7, KeyCode.num7)
    ∷ (VirtualKey.digit8, KeyCode.num8)
    ∷ (VirtualKey.digit9, KeyCode.num9)
    ∷ (VirtualKey.return, KeyCode.enter)
    ∷ (VirtualKey.escape, KeyCode.escape)
    ∷ (VirtualKey.back, KeyCode.backspace)
    ∷ (VirtualKey.tab, KeyCode.tab)
    ∷ (VirtualKey.space, KeyCode.space)
    ∷ (VirtualKey.oem_minus, KeyCode.minus)
    ∷ (VirtualKey.oem_plus, KeyCode.equals)
    ∷ (VirtualKey.oem_4, KeyCode.left_bracket)
    ∷ (VirtualKey.oem_6, KeyCode.right_bracket)
    ∷ (VirtualKey.oem_5, KeyCode.backslash)
    ∷ (VirtualKey.oem_1, KeyCode.semicolon)
    ∷ (VirtualKey.oem_7, KeyCode.apostrophe)
    ∷ (VirtualKey.oem_3, KeyCode.grave)
    ∷ (VirtualKey.oem_comma, KeyCode.comma)
    ∷ (VirtualKey.oem_period, KeyCode.period)
    ∷ (VirtualKey.oem_2, KeyCode.slash)
    ∷ (VirtualKey.capital, KeyCode.caps_lock)
    ∷ (VirtualKey.f1, KeyCode.f1)
    ∷ (VirtualKey.f2, KeyCode.f2)
    ∷ (VirtualKey.f3, KeyCode.f3)
    ∷ (VirtualKey.f4, KeyCode.f4)
    ∷ (VirtualKey.f5, KeyCode.f5)
    ∷ (VirtualKey.f6, KeyCode.f6)
    ∷ (VirtualKey.f7, KeyCode.f7)
    ∷ (VirtualKey.f8, KeyCode.f8)
    ∷ (VirtualKey.f9, KeyCode.f9)
    ∷ (VirtualKey.f10, KeyCode.f10)
    ∷ (VirtualKey.f11, KeyCode.f11)
    ∷ (VirtualKey.f12, KeyCode.f12)
    ∷ (VirtualKey.snapshot, KeyCode.print_screen)
    ∷ (VirtualKey.scroll, KeyCode.scroll_lock)
    ∷ (VirtualKey.pause, KeyCode.pause)
    ∷ (VirtualKey.insert, KeyCode.insert)
    ∷ (VirtualKey.home, KeyCode.home)
    ∷ (VirtualKey.prior, KeyCode.page_up)
    ∷ (VirtualKey.delete, KeyCode.delete)
    ∷ (VirtualKey.end, KeyCode.end)
    ∷ (VirtualKey.next, KeyCode.page_down)
    ∷ (VirtualKey.right, KeyCode.arrow_right)
    ∷ (VirtualKey.left, KeyCode.arrow_left)
    ∷ (VirtualKey.down, KeyCode.arrow_down)
    ∷ (VirtualKey.up, KeyCode.arrow_up)
    ∷ (VirtualKey.lcontrol, KeyCode.left_ctrl)
    ∷ (VirtualKey.lshift, KeyCode.left_shift)
    ∷ (VirtualKey.lmenu, KeyCode.left_alt)
    ∷ (VirtualKey.lwin, KeyCode.left_super)
    ∷ (VirtualKey.rcontrol, KeyCode.right_ctrl)
    ∷ (VirtualKey.rshift, KeyCode.right_shift)
    ∷ (VirtualKey.rmenu, KeyCode.right_alt)
    ∷ (VirtualKey.rwin, KeyCode.right_super)
    ∷ []

-- A match tries its arms one after the other.
pub match_arm : (VirtualKey → ℕ) → List (VirtualKey × KeyCode) → ℕ → KeyCode
match_arm value [] vk = KeyCode.unknown
match_arm value ((name, code) ∷ rest) vk =
    if value name == vk then code else match_arm value rest vk

unfoldable pub vk_to_keycode : (VirtualKey → ℕ) → ℕ → KeyCode
unfolding match_arm
vk_to_keycode value vk = match_arm value arms vk

unfoldable pub keycode_to_vk : KeyCode → Option VirtualKey
keycode_to_vk KeyCode.a = some VirtualKey.a
keycode_to_vk KeyCode.b = some VirtualKey.b
keycode_to_vk KeyCode.c = some VirtualKey.c
keycode_to_vk KeyCode.d = some VirtualKey.d
keycode_to_vk KeyCode.e = some VirtualKey.e
keycode_to_vk KeyCode.f = some VirtualKey.f
keycode_to_vk KeyCode.g = some VirtualKey.g
keycode_to_vk KeyCode.h = some VirtualKey.h
keycode_to_vk KeyCode.i = some VirtualKey.i
keycode_to_vk KeyCode.j = some VirtualKey.j
keycode_to_vk KeyCode.k = some VirtualKey.k
keycode_to_vk KeyCode.l = some VirtualKey.l
keycode_to_vk KeyCode.m = some VirtualKey.m
keycode_to_vk KeyCode.n = some VirtualKey.n
keycode_to_vk KeyCode.o = some VirtualKey.o
keycode_to_vk KeyCode.p = some VirtualKey.p
keycode_to_vk KeyCode.q = some VirtualKey.q
keycode_to_vk KeyCode.r = some VirtualKey.r
keycode_to_vk KeyCode.s = some VirtualKey.s
keycode_to_vk KeyCode.t = some VirtualKey.t
keycode_to_vk KeyCode.u = some VirtualKey.u
keycode_to_vk KeyCode.v = some VirtualKey.v
keycode_to_vk KeyCode.w = some VirtualKey.w
keycode_to_vk KeyCode.x = some VirtualKey.x
keycode_to_vk KeyCode.y = some VirtualKey.y
keycode_to_vk KeyCode.z = some VirtualKey.z
keycode_to_vk KeyCode.num0 = some VirtualKey.digit0
keycode_to_vk KeyCode.num1 = some VirtualKey.digit1
keycode_to_vk KeyCode.num2 = some VirtualKey.digit2
keycode_to_vk KeyCode.num3 = some VirtualKey.digit3
keycode_to_vk KeyCode.num4 = some VirtualKey.digit4
keycode_to_vk KeyCode.num5 = some VirtualKey.digit5
keycode_to_vk KeyCode.num6 = some VirtualKey.digit6
keycode_to_vk KeyCode.num7 = some VirtualKey.digit7
keycode_to_vk KeyCode.num8 = some VirtualKey.digit8
keycode_to_vk KeyCode.num9 = some VirtualKey.digit9
keycode_to_vk KeyCode.enter = some VirtualKey.return
keycode_to_vk KeyCode.escape = some VirtualKey.escape
keycode_to_vk KeyCode.backspace = some VirtualKey.back
keycode_to_vk KeyCode.tab = some VirtualKey.tab
keycode_to_vk KeyCode.space = some VirtualKey.space
keycode_to_vk KeyCode.minus = some VirtualKey.oem_minus
keycode_to_vk KeyCode.equals = some VirtualKey.oem_plus
keycode_to_vk KeyCode.left_bracket = some VirtualKey.oem_4
keycode_to_vk KeyCode.right_bracket = some VirtualKey.oem_6
keycode_to_vk KeyCode.backslash = some VirtualKey.oem_5
keycode_to_vk KeyCode.semicolon = some VirtualKey.oem_1
keycode_to_vk KeyCode.apostrophe = some VirtualKey.oem_7
keycode_to_vk KeyCode.grave = some VirtualKey.oem_3
keycode_to_vk KeyCode.comma = some VirtualKey.oem_comma
keycode_to_vk KeyCode.period = some VirtualKey.oem_period
keycode_to_vk KeyCode.slash = some VirtualKey.oem_2
keycode_to_vk KeyCode.caps_lock = some VirtualKey.capital
keycode_to_vk KeyCode.f1 = some VirtualKey.f1
keycode_to_vk KeyCode.f2 = some VirtualKey.f2
keycode_to_vk KeyCode.f3 = some VirtualKey.f3
keycode_to_vk KeyCode.f4 = some VirtualKey.f4
keycode_to_vk KeyCode.f5 = some VirtualKey.f5
keycode_to_vk KeyCode.f6 = some VirtualKey.f6
keycode_to_vk KeyCode.f7 = some VirtualKey.f7
keycode_to_vk KeyCode.f8 = some VirtualKey.f8
keycode_to_vk KeyCode.f9 = some VirtualKey.f9
keycode_to_vk KeyCode.f10 = some VirtualKey.f10
keycode_to_vk KeyCode.f11 = some VirtualKey.f11
keycode_to_vk KeyCode.f12 = some VirtualKey.f12
keycode_to_vk KeyCode.print_screen = some VirtualKey.snapshot
keycode_to_vk KeyCode.scroll_lock = some VirtualKey.scroll
keycode_to_vk KeyCode.pause = some VirtualKey.pause
keycode_to_vk KeyCode.insert = some VirtualKey.insert
keycode_to_vk KeyCode.home = some VirtualKey.home
keycode_to_vk KeyCode.page_up = some VirtualKey.prior
keycode_to_vk KeyCode.delete = some VirtualKey.delete
keycode_to_vk KeyCode.end = some VirtualKey.end
keycode_to_vk KeyCode.page_down = some VirtualKey.next
keycode_to_vk KeyCode.arrow_right = some VirtualKey.right
keycode_to_vk KeyCode.arrow_left = some VirtualKey.left
keycode_to_vk KeyCode.arrow_down = some VirtualKey.down
keycode_to_vk KeyCode.arrow_up = some VirtualKey.up
keycode_to_vk KeyCode.left_ctrl = some VirtualKey.lcontrol
keycode_to_vk KeyCode.left_shift = some VirtualKey.lshift
keycode_to_vk KeyCode.left_alt = some VirtualKey.lmenu
keycode_to_vk KeyCode.left_super = some VirtualKey.lwin
keycode_to_vk KeyCode.right_ctrl = some VirtualKey.rcontrol
keycode_to_vk KeyCode.right_shift = some VirtualKey.rshift
keycode_to_vk KeyCode.right_alt = some VirtualKey.rmenu
keycode_to_vk KeyCode.right_super = some VirtualKey.rwin
keycode_to_vk KeyCode.unknown = none
