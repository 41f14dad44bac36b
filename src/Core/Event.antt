-- ===== src/Core/Event.antt =====
-- crates/core/src/event.rs: the input events, and the platform-neutral key codes.
use my_deskflow.Prelude.{ℕ, Option}
use my_deskflow.Prelude.Int.{ℤ}
use my_deskflow.Core.Modifiers.{ModifierState}

pub data Button : Type 0 where
  left right middle back forward : Button
  other : ℕ → Button  -- u8

pub record ScrollDelta : Type 0 where
  pub horizontal : ℤ  -- i16
  pub vertical : ℤ  -- i16

pub data KeyState : Type 0 where
  pressed released : KeyState

pub data KeyCode : Type 0 where
  unknown a b c d e f g h i j k l m n o p q r s t u v w x y z num1 num2 num3 num4 : KeyCode
  num5 num6 num7 num8 num9 num0 enter escape backspace tab space minus equals : KeyCode
  left_bracket right_bracket backslash semicolon apostrophe grave comma period : KeyCode
  slash caps_lock f1 f2 f3 f4 f5 f6 f7 f8 f9 f10 f11 f12 print_screen scroll_lock : KeyCode
  pause insert home page_up delete end page_down arrow_right arrow_left : KeyCode
  arrow_down arrow_up left_ctrl left_shift left_alt left_super right_ctrl : KeyCode
  right_shift right_alt right_super : KeyCode

-- `code as u16`: the usage number in the USB HID keyboard page.
unfoldable pub usage : KeyCode → ℕ
usage unknown = 0
usage a = 4
usage b = 5
usage c = 6
usage d = 7
usage e = 8
usage f = 9
usage g = 10
usage h = 11
usage i = 12
usage j = 13
usage k = 14
usage l = 15
usage m = 16
usage n = 17
usage o = 18
usage p = 19
usage q = 20
usage r = 21
usage s = 22
usage t = 23
usage u = 24
usage v = 25
usage w = 26
usage x = 27
usage y = 28
usage z = 29
usage num1 = 30
usage num2 = 31
usage num3 = 32
usage num4 = 33
usage num5 = 34
usage num6 = 35
usage num7 = 36
usage num8 = 37
usage num9 = 38
usage num0 = 39
usage enter = 40
usage escape = 41
usage backspace = 42
usage tab = 43
usage space = 44
usage minus = 45
usage equals = 46
usage left_bracket = 47
usage right_bracket = 48
usage backslash = 49
usage semicolon = 51
usage apostrophe = 52
usage grave = 53
usage comma = 54
usage period = 55
usage slash = 56
usage caps_lock = 57
usage f1 = 58
usage f2 = 59
usage f3 = 60
usage f4 = 61
usage f5 = 62
usage f6 = 63
usage f7 = 64
usage f8 = 65
usage f9 = 66
usage f10 = 67
usage f11 = 68
usage f12 = 69
usage print_screen = 70
usage scroll_lock = 71
usage pause = 72
usage insert = 73
usage home = 74
usage page_up = 75
usage delete = 76
usage end = 77
usage page_down = 78
usage arrow_right = 79
usage arrow_left = 80
usage arrow_down = 81
usage arrow_up = 82
usage left_ctrl = 224
usage left_shift = 225
usage left_alt = 226
usage left_super = 227
usage right_ctrl = 228
usage right_shift = 229
usage right_alt = 230
usage right_super = 231

pub record KeyEvent : Type 0 where
  pub code : KeyCode
  pub state : KeyState
  pub modifiers : ModifierState
  pub character : Option ℕ  -- u32

pub data MouseEvent : Type 0 where
  move : ℤ → ℤ → MouseEvent
  move_relative : ℤ → ℤ → MouseEvent
  button : Button → KeyState → MouseEvent
  scroll : ScrollDelta → MouseEvent

pub data InputEvent : Type 0 where
  mouse : MouseEvent → InputEvent
  key : KeyEvent → InputEvent
  screen_enter : ℤ → ℤ → ModifierState → InputEvent
  screen_leave : ℕ → InputEvent
  modifier_sync : ModifierState → InputEvent
