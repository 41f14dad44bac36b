-- ===== src/Tests/VirtualKeys.antt =====
-- Values for the constants of the windows crate.
pub mod Injective
use my_deskflow.Prelude.{ℕ}
use my_deskflow.Platform.WindowsKeymap.{VirtualKey}

abbrev pub value : VirtualKey → ℕ
value VirtualKey.a = 65
value VirtualKey.b = 66
value VirtualKey.c = 67
value VirtualKey.d = 68
value VirtualKey.e = 69
value VirtualKey.f = 70
value VirtualKey.g = 71
value VirtualKey.h = 72
value VirtualKey.i = 73
value VirtualKey.j = 74
value VirtualKey.k = 75
value VirtualKey.l = 76
value VirtualKey.m = 77
value VirtualKey.n = 78
value VirtualKey.o = 79
value VirtualKey.p = 80
value VirtualKey.q = 81
value VirtualKey.r = 82
value VirtualKey.s = 83
value VirtualKey.t = 84
value VirtualKey.u = 85
value VirtualKey.v = 86
value VirtualKey.w = 87
value VirtualKey.x = 88
value VirtualKey.y = 89
value VirtualKey.z = 90
value VirtualKey.digit0 = 48
value VirtualKey.digit1 = 49
value VirtualKey.digit2 = 50
value VirtualKey.digit3 = 51
value VirtualKey.digit4 = 52
value VirtualKey.digit5 = 53
value VirtualKey.digit6 = 54
value VirtualKey.digit7 = 55
value VirtualKey.digit8 = 56
value VirtualKey.digit9 = 57
value VirtualKey.return = 13
value VirtualKey.escape = 27
value VirtualKey.back = 8
value VirtualKey.tab = 9
value VirtualKey.space = 32
value VirtualKey.oem_minus = 189
value VirtualKey.oem_plus = 187
value VirtualKey.oem_4 = 219
value VirtualKey.oem_6 = 221
value VirtualKey.oem_5 = 220
value VirtualKey.oem_1 = 186
value VirtualKey.oem_7 = 222
value VirtualKey.oem_3 = 192
value VirtualKey.oem_comma = 188
value VirtualKey.oem_period = 190
value VirtualKey.oem_2 = 191
value VirtualKey.capital = 20
value VirtualKey.f1 = 112
value VirtualKey.f2 = 113
value VirtualKey.f3 = 114
value VirtualKey.f4 = 115
value VirtualKey.f5 = 116
value VirtualKey.f6 = 117
value VirtualKey.f7 = 118
value VirtualKey.f8 = 119
value VirtualKey.f9 = 120
value VirtualKey.f10 = 121
value VirtualKey.f11 = 122
value VirtualKey.f12 = 123
value VirtualKey.snapshot = 44
value VirtualKey.scroll = 145
value VirtualKey.pause = 19
value VirtualKey.insert = 45
value VirtualKey.home = 36
value VirtualKey.prior = 33
value VirtualKey.delete = 46
value VirtualKey.end = 35
value VirtualKey.next = 34
value VirtualKey.right = 39
value VirtualKey.left = 37
value VirtualKey.down = 40
value VirtualKey.up = 38
value VirtualKey.lcontrol = 162
value VirtualKey.lshift = 160
value VirtualKey.lmenu = 164
value VirtualKey.lwin = 91
value VirtualKey.rcontrol = 163
value VirtualKey.rshift = 161
value VirtualKey.rmenu = 165
value VirtualKey.rwin = 92
value VirtualKey.shift = 16
value VirtualKey.control = 17
value VirtualKey.menu = 18
value VirtualKey.numlock = 144
