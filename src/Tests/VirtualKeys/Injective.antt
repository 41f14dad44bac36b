-- ===== src/Tests/VirtualKeys/Injective.antt =====
-- No two of the values are the same: a name is found again from its value.
use my_deskflow.Prelude.{ℕ, ◌≡◌, refl, ap, sym, ◌∙◌, List, [], ◌∷◌, ◌==◌, if◌then◌else◌}
use my_deskflow.Platform.WindowsKeymap.{VirtualKey}
use my_deskflow.Platform.WindowsKeymap.RoundTrip.{IsInjective}
use my_deskflow.Tests.VirtualKeys.{value}

abbrev names : List VirtualKey
names =
    VirtualKey.a ∷ VirtualKey.b ∷ VirtualKey.c ∷ VirtualKey.d ∷ VirtualKey.e ∷ VirtualKey.f
    ∷ VirtualKey.g ∷ VirtualKey.h ∷ VirtualKey.i ∷ VirtualKey.j ∷ VirtualKey.k ∷ VirtualKey.l
    ∷ VirtualKey.m ∷ VirtualKey.n ∷ VirtualKey.o ∷ VirtualKey.p ∷ VirtualKey.q ∷ VirtualKey.r
    ∷ VirtualKey.s ∷ VirtualKey.t ∷ VirtualKey.u ∷ VirtualKey.v ∷ VirtualKey.w ∷ VirtualKey.x
    ∷ VirtualKey.y ∷ VirtualKey.z ∷ VirtualKey.digit0 ∷ VirtualKey.digit1 ∷ VirtualKey.digit2
    ∷ VirtualKey.digit3 ∷ VirtualKey.digit4 ∷ VirtualKey.digit5 ∷ VirtualKey.digit6
    ∷ VirtualKey.digit7 ∷ VirtualKey.digit8 ∷ VirtualKey.digit9 ∷ VirtualKey.return
    ∷ VirtualKey.escape ∷ VirtualKey.back ∷ VirtualKey.tab ∷ VirtualKey.space ∷ VirtualKey.oem_minus
    ∷ VirtualKey.oem_plus ∷ VirtualKey.oem_4 ∷ VirtualKey.oem_6 ∷ VirtualKey.oem_5
    ∷ VirtualKey.oem_1 ∷ VirtualKey.oem_7 ∷ VirtualKey.oem_3 ∷ VirtualKey.oem_comma
    ∷ VirtualKey.oem_period ∷ VirtualKey.oem_2 ∷ VirtualKey.capital ∷ VirtualKey.f1 ∷ VirtualKey.f2
    ∷ VirtualKey.f3 ∷ VirtualKey.f4 ∷ VirtualKey.f5 ∷ VirtualKey.f6 ∷ VirtualKey.f7 ∷ VirtualKey.f8
    ∷ VirtualKey.f9 ∷ VirtualKey.f10 ∷ VirtualKey.f11 ∷ VirtualKey.f12 ∷ VirtualKey.snapshot
    ∷ VirtualKey.scroll ∷ VirtualKey.pause ∷ VirtualKey.insert ∷ VirtualKey.home ∷ VirtualKey.prior
    ∷ VirtualKey.delete ∷ VirtualKey.end ∷ VirtualKey.next ∷ VirtualKey.right ∷ VirtualKey.left
    ∷ VirtualKey.down ∷ VirtualKey.up ∷ VirtualKey.lcontrol ∷ VirtualKey.lshift ∷ VirtualKey.lmenu
    ∷ VirtualKey.lwin ∷ VirtualKey.rcontrol ∷ VirtualKey.rshift ∷ VirtualKey.rmenu ∷ VirtualKey.rwin
    ∷ VirtualKey.shift ∷ VirtualKey.control ∷ VirtualKey.menu ∷ VirtualKey.numlock ∷ []

name_of : List VirtualKey → ℕ → VirtualKey
name_of [] n = VirtualKey.a
name_of (vk ∷ vks) n = let rest = name_of vks n in if value vk == n then vk else rest

name_of-value : (vk : VirtualKey) → name_of names (value vk) ≡ vk
unfolding name_of
name_of-value VirtualKey.a = refl
name_of-value VirtualKey.b = refl
name_of-value VirtualKey.c = refl
name_of-value VirtualKey.d = refl
name_of-value VirtualKey.e = refl
name_of-value VirtualKey.f = refl
name_of-value VirtualKey.g = refl
name_of-value VirtualKey.h = refl
name_of-value VirtualKey.i = refl
name_of-value VirtualKey.j = refl
name_of-value VirtualKey.k = refl
name_of-value VirtualKey.l = refl
name_of-value VirtualKey.m = refl
name_of-value VirtualKey.n = refl
name_of-value VirtualKey.o = refl
name_of-value VirtualKey.p = refl
name_of-value VirtualKey.q = refl
name_of-value VirtualKey.r = refl
name_of-value VirtualKey.s = refl
name_of-value VirtualKey.t = refl
name_of-value VirtualKey.u = refl
name_of-value VirtualKey.v = refl
name_of-value VirtualKey.w = refl
name_of-value VirtualKey.x = refl
name_of-value VirtualKey.y = refl
name_of-value VirtualKey.z = refl
name_of-value VirtualKey.digit0 = refl
name_of-value VirtualKey.digit1 = refl
name_of-value VirtualKey.digit2 = refl
name_of-value VirtualKey.digit3 = refl
name_of-value VirtualKey.digit4 = refl
name_of-value VirtualKey.digit5 = refl
name_of-value VirtualKey.digit6 = refl
name_of-value VirtualKey.digit7 = refl
name_of-value VirtualKey.digit8 = refl
name_of-value VirtualKey.digit9 = refl
name_of-value VirtualKey.return = refl
name_of-value VirtualKey.escape = refl
name_of-value VirtualKey.back = refl
name_of-value VirtualKey.tab = refl
name_of-value VirtualKey.space = refl
name_of-value VirtualKey.oem_minus = refl
name_of-value VirtualKey.oem_plus = refl
name_of-value VirtualKey.oem_4 = refl
name_of-value VirtualKey.oem_6 = refl
name_of-value VirtualKey.oem_5 = refl
name_of-value VirtualKey.oem_1 = refl
name_of-value VirtualKey.oem_7 = refl
name_of-value VirtualKey.oem_3 = refl
name_of-value VirtualKey.oem_comma = refl
name_of-value VirtualKey.oem_period = refl
name_of-value VirtualKey.oem_2 = refl
name_of-value VirtualKey.capital = refl
name_of-value VirtualKey.f1 = refl
name_of-value VirtualKey.f2 = refl
name_of-value VirtualKey.f3 = refl
name_of-value VirtualKey.f4 = refl
name_of-value VirtualKey.f5 = refl
name_of-value VirtualKey.f6 = refl
name_of-value VirtualKey.f7 = refl
name_of-value VirtualKey.f8 = refl
name_of-value VirtualKey.f9 = refl
name_of-value VirtualKey.f10 = refl
name_of-value VirtualKey.f11 = refl
name_of-value VirtualKey.f12 = refl
name_of-value VirtualKey.snapshot = refl
name_of-value VirtualKey.scroll = refl
name_of-value VirtualKey.pause = refl
name_of-value VirtualKey.insert = refl
name_of-value VirtualKey.home = refl
name_of-value VirtualKey.prior = refl
name_of-value VirtualKey.delete = refl
name_of-value VirtualKey.end = refl
name_of-value VirtualKey.next = refl
name_of-value VirtualKey.right = refl
name_of-value VirtualKey.left = refl
name_of-value VirtualKey.down = refl
name_of-value VirtualKey.up = refl
name_of-value VirtualKey.lcontrol = refl
name_of-value VirtualKey.lshift = refl
name_of-value VirtualKey.lmenu = refl
name_of-value VirtualKey.lwin = refl
name_of-value VirtualKey.rcontrol = refl
name_of-value VirtualKey.rshift = refl
name_of-value VirtualKey.rmenu = refl
name_of-value VirtualKey.rwin = refl
name_of-value VirtualKey.shift = refl
name_of-value VirtualKey.control = refl
name_of-value VirtualKey.menu = refl
name_of-value VirtualKey.numlock = refl

pub value-IsInjective : IsInjective value
value-IsInjective vk vk' h = sym (name_of-value vk) ∙ (ap (name_of names) h ∙ name_of-value vk')
