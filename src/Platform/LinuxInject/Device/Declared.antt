-- ===== src/Platform/LinuxInject/Device/Declared.antt =====
-- Every evdev event that `inject` of crates/platform/src/linux/inject.rs writes is one that `new`
-- declared on the device.
use my_deskflow.Prelude.{
  ℕ, ◌≡◌, refl, sym, subst, ap, ◌∙◌, true, ◌&&◌, Bool-cases, ◌⊎◌, inl, inr, List, [], ◌∷◌, All,
  if◌then◌else◌,
}
use my_deskflow.Core.Error.{
  ok-inj, Error, Result, ok, err, ◌>>=◌, map_err, platform, bind_inversion, Result-cases,
}
use my_deskflow.Core.Screen.{Point}
use my_deskflow.Core.Event.{InputEvent}
use my_deskflow.Platform.LinuxInject.{
  EvdevEvent, key_event_raw, rel_event, syn, RelativeAxis, x_axis, y_axis, vertical_wheel,
  vertical_wheel_hi_res, horizontal_wheel, horizontal_wheel_hi_res, inject_batch,
  release_all_modifiers,
}
use my_deskflow.Platform.LinuxInject.Device.{
  UInput, LinuxInject, buttons, axes, is_ok, enable_keys, enable_button, enable_buttons,
  enable_axes, enable_kinds, EventKind, relative, synchronize, Done, device, with_axes,
  create_device, new, open_error,
}

-- The list has the code.
abbrev pub Has : ℕ → List ℕ → Type 0
Has k [] = ⊥
Has k (j ∷ js) = (j ≡ k) ⊎ Has k js

-- Every key of the keyboard that the kernel takes, and every mouse button.
abbrev pub IsOffered : UInput → ℕ → Type 0
IsOffered u k =
    (Has k u.keys × (u.is_key k ≡ true) × (is_ok (u.set_keybit k) ≡ true))
    ⊎ (Has k buttons × (u.from_code k ≡ true))

skip {ℓ} :
    {A : Type ℓ} (r : Result Error Done) (next : Result Error A) {a : A}
    → (r >>= λ _. next) ≡ ok a
    → next ≡ ok a
skip (ok t) next h = h
skip (err e) next h = absurd (cc)

abbrev pub reverse_onto : List RelativeAxis → List RelativeAxis → List RelativeAxis
reverse_onto [] bits = bits
reverse_onto (a ∷ as') bits = reverse_onto as' (a ∷ bits)

module _ (u : UInput) where
  enable_keys-keeps : (k : ℕ) (ks bits : List ℕ) → Has k bits → Has k (enable_keys u ks bits)
  unfolding enable_keys
  enable_keys-keeps k [] bits h = h
  enable_keys-keeps k (j ∷ js) bits h =
      enable_keys-keeps k js (if u.is_key j && is_ok (u.set_keybit j) then j ∷ bits else bits)
        (elim (Bool-cases (u.is_key j && is_ok (u.set_keybit j))) [
          | inl e ↦ rw e (inr h)
          | inr e ↦ rw e h
        ])

  enable_keys-Has :
      (k : ℕ) (ks bits : List ℕ)
      → u.is_key k ≡ true
      → is_ok (u.set_keybit k) ≡ true
      → Has k ks
      → Has k (enable_keys u ks bits)
  unfolding enable_keys
  enable_keys-Has k [] bits p q h = absurd h
  enable_keys-Has k (j ∷ js) bits p q (inl e) =
      rw e (rw (p, q) (enable_keys-keeps k js (k ∷ bits) (inl refl)))
  enable_keys-Has k (j ∷ js) bits p q (inr h) =
      enable_keys-Has k js (if u.is_key j && is_ok (u.set_keybit j) then j ∷ bits else bits) p q h

  enable_button-Has :
      (k b : ℕ) (bits mid : List ℕ)
      → enable_button u b bits ≡ ok mid
      → (Has k bits → Has k mid) × (b ≡ k → u.from_code k ≡ true → Has k mid)
  unfolding enable_button
  enable_button-Has k b bits mid e = elim (Bool-cases (u.from_code b)) [
    | inr no_code ↦
        let same = rw no_code at e in
        (
          λ h. subst (Has k) (ok-inj same) h,
          λ named known. absurd (let bad = rw named at no_code in cc),
        )
    | inl code ↦ elim (Result-cases (u.set_keybit b)) [
      | inl (t, taken) ↦
          let more = rw (code, taken) at e in
          (
            λ h. subst (Has k) (ok-inj more) (inr h),
            λ named known. subst (Has k) (ok-inj more) (inl named),
          )
      | inr (x, refused) ↦ absurd (let bad = rw (code, refused) at e in cc)
    ]
  ]

  -- A button that the crate knows is taken, or the loop fails.
  enable_buttons-Has :
      (k : ℕ) (bs bits out : List ℕ)
      → enable_buttons u bs bits ≡ ok out
      → Has k bits ⊎ (Has k bs × (u.from_code k ≡ true))
      → Has k out
  unfolding enable_buttons
  enable_buttons-Has k [] bits out e (inl h) = subst (Has k) (ok-inj e) h
  enable_buttons-Has k [] bits out e (inr h) = absurd h.0
  enable_buttons-Has k (b ∷ bs) bits out e h =
      let (mid, first, rest) = bind_inversion (enable_button u b bits) (enable_buttons u bs) e in
      let kept = enable_button-Has k b bits mid first in
      enable_buttons-Has k bs mid out rest (sorted mid kept h)
    where
      sorted :
          (mid : List ℕ)
          → (Has k bits → Has k mid) × (b ≡ k → u.from_code k ≡ true → Has k mid)
          → Has k bits ⊎ (Has k (b ∷ bs) × (u.from_code k ≡ true))
          → Has k mid ⊎ (Has k bs × (u.from_code k ≡ true))
      sorted mid kept (inl before) = inl (kept.0 before)
      sorted mid kept (inr (inl now, known)) = inl (kept.1 now known)
      sorted mid kept (inr (inr later, known)) = inr (later, known)

  -- All six axes are taken, or the loop fails.
  enable_axes-all :
      (as' bits out : List RelativeAxis)
      → enable_axes u as' bits ≡ ok out
      → out ≡ reverse_onto as' bits
  unfolding enable_axes
  enable_axes-all [] bits out e = sym (ok-inj e)
  enable_axes-all (a ∷ as') bits out e =
      let (t, taken, rest) =
        bind_inversion (map_err platform (u.set_relbit a)) (λ _. enable_axes u as' (a ∷ bits)) e in
      enable_axes-all as' (a ∷ bits) out rest

  with_axes-ok :
      (keybits : List ℕ) (dev : LinuxInject)
      → with_axes u keybits ≡ ok dev
      → (relbits : List RelativeAxis) × (enable_axes u axes [] ≡ ok relbits)
        × (device keybits relbits ≡ dev)
  unfolding with_axes
  with_axes-ok keybits dev e =
      let (relbits, taken, same) =
        bind_inversion (enable_axes u axes []) (λ relbits. ok (device keybits relbits)) e in
      (relbits, taken, ok-inj same)

  create_device-ok : (dev out : LinuxInject) → create_device u dev ≡ ok out → dev ≡ out
  unfolding create_device
  create_device-ok dev out e = ok-inj (skip (map_err platform u.create) _ e)

  -- What a successful creation declares.
  new-declares :
      (dev : LinuxInject)
      → new u ≡ ok dev
      → ((k : ℕ) → IsOffered u k → Has k dev.keybits) × (dev.relbits ≡ reverse_onto axes [])
  unfolding new
  new-declares dev e =
      let e0 = skip (map_err open_error u.open_file) _ e in
      let e1 = skip (enable_kinds u (EventKind.key ∷ relative ∷ synchronize ∷ [])) _ e0 in
      let (dev', bits, e2) =
        bind_inversion (enable_buttons u buttons (enable_keys u u.keys []) >>= with_axes u)
          (create_device u) e1 in
      let (keybits, b, e3) =
        bind_inversion (enable_buttons u buttons (enable_keys u u.keys [])) (with_axes u) bits in
      let (relbits, a, same) = with_axes-ok keybits dev' e3 in
      let kept = create_device-ok dev' dev e2 in
      (
        λ k offered.
            subst (λ (d : LinuxInject). Has k d.keybits) (same ∙ kept)
              (enable_buttons-Has k buttons (enable_keys u u.keys []) keybits b
                (arranged k offered)),
        ap (λ (d : LinuxInject). d.relbits) (sym (same ∙ kept)) ∙ enable_axes-all axes [] relbits a,
      )
    where
      arranged :
          (k : ℕ)
          → IsOffered u k
          → Has k (enable_keys u u.keys []) ⊎ (Has k buttons × (u.from_code k ≡ true))
      arranged k (inl (listed, keyed, taken)) = inl (enable_keys-Has k u.keys [] keyed taken listed)
      arranged k (inr known) = inr known

abbrev pub HasAxis : RelativeAxis → List RelativeAxis → Type 0
HasAxis a [] = ⊥
HasAxis a (b ∷ bs) = (b ≡ a) ⊎ HasAxis a bs

-- The device can emit the event: its axis is declared, or its key is, if the kernel takes it.
abbrev pub IsDeclared : UInput → LinuxInject → EvdevEvent → Type 0
IsDeclared u dev syn = Unit
IsDeclared u dev (rel_event a v) = HasAxis a dev.relbits
IsDeclared u dev (key_event_raw k v) = IsOffered u k → Has k dev.keybits

every_axis : (a : RelativeAxis) → HasAxis a (reverse_onto axes [])
every_axis horizontal_wheel_hi_res = inl refl
every_axis vertical_wheel_hi_res = inr (inl refl)
every_axis horizontal_wheel = inr (inr (inl refl))
every_axis vertical_wheel = inr (inr (inr (inl refl)))
every_axis y_axis = inr (inr (inr (inr (inl refl))))
every_axis x_axis = inr (inr (inr (inr (inr (inl refl)))))

module _ (u : UInput) (dev : LinuxInject) (made : new u ≡ ok dev) where
  declared : (ev : EvdevEvent) → IsDeclared u dev ev
  declared syn = tt
  declared (rel_event a v) = subst (HasAxis a) (sym (new-declares u dev made).1) (every_axis a)
  declared (key_event_raw k v) = (new-declares u dev made).0 k

  All-IsDeclared : (evs : List EvdevEvent) → All (IsDeclared u dev) evs
  All-IsDeclared [] = tt
  All-IsDeclared (ev ∷ evs) = (declared ev, All-IsDeclared evs)

  -- A device that is created can emit whatever `inject` writes for an event and whatever
  -- `release_all_modifiers` writes: every axis was declared, every mouse button that the crate knows,
  -- and every key that the crate lists and the kernel takes.
  pub new-IsDeclared :
      (last : Point) (e : InputEvent)
      → All (IsDeclared u dev) (inject_batch last e).batch
        × All (IsDeclared u dev) release_all_modifiers
  new-IsDeclared last e =
      (All-IsDeclared (inject_batch last e).batch, All-IsDeclared release_all_modifiers)
