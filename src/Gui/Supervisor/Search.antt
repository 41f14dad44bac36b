-- ===== src/Gui/Supervisor/Search.antt =====
-- What find_daemon_binary of crates/gui/src/daemon.rs finds.
use my_deskflow.Prelude.{
  String, ◌≡◌, ◌⊎◌, refl, arith, true, Option, none, some, List, [], ◌∷◌, Bool-cases, inl, inr,
}
use my_deskflow.Gui.Supervisor.{
  Places, file_at, or_else, first_file, well_known_paths, find_daemon_binary,
}

first_file-is_file :
    (places : Places) (ps : List String) (p : String)
    → first_file places ps ≡ some p
    → places.is_file p ≡ true
unfolding first_file
first_file-is_file places [] p h = cc
first_file-is_file places (q ∷ qs) p h = elim (Bool-cases (places.is_file q)) [
  | inl here ↦ let same = rw here at h in ground arith
  | inr later ↦ first_file-is_file places qs p (rw later at h)
]

file_at-is_file :
    (places : Places) (o : Option String) (p : String)
    → file_at places o ≡ some p
    → places.is_file p ≡ true
file_at-is_file places none p h = cc
file_at-is_file places (some q) p h = ground arith

or_else-inversion :
    (a b : Option String) (p : String) → or_else a b ≡ some p → (a ≡ some p) ⊎ (b ≡ some p)
or_else-inversion none b p h = inr h
or_else-inversion (some q) b p h = inl h

found :
    (places : Places) (p : String) → find_daemon_binary places ≡ some p → places.is_file p ≡ true
unfolding find_daemon_binary
found places p h =
    let beside = file_at places places.sibling in
    let on_path = file_at places places.found_on_path in
    elim (or_else-inversion (first_file places well_known_paths) (or_else beside on_path) p h) [
      | inl first ↦ first_file-is_file places well_known_paths p first
      | inr later ↦ elim (or_else-inversion beside on_path p later) [
        | inl near ↦ file_at-is_file places places.sibling p near
        | inr far ↦ file_at-is_file places places.found_on_path p far
      ]
    ]

-- The binary that is found is a file, and a file at a well-known path is preferred.
pub find_daemon_binary-is_file :
    (places : Places)
    → ((p : String) → find_daemon_binary places ≡ some p → places.is_file p ≡ true)
      × ((p : String)
          → first_file places well_known_paths ≡ some p
          → find_daemon_binary places ≡ some p)
unfolding find_daemon_binary
find_daemon_binary-is_file places = (λ p h. found places p h, λ p h. rw h refl)
