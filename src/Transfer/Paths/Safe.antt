-- ===== src/Transfer/Paths/Safe.antt =====
-- What `sanitize` of crates/filetransfer/src/lib.rs lets through.
use my_deskflow.Prelude.{
  ℕ, ◌≡◌, ◌≢◌, sym, none, some, List, [], ◌∷◌, map, ◌==◌, All, arith, Bool-cases, inl, inr,
  Option-cases, subst,
}
use my_deskflow.Core.Error.{ok, Result-cases}
use my_deskflow.Transfer.Paths.{
  Name, Component, cur_dir, parent_dir, normal, forward_slash, push_char, split, is_dot,
  component_of, later_components, components, is_absolute, all_normal, sanitize,
}

-- No separator of either kind stands in the name.
abbrev pub NoSeparator : Name → Type 0
NoSeparator n = All (λ c. (c ≢ 47) × (c ≢ 92)) n

-- A name that stays in its directory.
pub record IsPlain (n : Name) : Type 0 where
  pub no_separator : NoSeparator n
  pub nonempty : n ≢ []
  pub no_dot : n ≢ 46 ∷ []
  pub no_dots : n ≢ 46 ∷ 46 ∷ []

push_char-NoSeparator :
    (c : ℕ) (ns : List Name)
    → c ≢ 47
    → c ≢ 92
    → All NoSeparator ns
    → All NoSeparator (push_char c ns)
unfolding push_char
push_char-NoSeparator c [] h k all = (((h, k), tt), tt)
push_char-NoSeparator c (n ∷ ns) h k all = (((h, k), all.0), all.1)

split-NoSeparator : (cs : List ℕ) → All NoSeparator (split (map forward_slash cs))
unfolding split
split-NoSeparator [] = (tt, tt)
split-NoSeparator (c ∷ cs) =
    let ih = split-NoSeparator cs in
    elim (Bool-cases (forward_slash c == 47)) [
      | inl e ↦ rw e (tt, ih)
      | inr e ↦ rw e (
          push_char-NoSeparator (forward_slash c) (split (map forward_slash cs)) (ground arith)
            (ground arith) ih)
    ]

-- A normal component is the piece that it was read from, and that piece is plain.
component_of-IsPlain : (n m : Name) → NoSeparator n → component_of n ≡ some (normal m) → IsPlain m
unfolding component_of
component_of-IsPlain [] m s e = cc
component_of-IsPlain (c ∷ []) m s e = ground arith
component_of-IsPlain (c ∷ d ∷ []) m s e = ground arith
component_of-IsPlain (c ∷ d ∷ x ∷ xs) m s e = ground arith

all_normal-cons :
    (n : Name) (cs : List Component) (names : List Name)
    → all_normal (normal n ∷ cs) ≡ ok names
    → (rest : List Name) × (all_normal cs ≡ ok rest) × (names ≡ n ∷ rest)
unfolding all_normal
all_normal-cons n cs names e = elim (Result-cases (all_normal cs)) [
  | inl (rest, r) ↦ (rest, r, cc)
  | inr (x, r) ↦ cc
]

piece-IsPlain :
    (n : Name) (c : Component) (cs : List Component) (names : List Name)
    → NoSeparator n
    → component_of n ≡ some c
    → all_normal (c ∷ cs) ≡ ok names
    → ((rest : List Name) → all_normal cs ≡ ok rest → All IsPlain rest)
    → All IsPlain names
unfolding all_normal
piece-IsPlain n (normal m) cs names s k e rest_plain =
    let (rest, r, eq) = all_normal-cons m cs names e in
    subst (All IsPlain) (sym eq) (component_of-IsPlain n m s k, rest_plain rest r)
piece-IsPlain n cur_dir cs names s k e rest_plain = cc
piece-IsPlain n parent_dir cs names s k e rest_plain = cc

later_components-skip :
    (n : Name) (ns : List Name)
    → component_of n ≡ none
    → later_components (n ∷ ns) ≡ later_components ns
unfolding later_components
later_components-skip n ns k = ground arith

later_components-cons :
    (n : Name) (ns : List Name) (c : Component)
    → component_of n ≡ some c
    → later_components (n ∷ ns) ≡ c ∷ later_components ns
unfolding later_components
later_components-cons n ns c k = ground arith

later-IsPlain :
    (ns : List Name) (names : List Name)
    → All NoSeparator ns
    → all_normal (later_components ns) ≡ ok names
    → All IsPlain names
unfolding later_components all_normal
later-IsPlain [] [] s e = tt
later-IsPlain [] (n ∷ names) s e = cc
later-IsPlain (n ∷ ns) names s e = elim (Option-cases (component_of n)) [
  | inl k ↦ later-IsPlain ns names s.1 (rw (later_components-skip n ns k) at e)
  | inr (c, k) ↦
      piece-IsPlain n c (later_components ns) names s.0 k (rw (later_components-cons n ns c k) at e)
        (λ rest r. later-IsPlain ns rest s.1 r)
]

components-IsPlain :
    (ns : List Name) (names : List Name)
    → All NoSeparator ns
    → all_normal (components ns) ≡ ok names
    → All IsPlain names
unfolding components all_normal
components-IsPlain [] [] s e = tt
components-IsPlain [] (n ∷ names) s e = cc
components-IsPlain (n ∷ ns) names s e = elim (Bool-cases (is_dot n)) [
  | inl k ↦ absurd (ground arith)
  | inr k ↦ later-IsPlain (n ∷ ns) names s (ground arith)
]

-- Whatever path a peer sends, what `sanitize` accepts is a list of names that each stay in their
-- directory: none is empty, `.` or `..`, and none holds a slash or a backslash.
pub sanitize-IsPlain :
    (rel : List ℕ) (names : List Name) → sanitize rel ≡ ok names → All IsPlain names
unfolding sanitize
sanitize-IsPlain rel names e = elim (Bool-cases (is_absolute (map forward_slash rel))) [
  | inl k ↦ absurd (ground arith)
  | inr k ↦
      components-IsPlain (split (map forward_slash rel)) names (split-NoSeparator rel)
        (ground arith)
]
