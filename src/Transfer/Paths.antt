-- ===== src/Transfer/Paths.antt =====
-- crates/filetransfer/src/lib.rs, `sanitize`. A path is the list of its characters; what
-- `std::path` makes of it on Unix is written out. The resulting `PathBuf` is known by its
-- components.
pub mod Safe
use my_deskflow.Prelude.{
  ℕ, String, Bool, true, false, ◌&&◌, Option, none, some, List, [], ◌∷◌, map, ◌==◌, if◌then◌else◌,
}
use my_deskflow.Core.Error.{Error, Result, ok, err, ◌>>=◌, other}

-- A name between separators.
abbrev pub Name : Type 0
Name = List ℕ

-- `std::path::Component`, but for those of an absolute path.
pub data Component : Type 0 where
  cur_dir parent_dir : Component
  normal : Name → Component

-- `rel.replace('\\', "/")`.
abbrev pub forward_slash : ℕ → ℕ
forward_slash c = if c == 92 then 47 else c

push_char : ℕ → List Name → List Name
push_char c [] = (c ∷ []) ∷ []
push_char c (n ∷ ns) = (c ∷ n) ∷ ns

-- The pieces between the slashes, empty ones included.
unfoldable pub split : List ℕ → List Name
unfolding push_char
split [] = [] ∷ []
split (c ∷ cs) = let rest = split cs in if c == 47 then [] ∷ rest else push_char c rest

abbrev is_dot : Name → Bool
is_dot (c ∷ []) = c == 46
is_dot _ = false

abbrev is_dots : Name → Bool
is_dots (c ∷ d ∷ []) = c == 46 && d == 46
is_dots _ = false

-- A piece behind the first: an empty piece and `.` are no components.
component_of : Name → Option Component
component_of [] = none
component_of (c ∷ cs) =
    if is_dot (c ∷ cs)
    then none
    else if is_dots (c ∷ cs)
    then some parent_dir
    else some (normal (c ∷ cs))

later_components : List Name → List Component
later_components [] = []
later_components (n ∷ ns) =
    let rest = later_components ns in elim (component_of n) [ none ↦ rest | some c ↦ c ∷ rest ]

-- A leading `.` is a component.
components : List Name → List Component
unfolding later_components component_of
components [] = []
components (n ∷ ns) = if is_dot n then cur_dir ∷ later_components ns else later_components (n ∷ ns)

abbrev pub is_absolute : List ℕ → Bool
is_absolute [] = false
is_absolute (c ∷ cs) = c == 47

-- The loop over the components: all must be normal.
all_normal : List Component → Result Error (List Name)
all_normal [] = ok []
all_normal (normal n ∷ cs) = all_normal cs >>= λ ns. ok (n ∷ ns)
all_normal (_ ∷ cs) = err (other "suspicious path component")

-- `sanitize`.
unfoldable pub sanitize : List ℕ → Result Error (List Name)
unfolding components all_normal split
sanitize rel =
    let fixed = map forward_slash rel in
    if is_absolute fixed
    then err (other "absolute path rejected")
    else all_normal (components (split fixed))
