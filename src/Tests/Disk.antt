-- ===== src/Tests/Disk.antt =====
-- A small file system, and a toml that writes nothing but the role of a default configuration.
use my_deskflow.Prelude.{
  ℕ, ◌≡◌, ◌≢◌, refl, sym, subst, String, Bool, true, false, Option, none, some, [], ◌∷◌,
  if◌then◌else◌, leb, ◌&&◌, Bool-cases, inl, inr,
}
use my_deskflow.Prelude.Bytes.{Bytes}
use my_deskflow.Core.Error.{Result, ok, err}
use my_deskflow.Core.Files.{FileSystem, FileLaws, IoError, not_found}
use my_deskflow.Core.Config.{Config, ServerRole, server, client, Toml, ReadsBack, default_config}
use text.Mathlib.Text.{◌==◌}
use text.Mathlib.TextEquality.{eq_iff}

abbrev pub Store : Type 0
Store = String → Option Bytes

abbrev find : Option Bytes → Result IoError Bytes
find none = err not_found
find (some b) = ok b

abbrev is_some : Option Bytes → Bool
is_some none = false
is_some (some b) = true

abbrev pub put : Store → String → Bytes → Store
put f p b q = if p == q then some b else f q

abbrev pub disk : FileSystem
disk = record {
  Files = Store;
  exists = λ f p. is_some (f p);
  read = λ f p. find (f p);
  write = λ f p b. ok (put f p b);
  create_dir_all = λ f d. ok f;
  IsDirectory = λ f d. Unit {0};
}

ok-inj : {A : Type 0} (a b : A) → ◌≡◌ {A = Result IoError A} (ok a) (ok b) → a ≡ b
ok-inj a b h = cc

read-put : (f : Store) (p : String) (b : Bytes) → find (put f p b p) ≡ ok b
read-put f p b = rw ((eq_iff p p).1 refl) refl

read-put_other : (f : Store) (p q : String) (b : Bytes) → p ≢ q → find (put f p b q) ≡ find (f q)
read-put_other f p q b ne = elim (Bool-cases (p == q)) [
  | inl same ↦ absurd (ne ((eq_iff p q).0 same))
  | inr other ↦ rw other refl
]

exists-find : (o : Option Bytes) (b : Bytes) → find o ≡ ok b → is_some o ≡ true
exists-find none b h = cc
exists-find (some c) b h = refl

pub disk-FileLaws : FileLaws disk
disk-FileLaws = record {
  read-write = λ f g p b h.
      subst (λ (s : Store). find (s p) ≡ ok b) (ok-inj (put f p b) g h) (read-put f p b);
  read-write_other = λ f g p q b ne h.
      subst (λ (s : Store). find (s q) ≡ find (f q)) (ok-inj (put f p b) g h)
        (read-put_other f p q b ne);
  exists-read = λ f p b h. exists-find (f p) b h;
  create_dir_all-IsDirectory = λ f g d h. tt;
  create_dir_all_again = λ f d h. refl;
  write-IsDirectory = λ f g p d b h k. tt;
}

abbrev pub empty : Store
empty p = none

abbrev role_text : ServerRole → Bytes
role_text server = b's' ∷ []
role_text client = b'c' ∷ []

abbrev is_s : ℕ → Bool
is_s c = leb c b's' && leb b's' c

abbrev role_of : Bytes → Result String Config
role_of [] = err "empty"
role_of (c ∷ cs) = ok (record (default_config "desk") { role = if is_s c then server else client })

abbrev pub roles : Toml
roles = record { to_string_pretty = λ c. ok (role_text c.role); from_str = role_of }

abbrev pub in_role : ServerRole → Config
in_role role = record (default_config "desk") { role = role }

text-inj : (a b : Bytes) → ◌≡◌ {A = Result String Bytes} (ok a) (ok b) → a ≡ b
text-inj a b h = cc

pub roles-ReadsBack : (role : ServerRole) → ReadsBack roles (in_role role)
roles-ReadsBack server text h = rw (sym (text-inj (role_text server) text h)) refl
roles-ReadsBack client text h = rw (sym (text-inj (role_text client) text h)) refl
