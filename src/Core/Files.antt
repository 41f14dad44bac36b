-- ===== src/Core/Files.antt =====
-- The file system as the program uses it through std::fs: what its calls give, and the documented
-- laws that the program relies on. A path is its text.
use my_deskflow.Prelude.{String, Bool, true, ◌≡◌}
use my_deskflow.Prelude.Bytes.{Bytes}
use my_deskflow.Core.Error.{Result, ok}

-- `std::io::Error`, by whether its kind is `NotFound`.
pub data IoError : Type 0 where
  not_found : IoError
  failed : String → IoError

pub record FileSystem : Type 1 where
  pub Files : Type 0
  pub exists : Files → String → Bool
  pub read : Files → String → Result IoError Bytes
  pub write : Files → String → Bytes → Result IoError Files
  pub create_dir_all : Files → String → Result IoError Files
  pub IsDirectory : Files → String → Type 0

module _ (fs : FileSystem) where
  open fs use {Files, exists, read, write, create_dir_all, IsDirectory}

  pub record FileLaws : Type 0 where
    pub read-write : (f g : Files) (p : String) (b : Bytes) → write f p b ≡ ok g → read g p ≡ ok b
    pub read-write_other :
        (f g : Files) (p q : String) (b : Bytes)
        → (p ≡ q → ⊥)
        → write f p b ≡ ok g
        → read g q ≡ read f q
    pub exists-read : (f : Files) (p : String) (b : Bytes) → read f p ≡ ok b → exists f p ≡ true
    pub create_dir_all-IsDirectory :
        (f g : Files) (d : String) → create_dir_all f d ≡ ok g → IsDirectory g d
    pub create_dir_all_again :
        (f : Files) (d : String) → IsDirectory f d → create_dir_all f d ≡ ok f
    pub write-IsDirectory :
        (f g : Files) (p d : String) (b : Bytes)
        → write f p b ≡ ok g
        → IsDirectory f d
        → IsDirectory g d
