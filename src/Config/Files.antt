-- ===== src/Config/Files.antt =====
-- Password files and their modes: checkPasswordFile and TrimSecret of config/config.go, and
-- config/secretmode.go. os.Stat and os.ReadFile are the record FileSystem, a parameter; whether the
-- group of a file is one of the process's own is read with the file's information.
use arex.Prelude.{
  ℕ, ◌==◌, ◌/◌, ◌%◌, Bool, not, ◌&&◌, ◌||◌, String, ◌+s◌, nonempty, List, [], ◌∷◌, Result, ok, err,
  if◌then◌else◌,
}
use arex.Secret.{trim_line_end}

pub record FileInfo : Type 0 where
  pub is_dir : Bool
  -- The nine permission bits.
  pub mode : ℕ
  pub group_is_ours : Bool

pub record FileSystem : Type 0 where
  pub stat : String → Result String FileInfo
  pub read_file : String → Result String String

-- What is said of a configuration that is accepted: a loose mode, with the setting and the path, or
-- a password sent in clear.
pub data Warning : Type 0 where
  loose_mode : String → String → ℕ → Warning
  clear_credentials : Warning

-- A path that does not serve as a password file.
pub data FileError : Type 0 where
  unusable directory empty_file : String → String → FileError

unfoldable pub secret_mode_warning : String → String → FileInfo → List Warning
secret_mode_warning what path info =
    let others = info.mode % 8 in
    let group = info.mode / 8 % 8 in
    if others == 0 && (group == 0 || info.group_is_ours)
    then []
    else loose_mode what path info.mode ∷ []

-- The warnings are at most one; none stands for "".
unfoldable pub check_password_file : FileSystem → String → String → Result FileError (List Warning)
check_password_file fs path location = elim (fs.stat path) [
  | err e ↦ err (unusable location e)
  | ok info ↦ if info.is_dir then err (directory location path) else elim (fs.read_file path) [
    | err e ↦ err (unusable location e)
    | ok body ↦
        if not (nonempty (trim_line_end body))
        then err (empty_file location path)
        else ok (secret_mode_warning ("config: " +s location +s ": passwordFile") path info)
  ]
]
