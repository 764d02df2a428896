-- ===== src/Config.antt =====
-- config/config.go: the check of the main configuration, and the rewriting of an automation's file.
-- Files and directories are arguments: none is one that cannot be read.
pub mod Enabling
pub mod Checking
pub mod Preprocess
pub mod Main
mod Tests
use aghast.Base.{
  ℕ, String, Bool, true, false, not, ◌&&◌, ◌||◌, Option, none, some, List, [], ◌∷◌, if◌then◌else◌,
  ◌==◌, string_comparable, has_prefix, split, join, Outcome, done, panicked,
}
use Prim.Native.String

-- The array Integrations: missing, of texts, or of something else.
pub data Array : Type 0 where
  missing : Array
  texts : List String → Array
  mixed : Array

-- What CheckMainConfig reads of config.toml.
pub record MainTree : Type 0 where
  pub has_system_name : Bool
  pub has_control_port : Bool
  pub integrations : Array

pub data Verdict : Type 0 where
  valid : Verdict
  unreadable : Verdict
  no_system_name : Verdict
  no_control_port : Verdict
  no_section : Verdict
  none_enabled : Verdict
  no_file : String → Verdict
  no_time : Verdict

-- A file of its own, or a directory. `exists` is os.Stat below the configuration directory.
abbrev pub has_config : (String → Bool) → String → Bool
has_config exists i = exists (String.◌++◌ i ".toml") || exists i

-- The loop over the integrations.
unfoldable pub check_files : (String → Bool) → List String → (time_found : Bool) → Verdict
check_files exists [] time_found = if time_found then valid else no_time
check_files exists (i ∷ is) time_found =
    let later = check_files exists is (i == "time" || time_found) in
    if has_config exists i then later else no_file i

unfoldable pub check_array : (String → Bool) → Array → Outcome Verdict
unfolding check_files
check_array exists missing = done no_section
check_array exists mixed = panicked
check_array exists (texts []) = done none_enabled
check_array exists (texts (i ∷ is)) = done (check_files exists (i ∷ is) false)

unfoldable pub check_main_config : (String → Bool) → Option MainTree → Outcome Verdict
unfolding check_array
check_main_config exists none = done unreadable
check_main_config exists (some main) =
    if not main.has_system_name
    then done no_system_name
    else if not main.has_control_port
    then done no_control_port
    else check_array exists main.integrations

abbrev pub enabled_line : Bool → String
enabled_line true = "Enabled = true"
enabled_line false = "Enabled = false"

-- The loop over the lines.
unfoldable pub rewrite_lines : Bool → List String → List String
rewrite_lines new_enabled [] = []
rewrite_lines new_enabled (line ∷ lines) =
    let later = rewrite_lines new_enabled lines in
    if has_prefix line "Enabled" then enabled_line new_enabled ∷ lines else line ∷ later

-- What is written back to the file; none is an error.
unfoldable pub change_enabled : Bool → Option String → Option String
unfolding rewrite_lines
change_enabled new_enabled none = none
change_enabled new_enabled (some conf) =
    some (join "\n" (rewrite_lines new_enabled (split b'\n' conf)))
