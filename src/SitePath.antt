-- ===== src/SitePath.antt =====
-- internal/sites/validate.go and internal/platform/paths.go: what a site's path is warned about. Paths are
-- lists of bytes. The process runs on a host, which `runtime.GOOS` and `platform.Get` tell; the host that
-- a caller describes is an argument.
pub mod Blocking
mod Tests
use locorum.Common.{
  ℕ, ◌+◌, String, Bool, true, false, ◌&&◌, ◌||◌, not, Option, none, some, List, [], ◌∷◌, ◌++◌, map,
  length, drop, ltb, leb, ◌==◌, str_eq, if◌then◌else◌,
}
use locorum.Common.Text.{codes, has_prefix, to_lower, contains}

pub data PathNoteSeverity : Type 0 where
  path_severity_warn path_severity_block : PathNoteSeverity

pub record PathNote : Type 0 where
  pub severity : PathNoteSeverity
  pub title : String
  pub detail : String
  pub remediation : String
  pub help_url : String

-- The parts of platform.Info that are read.
pub record Info : Type 0 where
  pub os : String
  pub wsl_active : Bool
  pub long_paths_enabled : Bool

pub record Host : Type 0 where
  pub goos : String
  pub wsl : Bool

abbrev pub wp_max_plugin_path_suffix : ℕ
wp_max_plugin_path_suffix = 180

abbrev pub windows_max_path : ℕ
windows_max_path = 260

abbrev pub forward : List ℕ → List ℕ
forward = map (λ c. if c == b'\\' then b'/' else c)

-- filepath.ToSlash
abbrev pub to_slash : Host → List ℕ → List ℕ
to_slash host p = if str_eq host.goos "windows" then forward p else p

unfoldable pub docker_path : Host → List ℕ → List ℕ
unfolding contains
docker_path host [] = []
docker_path host (c ∷ p) =
    let out = to_slash host (c ∷ p) in if contains out (b'\\' ∷ []) then forward out else out

unfoldable pub is_long_path : Host → List ℕ → Bool
is_long_path host [] = false
is_long_path host (c ∷ p) =
    if not (str_eq host.goos "windows")
    then false
    else ltb windows_max_path (length (c ∷ p) + 1 + wp_max_plugin_path_suffix)

unfoldable pub long_path_blocking : Host → List ℕ → Option Info → Bool
unfolding is_long_path
long_path_blocking host p none = false
long_path_blocking host p (some info) =
    if not (str_eq info.os "windows")
    then false
    else if info.long_paths_enabled
    then false
    else is_long_path host p

-- What stands before the first slash.
abbrev pub first_segment : List ℕ → List ℕ
first_segment [] = []
first_segment (c ∷ p) = if c == b'/' then [] else c ∷ first_segment p

abbrev pub is_drive_letter : List ℕ → Bool
is_drive_letter (c ∷ []) = leb b'a' c && leb c b'z'
is_drive_letter _ = false

unfoldable pub is_mnt_drv_fs_path : Host → List ℕ → Bool
unfolding to_lower has_prefix
is_mnt_drv_fs_path host p =
    let clean = to_slash host (to_lower p) in
    if has_prefix (codes "/mnt/") clean
    then is_drive_letter (first_segment (drop 5 clean))
    else false

unfoldable pub is_mnt_c : Host → List ℕ → Bool
unfolding is_mnt_drv_fs_path
is_mnt_c host p = if not host.wsl then false else is_mnt_drv_fs_path host p

abbrev pub slow_note : PathNote
slow_note = record {
  severity = path_severity_warn;
  title = "Slow filesystem";
  detail =
      "Sites under /mnt/c (or other Windows-mounted drives) run roughly 10× slower than under /home/<user>/.";
  remediation = "";
  help_url = "https://docs.locorum.dev/wsl-performance";
}

abbrev pub long_paths_help : String
long_paths_help =
    "https://learn.microsoft.com/en-us/windows/win32/fileio/maximum-file-path-limitation"

abbrev pub may_exceed_note : PathNote
may_exceed_note = record {
  severity = path_severity_warn;
  title = "Path may exceed Windows 260-character limit";
  detail =
      "LongPathsEnabled is set, but some WordPress plugins still don't opt in to long paths and may fail at install time.";
  remediation = "";
  help_url = long_paths_help;
}

abbrev pub exceeds_note : PathNote
exceeds_note = record {
  severity = path_severity_block;
  title = "Path exceeds Windows 260-character limit";
  detail =
      "Windows MAX_PATH is 260 characters; this path's deepest WordPress asset would breach it.";
  remediation =
      "Use a shorter path (≤ 200 characters), or enable LongPathsEnabled in the registry (admin) and restart Locorum.";
  help_url = long_paths_help;
}

abbrev slow_notes : Bool → List PathNote
slow_notes true = slow_note ∷ []
slow_notes false = []

abbrev length_notes : Bool → Bool → List PathNote
length_notes true true = may_exceed_note ∷ []
length_notes true false = exceeds_note ∷ []
length_notes false enabled = []

unfoldable pub validate_site_path : Host → List ℕ → Option Info → List PathNote
unfolding is_mnt_c is_long_path
validate_site_path host p none = []
validate_site_path host [] (some info) = []
validate_site_path host (c ∷ p) (some info) =
    slow_notes (info.wsl_active && is_mnt_c host (c ∷ p))
    ++ length_notes (str_eq info.os "windows" && is_long_path host (c ∷ p)) info.long_paths_enabled

abbrev is_blocking : PathNoteSeverity → Bool
is_blocking path_severity_block = true
is_blocking path_severity_warn = false

unfoldable pub has_blocking_note : List PathNote → Bool
has_blocking_note [] = false
has_blocking_note (n ∷ notes) = if is_blocking n.severity then true else has_blocking_note notes
