-- ===== src/SitePath/Tests.antt =====
-- Paths of sites, and an instance of the theorem.
use locorum.Common.{ℕ, ◌≤◌, ◌≡◌, ◌↔◌, refl, true, false, some, List, [], ◌∷◌, length, str_eq}
use locorum.Common.Text.{codes, to_lower, has_prefix, contains}
use locorum.SitePath.{
  Info, Host, slow_note, exceeds_note, validate_site_path, has_blocking_note, long_path_blocking,
  is_mnt_drv_fs_path, docker_path,
}
use locorum.SitePath.Blocking.{validate_site_path-long_path_blocking}

abbrev windows : Host
windows = record { goos = "windows"; wsl = false }

abbrev linux : Host
linux = record { goos = "linux"; wsl = true }

abbrev limited : Info
limited = record { os = "windows"; wsl_active = false; long_paths_enabled = false }

abbrev wsl_info : Info
wsl_info = record { os = "linux"; wsl_active = true; long_paths_enabled = false }

slow : validate_site_path linux (codes "/mnt/C/sites") (some wsl_info) ≡ slow_note ∷ []
unfolding validate_site_path to_lower has_prefix
slow = refl

not_a_drive : is_mnt_drv_fs_path linux (codes "/mnt/data/sites") ≡ false
unfolding is_mnt_drv_fs_path to_lower has_prefix
not_a_drive = refl

slashes : docker_path linux (codes "C:\\a/b\\c") ≡ codes "C:/a/b/c"
unfolding docker_path contains has_prefix
slashes = refl

-- 87 bytes, which is within the 200 that the note asks for.
abbrev long : List ℕ
long =
    codes
      "C:\\Users\\somebody\\AppData\\Local\\locorum\\sites\\a-site-with-a-rather-long-name-for-a-path"

long_blocked : validate_site_path windows long (some limited) ≡ exceeds_note ∷ []
unfolding validate_site_path
long_blocked = refl

-- The operating system of the process is asked as well as the one described.
not_on_linux : validate_site_path linux long (some limited) ≡ []
unfolding validate_site_path
not_on_linux = refl

validate_site_path-long_path_blocking_example :
    (has_blocking_note (validate_site_path windows long (some limited))
      ≡ long_path_blocking windows long (some limited))
    × ((long_path_blocking windows long (some limited) ≡ true) ↔ (
        (str_eq windows.goos "windows" ≡ true)
        × (str_eq limited.os "windows" ≡ true)
        × (limited.long_paths_enabled ≡ false)
        × (80 ≤ length long)))
validate_site_path-long_path_blocking_example =
    validate_site_path-long_path_blocking windows long limited
