-- ===== src/SitePath/Blocking.antt =====
-- internal/sites/validate.go and internal/platform/paths.go: which paths are refused.
use locorum.Common.{
  ℕ, ◌+◌, ◌≤◌, ◌≡◌, ◌↔◌, refl, ◌∙◌, Bool, true, false, ◌&&◌, not, Option, none, some, List, [], ◌∷◌,
  ◌++◌, length, ltb, str_eq, if◌then◌else◌, arith,
}
use locorum.SitePath.{
  PathNote, Info, Host, is_long_path, long_path_blocking, is_mnt_c, slow_notes, length_notes,
  validate_site_path, has_blocking_note,
}

-- The note on a slow file system does not block.
slow_notes-blocking :
    (b : Bool) (notes : List PathNote)
    → has_blocking_note (slow_notes b ++ notes) ≡ has_blocking_note notes
unfolding has_blocking_note
slow_notes-blocking true notes = refl
slow_notes-blocking false notes = refl

length_notes-blocking :
    (windows long enabled : Bool)
    → has_blocking_note (length_notes (windows && long) enabled)
      ≡ (if not windows then false else if enabled then false else long)
unfolding has_blocking_note
length_notes-blocking true true true = refl
length_notes-blocking true true false = refl
length_notes-blocking true false true = refl
length_notes-blocking true false false = refl
length_notes-blocking false long enabled = refl

blocking_cons :
    (host : Host) (c : ℕ) (p : List ℕ) (info : Info)
    → has_blocking_note (validate_site_path host (c ∷ p) (some info))
      ≡ long_path_blocking host (c ∷ p) (some info)
unfolding validate_site_path long_path_blocking
blocking_cons host c p info =
    slow_notes-blocking (info.wsl_active && is_mnt_c host (c ∷ p))
      (length_notes (str_eq info.os "windows" && is_long_path host (c ∷ p)) info.long_paths_enabled)
    ∙ length_notes-blocking (str_eq info.os "windows") (is_long_path host (c ∷ p))
        info.long_paths_enabled

blocking_nil :
    (host : Host) (windows enabled : Bool)
    → false ≡ (if not windows then false else if enabled then false else is_long_path host [])
unfolding is_long_path
blocking_nil host true true = refl
blocking_nil host true false = refl
blocking_nil host false enabled = refl

blocking_same :
    (host : Host) (p : List ℕ) (info : Option Info)
    → has_blocking_note (validate_site_path host p info) ≡ long_path_blocking host p info
blocking_same host p none = unfold validate_site_path has_blocking_note long_path_blocking in refl
blocking_same host [] (some info) =
    unfold validate_site_path has_blocking_note long_path_blocking in
    blocking_nil host (str_eq info.os "windows") info.long_paths_enabled
blocking_same host (c ∷ p) (some info) = blocking_cons host c p info

over_iff :
    (windows : Bool) (n : ℕ)
    → ((if not windows then false else ltb 260 (n + 1 + 180)) ≡ true)
      ↔ ((windows ≡ true) × (80 ≤ n))
over_iff true n = (λ h. (refl, ground arith), λ h. ground (arith, h.1))
over_iff false n = (λ h. cc, λ h. cc)

is_long_path_iff :
    (host : Host) (p : List ℕ)
    → (is_long_path host p ≡ true) ↔ ((str_eq host.goos "windows" ≡ true) × (80 ≤ length p))
unfolding is_long_path
is_long_path_iff host [] = (λ h. cc, λ h. absurd (omega (arith, h.1)))
is_long_path_iff host (c ∷ p) = over_iff (str_eq host.goos "windows") (length (c ∷ p))

guarded_iff :
    (windows enabled long : Bool)
    → ((if not windows then false else if enabled then false else long) ≡ true)
      ↔ ((windows ≡ true) × (enabled ≡ false) × (long ≡ true))
guarded_iff true true long = (λ h. cc, λ h. cc)
guarded_iff true false long = (λ h. (refl, refl, h), λ h. let (w, e, l) = h in l)
guarded_iff false enabled long = (λ h. cc, λ h. cc)

long_path_blocking_iff :
    (host : Host) (p : List ℕ) (info : Info)
    → (long_path_blocking host p (some info) ≡ true) ↔ (
        (str_eq info.os "windows" ≡ true)
        × (info.long_paths_enabled ≡ false)
        × (is_long_path host p ≡ true))
unfolding long_path_blocking
long_path_blocking_iff host p info =
    guarded_iff (str_eq info.os "windows") info.long_paths_enabled (is_long_path host p)

-- A path has a blocking note exactly if `LongPathBlocking` says so, and that is if the process runs on Windows,
-- the host described is Windows without the opt-in for long paths, and the path has 80 bytes at least.
pub validate_site_path-long_path_blocking :
    (host : Host) (p : List ℕ) (info : Info)
    → (has_blocking_note (validate_site_path host p (some info))
        ≡ long_path_blocking host p (some info))
      × ((long_path_blocking host p (some info) ≡ true) ↔ (
          (str_eq host.goos "windows" ≡ true)
          × (str_eq info.os "windows" ≡ true)
          × (info.long_paths_enabled ≡ false)
          × (80 ≤ length p)))
validate_site_path-long_path_blocking host p info =
    let (out, back) = long_path_blocking_iff host p info in
    let (long, short) = is_long_path_iff host p in
    (
      blocking_same host p (some info),
      (
        λ h.
            let (windows, off, over) = out h in
            let (here, n) = long over in (here, windows, off, n),
        λ h. let (here, windows, off, n) = h in back (windows, off, short (here, n)),
      ),
    )
