-- ===== src/Username/Tests.antt =====
-- Names that are sanitised, and instances of the theorems.
use locorum.Common.{◌≤◌, ◌≡◌, refl, ℕ, true, List, length, ◌==◌, arith, String}
use locorum.Common.Text.{codes}
use locorum.Username.{Unicode, sanitise_username, max_sanitised_username_len}
use locorum.Username.Name.{is_username}
use locorum.Username.Shape.{sanitise_username-is_username}
use locorum.Username.Again.{IsUnicode}

-- Tables that know no composed character and one combining mark.
abbrev tables : Unicode
tables = record { nfkc = λ s. s; nfd = λ s. s; is_mn = λ c. c == 0x301 }

abbrev sanitised : String → List ℕ
sanitised s = sanitise_username tables (codes s)

domain_user : sanitised "CORP\\Ann  Lee." ≡ codes "corp-ann-lee"
unfolding sanitise_username
domain_user = refl

numbers : sanitised "42" ≡ codes "u-42"
unfolding sanitise_username
numbers = refl

nothing : (sanitised "..--" ≡ codes "locorum") × (sanitised "u-" ≡ codes "u")
unfolding sanitise_username
nothing = (refl, refl)

cut_at_a_dash :
    sanitised "abcdefghijklmnopqrstuvwxyz01234 6789" ≡ codes "abcdefghijklmnopqrstuvwxyz01234"
unfolding sanitise_username
cut_at_a_dash = refl

tables-IsUnicode : IsUnicode tables
tables-IsUnicode = record {
  nfkc_ascii = λ s h. refl;
  nfd_ascii = λ s h. refl;
  mn_ascii = λ c h. ground arith;
}

sanitise_username-is_username_example :
    (is_username (sanitise_username tables (codes "_Jo Smith")) ≡ true)
    × (length (sanitise_username tables (codes "_Jo Smith")) ≤ max_sanitised_username_len)
sanitise_username-is_username_example = sanitise_username-is_username tables (codes "_Jo Smith")
