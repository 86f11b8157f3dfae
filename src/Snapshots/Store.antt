-- ===== src/Snapshots/Store.antt =====
-- internal/sites/snapshot.go: the files of snapshots, the checksum beside a snapshot, and its check. The
-- sidecar is ASCII.
use locorum.Common.{ℕ, Option, none, some, List, [], ◌∷◌, ◌++◌, ◌==◌, length, if◌then◌else◌}
use locorum.Common.Text.{codes, equals, trim_space}

-- What reading a path gives.
pub data Stored : Type 0 where
  absent unreadable : Stored
  holds : List ℕ → Stored

abbrev pub Files : Type 0
Files = List ℕ → Stored

unfoldable pub put : List ℕ → List ℕ → Files → Files
put path content files = λ q. if equals q path then holds content else files q

abbrev pub sidecar : List ℕ → List ℕ
sidecar path = path ++ codes ".sha256"

-- The content that `writeChecksum` gives the sidecar of a file with this name.
unfoldable pub checksum_line : List ℕ → List ℕ → List ℕ
checksum_line digest name = digest ++ (codes "  " ++ (name ++ codes "\n"))

-- Why a checksum does not hold; `no_sidecar` is `errNoChecksumSidecar`.
pub data ChecksumError : Type 0 where
  no_sidecar sidecar_unreadable malformed snapshot_unreadable mismatch : ChecksumError

-- SplitN at a space, first piece.
unfoldable pub before_space : List ℕ → List ℕ
before_space [] = []
before_space (c ∷ s) = let rest = before_space s in if c == b' ' then [] else c ∷ rest

abbrev pub compared : (List ℕ → List ℕ) → List ℕ → Stored → Option ChecksumError
compared hash expected absent = some snapshot_unreadable
compared hash expected unreadable = some snapshot_unreadable
compared hash expected (holds content) =
    if equals (hash content) expected then none else some mismatch

abbrev pub checked : (List ℕ → List ℕ) → Stored → Stored → Option ChecksumError
checked hash absent snapshot = some no_sidecar
checked hash unreadable snapshot = some sidecar_unreadable
checked hash (holds line) snapshot =
    let expected = trim_space (before_space line) in
    if length expected == 64 then compared hash expected snapshot else some malformed

-- verifyChecksum, with the hexadecimal SHA-256 of a text as an argument.
unfoldable pub verify_checksum : (List ℕ → List ℕ) → Files → List ℕ → Option ChecksumError
unfolding before_space
verify_checksum hash files path = checked hash (files (sidecar path)) (files path)
