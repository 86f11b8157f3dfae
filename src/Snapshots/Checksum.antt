-- ===== src/Snapshots/Checksum.antt =====
-- internal/sites/snapshot.go: the checksum that a snapshot is given, and the one that it is checked for.
use locorum.Common.{
  ℕ, ◌≡◌, refl, ap, ◌∙◌, ◌&&◌, ◌||◌, Bool, true, false, Option, none, some, List, [], ◌∷◌, ◌++◌,
  ◌==◌, leb, length, length-append, inl, inr, Bool-cases, if◌then◌else◌, arith,
}
use locorum.Common.Text.{
  codes, equals, equals-≡, equals_refl, is_space, is_digit, trim_left, trim_right, trim_space,
}
use locorum.Snapshots.{zstd}
use locorum.Snapshots.Store.{
  holds, put, sidecar, checksum_line, before_space, ChecksumError, mismatch, checked,
  verify_checksum,
}
use locorum.Snapshots.Take.{
  Site, World, Env, save, finish, dumped, name_of, in_dir, hooked, snapshot_locked,
}

abbrev is_hex : ℕ → Bool
is_hex c = is_digit c || leb b'a' c && leb c b'f'

abbrev pub all_hex : List ℕ → Bool
all_hex [] = true
all_hex (c ∷ s) = is_hex c && all_hex s

-- What hexadecimal SHA-256 gives.
abbrev pub IsDigest : List ℕ → Type 0
IsDigest s = (length s ≡ 64) × (all_hex s ≡ true)

hex-is_space : (c : ℕ) → is_hex c ≡ true → is_space c ≡ false
hex-is_space c h = ground arith

before_space-append :
    (digest rest : List ℕ) → all_hex digest ≡ true → before_space (digest ++ b' ' ∷ rest) ≡ digest
unfolding before_space
before_space-append [] rest h = refl
before_space-append (c ∷ digest) rest h =
    let first : (c == b' ') ≡ false = ground arith in
    let tail : all_hex digest ≡ true = ground arith in
    rw first (ap (λ t. c ∷ t) (before_space-append digest rest tail))

trim_right-hex : (s : List ℕ) → all_hex s ≡ true → trim_right is_space s ≡ s
unfolding trim_right
trim_right-hex [] h = refl
trim_right-hex (c ∷ s) h =
    let first : is_hex c ≡ true = ground arith in
    let tail : all_hex s ≡ true = ground arith in
    rw (hex-is_space c first) (ap (λ t. c ∷ t) (trim_right-hex s tail))

trim_space-hex : (s : List ℕ) → all_hex s ≡ true → trim_space s ≡ s
unfolding trim_space trim_left trim_right
trim_space-hex [] h = refl
trim_space-hex (c ∷ s) h =
    let first : is_hex c ≡ true = ground arith in
    rw (hex-is_space c first) (trim_right-hex (c ∷ s) h)

path_apart : (path : List ℕ) → equals path (sidecar path) ≡ false
path_apart path = elim (Bool-cases (equals path (sidecar path))) [
  | inl e ↦
      let same = equals-≡ path (sidecar path) e in
      absurd (omega (arith, ap length same, length-append path (codes ".sha256")))
  | inr e ↦ e
]

-- With a digest in the sidecar, the check asks whether the content has this digest.
checked-checksum_line :
    (hash : List ℕ → List ℕ) (digest name content : List ℕ)
    → IsDigest digest
    → checked hash (holds (checksum_line digest name)) (holds content)
      ≡ (if equals (hash content) digest then none else some mismatch)
unfolding checksum_line
checked-checksum_line hash digest name content (long, hex) =
    let read : trim_space (before_space (checksum_line digest name)) ≡ digest =
      ap trim_space (before_space-append digest (b' ' ∷ (name ++ codes "\n")) hex)
      ∙ trim_space-hex digest hex in
    let right : (length digest == 64) ≡ true = ground arith in rw (read, right) refl

abbrev pub judged : {Rest Stream : Type 0} → Env Rest Stream → List ℕ → Option ChecksumError
judged env content =
    if equals (env.hash (env.compress zstd content)) (env.hash content) then none else some mismatch

abbrev or_empty : List ℕ → Option (List ℕ) → List ℕ
or_empty d none = d
or_empty d (some s) = s

module _ {Rest Stream : Type 0} (env : Env Rest Stream) where
  -- Every file is written, the hooks after a snapshot leave the files alone, and hashes are digests.
  pub record GoesWell : Type 0 where
    pub writes : (w : World Rest) (path : List ℕ) → env.is_written w path ≡ true
    pub hooks : (w : World Rest) → (env.post_snapshot w).0.files ≡ w.files
    pub digests : (s : List ℕ) → IsDigest (env.hash s)

  abbrev pub IsJudged : World Rest → World Rest → List ℕ → Type 0
  IsJudged w w' path =
      (content : List ℕ) × (env.dump w ≡ some content)
      × (verify_checksum env.hash w'.files path ≡ judged env content)

  finish-judged :
      GoesWell
      → (path name content : List ℕ) (w : World Rest)
      → w.files path ≡ holds (env.compress zstd content)
      → verify_checksum env.hash (finish env path name content w).files path ≡ judged env content
  unfolding verify_checksum put
  finish-judged well path name content w held =
      let line = checksum_line (env.hash content) name in
      let saved = (save env (sidecar path) line w).0 in
      let kept = well.hooks saved in
      let put_ : saved.files ≡ put (sidecar path) line w.files =
        rw (well.writes w (sidecar path)) refl in
      rw (kept, put_, equals_refl (sidecar path), path_apart path, held)
        (checked-checksum_line env.hash (env.hash content) name (env.compress zstd content)
          (well.digests content))

  dumped-IsJudged :
      GoesWell
      → (p name : List ℕ) (w w' : World Rest) (path : List ℕ) (content : Option (List ℕ))
      → env.dump w ≡ content
      → dumped env p name w content ≡ (w', some path)
      → IsJudged w w' path
  unfolding put
  dumped-IsJudged well p name w w' path none reads h =
      absurd (let h' : none ≡ some path = ap (λ r. r.1) h in cc)
  dumped-IsJudged well p name w w' path (some content) reads h =
      let done : World Rest = record w { files = put p (env.compress zstd content) w.files } in
      let h' : (finish env p name content done, some p) ≡ (w', some path) =
        rw (well.writes w p) at h in
      let here : finish env p name content done ≡ w' = ap (λ r. r.0) h' in
      let at_path : some p ≡ some path = ap (λ r. r.1) h' in
      let same : p ≡ path = ap (or_empty p) at_path in
      (
        content,
        reads,
        rw (← here, ← same) (finish-judged well p name content done (rw (equals_refl p) refl)),
      )

  in_dir-IsJudged :
      GoesWell
      → (site : Site) (label : List ℕ) (w w' : World Rest) (path : List ℕ) (dir : Option (List ℕ))
      → in_dir env site label w dir ≡ (w', some path)
      → IsJudged w w' path
  in_dir-IsJudged well site label w w' path none h =
      absurd (let h' : none ≡ some path = ap (λ r. r.1) h in cc)
  in_dir-IsJudged well site label w w' path (some dir) h =
      dumped-IsJudged well (dir ++ (codes "/" ++ name_of env site label w))
        (name_of env site label w) w w' path (env.dump w) refl h

  hooked-IsJudged :
      GoesWell
      → (site : Site) (label : List ℕ) (r : World Rest × Bool) (w' : World Rest) (path : List ℕ)
      → hooked env site label r ≡ (w', some path)
      → IsJudged r.0 w' path
  hooked-IsJudged well site label (w, true) w' path h =
      in_dir-IsJudged well site label w w' path (env.snapshots_dir w) h
  hooked-IsJudged well site label (w, false) w' path h =
      absurd (let h' : none ≡ some path = ap (λ r. r.1) h in cc)

  -- A snapshot that was just taken passes the check of its checksum exactly if the hash of the
  -- compressed dump is the hash of the dump, and is refused as a mismatch otherwise: where every file
  -- is written, the hooks after a snapshot leave the files alone, and hashes are 64 hexadecimal digits.
  pub verify_checksum-snapshot_locked :
      GoesWell
      → (site : Site) (label : List ℕ) (w w' : World Rest) (path : List ℕ)
      → snapshot_locked env site label w ≡ (w', some path)
      → IsJudged (env.pre_snapshot w).0 w' path
  unfolding snapshot_locked
  verify_checksum-snapshot_locked well site label w w' path h =
      hooked-IsJudged well site label (env.pre_snapshot w) w' path h
