-- ===== src/Snapshots/Parts.antt =====
-- internal/sites/snapshot.go: the parts of a name, and its extension.
use locorum.Common.{
  ℕ, ◌≡◌, refl, ap, ◌∙◌, ◌&&◌, not, Bool, true, false, none, some, List, [], ◌∷◌, ◌++◌, ◌==◌,
  length, length-append, inl, inr, Bool-cases, Option-cases, arith,
}
use locorum.Common.Text.{codes, equals, equals-≡, equals_refl}
use locorum.Snapshots.{snapshot_sep, ext_zstd, ext_gzip, onto, strip_suffix, head_onto, split_sep}

-- No two dashes in a row, and no dash at the end: a part that another one can follow.
abbrev pub is_part : List ℕ → Bool
is_part [] = true
is_part (c ∷ []) = not (c == b'-')
is_part (c ∷ d ∷ s) = not (c == b'-' && d == b'-') && is_part (d ∷ s)

-- No two dashes in a row.
abbrev pub is_last_part : List ℕ → Bool
is_last_part [] = true
is_last_part (c ∷ []) = true
is_last_part (c ∷ d ∷ s) = not (c == b'-' && d == b'-') && is_last_part (d ∷ s)

split_sep_apart :
    (c d : ℕ) (s : List ℕ)
    → (c == b'-' && d == b'-') ≡ false
    → split_sep (c ∷ d ∷ s) ≡ head_onto c (split_sep (d ∷ s))
unfolding split_sep
split_sep_apart c d s h = rw h refl

pub split_sep-append :
    (s t : List ℕ) → is_part s ≡ true → split_sep (s ++ (snapshot_sep ++ t)) ≡ s ∷ split_sep t
split_sep-append [] t h = unfold split_sep in refl
split_sep-append (c ∷ []) t h =
    split_sep_apart c b'-' (b'-' ∷ t) (ground arith) ∙ ap (head_onto c) (split_sep-append [] t refl)
split_sep-append (c ∷ d ∷ s) t h =
    let apart : (c == b'-' && d == b'-') ≡ false = ground arith in
    let rest : is_part (d ∷ s) ≡ true = ground arith in
    split_sep_apart c d (s ++ (snapshot_sep ++ t)) apart
    ∙ ap (head_onto c) (split_sep-append (d ∷ s) t rest)

pub split_sep_last : (s : List ℕ) → is_last_part s ≡ true → split_sep s ≡ s ∷ []
split_sep_last [] h = unfold split_sep in refl
split_sep_last (c ∷ []) h = unfold split_sep in refl
split_sep_last (c ∷ d ∷ s) h =
    let apart : (c == b'-' && d == b'-') ≡ false = ground arith in
    let rest : is_last_part (d ∷ s) ≡ true = ground arith in
    split_sep_apart c d s apart ∙ ap (head_onto c) (split_sep_last (d ∷ s) rest)

equals_longer : (c : ℕ) (s ext : List ℕ) → equals (c ∷ (s ++ ext)) ext ≡ false
equals_longer c s ext = elim (Bool-cases (equals (c ∷ (s ++ ext)) ext)) [
  | inl e ↦
      let same = equals-≡ (c ∷ (s ++ ext)) ext e in
      absurd (omega (arith, ap length same, length-append s ext))
  | inr e ↦ e
]

pub strip_suffix-append : (s ext : List ℕ) → strip_suffix ext (s ++ ext) ≡ some s
unfolding strip_suffix equals
strip_suffix-append [] [] = refl
strip_suffix-append [] (e ∷ ext) = rw (equals_refl (e ∷ ext)) refl
strip_suffix-append (c ∷ s) ext =
    rw (equals_longer c s ext) (ap (onto c) (strip_suffix-append s ext))

-- What a suffix is stripped from ends with it.
strip_suffix-some : (ext s r : List ℕ) → strip_suffix ext s ≡ some r → s ≡ r ++ ext
unfolding strip_suffix
strip_suffix-some ext [] r h = elim (Bool-cases (equals [] ext)) [
  | inl e ↦
      let h' : some [] ≡ some r = rw e at h in
      let none_left : [] ≡ r = cc in rw (← none_left) (equals-≡ [] ext e)
  | inr e ↦ absurd (let h' : none ≡ some r = rw e at h in cc)
]
strip_suffix-some ext (c ∷ s) r h = elim (Bool-cases (equals (c ∷ s) ext)) [
  | inl e ↦
      let h' : some [] ≡ some r = rw e at h in
      let none_left : [] ≡ r = cc in rw (← none_left) (equals-≡ (c ∷ s) ext e)
  | inr e ↦ elim (Option-cases (strip_suffix ext s)) [
    | inl stuck ↦ absurd (let h' : none ≡ some r = rw (e, stuck) at h in cc)
    | inr (r', found) ↦
        let h' : some (c ∷ r') ≡ some r = rw (e, found) at h in
        let same : c ∷ r' ≡ r = cc in
        rw (← same) (ap (λ t. c ∷ t) (strip_suffix-some ext s r' found))
  ]
]

last_or : ℕ → List ℕ → ℕ
last_or d [] = d
last_or d (c ∷ s) = last_or c s

last_or-append : (d : ℕ) (s : List ℕ) (c : ℕ) (t : List ℕ) → last_or d (s ++ c ∷ t) ≡ last_or c t
unfolding last_or
last_or-append d [] c t = refl
last_or-append d (e ∷ s) c t = last_or-append e s c t

pub strip_suffix-gzip : (s : List ℕ) → strip_suffix ext_zstd (s ++ ext_gzip) ≡ none
unfolding last_or
strip_suffix-gzip s = elim (Option-cases (strip_suffix ext_zstd (s ++ ext_gzip))) [
  | inl e ↦ e
  | inr (r, e) ↦
      let same = strip_suffix-some ext_zstd (s ++ ext_gzip) r e in
      let ends : last_or 0 (s ++ ext_gzip) ≡ last_or 0 (r ++ ext_zstd) = ap (last_or 0) same in
      absurd (
        omega (
          arith,
          ends,
          last_or-append 0 s b'.' (codes "sql.gz"),
          last_or-append 0 r b'.' (codes "sql.zst"),
        ))
]
