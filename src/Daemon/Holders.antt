-- ===== src/Daemon/Holders.antt =====
-- internal/daemon/lock.go: a table of the locks that are held, and its changes.
use locorum.Common.{
  ℕ, ◌≡◌, ◌↔◌, refl, sym, ◌∙◌, true, false, Option, none, some, Bool-cases, inl, inr, ◌==◌, ==_iff,
  arith,
}
use locorum.Daemon.{
  Control, idle, opening, reading_owner, removing_file, removing_info, opening_again, exited,
  locking, locking_again, writing_info, abandoning, owning, dropping_info, dropping_file, unlocking,
  judging, update, forget,
}

-- The file whose lock a process has taken and not yet given back.
abbrev pub held : Control → Option ℕ
held idle = none
held opening = none
held reading_owner = none
held removing_file = none
held removing_info = none
held opening_again = none
held exited = none
held (locking i) = none
held (locking_again i) = none
held (judging o) = none
held (writing_info i) = some i
held (abandoning i) = some i
held (owning i) = some i
held (dropping_info i) = some i
held (dropping_file i) = some i
held (unlocking i) = some i

-- A process holds a file's lock exactly if it is the holder that the system has for the file.
abbrev pub Matches : (ℕ → Control) → (ℕ → Option ℕ) → Type 0
Matches control holder = (p i : ℕ) → (held (control p) ≡ some i) ↔ (holder i ≡ some p)

update_same : {A : Type 0} (f : ℕ → A) (p q : ℕ) (a : A) → q == p ≡ true → update f p a q ≡ a
update_same f p q a e = rw (e) refl

update_other : {A : Type 0} (f : ℕ → A) (p q : ℕ) (a : A) → q == p ≡ false → update f p a q ≡ f q
update_other f p q a e = rw (e) refl

differ : (a b : ℕ) → a == b ≡ false → a ≡ b → ⊥
differ a b e k = ground arith

pub none-some : {A : Type 0} {a : A} {o : Option A} → o ≡ none → o ≡ some a → ⊥
none-some e h = cc

pub some_injective : {a b : ℕ} → some a ≡ some b → a ≡ b
some_injective h = cc

pub neither : {A B : Type 0} → (A → ⊥) → (B → ⊥) → A ↔ B
neither f g = (λ a. absurd (f a), λ b. absurd (g b))

module _ (control : ℕ → Control) (holder : ℕ → Option ℕ) (p : ℕ) (c : Control)
    (ok : Matches control holder) where
  pub Matches-keeps : held c ≡ held (control p) → Matches (update control p c) holder
  Matches-keeps same q i = elim (Bool-cases (q == p)) [
    | inl e ↦ rw (e) (rw (same, (==_iff q p).0 e) (ok p i))
    | inr e ↦ rw (e) (ok q i)
  ]

  pub Matches-takes :
      (i : ℕ)
      → held (control p) ≡ none
      → holder i ≡ none
      → held c ≡ some i
      → Matches (update control p c) (update holder i (some p))
  Matches-takes i free unheld takes q j = elim (Bool-cases (q == p)) [
    | inl e ↦ elim (Bool-cases (j == i)) [
      | inl e' ↦ rw (e, e', takes, (==_iff q p).0 e, (==_iff j i).0 e') (λ h. refl, λ h. refl)
      | inr e' ↦
          rw (e, e', takes, (==_iff q p).0 e)
            (neither (λ h. differ j i e' (sym (some_injective h)))
              (λ h. none-some free ((ok p j).1 h)))
    ]
    | inr e ↦ elim (Bool-cases (j == i)) [
      | inl e' ↦
          rw (e, e', (==_iff j i).0 e')
            (neither (λ h. none-some unheld ((ok q i).0 h))
              (λ h. differ q p e (sym (some_injective h))))
      | inr e' ↦ rw (e, e') (ok q j)
    ]
  ]

  pub Matches-drops :
      (i : ℕ)
      → held (control p) ≡ some i
      → held c ≡ none
      → Matches (update control p c) (update holder i none)
  Matches-drops i holds drops q j = elim (Bool-cases (q == p)) [
    | inl e ↦ elim (Bool-cases (j == i)) [
      | inl e' ↦ rw (e, e', drops) (neither (none-some refl) (none-some refl))
      | inr e' ↦
          rw (e, e', drops, (==_iff q p).0 e)
            (neither (none-some refl)
              (λ h. differ j i e' (some_injective (sym ((ok p j).1 h) ∙ holds))))
    ]
    | inr e ↦ elim (Bool-cases (j == i)) [
      | inl e' ↦
          rw (e, e', (==_iff j i).0 e')
            (neither (λ h. differ q p e (some_injective (sym ((ok q i).0 h) ∙ (ok p i).0 holds)))
              (none-some refl))
      | inr e' ↦ rw (e, e') (ok q j)
    ]
  ]

forget_self : (p : ℕ) (o : Option ℕ) → forget p o ≡ some p → ⊥
forget_self p none h = cc
forget_self p (some r) h = elim (Bool-cases (r == p)) [
  | inl e ↦ none-some refl (rw (e) at h)
  | inr e ↦ differ r p e (some_injective (rw (e) at h))
]

forget_other : (p q : ℕ) (o : Option ℕ) → q == p ≡ false → (o ≡ some q) ↔ (forget p o ≡ some q)
forget_other p q none e = neither (none-some refl) (none-some refl)
forget_other p q (some r) e = elim (Bool-cases (r == p)) [
  | inl e' ↦
      rw (e')
        (neither (λ h. differ q p e (sym (some_injective h) ∙ (==_iff r p).0 e')) (none-some refl))
  | inr e' ↦ rw (e') (λ h. h, λ h. h)
]

pub Matches-exit :
    (control : ℕ → Control) (holder : ℕ → Option ℕ) (p : ℕ)
    → Matches control holder
    → Matches (update control p exited) (λ i. forget p (holder i))
Matches-exit control holder p ok q j = elim (Bool-cases (q == p)) [
  | inl e ↦ rw (e, (==_iff q p).0 e) (neither (none-some refl) (forget_self p (holder j)))
  | inr e ↦
      let (to, from) = ok q j in
      let (keep, back) = forget_other p q (holder j) e in
      rw (e) (λ h. keep (to h), λ h. from (back h))
]
