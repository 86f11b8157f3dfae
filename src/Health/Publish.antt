-- ===== src/Health/Publish.antt =====
-- internal/health/runner.go: what `publish` leaves in a snapshot and in the runner's state.
use locorum.Common.{
  ℕ, ◌+◌, ◌≡◌, refl, sym, ap, ◌∙◌, Bool, true, false, ◌&&◌, ◌||◌, not, Option, none, some, List, [],
  ◌∷◌, ◌++◌, map, append-nil, if◌then◌else◌, Bool-cases, inl, inr, arith,
}
use locorum.Common.Text.{equals, equals-≡}
use mathlib.Core.Path.{subst}
use mathlib.Core.List.{Perm, perm_middle}
use mathlib.Core.List.Perm
use locorum.Health.{
  Finding, Snapshot, RunnerState, put, finding_key, less_text, less, insert, sort_onto, or_now,
  date_findings, has_key, publish,
}

abbrev pub dated : {A : Type 0} → ℕ → (List ℕ → Option ℕ) → Finding A → Finding A
dated now seen f = record f { detected = or_now now (seen (finding_key f)) }

-- Each finding comes before the next, or neither comes before the other.
abbrev pub before : {A : Type 0} → List (Finding A) → Finding A → Bool
before [] f = false
before (g ∷ gs) f = less g f

abbrev pub ordered : {A : Type 0} → List (Finding A) → Bool
ordered [] = true
ordered (f ∷ fs) = not (before fs f) && ordered fs

pub less_text-asym : (s t : List ℕ) → less_text s t ≡ true → less_text t s ≡ false
unfolding less_text
less_text-asym [] [] h = refl
less_text-asym (c ∷ s) [] h = cc
less_text-asym [] (d ∷ t) h = refl
less_text-asym (c ∷ s) (d ∷ t) h = ground (arith, less_text-asym s t)

equals_comm : (s t : List ℕ) → equals s t ≡ equals t s
unfolding equals
equals_comm [] [] = refl
equals_comm (c ∷ s) [] = refl
equals_comm [] (d ∷ t) = refl
equals_comm (c ∷ s) (d ∷ t) = ground (arith, equals_comm s t)

less-asym : {A : Type 0} (a b : Finding A) → less a b ≡ true → less b a ≡ false
unfolding less
less-asym a b h =
    ground (
      arith,
      equals_comm a.id b.id,
      less_text-asym a.id b.id,
      less_text-asym a.dedup_key b.dedup_key,
    )

insert-perm : {A : Type 0} (f : Finding A) (gs : List (Finding A)) → Perm (f ∷ gs) (insert f gs)
unfolding insert
insert-perm f [] = Perm.refl (f ∷ [])
insert-perm f (g ∷ gs) = elim (Bool-cases (less f g)) [
  | inl first ↦ rw (first) (Perm.refl (f ∷ g ∷ gs))
  | inr later ↦ rw (later) (Perm.trans (Perm.swap g f gs) (Perm.cons g (insert-perm f gs)))
]

sort_onto-perm :
    {A : Type 0} (sorted fs : List (Finding A)) → Perm (sorted ++ fs) (sort_onto sorted fs)
unfolding sort_onto
sort_onto-perm sorted [] = rw (append-nil sorted) (Perm.refl sorted)
sort_onto-perm sorted (f ∷ fs) =
    Perm.trans (perm_middle sorted fs) (
      Perm.trans (Perm.append_right fs (insert-perm f sorted))
        (sort_onto-perm (insert f sorted) fs))

-- What is put in stands behind `g` where it is not less than `g`.
before-insert :
    {A : Type 0} (f g : Finding A) (gs : List (Finding A))
    → less f g ≡ false
    → before gs g ≡ false
    → before (insert f gs) g ≡ false
unfolding insert
before-insert f g [] h k = h
before-insert f g (x ∷ gs) h k = elim (Bool-cases (less f x)) [
  | inl first ↦ rw (first) h
  | inr later ↦ rw (later) k
]

insert-ordered :
    {A : Type 0} (f : Finding A) (gs : List (Finding A))
    → ordered gs ≡ true
    → ordered (insert f gs) ≡ true
unfolding insert
insert-ordered f [] h = refl
insert-ordered f (g ∷ gs) h = elim (Bool-cases (less f g)) [
  | inl first ↦ rw (first, less-asym f g first) h
  | inr later ↦
      let rest : ordered gs ≡ true = ground arith in
      let head : before gs g ≡ false = ground arith in
      rw (later, before-insert f g gs later head) (insert-ordered f gs rest)
]

sort_onto-ordered :
    {A : Type 0} (sorted fs : List (Finding A))
    → ordered sorted ≡ true
    → ordered (sort_onto sorted fs) ≡ true
unfolding sort_onto
sort_onto-ordered sorted [] h = h
sort_onto-ordered sorted (f ∷ fs) h =
    sort_onto-ordered (insert f sorted) fs (insert-ordered f sorted h)

-- Dating a finding does not change what a later one is dated.
or_now-put :
    (now : ℕ) (m : List ℕ → Option ℕ) (key key' : List ℕ)
    → or_now now (put m key (some (or_now now (m key))) key') ≡ or_now now (m key')
or_now-put now m key key' = elim (Bool-cases (equals key' key)) [
  | inl same ↦ rw (same) (ap (λ k. or_now now (m k)) (sym (equals-≡ key' key same)))
  | inr other ↦ rw (other) refl
]

seen_put :
    (now : ℕ) (m : List ℕ → Option ℕ) (key key' : List ℕ) (b : Bool)
    → (if b
        then some (or_now now (put m key (some (or_now now (m key))) key'))
        else put m key (some (or_now now (m key))) key')
      ≡ (if equals key' key || b then some (or_now now (m key')) else m key')
seen_put now m key key' b = elim (Bool-cases (equals key' key)) [
  | inl same ↦
      let e : some (or_now now (m key)) ≡ some (or_now now (m key')) =
        ap (λ k. some (or_now now (m k))) (sym (equals-≡ key' key same)) in
      rw (same)
        (elim b
          as (λ b'.
            (if b' then some (or_now now (m key)) else some (or_now now (m key)))
            ≡ some (or_now now (m key'))) [ true ↦ e | false ↦ e ])
  | inr other ↦ rw (other) refl
]

module _ {A : Type 0} (now : ℕ) where
  date_findings-map :
      (fs : List (Finding A)) (m m₀ : List ℕ → Option ℕ)
      → ((key : List ℕ) → or_now now (m key) ≡ or_now now (m₀ key))
      → (date_findings now fs m).0 ≡ map (dated now m₀) fs
  unfolding date_findings
  date_findings-map [] m m₀ h = refl
  date_findings-map (f ∷ fs) m m₀ h =
      let key = finding_key f in
      let rest =
        date_findings-map fs (put m key (some (or_now now (m key)))) m₀
          (λ key'. or_now-put now m key key' ∙ h key') in
      λ i. record f { detected = h key i } ∷ rest i

  date_findings-seen :
      (fs : List (Finding A)) (m : List ℕ → Option ℕ) (key : List ℕ)
      → (date_findings now fs m).1 key
        ≡ (if has_key key fs then some (or_now now (m key)) else m key)
  unfolding date_findings
  date_findings-seen [] m key = refl
  date_findings-seen (f ∷ fs) m key =
      date_findings-seen fs (put m (finding_key f) (some (or_now now (m (finding_key f))))) key
      ∙ seen_put now m (finding_key f) key (has_key key fs)

-- After a publication, the keys that were first seen at some time are those of the findings collected,
-- each at the time that the state had for it, or now where it had none.
pub publish-first_seen :
    {A : Type 0} (now : ℕ) (collected : List (Finding A)) (s : RunnerState) (prev : Snapshot A)
    (key : List ℕ)
    → (publish now collected (s, prev)).0.first_seen key
      ≡ (if has_key key collected then some (or_now now (s.first_seen key)) else none)
unfolding publish
publish-first_seen now collected s prev key = elim (Bool-cases (has_key key collected)) [
  | inl here ↦ rw (here) (date_findings-seen now collected s.first_seen key ∙ rw (here) refl)
  | inr gone ↦ rw (gone) refl
]

-- The findings of a snapshot are dated by what the state had, and sorted by `less`.
pub publish-ordered :
    {A : Type 0} (now : ℕ) (collected : List (Finding A)) (s : RunnerState) (prev : Snapshot A)
    → let next = (publish now collected (s, prev)).1 in
      Perm (map (dated now s.first_seen) collected) next.findings
      × (ordered next.findings ≡ true)
      × (next.generation ≡ prev.generation + 1)
unfolding publish
publish-ordered {A} now collected s prev =
    let findings = (date_findings now collected s.first_seen).0 in
    let same = date_findings-map now collected s.first_seen s.first_seen (λ key. refl) in
    (
      subst (λ fs. Perm fs (sort_onto [] findings)) same (sort_onto-perm [] findings),
      sort_onto-ordered [] findings refl,
      refl,
    )
