-- ===== src/Daemon/Exclusion.antt =====
-- internal/daemon/lock.go: one owner at a time, as long as the lock file is not removed.
use locorum.Common.{
  ℕ, suc, ◌≡◌, refl, sym, ap, ◌∙◌, Bool, true, false, Option, none, some, List, [], ◌∷◌, Bool-cases,
  Option-cases, inl, inr, ◌==◌, if◌then◌else◌,
}
use locorum.Daemon.{
  Control, idle, opening, reading_owner, removing_file, removing_info, opening_again, exited,
  locking, locking_again, writing_info, abandoning, owning, dropping_info, dropping_file, unlocking,
  judging, System, goto, open_file, lock, process_alive, when, call, start_acquire, start_release,
  Action, acquire, release, crash, advance, perform, run, start,
}
use locorum.Daemon.Holders.{held, none-some, some_injective}
use locorum.Daemon.Table.{run-IsTable}

-- The file that a process has opened to lock it, or has locked, until it has removed it.
abbrev pub uses : Control → Option ℕ
uses (locking i) = some i
uses (locking_again i) = some i
uses (unlocking i) = none
uses c = held c

-- Whether a process removes the lock file next.
abbrev pub is_removing : Control → Bool
is_removing removing_file = true
is_removing (dropping_file i) = true
is_removing _ = false

-- An action that removes the lock file does so while no other process uses a file.
abbrev pub RemovesAlone : Action → System → Type 0
RemovesAlone (advance p fails) s =
    is_removing (s.control p) ≡ true → (q : ℕ) → q == p ≡ false → uses (s.control q) ≡ none
RemovesAlone _ s = Unit

abbrev pub AllAlone : List Action → System → Type 0
AllAlone [] s = Unit
AllAlone (a ∷ actions) s = RemovesAlone a s × AllAlone actions (perform a s)

-- Every file in use is the one that the path names.
abbrev IsNamed : System → Type 0
IsNamed s = (p i : ℕ) → uses (s.control p) ≡ some i → s.path ≡ some i

module _ (p : ℕ) (s : System) (ok : IsNamed s) where
  goto-IsNamed :
      (c : Control) → ((i : ℕ) → uses c ≡ some i → s.path ≡ some i) → IsNamed (goto p c s)
  goto-IsNamed c named q i = elim (Bool-cases (q == p)) [
    | inl e ↦ rw (e) (named i)
    | inr e ↦ rw (e) (ok q i)
  ]

  leaves-IsNamed : (c : Control) → uses c ≡ none → IsNamed (goto p c s)
  leaves-IsNamed c free = goto-IsNamed c (λ i h. absurd (none-some free h))

  stays-IsNamed : (c : Control) → uses c ≡ uses (s.control p) → IsNamed (goto p c s)
  stays-IsNamed c same = goto-IsNamed c (λ i h. ok p i (sym same ∙ h))

  lock-IsNamed :
      (i : ℕ) (refused : Control)
      → uses (s.control p) ≡ some i
      → uses refused ≡ none
      → IsNamed (lock p i refused s)
  lock-IsNamed i refused using free = elim (Option-cases (s.holder i)) [
    | inl e ↦ rw (e, lock) (stays-IsNamed (writing_info i) (sym using))
    | inr (q, e) ↦ rw (e, lock) (leaves-IsNamed refused free)
  ]

  -- A new file is the one that the path names, and there was none in use.
  create-IsNamed :
      (locks : ℕ → Control)
      → s.path ≡ none
      → ((i : ℕ) → uses (locks i) ≡ some i)
      → IsNamed (goto p (locks s.next) (record s { path = some s.next; next = suc s.next }))
  create-IsNamed locks unnamed using q i = elim (Bool-cases (q == p)) [
    | inl e ↦ rw (e) (λ h. sym (using s.next) ∙ h)
    | inr e ↦ rw (e) (λ h. absurd (none-some unnamed (ok q i h)))
  ]

  open_file-IsNamed :
      (locks : ℕ → Control) → ((i : ℕ) → uses (locks i) ≡ some i) → IsNamed (open_file p locks s)
  open_file-IsNamed locks using = elim (Option-cases s.path) [
    | inl e ↦ rw (e, open_file) (create-IsNamed locks e using)
    | inr (i, e) ↦ rw (e, open_file) (goto-IsNamed (locks i) (λ j h. e ∙ sym (using i) ∙ h))
  ]

  if-IsNamed : (b : Bool) (x y : System) → IsNamed x → IsNamed y → IsNamed (if b then x else y)
  if-IsNamed true x y hx hy = hx
  if-IsNamed false x y hx hy = hy

  changed-IsNamed :
      (c : Control) (fails : Bool)
      → uses c ≡ uses (s.control p)
      → IsNamed (goto p c (when fails s (record s { info = none })))
  changed-IsNamed c true same = stays-IsNamed c same
  changed-IsNamed c false same = stays-IsNamed c same

  removed-IsNamed :
      (c : Control) (fails : Bool)
      → uses c ≡ none
      → ((q : ℕ) → q == p ≡ false → uses (s.control q) ≡ none)
      → IsNamed (goto p c (when fails s (record s { path = none })))
  removed-IsNamed c true free alone q i = leaves-IsNamed c free q i
  removed-IsNamed c false free alone q i = elim (Bool-cases (q == p)) [
    | inl e ↦ rw (e) (λ h. absurd (none-some free h))
    | inr e ↦ rw (e) (λ h. absurd (none-some (alone q e) h))
  ]

  call-IsNamed :
      (fails : Bool) (c : Control)
      → s.control p ≡ c
      → RemovesAlone (advance p fails) s
      → IsNamed (call p fails c s)
  call-IsNamed fails idle e k = ok
  call-IsNamed fails exited e k = ok
  call-IsNamed fails (owning i) e k = ok
  call-IsNamed fails opening e k =
      if-IsNamed fails (goto p idle s) (open_file p locking s) (leaves-IsNamed idle refl)
        (open_file-IsNamed locking (λ i. refl))
  call-IsNamed fails opening_again e k =
      if-IsNamed fails (goto p idle s) (open_file p locking_again s) (leaves-IsNamed idle refl)
        (open_file-IsNamed locking_again (λ i. refl))
  call-IsNamed fails (locking i) e k =
      if-IsNamed fails (goto p reading_owner s) (lock p i reading_owner s)
        (leaves-IsNamed reading_owner refl) (lock-IsNamed i reading_owner (ap uses e) refl)
  call-IsNamed fails (locking_again i) e k =
      if-IsNamed fails (goto p idle s) (lock p i idle s) (leaves-IsNamed idle refl)
        (lock-IsNamed i idle (ap uses e) refl)
  call-IsNamed fails reading_owner e k =
      leaves-IsNamed (judging (if fails then none else s.info)) refl
  call-IsNamed fails (judging o) e k =
      if-IsNamed (process_alive s o) (goto p idle s) (goto p removing_file s)
        (leaves-IsNamed idle refl) (leaves-IsNamed removing_file refl)
  call-IsNamed fails removing_file e k =
      removed-IsNamed removing_info fails refl (k (ap is_removing e))
  call-IsNamed fails (dropping_file i) e k =
      removed-IsNamed (unlocking i) fails refl (k (ap is_removing e))
  call-IsNamed fails removing_info e k = changed-IsNamed opening_again fails (ap uses (sym e))
  call-IsNamed fails (writing_info i) e k =
      if-IsNamed fails (goto p (abandoning i) s) (goto p (owning i) (record s { info = some p }))
        (stays-IsNamed (abandoning i) (ap uses (sym e)))
        (stays-IsNamed (owning i) (ap uses (sym e)))
  call-IsNamed fails (abandoning i) e k = leaves-IsNamed idle refl
  call-IsNamed fails (unlocking i) e k = leaves-IsNamed idle refl
  call-IsNamed fails (dropping_info i) e k =
      changed-IsNamed (dropping_file i) fails (ap uses (sym e))

  start_acquire-IsNamed : (c : Control) → IsNamed (start_acquire p c s)
  start_acquire-IsNamed idle = leaves-IsNamed opening refl
  start_acquire-IsNamed _ = ok

  start_release-IsNamed : (c : Control) → s.control p ≡ c → IsNamed (start_release p c s)
  start_release-IsNamed (owning i) e = stays-IsNamed (dropping_info i) (ap uses (sym e))
  start_release-IsNamed _ e = ok

perform-IsNamed : (a : Action) (s : System) → RemovesAlone a s → IsNamed s → IsNamed (perform a s)
perform-IsNamed (acquire p) s k ok = start_acquire-IsNamed p s ok (s.control p)
perform-IsNamed (release p) s k ok = start_release-IsNamed p s ok (s.control p) refl
perform-IsNamed (crash p) s k ok = leaves-IsNamed p s ok exited refl
perform-IsNamed (advance p fails) s k ok = call-IsNamed p s ok fails (s.control p) refl k

run-IsNamed :
    (actions : List Action) (s : System) → AllAlone actions s → IsNamed s → IsNamed (run actions s)
unfolding run
run-IsNamed [] s k ok = ok
run-IsNamed (a ∷ actions) s k ok =
    run-IsNamed actions (perform a s) k.1 (perform-IsNamed a s k.0 ok)

-- As long as the lock file is removed only while no other process has opened or locked a lock file, two
-- processes that own the lock, one after `Acquire` and before `Release`, are the same process, whatever
-- else processes do in whatever order.
pub run_exclusive :
    (actions : List Action) (p q i j : ℕ)
    → AllAlone actions start
    → (run actions start).control p ≡ owning i
    → (run actions start).control q ≡ owning j
    → p ≡ q
run_exclusive actions p q i j alone hp hq =
    let named = run-IsNamed actions start alone (λ r k h. absurd (none-some refl h)) in
    let table = run-IsTable actions in
    let same : i ≡ j = some_injective (sym (named p i (ap uses hp)) ∙ named q j (ap uses hq)) in
    some_injective (
      sym ((table p i).0 (ap held hp))
      ∙ ap (run actions start).holder same
      ∙ (table q j).0 (ap held hq))
