-- ===== src/Daemon/Progress.antt =====
-- internal/daemon/lock.go: Acquire and Release end, whatever other processes do.
use locorum.Common.{
  ℕ, ◌+◌, ◌-◌, ◌≤◌, ◌≡◌, refl, ap, ◌∙◌, Bool, true, false, none, some, List, [], ◌∷◌, Bool-cases,
  Option-cases, inl, inr, ◌==◌, ==_iff, if◌then◌else◌, arith,
}
use mathlib.Core.Path.{subst}
use locorum.Daemon.{
  Control, idle, opening, reading_owner, removing_file, removing_info, opening_again, exited,
  locking, locking_again, writing_info, abandoning, owning, dropping_info, dropping_file, unlocking,
  judging, System, update, goto, open_file, lock, process_alive, when, call, start_acquire,
  start_release, Action, acquire, release, crash, advance, perform, run,
}

-- The calls that a process still makes at most, until it owns the lock or is done.
abbrev pub calls_left : Control → ℕ
calls_left idle = 0
calls_left exited = 0
calls_left (owning i) = 0
calls_left (abandoning i) = 1
calls_left (writing_info i) = 2
calls_left (locking_again i) = 3
calls_left opening_again = 4
calls_left removing_info = 5
calls_left removing_file = 6
calls_left (judging o) = 7
calls_left reading_owner = 8
calls_left (locking i) = 9
calls_left opening = 10
calls_left (unlocking i) = 1
calls_left (dropping_file i) = 2
calls_left (dropping_info i) = 3

-- The number of calls of a process in a sequence.
abbrev pub own_calls : ℕ → List Action → ℕ
own_calls p [] = 0
own_calls p (advance q fails ∷ actions) = (if q == p then 1 else 0) + own_calls p actions
own_calls p (_ ∷ actions) = own_calls p actions

-- The process starts nothing and does not crash.
abbrev pub is_started : ℕ → Action → Bool
is_started p (acquire q) = q == p
is_started p (release q) = q == p
is_started p (crash q) = q == p
is_started p (advance q fails) = false

abbrev pub Continues : ℕ → List Action → Type 0
Continues p [] = Unit
Continues p (a ∷ actions) = (is_started p a ≡ false) × Continues p actions

-- What a call does to the places of processes: the caller moves on, by one call at least, and no other
-- process moves.
abbrev Moves : ℕ → Control → System → System → Type 0
Moves p c s s' =
    (c' : Control) × (calls_left c' ≤ calls_left c - 1)
    × ((q : ℕ) → s'.control q ≡ update s.control p c' q)

module _ (p : ℕ) (s : System) where
  goto-Moves : (c c' : Control) → calls_left c' ≤ calls_left c - 1 → Moves p c s (goto p c' s)
  goto-Moves c c' h = (c', h, λ q. refl)

  if-Moves :
      (b : Bool) (c : Control) (x y : System)
      → Moves p c s x
      → Moves p c s y
      → Moves p c s (if b then x else y)
  if-Moves true c x y hx hy = hx
  if-Moves false c x y hx hy = hy

  rests-Moves : (c : Control) → s.control p ≡ c → calls_left c ≡ 0 → Moves p c s s
  rests-Moves c e done = (
    c,
    omega (arith, done),
    λ q. elim (Bool-cases (q == p)) [
      | inl k ↦ rw (k) (ap s.control ((==_iff q p).0 k) ∙ e)
      | inr k ↦ rw (k) refl
    ],
  )

  lock-Moves :
      (c refused : Control) (i : ℕ)
      → 2 ≤ calls_left c - 1
      → calls_left refused ≤ calls_left c - 1
      → Moves p c s (lock p i refused s)
  lock-Moves c refused i h h' = elim (Option-cases (s.holder i)) [
    | inl e ↦ rw (e, lock) (writing_info i, h, λ q. refl)
    | inr (r, e) ↦ rw (e, lock) (refused, h', λ q. refl)
  ]

  open_file-Moves :
      (c : Control) (locks : ℕ → Control)
      → ((i : ℕ) → calls_left (locks i) ≤ calls_left c - 1)
      → Moves p c s (open_file p locks s)
  open_file-Moves c locks h = elim (Option-cases s.path) [
    | inl e ↦ rw (e, open_file) (locks s.next, h s.next, λ q. refl)
    | inr (i, e) ↦ rw (e, open_file) (locks i, h i, λ q. refl)
  ]

  changed-Moves :
      (c c' : Control) (fails : Bool) (s' : System)
      → calls_left c' ≤ calls_left c - 1
      → s'.control ≡ s.control
      → Moves p c s (goto p c' (when fails s s'))
  changed-Moves c c' true s' h e = (c', h, λ q. refl)
  changed-Moves c c' false s' h e = (c', h, λ q. ap (λ f. update f p c' q) e)

  call-Moves : (fails : Bool) (c : Control) → s.control p ≡ c → Moves p c s (call p fails c s)
  call-Moves fails idle e = rests-Moves idle e refl
  call-Moves fails exited e = rests-Moves exited e refl
  call-Moves fails (owning i) e = rests-Moves (owning i) e refl
  call-Moves fails opening e =
      if-Moves fails opening (goto p idle s) (open_file p locking s)
        (goto-Moves opening idle (omega arith)) (open_file-Moves opening locking (λ i. omega arith))
  call-Moves fails opening_again e =
      if-Moves fails opening_again (goto p idle s) (open_file p locking_again s)
        (goto-Moves opening_again idle (omega arith))
        (open_file-Moves opening_again locking_again (λ i. omega arith))
  call-Moves fails (locking i) e =
      if-Moves fails (locking i) (goto p reading_owner s) (lock p i reading_owner s)
        (goto-Moves (locking i) reading_owner (omega arith))
        (lock-Moves (locking i) reading_owner i (omega arith) (omega arith))
  call-Moves fails (locking_again i) e =
      if-Moves fails (locking_again i) (goto p idle s) (lock p i idle s)
        (goto-Moves (locking_again i) idle (omega arith))
        (lock-Moves (locking_again i) idle i (omega arith) (omega arith))
  call-Moves fails reading_owner e =
      goto-Moves reading_owner (judging (if fails then none else s.info)) (omega arith)
  call-Moves fails (judging o) e =
      if-Moves (process_alive s o) (judging o) (goto p idle s) (goto p removing_file s)
        (goto-Moves (judging o) idle (omega arith))
        (goto-Moves (judging o) removing_file (omega arith))
  call-Moves fails removing_file e =
      changed-Moves removing_file removing_info fails (record s { path = none }) (omega arith) refl
  call-Moves fails removing_info e =
      changed-Moves removing_info opening_again fails (record s { info = none }) (omega arith) refl
  call-Moves fails (writing_info i) e =
      if-Moves fails (writing_info i) (goto p (abandoning i) s)
        (goto p (owning i) (record s { info = some p }))
        (goto-Moves (writing_info i) (abandoning i) (omega arith))
        (owning i, omega arith, λ q. refl)
  call-Moves fails (abandoning i) e = (idle, omega arith, λ q. refl)
  call-Moves fails (unlocking i) e = (idle, omega arith, λ q. refl)
  call-Moves fails (dropping_info i) e =
      changed-Moves (dropping_info i) (dropping_file i) fails (record s { info = none })
        (omega arith) refl
  call-Moves fails (dropping_file i) e =
      changed-Moves (dropping_file i) (unlocking i) fails (record s { path = none }) (omega arith)
        refl

abbrev left : ℕ → System → ℕ
left p s = calls_left (s.control p)

eq_flip : (p q : ℕ) → q == p ≡ false → p == q ≡ false
eq_flip p q h = ground arith

eq_flip_true : (p q : ℕ) → q == p ≡ true → p == q ≡ true
eq_flip_true p q h = ground arith

update_self : (f : ℕ → Control) (p q : ℕ) (c : Control) → q == p ≡ true → update f q c p ≡ c
update_self f p q c h = rw (eq_flip_true p q h) refl

-- A process that moves to another place leaves the places of others.
update_other : (f : ℕ → Control) (p q : ℕ) (c : Control) → q == p ≡ false → update f q c p ≡ f p
update_other f p q c h = rw (eq_flip p q h) refl

left-call :
    (p q : ℕ) (fails : Bool) (s : System)
    → left p (perform (advance q fails) s) ≤ left p s - (if q == p then 1 else 0)
left-call p q fails s =
    let (c, less, moved) = call-Moves q s fails (s.control q) refl in
    elim (Bool-cases (q == p)) [
      | inl e ↦
          rw (e, moved p, update_self s.control p q c e)
            (subst (λ r. calls_left c ≤ calls_left (s.control r) - 1) ((==_iff q p).0 e) less)
      | inr e ↦ rw (e, moved p, update_other s.control p q c e) (omega arith)
    ]

-- What another process starts leaves the place of the process.
left_started :
    (p : ℕ) (a : Action) (s : System)
    → is_started p a ≡ false
    → left p (perform a s) ≤ left p s - own_calls p (a ∷ [])
left_started p (advance q fails) s h = omega (arith, left-call p q fails s)
left_started p (crash q) s h = rw (update_other s.control p q exited h) (omega arith)
left_started p (acquire q) s h = go (s.control q)
  where
    go : (c : Control) → left p (start_acquire q c s) ≤ left p s - 0
    go idle = rw (update_other s.control p q opening h) (omega arith)
    go _ = omega arith
left_started p (release q) s h = go (s.control q)
  where
    go : (c : Control) → left p (start_release q c s) ≤ left p s - 0
    go (owning i) = rw (update_other s.control p q (dropping_info i) h) (omega arith)
    go _ = omega arith

own_calls-cons :
    (p : ℕ) (a : Action) (actions : List Action)
    → own_calls p (a ∷ actions) ≡ own_calls p (a ∷ []) + own_calls p actions
own_calls-cons p (acquire q) actions = omega arith
own_calls-cons p (release q) actions = omega arith
own_calls-cons p (crash q) actions = omega arith
own_calls-cons p (advance q fails) actions = omega arith

left-run :
    (p : ℕ) (actions : List Action) (s : System)
    → Continues p actions
    → left p (run actions s) ≤ left p s - own_calls p actions
unfolding run
left-run p [] s h = omega arith
left-run p (a ∷ actions) s h = omega (
  arith,
  left-run p actions (perform a s) h.1,
  left_started p a s h.0,
  own_calls-cons p a actions,
)

-- A process that owns the lock, or is in no call of Acquire or Release.
abbrev pub IsSettled : Control → Type 0
IsSettled idle = Unit
IsSettled exited = Unit
IsSettled (owning i) = Unit
IsSettled _ = ⊥

calls_left-IsSettled : (c : Control) → calls_left c ≡ 0 → IsSettled c
calls_left-IsSettled idle h = tt
calls_left-IsSettled exited h = tt
calls_left-IsSettled (owning i) h = tt
calls_left-IsSettled _ h = omega arith

calls_left_bound : (c : Control) → calls_left c ≤ 10
calls_left_bound opening = omega arith
calls_left_bound _ = omega arith

-- `Acquire` and `Release` end: from any state, a process that makes ten calls more, and meanwhile does not
-- crash and is not called again, owns the lock or has returned, whatever other processes do and whichever
-- calls fail.
pub run-IsSettled :
    (p : ℕ) (actions : List Action) (s : System)
    → Continues p actions
    → 10 ≤ own_calls p actions
    → IsSettled ((run actions s).control p)
run-IsSettled p actions s continues enough =
    calls_left-IsSettled ((run actions s).control p)
      (omega (arith, left-run p actions s continues, calls_left_bound (s.control p), enough))
