-- ===== src/ThreadPool/Once.antt =====
-- StudentManagementServer/CThreadPool.cpp: how often a task is added, held by a worker, and done.
use school_information_manag.Prelude.{
  ℕ, zero, suc, ◌+◌, ◌≡◌, ◌<◌, ◌≤◌, ◌≢◌, subst, refl, sym, ap, ◌∙◌, Bool, List, [], ◌∷◌, ◌++◌,
  arith, ◌==◌, if◌then◌else◌, ==_iff, Bool-cases, inl, inr,
}
use school_information_manag.ThreadPool.{
  Worker, locking, checked, asleep, taken, counting, busy, finishing, uncounting, exited, Owner,
  serving, added_one, stopping, joining, draining, ended, Shared, Pool, update, woken, WorkerMove,
  wait, sleep, spurious, stop, take, load, store, do_task, unload, unstore, OwnerMove, push,
  push_null, notify_one, notify_nobody, stop_running, notify_all, joined, run_left, finish, worker,
  main, Reach, start, later,
}
use school_information_manag.ThreadPool.Order.{left, first_come_first_served}

abbrev pub one_if : Bool → ℕ
one_if b = if b then 1 else 0

-- How often the task stands in the list.
abbrev pub count : ℕ → List ℕ → ℕ
count a [] = 0
count a (b ∷ bs) = one_if (a == b) + count a bs

pub count-append : (a : ℕ) (xs ys : List ℕ) → count a (xs ++ ys) ≡ count a xs + count a ys
count-append a [] ys = omega arith
count-append a (x ∷ xs) ys = rw (count-append a xs ys) (omega arith)

-- Whether a worker has taken the task and not yet done it.
abbrev pub holds : ℕ → Worker → ℕ
holds a (taken t) = one_if (a == t)
holds a (counting t v) = one_if (a == t)
holds a (busy t) = one_if (a == t)
holds a _ = 0

-- How many of the first `n` workers have.
abbrev pub in_hand : ℕ → ℕ → (ℕ → Worker) → ℕ
in_hand a zero f = 0
in_hand a (suc n) f = holds a (f n) + in_hand a n f

in_hand-beyond :
    (a n i : ℕ) (f : ℕ → Worker) (w : Worker) → n ≤ i → in_hand a n (update f i w) ≡ in_hand a n f
in_hand-beyond a zero i f w h = refl
in_hand-beyond a (suc n) i f w h = ground (arith, in_hand-beyond a n i f w (omega arith))

in_hand-update :
    (a n i : ℕ) (f : ℕ → Worker) (w : Worker)
    → i < n
    → in_hand a n (update f i w) + holds a (f i) ≡ in_hand a n f + holds a w
in_hand-update a zero i f w h = absurd (omega arith)
in_hand-update a (suc n) i f w h = elim (Bool-cases (i == n)) [
  | inl e ↦
      let same : i ≡ n = (==_iff i n).0 e in
      let kept : holds a (f i) ≡ holds a (f n) = ap (λ j. holds a (f j)) same in
      rw e (rw (in_hand-beyond a n i f w (omega (arith, same))) (rw kept (omega arith)))
  | inr e ↦
      let rest : in_hand a n (update f i w) + holds a (f i) ≡ in_hand a n f + holds a w =
        in_hand-update a n i f w (ground arith) in
      rw e (omega (arith, rest))
]

holds-woken : (a : ℕ) (w : Worker) → holds a (woken w) ≡ holds a w
holds-woken a asleep = refl
holds-woken a locking = refl
holds-woken a checked = refl
holds-woken a (taken t) = refl
holds-woken a (counting t v) = refl
holds-woken a (busy t) = refl
holds-woken a finishing = refl
holds-woken a (uncounting v) = refl
holds-woken a exited = refl

in_hand-woken : (a n : ℕ) (f : ℕ → Worker) → in_hand a n (λ i. woken (f i)) ≡ in_hand a n f
in_hand-woken a zero f = refl
in_hand-woken a (suc n) f = rw (holds-woken a (f n)) (rw (in_hand-woken a n f) refl)

in_hand-locking : (a n : ℕ) → in_hand a n (λ i. locking) ≡ 0
in_hand-locking a zero = refl
in_hand-locking a (suc n) = omega (arith, in_hand-locking a n)

in_hand-exited : (a n : ℕ) (f : ℕ → Worker) → ((i : ℕ) → i < n → f i ≡ exited) → in_hand a n f ≡ 0
in_hand-exited a zero f h = refl
in_hand-exited a (suc n) f h =
    rw (h n (omega arith)) (omega (arith, in_hand-exited a n f (λ i l. h i (omega arith))))

-- A task that was started is done or in a worker's hands.
abbrev Accounted : ℕ → ℕ → Shared → (ℕ → Worker) → Type 0
Accounted a n m f = count a m.started ≡ count a m.done + in_hand a n f

Accounted-move :
    (a n i : ℕ) (m m' : Shared) (f : ℕ → Worker) (w : Worker)
    → i < n
    → count a m'.started + holds a (f i) + count a m.done
      ≡ count a m.started + holds a w + count a m'.done
    → Accounted a n m f
    → Accounted a n m' (update f i w)
Accounted-move a n i m m' f w l e h =
    let moved : in_hand a n (update f i w) + holds a (f i) ≡ in_hand a n f + holds a w =
      in_hand-update a n i f w l in
    omega (arith, moved, e, h)

WorkerMove-count :
    (a : ℕ) {m m' : Shared} {i : ℕ} {w w' : Worker}
    → WorkerMove m i w m' w'
    → count a m'.started + holds a w + count a m.done
      ≡ count a m.started + holds a w' + count a m'.done
WorkerMove-count a (wait l q r) = refl
WorkerMove-count a sleep = refl
WorkerMove-count a spurious = refl
WorkerMove-count a (stop l r) = refl
WorkerMove-count a {m} (take t rest l r q) = rw (count-append a m.started (t ∷ [])) (omega arith)
WorkerMove-count a load = refl
WorkerMove-count a store = refl
WorkerMove-count a {m} (do_task {t}) = rw (count-append a m.done (t ∷ [])) (omega arith)
WorkerMove-count a unload = refl
WorkerMove-count a unstore = refl

OwnerMove-Accounted :
    (a n : ℕ) {m m' : Shared} {f f' : ℕ → Worker} {o o' : Owner}
    → OwnerMove n m f o m' o' f'
    → Accounted a n m f
    → Accounted a n m' f'
OwnerMove-Accounted a n (push t l) h = h
OwnerMove-Accounted a n (push_null l) h = h
OwnerMove-Accounted a n {m} {m'} {f} (notify_one i l e) h =
    Accounted-move a n i m m' f locking l (rw e refl) h
OwnerMove-Accounted a n (notify_nobody e) h = h
OwnerMove-Accounted a n stop_running h = h
OwnerMove-Accounted a n {m} {m'} {f} notify_all h =
    h ∙ ap (λ k. count a m.done + k) (sym (in_hand-woken a n f))
OwnerMove-Accounted a n (joined e) h = h
OwnerMove-Accounted a n {m} (run_left {t}) h =
    rw (count-append a m.started (t ∷ [])) (rw (count-append a m.done (t ∷ [])) (omega (arith, h)))
OwnerMove-Accounted a n finish h = h

Reach-Accounted : (a : ℕ) {n : ℕ} {s : Pool} → Reach n s → Accounted a n s.shared s.workers
Reach-Accounted a {n} start = sym (in_hand-locking a n) ∙ omega arith
Reach-Accounted a {n} (later {s} r (worker i {m} {w} l mv)) =
    Accounted-move a n i s.shared m s.workers w l (WorkerMove-count a mv) (Reach-Accounted a r)
Reach-Accounted a {n} (later r (main mv)) = OwnerMove-Accounted a n mv (Reach-Accounted a r)

-- Once Wait has joined the workers, they are gone.
abbrev Gone : Owner → ℕ → (ℕ → Worker) → Type 0
Gone (draining l) n f = (i : ℕ) → i < n → f i ≡ exited
Gone ended n f = (i : ℕ) → i < n → f i ≡ exited
Gone _ n f = Unit

exited_stays : {m m' : Shared} {i : ℕ} {v w : Worker} → WorkerMove m i v m' w → v ≢ exited
exited_stays (wait l q r) e = absurd (cc e)
exited_stays sleep e = absurd (cc e)
exited_stays spurious e = absurd (cc e)
exited_stays (stop l r) e = absurd (cc e)
exited_stays (take t rest l r q) e = absurd (cc e)
exited_stays load e = absurd (cc e)
exited_stays store e = absurd (cc e)
exited_stays do_task e = absurd (cc e)
exited_stays unload e = absurd (cc e)
exited_stays unstore e = absurd (cc e)

WorkerMove-Gone :
    (o : Owner) (n i : ℕ) {m m' : Shared} (f : ℕ → Worker) {w : Worker}
    → i < n
    → WorkerMove m i (f i) m' w
    → Gone o n f
    → Gone o n (update f i w)
WorkerMove-Gone serving n i f l mv h = tt
WorkerMove-Gone added_one n i f l mv h = tt
WorkerMove-Gone stopping n i f l mv h = tt
WorkerMove-Gone joining n i f l mv h = tt
WorkerMove-Gone (draining q) n i f l mv h = absurd (exited_stays mv (h i l))
WorkerMove-Gone ended n i f l mv h = absurd (exited_stays mv (h i l))

OwnerMove-Gone :
    (n : ℕ) {m m' : Shared} {f f' : ℕ → Worker} {o o' : Owner}
    → OwnerMove n m f o m' o' f'
    → Gone o n f
    → Gone o' n f'
OwnerMove-Gone n (push t l) h = tt
OwnerMove-Gone n (push_null l) h = tt
OwnerMove-Gone n (notify_one i l e) h = tt
OwnerMove-Gone n (notify_nobody e) h = tt
OwnerMove-Gone n stop_running h = tt
OwnerMove-Gone n notify_all h = tt
OwnerMove-Gone n (joined e) h = e
OwnerMove-Gone n run_left h = h
OwnerMove-Gone n finish h = h

Reach-Gone : {n : ℕ} {s : Pool} → Reach n s → Gone s.owner n s.workers
Reach-Gone start = tt
Reach-Gone {n} (later {s} r (worker i l mv)) =
    WorkerMove-Gone s.owner n i s.workers l mv (Reach-Gone r)
Reach-Gone {n} (later r (main mv)) = OwnerMove-Gone n mv (Reach-Gone r)

-- In every state that the threads can reach, in any order of their steps, each task has been added
-- as often as it is done, in a worker's hands and still waiting together.
pub accounted :
    {n : ℕ} {s : Pool} (a : ℕ)
    → Reach n s
    → count a s.shared.done + in_hand a n s.workers + count a (left s.owner s.shared)
      ≡ count a s.shared.added
accounted {n} {s} a r =
    let whole : count a s.shared.started + count a (left s.owner s.shared)
        ≡ count a s.shared.added =
      sym (count-append a s.shared.started (left s.owner s.shared))
      ∙ ap (count a) (first_come_first_served r) in
    omega (arith, whole, Reach-Accounted a r)

-- Where `Wait` has returned, in any order of the threads' steps before, each task has been done
-- exactly as often as it was added.
pub done_once :
    {n : ℕ} {s : Pool} (a : ℕ)
    → Reach n s
    → s.owner ≡ ended
    → count a s.shared.done ≡ count a s.shared.added
done_once {n} {s} a r e =
    let nothing_left : count a (left s.owner s.shared) ≡ 0 = rw e refl in
    let gone : (i : ℕ) → i < n → s.workers i ≡ exited =
      subst (λ o. Gone o n s.workers) e (Reach-Gone r) in
    omega (arith, accounted a r, nothing_left, in_hand-exited a n s.workers gone)
