-- ===== src/ThreadPool/Races.antt =====
-- StudentManagementServer/CThreadPool.cpp: Wait clears `m_IsRunning` without the mutex, between a
-- worker's test of it and its sleep.
use school_information_manag.Prelude.{ℕ, ◌<◌, ◌≡◌, refl, subst, sym, false, some, ◌==◌, ==_iff}
use school_information_manag.ThreadPool.{
  Worker, checked, asleep, Owner, joining, Shared, Pool, update, woken, WorkerMove, wait, sleep,
  OwnerMove, push, push_null, notify_one, notify_nobody, stop_running, notify_all, joined, run_left,
  finish, worker, main, Reach, start, later, init,
}

-- Worker `i` sleeps after `notify_all`.
abbrev pub lost : ℕ → Pool
lost i = record {
  shared = record init.shared { is_running = false };
  owner = joining;
  workers = update (λ j. woken (update init.workers i checked j)) i asleep;
}

-- Steps of all threads but worker `i`, which waits for a notification.
pub data Others (n i : ℕ) : Pool → Pool → Type 0 where
  here : {s : Pool} → Others n i s s
  by_owner :
      {s t : Pool} {m : Shared} {o : Owner} {f : ℕ → Worker}
      → Others n i s t
      → OwnerMove n t.shared t.workers t.owner m o f
      → Others n i s (record { shared = m; owner = o; workers = f })
  by_worker :
      {s t : Pool} (j : ℕ) {m : Shared} {w : Worker}
      → Others n i s t
      → j < n
      → (j == i) ≡ false
      → WorkerMove t.shared j (t.workers j) m w
      → Others n i s (record t { shared = m; workers = update t.workers j w })

Others-Reach : {n i : ℕ} {s t : Pool} → Others n i s t → Reach n s → Reach n t
Others-Reach here r = r
Others-Reach (by_owner h mv) r = later (Others-Reach h r) (main mv)
Others-Reach (by_worker j h l e mv) r = later (Others-Reach h r) (worker j l mv)

lost-Reach : (n i : ℕ) → i < n → Reach n (lost i)
lost-Reach n i l =
    let checks : Reach n (record init {
      shared = record init.shared { lock = some i };
      workers = update init.workers i checked;
    }) =
      later start (worker i l (wait refl refl refl)) in
    let told : Reach n (record {
      shared = record init.shared { lock = some i; is_running = false };
      owner = joining;
      workers = λ j. woken (update init.workers i checked j);
    }) =
      later (later checks (main stop_running)) (main notify_all) in
    let awake : woken (update init.workers i checked i) ≡ checked = rw ((==_iff i i).1 refl) refl in
    later told (
      worker i l (
        subst
          (λ v.
            WorkerMove (record init.shared { lock = some i; is_running = false }) i v
              (record init.shared { is_running = false }) asleep)
          (sym awake) sleep))

OwnerMove-waits :
    {n i : ℕ} {m m' : Shared} {f f' : ℕ → Worker} {o o' : Owner}
    → i < n
    → OwnerMove n m f o m' o' f'
    → o ≡ joining
    → f i ≡ asleep
    → (o' ≡ joining) × (f' i ≡ asleep)
OwnerMove-waits l (push t k) e a = absurd (cc e)
OwnerMove-waits l (push_null k) e a = absurd (cc e)
OwnerMove-waits l (notify_one j k b) e a = absurd (cc e)
OwnerMove-waits l (notify_nobody b) e a = absurd (cc e)
OwnerMove-waits l stop_running e a = absurd (cc e)
OwnerMove-waits l notify_all e a = absurd (cc e)
OwnerMove-waits {i} l (joined h) e a = absurd (cc (h i l, a))
OwnerMove-waits l run_left e a = absurd (cc e)
OwnerMove-waits l finish e a = absurd (cc e)

stuck :
    {n i : ℕ} {s t : Pool}
    → i < n
    → Others n i s t
    → s.owner ≡ joining
    → s.workers i ≡ asleep
    → (t.owner ≡ joining) × (t.workers i ≡ asleep)
stuck l here o w = (o, w)
stuck l (by_owner {t} h mv) o w =
    let before = stuck l h o w in OwnerMove-waits l mv before.0 before.1
stuck {i} l (by_worker {t} j {m} {w} h k e mv) o a =
    let before = stuck l h o a in (before.0, rw e before.1)

-- A worker that finds nothing to do while `Wait` clears the flag, and goes to sleep after
-- `notify_all`, is waited for in vain: such a state can be reached for every worker, and from it no
-- steps of the other threads and of the owner lead anywhere but to states, reached as well, in which
-- the owner still joins the threads and the worker still sleeps.
pub wait_hangs :
    {n i : ℕ} {t : Pool}
    → i < n
    → Others n i (lost i) t
    → Reach n t × (t.owner ≡ joining) × (t.workers i ≡ asleep)
wait_hangs {n} {i} l h =
    let before = stuck l h refl (rw ((==_iff i i).1 refl) refl) in
    (Others-Reach h (lost-Reach n i l), before.0, before.1)
