-- ===== src/ThreadPool.antt =====
-- StudentManagementServer/CThreadPool.h and CThreadPool.cpp: the pool's worker threads and the
-- thread that adds tasks and in the end waits for the workers, a shared access at a time and in any
-- order. A task is a number. What is done under the mutex in one go is one step, but for the wait on
-- the condition variable, which gives the mutex back only once the thread sleeps; `lock` is the
-- thread that holds it between its look at the queue and its sleep.
pub mod Order
pub mod Once
pub mod Races
pub mod Full
use school_information_manag.Prelude.{
  ℕ, zero, suc, ◌+◌, ◌-◌, ◌%◌, ◌^◌, ◌<◌, ◌≡◌, ◌≢◌, Bool, true, false, Option, none, some, List, [],
  ◌∷◌, ◌++◌, ◌==◌, if◌then◌else◌,
}

-- Where a worker stands in WorkThread: about to take the mutex; with it, having found nothing to do;
-- asleep in the wait; with a task; between the load and the store of `m_nActiveThreads++`, with the
-- loaded value; in `DoTask`; behind it; between the load and the store of `m_nActiveThreads--`; gone.
pub data Worker : Type 0 where
  locking checked asleep : Worker
  taken : ℕ → Worker
  counting : ℕ → ℕ → Worker
  busy : ℕ → Worker
  finishing : Worker
  uncounting : ℕ → Worker
  exited : Worker

-- Where the owner of the pool stands: between its calls; in AddTask before `notify_one`; in Wait
-- before `notify_all`; joining the workers; running what is left; done.
pub data Owner : Type 0 where
  serving added_one stopping joining : Owner
  draining : List ℕ → Owner
  ended : Owner

-- The shared fields. The last three are no fields of the class: the tasks that were added, that were
-- taken, and that are done, in order.
pub record Shared : Type 0 where
  pub is_running : Bool
  pub lock : Option ℕ
  pub task_queue : List ℕ
  pub active_threads : ℕ
  pub added : List ℕ
  pub started : List ℕ
  pub done : List ℕ

pub record Pool : Type 0 where
  pub shared : Shared
  pub owner : Owner
  pub workers : ℕ → Worker

abbrev pub update : (ℕ → Worker) → ℕ → Worker → ℕ → Worker
update f i w j = if i == j then w else f j

-- One step of worker `i` in WorkThread. A wait may also end for no reason.
pub data WorkerMove (m : Shared) (i : ℕ) : Worker → Shared → Worker → Type 0 where
  wait :
      m.lock ≡ none
      → m.task_queue ≡ []
      → m.is_running ≡ true
      → WorkerMove m i locking (record m { lock = some i }) checked
  sleep : WorkerMove m i checked (record m { lock = none }) asleep
  spurious : WorkerMove m i asleep m locking
  stop : m.lock ≡ none → m.is_running ≡ false → WorkerMove m i locking m exited
  take :
      (t : ℕ) (rest : List ℕ)
      → m.lock ≡ none
      → m.is_running ≡ true
      → m.task_queue ≡ t ∷ rest
      → WorkerMove m i locking
          (record m { task_queue = rest; started = m.started ++ t ∷ [] })
          (taken t)
  load : {t : ℕ} → WorkerMove m i (taken t) m (counting t m.active_threads)
  store :
      {t a : ℕ}
      → WorkerMove m i (counting t a) (record m { active_threads = (a + 1) % 2 ^ 32 }) (busy t)
  do_task : {t : ℕ} → WorkerMove m i (busy t) (record m { done = m.done ++ t ∷ [] }) finishing
  unload : WorkerMove m i finishing m (uncounting m.active_threads)
  unstore :
      {a : ℕ}
      → WorkerMove m i
          (uncounting a)
          (record m { active_threads = (a + 2 ^ 32 - 1) % 2 ^ 32 })
          locking

abbrev pub woken : Worker → Worker
woken asleep = locking
woken w = w

-- One step of AddTask or of Wait, with `n` workers. A task that is a null pointer is refused.
pub data OwnerMove (n : ℕ) (m : Shared) (f : ℕ → Worker)
    : Owner → Shared → Owner → (ℕ → Worker) → Type 0 where
  push :
      (t : ℕ)
      → m.lock ≡ none
      → OwnerMove n m f serving
          (record m { task_queue = m.task_queue ++ t ∷ []; added = m.added ++ t ∷ [] })
          added_one
          f
  push_null : m.lock ≡ none → OwnerMove n m f serving m serving f
  notify_one :
      (i : ℕ) → i < n → f i ≡ asleep → OwnerMove n m f added_one m serving (update f i locking)
  notify_nobody : ((i : ℕ) → i < n → f i ≢ asleep) → OwnerMove n m f added_one m serving f
  stop_running : OwnerMove n m f serving (record m { is_running = false }) stopping f
  notify_all : OwnerMove n m f stopping m joining (λ i. woken (f i))
  joined : ((i : ℕ) → i < n → f i ≡ exited) → OwnerMove n m f joining m (draining m.task_queue) f
  run_left :
      {t : ℕ} {rest : List ℕ}
      → OwnerMove n m f
          (draining (t ∷ rest))
          (record m { started = m.started ++ t ∷ []; done = m.done ++ t ∷ [] })
          (draining rest)
          f
  finish : OwnerMove n m f (draining []) m ended f

pub data Step (n : ℕ) (s : Pool) : Pool → Type 0 where
  worker :
      (i : ℕ) {m : Shared} {w : Worker}
      → i < n
      → WorkerMove s.shared i (s.workers i) m w
      → Step n s (record s { shared = m; workers = update s.workers i w })
  main :
      {m : Shared} {o : Owner} {f : ℕ → Worker}
      → OwnerMove n s.shared s.workers s.owner m o f
      → Step n s (record { shared = m; owner = o; workers = f })

-- The constructor: every thread is at the head of its loop.
abbrev pub init : Pool
init = record {
  shared = record {
    is_running = true;
    lock = none;
    task_queue = [];
    active_threads = 0;
    added = [];
    started = [];
    done = [];
  };
  owner = serving;
  workers = λ i. locking;
}

pub data Reach (n : ℕ) : Pool → Type 0 where
  start : Reach n init
  later : {s t : Pool} → Reach n s → Step n s t → Reach n t
