-- ===== src/System/Serving.antt =====
-- The server as a whole: the loop over `accept` (StudentManagementServer/StudentManagementServer.cpp) is
-- the thread that adds tasks to the pool (StudentManagementServer/CThreadPool.cpp).
use school_information_manag.Prelude.{
  ℕ, ◌+◌, ◌<◌, ◌≡◌, refl, sym, ap, ◌∙◌, true, false, none, List, [], ◌∷◌, ◌++◌, arith,
}
use school_information_manag.Server.Main.{
  Accept, accept_error, client, Accepted, accept_round, accept_rounds,
}
use school_information_manag.ThreadPool.{
  Worker, Owner, serving, added_one, Shared, Pool, WorkerMove, wait, sleep, spurious, stop, take,
  load, store, do_task, unload, unstore, OwnerMove, push, notify_one, notify_nobody, worker, main,
  update, init, Reach, start, later,
}
use school_information_manag.ThreadPool.Order.{left, first_come_first_served}
use school_information_manag.ThreadPool.Once.{count, count-append, in_hand, accounted}

-- A run of the server with `n` workers: what `accept` returned so far, and the pool. The main thread
-- goes to the next round once AddTask has notified a worker.
pub data Run (n : ℕ) : List Accept → Pool → Type 0 where
  begin : Run n [] init
  works :
      {heard : List Accept} {s : Pool} (i : ℕ) {m : Shared} {w : Worker}
      → Run n heard s
      → i < n
      → WorkerMove s.shared i (s.workers i) m w
      → Run n heard (record s { shared = m; workers = update s.workers i w })
  fails :
      {heard : List Accept} {m : Shared} {f : ℕ → Worker}
      → Run n heard (record { shared = m; owner = serving; workers = f })
      → Run n (heard ++ accept_error ∷ []) (record { shared = m; owner = serving; workers = f })
  throws :
      {heard : List Accept} {m : Shared} {f : ℕ → Worker} (c : ℕ)
      → Run n heard (record { shared = m; owner = serving; workers = f })
      → Run n (heard ++ client c true ∷ []) (record { shared = m; owner = serving; workers = f })
  adds :
      {heard : List Accept} {m : Shared} {f : ℕ → Worker} (c : ℕ)
      → Run n heard (record { shared = m; owner = serving; workers = f })
      → m.lock ≡ none
      → Run n (heard ++ client c false ∷ []) (record {
        shared = record m { task_queue = m.task_queue ++ c ∷ []; added = m.added ++ c ∷ [] };
        owner = added_one;
        workers = f;
      })
  notifies :
      {heard : List Accept} {m m' : Shared} {f f' : ℕ → Worker} {o : Owner}
      → Run n heard (record { shared = m; owner = added_one; workers = f })
      → OwnerMove n m f added_one m' o f'
      → Run n heard (record { shared = m'; owner = o; workers = f' })

abbrev pub nothing : Accepted
nothing = record { tasks = []; closed = [] }

accept_rounds-append :
    (heard : List Accept) (a : Accept) (s : Accepted)
    → accept_rounds (heard ++ a ∷ []) s ≡ accept_round a (accept_rounds heard s)
unfolding accept_rounds
accept_rounds-append [] a s = refl
accept_rounds-append (b ∷ heard) a s = accept_rounds-append heard a (accept_round b s)

tasks-append :
    (heard : List Accept) (a : Accept) (tasks : List ℕ)
    → tasks ≡ (accept_round a (accept_rounds heard nothing)).tasks
    → tasks ≡ (accept_rounds (heard ++ a ∷ []) nothing).tasks
tasks-append heard a tasks e =
    e ∙ ap (λ (s : Accepted). s.tasks) (sym (accept_rounds-append heard a nothing))

added-WorkerMove :
    {m m' : Shared} {i : ℕ} {w w' : Worker} → WorkerMove m i w m' w' → m'.added ≡ m.added
added-WorkerMove (wait l q r) = refl
added-WorkerMove sleep = refl
added-WorkerMove spurious = refl
added-WorkerMove (stop l r) = refl
added-WorkerMove (take t rest l r q) = refl
added-WorkerMove load = refl
added-WorkerMove store = refl
added-WorkerMove do_task = refl
added-WorkerMove unload = refl
added-WorkerMove unstore = refl

added-notify :
    {n : ℕ} {m m' : Shared} {f f' : ℕ → Worker} {o : Owner}
    → OwnerMove n m f added_one m' o f'
    → m'.added ≡ m.added
added-notify (notify_one i l a) = refl
added-notify (notify_nobody h) = refl

-- The pool's tasks are the clients of the loop.
added-Run :
    {n : ℕ} {heard : List Accept} {s : Pool}
    → Run n heard s
    → s.shared.added ≡ (accept_rounds heard nothing).tasks
unfolding accept_rounds accept_round
added-Run begin = refl
added-Run (works i r l mv) = added-WorkerMove mv ∙ added-Run r
added-Run (fails {heard} r) = tasks-append heard accept_error _ (added-Run r)
added-Run (throws {heard} c r) = tasks-append heard (client c true) _ (added-Run r)
added-Run (adds {heard} c r l) =
    tasks-append heard (client c false) _ (ap (λ l. l ++ c ∷ []) (added-Run r))
added-Run (notifies r mv) = added-notify mv ∙ added-Run r

Run-Reach : {n : ℕ} {heard : List Accept} {s : Pool} → Run n heard s → Reach n s
Run-Reach begin = start
Run-Reach (works i r l mv) = later (Run-Reach r) (worker i l mv)
Run-Reach (fails r) = Run-Reach r
Run-Reach (throws c r) = Run-Reach r
Run-Reach (adds c r l) = later (Run-Reach r) (main (push c l))
Run-Reach (notifies r mv) = later (Run-Reach r) (main mv)

-- The clients that `accept` returned.
abbrev pub connected : List Accept → List ℕ
connected [] = []
connected (accept_error ∷ heard) = connected heard
connected (client c failed ∷ heard) = c ∷ connected heard

count-accept_rounds :
    (c : ℕ) (heard : List Accept) (s : Accepted)
    → count c (accept_rounds heard s).tasks + count c (accept_rounds heard s).closed
      ≡ count c s.tasks + count c s.closed + count c (connected heard)
unfolding accept_rounds accept_round
count-accept_rounds c [] s = omega arith
count-accept_rounds c (accept_error ∷ heard) s = count-accept_rounds c heard s
count-accept_rounds c (client d true ∷ heard) s = omega (
  arith,
  count-accept_rounds c heard (record s { closed = s.closed ++ d ∷ [] }),
  count-append c s.closed (d ∷ []),
)
count-accept_rounds c (client d false ∷ heard) s = omega (
  arith,
  count-accept_rounds c heard (record s { tasks = s.tasks ++ d ∷ [] }),
  count-append c s.tasks (d ∷ []),
)

-- In every state that the server can reach, with its threads in any order, the clients that were
-- taken up are the first of those whose task was made, in the order of their connections, and the
-- others of them are waiting, in that order.
pub clients_in_order :
    {n : ℕ} {heard : List Accept} {s : Pool}
    → Run n heard s
    → s.shared.started ++ left s.owner s.shared ≡ (accept_rounds heard nothing).tasks
clients_in_order r = first_come_first_served (Run-Reach r) ∙ added-Run r

-- In every state that the server can reach, with its threads in any order, no client is lost and none
-- is served twice: each was accepted as often as it is done, in a worker's hands, waiting, and closed
-- because its task could not be made, together.
pub nobody_lost :
    {n : ℕ} {heard : List Accept} {s : Pool} (c : ℕ)
    → Run n heard s
    → count c s.shared.done
        + in_hand c n s.workers
        + count c (left s.owner s.shared)
        + count c (accept_rounds heard nothing).closed
      ≡ count c (connected heard)
nobody_lost {heard} c r = omega (
  arith,
  accounted c (Run-Reach r),
  ap (count c) (added-Run r),
  count-accept_rounds c heard nothing,
)
