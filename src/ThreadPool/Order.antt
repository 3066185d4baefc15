-- ===== src/ThreadPool/Order.antt =====
-- StudentManagementServer/CThreadPool.cpp: the order in which tasks are added and taken.
use school_information_manag.Prelude.{
  ℕ, ◌≡◌, refl, sym, ap, ◌∙◌, true, false, List, [], ◌∷◌, ◌++◌, append_assoc,
}
use school_information_manag.ThreadPool.{
  Worker, Owner, serving, added_one, stopping, joining, draining, ended, Shared, Pool, WorkerMove,
  wait, take, OwnerMove, push, push_null, notify_one, notify_nobody, stop_running, notify_all,
  joined, run_left, finish, worker, main, Reach, start, later,
}

-- The tasks that nobody has taken yet.
abbrev pub left : Owner → Shared → List ℕ
left serving m = m.task_queue
left added_one m = m.task_queue
left stopping m = m.task_queue
left joining m = m.task_queue
left (draining rest) m = rest
left ended m = []

-- In Wait the workers are told to stop.
abbrev pub Stopped : Owner → Shared → Type 0
Stopped serving m = Unit
Stopped added_one m = Unit
Stopped stopping m = m.is_running ≡ false
Stopped joining m = m.is_running ≡ false
Stopped (draining rest) m = m.is_running ≡ false
Stopped ended m = m.is_running ≡ false

pub record InTurn (o : Owner) (m : Shared) : Type 0 where
  pub stopped : Stopped o m
  pub turns : m.started ++ left o m ≡ m.added

take-InTurn :
    (o : Owner) (m : Shared) (t : ℕ) (rest : List ℕ)
    → m.is_running ≡ true
    → m.task_queue ≡ t ∷ rest
    → InTurn o m
    → InTurn o (record m { task_queue = rest; started = m.started ++ t ∷ [] })
take-InTurn serving m t rest r q v = record {
  stopped = tt;
  turns = append_assoc m.started (t ∷ []) rest ∙ ap (◌++◌ m.started) (sym q) ∙ v.turns;
}
take-InTurn added_one m t rest r q v = record {
  stopped = tt;
  turns = append_assoc m.started (t ∷ []) rest ∙ ap (◌++◌ m.started) (sym q) ∙ v.turns;
}
take-InTurn stopping m t rest r q v = absurd (cc (v.stopped, r))
take-InTurn joining m t rest r q v = absurd (cc (v.stopped, r))
take-InTurn (draining l) m t rest r q v = absurd (cc (v.stopped, r))
take-InTurn ended m t rest r q v = absurd (cc (v.stopped, r))

-- A step that touches neither the queue nor what is counted.
same-InTurn :
    (o : Owner) (m m' : Shared)
    → m'.is_running ≡ m.is_running
    → m'.task_queue ≡ m.task_queue
    → m'.added ≡ m.added
    → m'.started ≡ m.started
    → InTurn o m
    → InTurn o m'
same-InTurn serving m m' r q a s v = record { stopped = tt; turns = cc (v.turns, q, a, s) }
same-InTurn added_one m m' r q a s v = record { stopped = tt; turns = cc (v.turns, q, a, s) }
same-InTurn stopping m m' r q a s v = record {
  stopped = r ∙ v.stopped;
  turns = cc (v.turns, q, a, s);
}
same-InTurn joining m m' r q a s v = record {
  stopped = r ∙ v.stopped;
  turns = cc (v.turns, q, a, s);
}
same-InTurn (draining l) m m' r q a s v = record {
  stopped = r ∙ v.stopped;
  turns = cc (v.turns, a, s);
}
same-InTurn ended m m' r q a s v = record { stopped = r ∙ v.stopped; turns = cc (v.turns, a, s) }

WorkerMove-InTurn :
    (o : Owner) {m m' : Shared} {i : ℕ} {w w' : Worker}
    → WorkerMove m i w m' w'
    → InTurn o m
    → InTurn o m'
WorkerMove-InTurn o {m} (take t rest l r q) v = take-InTurn o m t rest r q v
WorkerMove-InTurn o {m} {m'} (wait l q r) v = same-InTurn o m m' refl refl refl refl v
WorkerMove-InTurn o {m} {m'} _ v = same-InTurn o m m' refl refl refl refl v

OwnerMove-InTurn :
    {n : ℕ} {m m' : Shared} {f f' : ℕ → Worker} {o o' : Owner}
    → OwnerMove n m f o m' o' f'
    → InTurn o m
    → InTurn o' m'
OwnerMove-InTurn {m} (push t l) v = record {
  stopped = tt;
  turns = sym (append_assoc m.started m.task_queue (t ∷ [])) ∙ ap (λ l. l ++ t ∷ []) v.turns;
}
OwnerMove-InTurn (push_null l) v = v
OwnerMove-InTurn (notify_one i h e) v = record { stopped = tt; turns = v.turns }
OwnerMove-InTurn (notify_nobody h) v = record { stopped = tt; turns = v.turns }
OwnerMove-InTurn stop_running v = record { stopped = refl; turns = v.turns }
OwnerMove-InTurn notify_all v = record { stopped = v.stopped; turns = v.turns }
OwnerMove-InTurn (joined h) v = record { stopped = v.stopped; turns = v.turns }
OwnerMove-InTurn {m} (run_left {t} {rest}) v = record {
  stopped = v.stopped;
  turns = append_assoc m.started (t ∷ []) rest ∙ v.turns;
}
OwnerMove-InTurn finish v = record { stopped = v.stopped; turns = v.turns }

pub Reach-InTurn : {n : ℕ} {s : Pool} → Reach n s → InTurn s.owner s.shared
Reach-InTurn start = record { stopped = tt; turns = refl }
Reach-InTurn (later {s} r (worker i h mv)) = WorkerMove-InTurn s.owner mv (Reach-InTurn r)
Reach-InTurn (later r (main mv)) = OwnerMove-InTurn mv (Reach-InTurn r)

-- In every state that the threads can reach, in any order of their steps, the tasks that were taken
-- are the first that were added, in the same order, and what is left is the rest of them.
pub first_come_first_served :
    {n : ℕ} {s : Pool} → Reach n s → s.shared.started ++ left s.owner s.shared ≡ s.shared.added
first_come_first_served r = (Reach-InTurn r).turns
