-- ===== src/Examples/Threads.antt =====
-- A run of the thread pool with one worker and one task, and the lost wake-up.
use school_information_manag.Prelude.{ℕ, ◌<◌, ◌≡◌, ◌≢◌, ==_iff, refl, arith, []}
use school_information_manag.ThreadPool.{
  Worker, asleep, exited, joining, Pool, stop, take, load, store, do_task, unload, unstore, push,
  notify_nobody, stop_running, notify_all, joined, finish, worker, main, Reach, start, later, init,
  update,
}
use school_information_manag.ThreadPool.Once.{count, done_once}
use school_information_manag.ThreadPool.Races.{lost, here, wait_hangs}

not_asleep : (i : ℕ) → i < 1 → init.workers i ≢ asleep
not_asleep i l e = absurd (cc e)

only_exited : (f : ℕ → Worker) (i : ℕ) → i < 1 → update f 0 exited i ≡ exited
only_exited f i l = rw ((==_iff 0 i).1 (omega arith)) refl

abbrev busy_run : (s : Pool) × Reach 1 s
busy_run =
    let added = later (later start (main (push 9 refl))) (main (notify_nobody not_asleep)) in
    let taken = later added (worker 0 (omega arith) (take 9 [] refl refl refl)) in
    let counted =
      later (later taken (worker 0 (omega arith) load)) (worker 0 (omega arith) store) in
    let worked = later counted (worker 0 (omega arith) do_task) in
    let free =
      later (later worked (worker 0 (omega arith) unload)) (worker 0 (omega arith) unstore) in
    (_, free)

abbrev ended_run : (s : Pool) × Reach 1 s
ended_run =
    let told = later (later busy_run.1 (main stop_running)) (main notify_all) in
    let gone = later told (worker 0 (omega arith) (stop refl refl)) in
    (_, later (later gone (main (joined (only_exited _)))) (main finish))

done_once_example : count 9 ended_run.0.shared.done ≡ count 9 ended_run.0.shared.added
done_once_example = done_once 9 ended_run.1 refl

wait_hangs_example : Reach 2 (lost 1) × ((lost 1).owner ≡ joining) × ((lost 1).workers 1 ≡ asleep)
wait_hangs_example = wait_hangs (omega arith) here
