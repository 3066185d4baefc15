-- ===== src/Examples/Serving.antt =====
-- A server with one worker: a client, a failed `accept`, and a client whose task cannot be made.
use school_information_manag.Prelude.{
  ℕ, ◌+◌, ◌≡◌, ◌≢◌, ◌<◌, refl, arith, true, false, List, [], ◌∷◌, ◌++◌,
}
use school_information_manag.Server.Main.{Accept, accept_error, client, accept_rounds}
use school_information_manag.ThreadPool.{Pool, asleep, init, take, notify_nobody}
use school_information_manag.ThreadPool.Order.{left}
use school_information_manag.ThreadPool.Once.{count, in_hand}
use school_information_manag.System.Serving.{
  Run, begin, works, fails, throws, adds, notifies, nothing, connected, clients_in_order,
  nobody_lost,
}

not_asleep : (i : ℕ) → i < 1 → init.workers i ≢ asleep
not_asleep i l e = absurd (cc e)

abbrev heard : List Accept
heard = client 9 false ∷ accept_error ∷ client 4 true ∷ []

abbrev serving_run : (s : Pool) × Run 1 heard s
serving_run =
    let added = notifies (adds 9 begin refl) (notify_nobody not_asleep) in
    (_, works 0 (throws 4 (fails added)) (omega arith) (take 9 [] refl refl refl))

clients_in_order_example :
    serving_run.0.shared.started ++ left serving_run.0.owner serving_run.0.shared
    ≡ (accept_rounds heard nothing).tasks
clients_in_order_example = clients_in_order serving_run.1

nobody_lost_example :
    count 4 serving_run.0.shared.done
      + in_hand 4 1 serving_run.0.workers
      + count 4 (left serving_run.0.owner serving_run.0.shared)
      + count 4 (accept_rounds heard nothing).closed
    ≡ count 4 (connected heard)
nobody_lost_example = nobody_lost 4 serving_run.1
