-- ===== src/Examples/Starved.antt =====
-- One worker, whose client has closed its connection, and a second client.
use school_information_manag.Prelude.{◌<◌, ◌≡◌, refl, arith, none, [], ◌∷◌, true, inl, pos}
use school_information_manag.Proto.{record_edit_err, hdr_of_bytes, hdr_size}
use school_information_manag.Net.{closed}
use school_information_manag.Server.State.{Task, unset, overlay}
use school_information_manag.ThreadPool.{Pool, busy, serving, added_one, push, main}
use school_information_manag.ThreadPool.Full.{here, then}
use school_information_manag.System.Starved.{closed_clients_starve}
use school_information_manag.Examples.Fixtures.{db, machine, task}

abbrev gone_task : Task (db (pos 0) none)
gone_task = record (task (pos 0) none unset) { inbox = closed ∷ [] }

-- Client 9 was added, taken, and is being served.
abbrev serving_nine : Pool
serving_nine = record {
  shared = record {
    is_running = true;
    lock = none;
    task_queue = [];
    active_threads = 1;
    added = 9 ∷ [];
    started = 9 ∷ [];
    done = [];
  };
  owner = serving;
  workers = λ i. busy 9;
}

abbrev second_added : Pool
second_added = record serving_nine {
  shared = record serving_nine.shared { task_queue = 10 ∷ []; added = 9 ∷ 10 ∷ [] };
  owner = added_one;
}

stale_header :
    record_edit_err < (hdr_of_bytes (overlay hdr_size [] (machine.stale (closed ∷ [])))).n_cmd
unfolding hdr_of_bytes
stale_header = omega arith

closed_clients_starve_example : second_added.shared.started ≡ serving_nine.shared.started
closed_clients_starve_example =
    closed_clients_starve machine (λ c. gone_task) {n = 1} {s = serving_nine} (omega arith) tt
      (λ i l. (9, refl, [], gone_task, refl, stale_header))
      (then here (main (push 10 refl)) (inl refl))
