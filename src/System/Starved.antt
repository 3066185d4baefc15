-- ===== src/System/Starved.antt =====
-- The server's pool (StudentManagementServer/CThreadPool.cpp) when its workers serve clients that have
-- closed their connections (StudentManagementServer/CMySqlTask.cpp).
use school_information_manag.Prelude.{ℕ, ◌<◌, ◌≡◌, refl, sym, ◌∙◌, none, some, List, [], ◌∷◌}
use school_information_manag.Proto.{hdr_of_bytes, hdr_size, record_edit_err}
use school_information_manag.Net.{Arrival, closed}
use school_information_manag.Server.State.{MySql, Machine, Task, End, overlay}
use school_information_manag.Server.Loop.{do_task}
use school_information_manag.Server.Faults.{serve_closed}
use school_information_manag.ThreadPool.{Worker, busy, Pool}
use school_information_manag.ThreadPool.Full.{NotJoined, Meanwhile, full_starves}

module _ {m : MySql} (env : Machine) (tasks : ℕ → Task m) where
  -- With some fuel the `DoTask` of this client ends.
  abbrev pub ComesBack : ℕ → Type 0
  ComesBack c =
      (fuel : ℕ) × (rest : ℕ) × (r : End × Task m) × (do_task env fuel rest (tasks c) ≡ some r)

  -- The worker serves a client that has closed its connection, on memory that holds no command.
  abbrev pub ServesClosed : Worker → Type 0
  ServesClosed w =
      (c : ℕ) × (w ≡ busy c)
      × (later : List Arrival) × (t : Task m) × (tasks c ≡ record t { inbox = closed ∷ later })
      × (record_edit_err < (hdr_of_bytes (overlay hdr_size [] (env.stale (closed ∷ later)))).n_cmd)

  none-some : {r : End × Task m} → ¬ (none ≡ some r)
  none-some e = cc

  closed-ComesBack :
      (c : ℕ) (later : List Arrival) (t : Task m)
      → tasks c ≡ record t { inbox = closed ∷ later }
      → record_edit_err < (hdr_of_bytes (overlay hdr_size [] (env.stale (closed ∷ later)))).n_cmd
      → ¬ ComesBack c
  unfolding do_task
  closed-ComesBack c later t e h (fuel, rest, r, ends) =
      none-some (sym (rw e (rw (serve_closed env t later fuel h, do_task) refl)) ∙ ends)

  -- Clients that go make the server useless. When every worker of the pool, one at least, serves a
  -- client that has closed its connection, on memory that holds no command, no task is started any
  -- more, whatever the threads do and however many clients connect.
  pub closed_clients_starve :
      {n : ℕ} {s t : Pool}
      → 0 < n
      → NotJoined s.owner
      → ((i : ℕ) → i < n → ServesClosed (s.workers i))
      → Meanwhile ComesBack n s t
      → t.shared.started ≡ s.shared.started
  closed_clients_starve p j b r =
      full_starves ComesBack p r j
        (λ i k. let (c, w, later, t, e, h) = b i k in (c, w, closed-ComesBack c later t e h))
