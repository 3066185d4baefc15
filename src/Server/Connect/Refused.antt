-- ===== src/Server/Connect/Refused.antt =====
-- A whole task (StudentManagementServer/CMySqlTask.cpp) whose connection to the database was refused.
use school_information_manag.Prelude.{
  ℕ, suc, ◌≡◌, refl, sym, ap, subst, ◌∙◌, false, none, some, List, [], ◌∷◌, ◌++◌, All, length, map,
  Bytes, is_zero,
}
use school_information_manag.Proto.{hdr_bytes}
use school_information_manag.Proto.Requests.{err_code}
use school_information_manag.Net.{Arrival, failed, outbox_of}
use school_information_manag.Server.State.{MySql, Machine, Task, disconnected}
use school_information_manag.Server.Loop.{drain, finish_task, do_task}
use school_information_manag.Server.Session.{
  Ask, IsAsk, incoming, conn_after, replies, serve_session,
}
use school_information_manag.Server.Connect.{Profile, Connector, connect_mysql, runs, run_task}

-- What the library documents of a connection that was not made: every query reports an error and
-- leaves it so, and there is no result to store.
pub record Refuses (m : MySql) (Dead : m.Conn → Type 0) : Type 0 where
  pub query :
      (text : Bytes) (conn : m.Conn) → Dead conn → is_zero (m.real_query text conn).0 ≡ false
  pub stays : (text : Bytes) (conn : m.Conn) → Dead conn → Dead (m.real_query text conn).1
  pub no_result : (conn : m.Conn) → Dead conn → (m.store_result conn).0 ≡ none

-- The header that tells of a failed change.
abbrev pub failure : Ask → Bytes
failure a = hdr_bytes (record { n_cmd = err_code a.entity a.change; n_len = 0 })

module _ {m : MySql} (Dead : m.Conn → Type 0) (refuses : Refuses m Dead) where
  replies_dead :
      (conn : m.Conn) (asks : List Ask) → Dead conn → replies m conn asks ≡ map failure asks
  replies_dead conn [] h = refl
  replies_dead conn (a ∷ asks) h = rw (refuses.query a.text conn h) (
      ap (◌∷◌ (failure a))
        (replies_dead (m.real_query a.text conn).1 asks (refuses.stays a.text conn h)))

  conn_after_dead : (conn : m.Conn) (asks : List Ask) → Dead conn → Dead (conn_after m conn asks)
  conn_after_dead conn [] h = h
  conn_after_dead conn (a ∷ asks) h =
      conn_after_dead (m.real_query a.text conn).1 asks (refuses.stays a.text conn h)

  drain_dead :
      (rest : ℕ) (conn : m.Conn)
      → Dead conn
      → drain m (suc rest) conn ≡ some (m.store_result conn).1
  unfolding drain
  drain_dead rest conn h = rw (drain, refuses.no_result conn h) refl

  -- A task whose connection to the database is refused serves its client all the same. Any number of
  -- changes, each of 1 to 2 ^ 31 - 1 bytes and each arriving whole, are each answered by the header
  -- that tells of a failed change, in order; when the connection to the client then breaks and all
  -- sends succeed, the task ends, after one round for each change and one more.
  pub refused_session :
      (env : Machine) (profile : Profile) (c : Connector m) (conn : m.Conn) (asks : List Ask)
      (t : Task m) (e rest : ℕ) (later : List Arrival) (sent : List Bytes)
      → connect_mysql profile c ≡ some (false, conn)
      → Dead conn
      → All IsAsk asks
      → t.out ≡ outbox_of sent
      → (t' : Task m) × (run_task env profile c
            (suc (length asks))
            (suc rest)
            (record t { inbox = incoming asks (failed e ∷ later) })
          ≡ runs (some (disconnected, t')))
        × (t'.out ≡ outbox_of (sent ++ map failure asks))
  unfolding run_task do_task finish_task
  refused_session env profile c conn asks t e rest later sent refused dead good out =
      let (t', ends, after, replied) =
        serve_session env asks (record t { conn = conn }) e later sent good out in
      let dead' : Dead t'.conn = subst Dead (sym after) (conn_after_dead conn asks dead) in
      (
        record t' { conn = m.close (m.store_result t'.conn).1 },
        rw (run_task, refused)
            (rw (do_task, ends) (rw (finish_task, drain_dead rest t'.conn dead') refl)),
        replied ∙ ap (λ l. outbox_of (sent ++ l)) (replies_dead conn asks dead),
      )
