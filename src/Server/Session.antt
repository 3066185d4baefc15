-- ===== src/Server/Session.antt =====
-- A whole session of DoTask (StudentManagementServer/CMySqlTask.cpp): changes, one after the other, until
-- the connection breaks.
use school_information_manag.Prelude.{
  ℕ, suc, ◌<◌, ◌^◌, ◌≡◌, refl, sym, ap, ◌∙◌, Option, some, List, [], ◌∷◌, ◌++◌, append-nil,
  append_assoc, All, if◌then◌else◌, length, Bytes, is_zero,
}
use school_information_manag.Proto.{hdr_bytes}
use school_information_manag.Proto.Requests.{Entity, Change, change_code, ok_code, err_code}
use school_information_manag.Net.{Arrival, failed, push_back, recv, Outbox, send, outbox_of}
use school_information_manag.Server.State.{MySql, Machine, Task, End, disconnected, next}
use school_information_manag.Server.Loop.{serve_one, serve}
use school_information_manag.Server.Replies.{answered, serve_change}

-- A change that a client asks for.
pub record Ask : Type 0 where
  pub entity : Entity
  pub change : Change
  pub text : Bytes

abbrev pub IsAsk : Ask → Type 0
IsAsk a = (0 < length a.text) × (length a.text < 2 ^ 31)

-- The requests arrive in order, each header and each text whole.
abbrev pub incoming : List Ask → List Arrival → List Arrival
incoming [] later = later
incoming (a ∷ asks) later =
    push_back (hdr_bytes (record { n_cmd = change_code a.entity a.change; n_len = length a.text }))
      (push_back a.text (incoming asks later))

module _ (m : MySql) where
  -- The database after the statements, in order.
  abbrev pub conn_after : m.Conn → List Ask → m.Conn
  conn_after conn [] = conn
  conn_after conn (a ∷ asks) = conn_after (m.real_query a.text conn).1 asks

  abbrev pub reply_code : m.Conn → Ask → ℕ
  reply_code conn a =
      if is_zero (m.real_query a.text conn).0
      then ok_code a.entity a.change
      else err_code a.entity a.change

  -- One header for each change: its success or its failure, as the database reports it.
  abbrev pub replies : m.Conn → List Ask → List Bytes
  replies conn [] = []
  replies conn (a ∷ asks) =
      hdr_bytes (record { n_cmd = reply_code conn a; n_len = 0 })
      ∷ replies (m.real_query a.text conn).1 asks

serve_step :
    {m : MySql} (env : Machine) (fuel : ℕ) (u v : Task m) (r : Option (End × Task m))
    → serve_one env u ≡ next v
    → serve env fuel v ≡ r
    → serve env (suc fuel) u ≡ r
unfolding serve
serve_step env fuel u v r e h = rw (serve, e) h

serve_broken :
    {m : MySql} (env : Machine) (t : Task m) (e : ℕ) (later : List Arrival)
    → serve env 1 (record t { inbox = failed e ∷ later })
      ≡ some (disconnected, record t { inbox = later })
unfolding serve serve_one recv
serve_broken env t e later = refl

send_next :
    (bs : Bytes) (o : Outbox) (sent : List Bytes)
    → o ≡ outbox_of sent
    → (send bs o).1 ≡ outbox_of (sent ++ bs ∷ [])
unfolding send
send_next bs o sent h = rw h refl

-- A session of any number of changes, each of 1 to 2 ^ 31 - 1 bytes and each arriving whole, at whose
-- end `recv` fails, and in which all sends succeed. The loop ends, after one round for each change and
-- one more; the database has been handed exactly the statements, in order; and the client has been
-- sent one header for each, in order, with the code of its success or of its failure.
pub serve_session :
    {m : MySql} (env : Machine) (asks : List Ask) (t : Task m) (e : ℕ) (later : List Arrival)
    (sent : List Bytes)
    → All IsAsk asks
    → t.out ≡ outbox_of sent
    → (t' : Task m) × (serve env
          (suc (length asks))
          (record t { inbox = incoming asks (failed e ∷ later) })
        ≡ some (disconnected, t'))
      × (t'.conn ≡ conn_after m t.conn asks)
      × (t'.out ≡ outbox_of (sent ++ replies m t.conn asks))
serve_session env [] t e later sent h out = (
  record t { inbox = later },
  serve_broken env t e later,
  refl,
  out ∙ ap outbox_of (sym (append-nil sent)),
)
serve_session {m} env (a ∷ asks) t e later sent h out =
    let more : List Arrival = incoming asks (failed e ∷ later) in
    let reply : Bytes = hdr_bytes (record { n_cmd = reply_code m t.conn a; n_len = 0 }) in
    let t1 : Task m = answered env t more (m.real_query a.text t.conn).1 (reply_code m t.conn a) in
    let (t', ends, conn, replied) =
      serve_session env asks t1 e later (sent ++ reply ∷ []) h.1 (send_next reply t.out sent out) in
    (
      t',
      serve_step env (suc (length asks)) _ t1 _
          (serve_change env t more a.text h.0.0 h.0.1 a.entity a.change) ends,
      conn,
      replied
          ∙ ap outbox_of
              (append_assoc sent (reply ∷ []) (replies m (m.real_query a.text t.conn).1 asks)),
    )
