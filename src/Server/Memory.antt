-- ===== src/Server/Memory.antt =====
-- The life of `pBuf` in DoTask (StudentManagementServer/CMySqlTask.cpp).
use school_information_manag.Prelude.{
  ℕ, ◌^◌, ◌<◌, ◌≡◌, refl, ap, ◌≢◌, inl, inr, Bool, true, false, Option, none, some, List, [], ◌∷◌,
  arith, leb, if◌then◌else◌, Bool-cases, Option-cases, Bytes, is_zero,
}
use school_information_manag.Proto.{PacketHdr, hdr_bytes}
use school_information_manag.Proto.Codec.{hdr_of_bytes-hdr_bytes}
use school_information_manag.Net.{Received, Arrival, bytes, error, blocks, push_back, recv}
use school_information_manag.Listing.{Row, write_rows}
use school_information_manag.Server.State.{
  MySql, Machine, live, double_free, fault, Task, Step, next, stop, delete_buf, reply,
  receive_query, send_logged,
}
use school_information_manag.Server.Handlers.{
  on_login, run_login, answer_login, on_add, on_del, run_update, on_query, run_query, send_result,
  on_edit_check, run_check, answer_check, on_edit, run_edit, result_name, draw,
}
use school_information_manag.Server.Loop.{dispatch, serve_one}

module _ {m : MySql} where
  -- The step does not delete a dangling pointer.
  abbrev pub IsSafe : Step m → Type 0
  IsSafe (next t) = Unit
  IsSafe (stop e t) = e ≢ fault double_free

  delete_buf-IsSafe : (t : Task m) → t.buf ≡ live → IsSafe (delete_buf t)
  unfolding delete_buf
  delete_buf-IsSafe t h = rw h tt

  IsSafe-if : (b : Bool) (x y : Step m) → IsSafe x → IsSafe y → IsSafe (if b then x else y)
  IsSafe-if true x y hx hy = hx
  IsSafe-if false x y hx hy = hy

  send_logged-live : (bs : Bytes) (t : Task m) → t.buf ≡ live → (send_logged bs t).buf ≡ live
  unfolding send_logged
  send_logged-live bs t h = h

  reply-live : (cmd : ℕ) (t : Task m) → t.buf ≡ live → (reply cmd t).buf ≡ live
  unfolding reply
  reply-live cmd t h = send_logged-live _ t h

  if-live :
      (b : Bool) (t u : Task m) → t.buf ≡ live → u.buf ≡ live → (if b then t else u).buf ≡ live
  if-live true t u h k = h
  if-live false t u h k = k

  ruleset live_rules = (delete_buf-IsSafe, IsSafe-if, send_logged-live, reply-live, if-live)

  -- A step that may run on any text with the buffer allocated.
  abbrev IsSafeHandler : (Bytes → Task m → Step m) → Type 0
  IsSafeHandler handle = (text : Bytes) (t : Task m) → t.buf ≡ live → IsSafe (handle text t)

  answer_login-IsSafe : (row : Option Row) (t : Task m) → t.buf ≡ live → IsSafe (answer_login row t)
  unfolding answer_login
  answer_login-IsSafe none t h = search live_rules
  answer_login-IsSafe (some []) t h = λ e. cc
  answer_login-IsSafe (some (none ∷ fields)) t h = λ e. cc
  answer_login-IsSafe (some (some count ∷ fields)) t h = search live_rules

  run_login-IsSafe : IsSafeHandler run_login
  unfolding run_login
  run_login-IsSafe text t h = IsSafe-if _ _ _ (delete_buf-IsSafe _ h) (answer_login-IsSafe _ _ h)

  run_update-IsSafe : (hdr : PacketHdr) → IsSafeHandler (run_update hdr)
  unfolding run_update
  run_update-IsSafe hdr text t h = search live_rules

  run_edit-IsSafe : (hdr : PacketHdr) → IsSafeHandler (run_edit hdr)
  unfolding run_edit
  run_edit-IsSafe hdr text t h = search live_rules

  answer_check-IsSafe :
      (hdr : PacketHdr) (row : Option Row) (t : Task m)
      → t.buf ≡ live
      → IsSafe (answer_check hdr row t)
  unfolding answer_check
  answer_check-IsSafe hdr none t h = search live_rules
  answer_check-IsSafe hdr (some []) t h = λ e. cc
  answer_check-IsSafe hdr (some (none ∷ fields)) t h = λ e. cc
  answer_check-IsSafe hdr (some (some count ∷ fields)) t h = search live_rules

  run_check-IsSafe : (hdr : PacketHdr) → IsSafeHandler (run_check hdr)
  unfolding run_check
  run_check-IsSafe hdr text t h =
      IsSafe-if _ _ _ (answer_check-IsSafe hdr _ _ h) (delete_buf-IsSafe _ (reply-live _ _ h))

  module _ (env : Machine) (hdr : PacketHdr) where
    send_result-IsSafe :
        (rows : List Row) (t : Task m) → t.buf ≡ live → IsSafe (send_result env hdr rows t)
    unfolding send_result
    send_result-IsSafe rows t h = elim (Bool-cases (env.can_open (result_name (draw t.draws).0))) [
      | inl o ↦
          rw (o, send_result)
            (elim (Option-cases (write_rows rows)) [
              | inl e ↦ rw e (λ p. cc)
              | inr (file, e) ↦ rw e (delete_buf-IsSafe _ h)
            ])
      | inr o ↦ rw (o, send_result) tt
    ]

    run_query-IsSafe : IsSafeHandler (run_query env hdr)
    unfolding run_query
    run_query-IsSafe text t h = elim (Bool-cases (is_zero (m.real_query text t.conn).0)) [
      | inl z ↦
          rw (z, run_query)
            (elim (Option-cases (m.store_result (m.real_query text t.conn).1).0) [
              | inl e ↦ rw e (delete_buf-IsSafe _ (reply-live _ _ h))
              | inr (rows, e) ↦ rw e (send_result-IsSafe rows _ h)
            ])
      | inr z ↦ rw (z, run_query) (delete_buf-IsSafe _ (reply-live _ _ h))
    ]

    Received-IsSafe :
        (r : Received) (f : Bytes → Step m) (g : ℕ → Step m) (x : Step m)
        → ((bs : Bytes) → IsSafe (f bs))
        → ((e : ℕ) → IsSafe (g e))
        → IsSafe x
        → IsSafe (elim r [ bytes bs ↦ f bs | error e ↦ g e | blocks ↦ x ])
    Received-IsSafe (bytes bs) f g x hf hg hx = hf bs
    Received-IsSafe (error e) f g x hf hg hx = hg e
    Received-IsSafe blocks f g x hf hg hx = hx

    receive_query-IsSafe :
        (handle : Bytes → Task m → Step m) (t : Task m)
        → IsSafeHandler handle
        → IsSafe (receive_query env hdr handle t)
    unfolding receive_query
    receive_query-IsSafe handle t h = elim (Bool-cases (leb (2 ^ 31) hdr.n_len)) [
      | inl o ↦ rw (o, receive_query) (delete_buf-IsSafe _ refl)
      | inr o ↦
          rw (o, receive_query)
            (Received-IsSafe (recv hdr.n_len t.inbox).0 _ _ _ (λ bs. h _ _ refl)
              (λ e. delete_buf-IsSafe _ refl) (λ e. cc))
    ]

    -- A request with a text is handled without deleting a dangling pointer, whatever the state.
    dispatch-IsSafe : (t : Task m) → leb 1 hdr.n_len ≡ true → IsSafe (dispatch env hdr t)
    unfolding dispatch on_login on_add on_del on_query on_edit_check on_edit
    dispatch-IsSafe t h =
        rw (h, dispatch)
          (search
            (
              IsSafe-if, receive_query-IsSafe, run_login-IsSafe, run_update-IsSafe,
              run_query-IsSafe, run_check-IsSafe, run_edit-IsSafe,
            )
            depth 9)

IsSafe-ne : {m : MySql} (s : Step m) (u : Task m) → IsSafe s → s ≢ stop (fault double_free) u
IsSafe-ne (next t) u h e = cc
IsSafe-ne (stop e t) u h p = h (cc)

module _ {m : MySql} (env : Machine) (t : Task m) (later : List Arrival) where
  -- The state with a header at the front of the socket.
  abbrev pub header_first : PacketHdr → Task m
  header_first hdr = record t { inbox = push_back (hdr_bytes hdr) later }

  pub serve_one_header :
      (hdr : PacketHdr)
      → hdr.n_cmd < 2 ^ 16
      → hdr.n_len < 2 ^ 32
      → serve_one env (header_first hdr) ≡ dispatch env hdr (record t { inbox = later })
  unfolding serve_one recv hdr_bytes
  serve_one_header hdr p q =
      ap (λ h. dispatch env h (record t { inbox = later }))
        (unfold hdr_bytes in hdr_of_bytes-hdr_bytes hdr p q)

  -- A request whose header announces a text never makes the task delete its buffer twice, whatever
  -- the command, the state, and what arrives after the header.
  pub serve_one_frees_once :
      (hdr : PacketHdr) (u : Task m)
      → hdr.n_cmd < 2 ^ 16
      → hdr.n_len < 2 ^ 32
      → 0 < hdr.n_len
      → serve_one env (header_first hdr) ≢ stop (fault double_free) u
  serve_one_frees_once hdr u p q h = rw (serve_one_header hdr p q) (
      IsSafe-ne (dispatch env hdr (record t { inbox = later })) u
        (dispatch-IsSafe env hdr (record t { inbox = later }) (ground arith)))
