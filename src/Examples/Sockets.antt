-- ===== src/Examples/Sockets.antt =====
-- The login button pressed three times, and a task without a database.
use school_information_manag.Prelude.{
  ◌+◌, ◌≡◌, refl, arith, true, false, none, some, List, [], ◌∷◌, ◌++◌, length, map, codes, pos,
}
use school_information_manag.Net.{failed, outbox_of}
use school_information_manag.Proto.Requests.{class, del}
use school_information_manag.Server.State.{Task, disconnected, unset}
use school_information_manag.Server.Session.{Ask, incoming}
use school_information_manag.Server.Connect.{Profile, Connector, connect_mysql, runs, run_task}
use school_information_manag.Server.Connect.Refused.{Refuses, failure, refused_session}
use school_information_manag.Client.Login.{LoginDlg}
use school_information_manag.Client.Socket.{Failure, created, done, refused, new_socket}
use school_information_manag.Client.Socket.Clicks.{Press, Clicked, press, presses}
use school_information_manag.Client.Socket.Destroyed.{on_destroy, next_header, destroyed_spins}
use school_information_manag.Client.Socket.Links.{link_of, last_link, failed_links, presses_links}
use school_information_manag.Client.Socket.Requests.{login_out, press_sends}
use school_information_manag.Examples.Fixtures.{db, machine, task, statement}

abbrev dialog : LoginDlg
dialog = record {
  edit_user = codes "ann";
  edit_pwd = codes "x";
  thread_exit = false;
  main_shown = false;
  boxes = [];
}

abbrev unreachable : Failure
unreachable = record { code = 10061; text = codes "refused" }

-- Connected, refused, connected.
abbrev three : List Press
three =
    record { made = created 4; linked = done; reason = unreachable }
    ∷ record { made = created 5; linked = refused unreachable; reason = unreachable }
    ∷ record { made = created 6; linked = done; reason = unreachable }
    ∷ []

abbrev idle_client : Clicked
idle_client = record {
  socket = new_socket none;
  wires = record { out = λ h. outbox_of []; inbox = λ h. [] };
  threads = 0;
}

presses_links_example :
    ((presses dialog three idle_client).socket.m_socket ≡ last_link none three)
    × ((presses dialog three idle_client).socket.closed ≡ [] ++ failed_links three)
    × ((presses dialog three idle_client).threads ≡ 0 + length three)
presses_links_example = presses_links dialog three idle_client

abbrev first_press : Press
first_press = record { made = created 4; linked = done; reason = unreachable }

press_sends_example :
    (press dialog first_press idle_client).wires.out 4
    ≡ login_out dialog (link_of (created 4) done) (λ h. outbox_of []) 4
press_sends_example = press_sends dialog first_press idle_client 4

destroyed_spins_example :
    next_header 9 unreachable (on_destroy (new_socket (some 4))) idle_client.wires ≡ none
destroyed_spins_example = destroyed_spins 9 unreachable (new_socket (some 4)) idle_client.wires

abbrev no_settings : Profile
no_settings section key default size path = default

abbrev offline : Connector (db (pos 1) none)
offline = record {
  library_init = true;
  mysql_init = [];
  set_charset = λ name conn. conn;
  real_connect = λ host user pwd name port conn. (false, conn);
}

offline-Refuses : Refuses (db (pos 1) none) (λ conn. Unit)
offline-Refuses = record {
  query = λ text conn h. refl;
  stays = λ text conn h. tt;
  no_result = λ conn h. refl;
}

abbrev one_ask : List Ask
one_ask = record { entity = class; change = del; text = statement } ∷ []

refused_session_example :
    (t' : Task (db (pos 1) none)) × (run_task machine no_settings offline 2 1
        (record (task (pos 1) none unset) { inbox = incoming one_ask (failed 7 ∷ []) })
      ≡ runs (some (disconnected, t')))
    × (t'.out ≡ outbox_of ([] ++ map failure one_ask))
unfolding connect_mysql
refused_session_example =
    refused_session (λ conn. Unit) offline-Refuses machine no_settings offline [] one_ask
      (task (pos 1) none unset) 7 0 [] [] refl tt ((omega arith, omega arith), tt) refl
