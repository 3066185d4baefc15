-- ===== src/Examples/Segments.antt =====
-- Blocks of the reliable protocol.
use school_information_manag.Prelude.{◌≡◌, refl, arith, List, [], ◌∷◌, Bytes, pos}
use school_information_manag.TcpSocket.{
  OldMemory, TcpPacket, TcpPcb, cmd_psh, alloc_pcb, send, recv, packet, update,
}
use school_information_manag.TcpSocket.Sending.{Segments}
use school_information_manag.TcpSocket.Order.{inputs, recvs, run, InOrder, run-alloc_pcb-InOrder}
use school_information_manag.TcpSocket.RoundTrip.{Delivered, arrivals, send-recv}
use school_information_manag.TcpSocket.Gaps.{Waits, run-Waits}
use school_information_manag.TcpSocket.Resending.{updates, sent_only_once}
use school_information_manag.TcpSocket.Acks.{acks_of, update_answers}

abbrev pub fresh : OldMemory
fresh k = record {
  conv = 0;
  n_cmd = 0;
  n_len = 0;
  n_seq = 0;
  n_ack_seq = 0;
  n_segment = 0;
  n_time = 0;
  n_cnt = 0;
  bytes = [];
}

abbrev pub message : Bytes
message = 104 ∷ 105 ∷ []

abbrev block : TcpPcb
block = record {
  conv = 5;
  n_seq = 0;
  n_recv_seq = 0;
  n_rto = 1000;
  send_queue = [];
  send_buf = [];
  recv_queue = [];
  recv_buf = [];
  ack_list = [];
}

abbrev pub data_packet : TcpPacket
data_packet = record (fresh 0) { conv = 5; n_cmd = cmd_psh; n_len = 2; bytes = message }

send-recv_example : Delivered message (
    recv
      (pos 10)
      (recv
        (pos 10)
        (run block (arrivals (update fresh 30 (send fresh message (pos 2) block).1).0))).pcb)
send-recv_example =
    send-recv fresh fresh message 30 10 block block refl refl refl refl refl refl (omega arith)
      (omega arith) (omega arith)

run-alloc_pcb-InOrder_example : InOrder (
    run (alloc_pcb 5) (
      inputs (packet 34 (record data_packet { n_seq = 1 }))
      ∷ inputs (packet 34 data_packet)
      ∷ recvs (pos 10)
      ∷ []))
run-alloc_pcb-InOrder_example = run-alloc_pcb-InOrder 5 (
    inputs (packet 34 (record data_packet { n_seq = 1 }))
    ∷ inputs (packet 34 data_packet)
    ∷ recvs (pos 10)
    ∷ [])

run-Waits_example :
    Waits 1
      (run (record block { n_recv_seq = 1 }) (inputs (packet 34 data_packet) ∷ recvs (pos 10) ∷ []))
run-Waits_example =
    run-Waits 1 (record block { n_recv_seq = 1 })
      (inputs (packet 34 data_packet) ∷ recvs (pos 10) ∷ []) ((λ h e. omega arith), (tt, tt))
      (refl, tt)

sent_only_once_example :
    (ps : List TcpPacket) × ((updates fresh
        (30 ∷ 500 ∷ 1500 ∷ [])
        (send fresh message (pos 2) block).1).0
      ≡ ps)
    × Segments 5 0 message ps
sent_only_once_example =
    sent_only_once fresh fresh message 30 (500 ∷ 1500 ∷ []) block refl refl refl (omega arith)
      (omega arith, omega arith, (omega arith, omega arith, tt))

update_answers_example :
    (update fresh 30 (record block { ack_list = 3 ∷ 4 ∷ [] })).0 ≡ acks_of fresh 5 0 (3 ∷ 4 ∷ [])
update_answers_example =
    update_answers fresh 30 (record block { ack_list = 3 ∷ 4 ∷ [] }) (omega arith) refl refl
      (λ k. refl)
