-- ===== src/Examples/Channel.antt =====
-- A message of two bytes over a link of two new blocks.
use school_information_manag.Prelude.{
  ◌+◌, ◌≤◌, ◌≡◌, refl, arith, List, [], ◌∷◌, ◌++◌, inl, All, Bytes, pos,
}
use school_information_manag.TcpSocket.{
  alloc_pcb, packet, send, send_loop, segment, recv, peek_size, take_in_order, in_order, input,
  update, move_queue, send_acks, flush, flush_one,
}
use school_information_manag.TcpSocket.Order.{Event, run}
use school_information_manag.TcpSocket.Numbers.{total, segments_of, datagrams_of, run_bounded}
use school_information_manag.TcpSocket.Bounds.{Fits, update-run-Fits}
use school_information_manag.TcpSocket.Channel.{
  Link, Reach, here, next, sends, flushes, arrives, receives, joined,
}
use school_information_manag.TcpSocket.Channel.Reliable.{reliable}
use school_information_manag.TcpSocket.Channel.Drained.{received_times, delivers_everything}
use school_information_manag.Examples.Segments.{fresh, message, data_packet}

-- After `Send`, and after the `Update` at tick 100.
abbrev asked_link : Link
asked_link = record (joined 5 6) {
  sender = (send fresh message (pos 2) (alloc_pcb 5)).1;
  asked = message ∷ [];
}

abbrev flushed_link : Link
flushed_link = record asked_link {
  sender = (update fresh 100 asked_link.sender).1;
  data_net = (update fresh 100 asked_link.sender).0;
}

-- The packet arrives twice, and `Recv` puts it in order.
abbrev arrived_link : Link
arrived_link = record flushed_link {
  receiver =
      (input (packet 34 data_packet) (input (packet 34 data_packet) flushed_link.receiver).1).1;
}

abbrev ordered_link : Link
ordered_link = record arrived_link { receiver = (recv (pos 10) arrived_link.receiver).pcb }

on_the_way : flushed_link.data_net ≡ data_packet ∷ []
unfolding alloc_pcb send send_loop segment update move_queue send_acks flush flush_one
on_the_way = refl

arrived-Reach : Reach (joined 5 6) arrived_link
unfolding alloc_pcb send send_loop segment update move_queue send_acks flush flush_one
arrived-Reach =
    next
      (next (next (next here (sends (joined 5 6) fresh message)) (flushes asked_link fresh 100))
        (arrives flushed_link (packet 34 data_packet) (inl refl)))
      (arrives
        (record flushed_link { receiver = (input (packet 34 data_packet) flushed_link.receiver).1 })
        (packet 34 data_packet) (inl refl))

ordered-Reach : Reach (joined 5 6) ordered_link
unfolding recv peek_size input alloc_pcb
ordered-Reach = next arrived-Reach (receives arrived_link (pos 10))

reliable_example : (left : List Bytes) × (ordered_link.asked ≡ ordered_link.delivered ++ left)
reliable_example = reliable 5 6 ordered_link ordered-Reach

delivers_everything_example : (received_times 1 10 ordered_link).delivered ≡ ordered_link.asked
unfolding alloc_pcb send send_loop segment update move_queue recv peek_size input take_in_order
    in_order send_acks flush flush_one
delivers_everything_example =
    delivers_everything 5 6 ordered_link 10 (message ∷ []) ordered-Reach refl refl (omega arith, tt)

update-run-Fits_example :
    All Fits (update fresh 100 (run (alloc_pcb 5) (Event.sends fresh message (pos 2) ∷ []))).0
update-run-Fits_example = update-run-Fits 5 (Event.sends fresh message (pos 2) ∷ []) fresh 100

abbrev sent_and_echoed : List Event
sent_and_echoed =
    Event.sends fresh message (pos 2)
    ∷ Event.inputs (packet 34 data_packet)
    ∷ Event.recvs (pos 9)
    ∷ []

run_bounded_example :
    ((run (alloc_pcb 5) sent_and_echoed).n_seq
      ≤ total segments_of sent_and_echoed + total datagrams_of sent_and_echoed)
    × ((run (alloc_pcb 5) sent_and_echoed).n_recv_seq ≤ total datagrams_of sent_and_echoed)
run_bounded_example = run_bounded 5 sent_and_echoed
