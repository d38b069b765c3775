-- ===== src/Tests/Connection.antt =====
-- The receiving half and the whole connection at concrete inputs.
use cs144_lab_assignment.Common.{
  ℕ, ◌+◌, ◌-◌, sum, ◌*◌, ◌≡◌, refl, true, false, List, [], ◌∷◌, some, inl, ltb, if◌then◌else◌,
  arith,
}
use cs144_lab_assignment.Buffer.{str, of_string, concatenate}
use cs144_lab_assignment.WrappingIntegers.{wrap}
use cs144_lab_assignment.ByteStream.{ByteStream, end_input}
use cs144_lab_assignment.ByteStream
use cs144_lab_assignment.StreamReassembler
use cs144_lab_assignment.StreamReassembler.Delivery as Reassembler
use cs144_lab_assignment.TcpConfig.{TcpConfig}
use cs144_lab_assignment.TcpConfig
use cs144_lab_assignment.TcpHeader
use cs144_lab_assignment.TcpSegment.{TcpSegment}
use cs144_lab_assignment.TcpSegment
use cs144_lab_assignment.TcpReceiver.{TcpReceiver, absolute_ackno}
use cs144_lab_assignment.TcpReceiver
use cs144_lab_assignment.TcpReceiver.Delivery.{Carries, with_isn, segment_received-IsValid}
use cs144_lab_assignment.TcpReceiver.Delivery as Receiver
use cs144_lab_assignment.TcpSender
use cs144_lab_assignment.TcpSender.Valid as Sender
use cs144_lab_assignment.TcpConnection.{
  TcpConnection, init, active, time_wait, listen, test_end, segment_received,
}
use cs144_lab_assignment.TcpConnection.Valid.{
  Event, receives, writes_data, passes, ends_input, connects, destroys, pops, react, react_all,
  AllPermitted, react_all-init-IsValid,
}
use cs144_lab_assignment.TcpConnection.Valid as Connection
use cs144_lab_assignment.TcpConnection.Shutdown.{
  IsReset, Failed, react-inactive, test_end-IsReset, receive_reset,
}
use cs144_lab_assignment.TcpConnection.Lingering.{tick_all, tick_all-active}
use cs144_lab_assignment.TcpState.{SenderSummary, sender_summary}
use cs144_lab_assignment.TcpState.Phases.{sender_summary_lem}

abbrev pub stream : List ℕ
stream = 104 ∷ 105 ∷ []

-- The peer has the isn 20; its stream is two bytes, the second with the end mark.
abbrev pub syn_segment : TcpSegment
syn_segment = record TcpSegment.empty {
  header = record TcpHeader.default { syn = true; seqno = 20 };
}

abbrev pub last_segment : TcpSegment
last_segment = record {
  header = record TcpHeader.default { fin = true; seqno = 22 };
  payload = of_string (105 ∷ []);
}

abbrev fresh_receiver : TcpReceiver
fresh_receiver = TcpReceiver.init 10

fresh_reassembler-IsValid : Reassembler.IsValid stream fresh_receiver.reassembler
unfolding TcpReceiver.init
fresh_reassembler-IsValid = Reassembler.init-IsValid stream 10 (omega arith)

syn-Carries : Carries stream 20 (with_isn fresh_receiver (some 20)) 0 syn_segment
unfolding TcpReceiver.init absolute_ackno StreamReassembler.init StreamReassembler.empty wrap str
syn-Carries = record {
  part = (omega arith, refl);
  opening = λ e. refl;
  labelled = refl;
  near = omega arith;
  isn_small = omega arith;
  small = omega arith;
}

segment_received_example :
    Receiver.IsValid stream 20 (TcpReceiver.segment_received fresh_receiver syn_segment).0
segment_received_example =
    segment_received-IsValid stream 20 fresh_receiver 0 syn_segment
      (record {
        reassembler = fresh_reassembler-IsValid;
        knows = inl (unfold TcpReceiver.init in refl);
      })
      syn-Carries

abbrev pub cfg : TcpConfig
cfg = record TcpConfig.default { fixed_isn = some 7 }

abbrev pub fresh : TcpConnection
fresh = init cfg 0

abbrev script : List Event
script =
    writes_data stream
    ∷ connects
    ∷ receives syn_segment
    ∷ receives last_segment
    ∷ passes 1000
    ∷ pops
    ∷ ends_input
    ∷ passes 12000
    ∷ destroys
    ∷ []

script-AllPermitted : AllPermitted fresh script
unfolding init TcpSender.init ByteStream.init
script-AllPermitted =
    ((refl, omega arith), (tt, (omega arith, (omega arith, (tt, (tt, (tt, (tt, (tt, tt)))))))))

react_all-init_example : Connection.IsValid (react_all fresh script)
react_all-init_example = react_all-init-IsValid cfg 0 script (omega arith) script-AllPermitted

pub fresh-IsValid : Connection.IsValid fresh
unfolding init TcpSender.init
fresh-IsValid = record {
  sender = Sender.init-IsValid cfg.send_capacity cfg.rt_timeout cfg.fixed_isn 0 (omega arith);
  handed = refl;
}

-- A connection that has retransmitted nine times, and one whose streams have ended.
abbrev tired : TcpConnection
tired = record fresh { sender = record fresh.sender { consecutive_retransmissions = 9 } }

test_end-IsReset_example : IsReset tired.segments_out (test_end tired)
test_end-IsReset_example = test_end-IsReset tired (unfold init TcpSender.init in refl) (omega arith)

abbrev ended_stream : ByteStream
ended_stream = end_input (ByteStream.init 10)

abbrev ended : TcpConnection
ended = record fresh {
  linger_after_streams_finish = false;
  sender = record fresh.sender { stream = ended_stream; next_seqno = 2; syn = true; fin = true };
  receiver = record fresh_receiver {
    reassembler = record fresh_receiver.reassembler { output = ended_stream };
    isn = some 20;
  };
}

-- A valid connection in TIME_WAIT, 300 ms after the last segment.
abbrev lingering : TcpConnection
lingering = record ended {
  linger_after_streams_finish = true;
  now_time = 500;
  time_when_last_segment_received = 200;
  sender = record ended.sender { ackno = 2 };
}

lingering-IsValid : Connection.IsValid lingering
unfolding init TcpSender.init end_input ByteStream.init ByteStream.eof ByteStream.buffer_empty
    concatenate
lingering-IsValid = record {
  sender = (
    record {
      stream = record {
        buffers = tt;
        read_le = omega arith;
        held = refl;
        fits = omega arith;
        written_small = omega arith;
        capacity_small = omega arith;
      };
      numbers = refl;
      unopened = λ e. cc;
      finished = λ e. refl;
      small = omega arith;
      window_small = omega arith;
      flight = omega arith;
      chain = refl;
      acked = omega arith;
      ackno_le = omega arith;
      front = tt;
    },
    refl,
  );
  handed = refl;
}

tick_all-active_example :
    active (tick_all lingering (4000 ∷ 7000 ∷ []))
    ≡ ltb (500 + sum (4000 ∷ 7000 ∷ []) - 200) (10 * lingering.cfg.rt_timeout)
tick_all-active_example =
    tick_all-active lingering (4000 ∷ 7000 ∷ []) lingering-IsValid (unfold active init in refl)
      (unfold init time_wait TcpReceiver.fin_recv TcpSender.fin_acked ByteStream.input_ended
          end_input ByteStream.eof ByteStream.init ByteStream.bytes_written ByteStream.buffer_empty
          TcpSender.init in
        refl)
      refl (unfold init TcpSender.init in omega arith) (omega arith) (unfold init in omega arith)
      (omega arith)

abbrev reset_segment : TcpSegment
reset_segment = record TcpSegment.empty { header = record TcpHeader.default { rst = true } }

receive_reset_example : Failed (segment_received ended reset_segment)
receive_reset_example =
    receive_reset ended reset_segment (unfold listen TcpReceiver.listen TcpReceiver.ackno in refl)
      refl

abbrev dead : TcpConnection
dead = record fresh { is_clear_shutdown = true }

react-inactive_example : active (react dead (writes_data stream)) ≡ false
react-inactive_example = react-inactive dead (writes_data stream) (unfold active init in refl)

sender_summary_example : sender_summary fresh.sender ≡ (
    if TcpSender.closed fresh.sender
    then SenderSummary.closed
    else if TcpSender.syn_sent fresh.sender
    then SenderSummary.syn_sent
    else if TcpSender.fin_sent fresh.sender
    then SenderSummary.fin_sent
    else if TcpSender.fin_acked fresh.sender
    then SenderSummary.fin_acked
    else SenderSummary.syn_acked)
sender_summary_example =
    sender_summary_lem fresh.sender fresh-IsValid.sender.0
      (unfold init TcpSender.init ByteStream.init in refl)
