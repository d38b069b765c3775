-- ===== src/TcpSpongeSocket/Core.antt =====
-- What TCPSpongeSocket of libsponge/tcp_helpers/tcp_sponge_socket.cc keeps of its connection and of the
-- bytes that it passes on.
use cs144_lab_assignment.Common.{
  ℕ, suc, ◌+◌, ◌≤◌, ◌<◌, ◌^◌, ◌≡◌, ap, ◌∙◌, Bool, true, false, List, ◌++◌, length, take,
  length-append, arith,
}
use cs144_lab_assignment.FileDescriptor.{ReadReturn, got}
use cs144_lab_assignment.FileDescriptor.Reading.{offered, read_length}
use cs144_lab_assignment.TcpConnection.{
  TcpConnection, write_data, end_input_stream, remaining_outbound_capacity,
}
use cs144_lab_assignment.TcpConnection.Inbound.{Receives, FromPeer, react-Receives}
use cs144_lab_assignment.TcpConnection.Outbound.{
  NotWriter, react-SameWriter, end_input_stream_lem, write_data_lem,
}
use cs144_lab_assignment.TcpConnection.Valid.{
  Event, receives, writes_data, ends_input, react, Permitted, react-IsValid,
}
use cs144_lab_assignment.TcpConnection.Valid
use cs144_lab_assignment.TcpSegment.{TcpSegment}
use cs144_lab_assignment.WrappingIntegers.{WrappingInt32}

-- A connection whose reader has got the first bytes of the peer's stream, and whose writer has written
-- the owner's bytes and has not ended them unless the outbound half is shut down.
pub record Core (reads : ℕ → ReadReturn) (stream : List ℕ) (isn : WrappingInt32)
    (tcp : TcpConnection) (to_owner from_owner : List ℕ) (outbound_shutdown : Bool) (calls : ℕ)
    : Type 0 where
  pub sender : Valid.IsValid tcp
  pub receives : Receives stream isn (length to_owner) tcp.receiver
  pub delivered : to_owner ≡ take (length to_owner) stream
  pub still_open : outbound_shutdown ≡ false → tcp.sender.stream.end ≡ false
  pub written : tcp.sender.stream.byte_written ≡ length from_owner
  pub bounded : length from_owner ≤ offered reads calls

module _ {reads : ℕ → ReadReturn} {stream : List ℕ} {isn : WrappingInt32} {tcp : TcpConnection}
    {to_owner from_owner : List ℕ} {shut : Bool} {calls : ℕ} where
  -- One more system call.
  pub Core-call :
      Core reads stream isn tcp to_owner from_owner shut calls
      → Core reads stream isn tcp to_owner from_owner shut (calls + 1)
  Core-call c =
      let e : calls + 1 ≡ suc calls = omega arith in
      record {
        sender = c.sender;
        receives = c.receives;
        delivered = c.delivered;
        still_open = c.still_open;
        written = c.written;
        bounded = rw e (unfold offered in omega (arith, c.bounded));
      }

  -- Another queue of segments.
  pub Core-queue :
      (segments : List TcpSegment)
      → Core reads stream isn tcp to_owner from_owner shut calls
      → Core reads stream isn
          (record tcp { segments_out = segments })
          to_owner
          from_owner
          shut
          calls
  Core-queue segments c = record {
    sender = record { sender = c.sender.sender; handed = c.sender.handed };
    receives = c.receives;
    delivered = c.delivered;
    still_open = c.still_open;
    written = c.written;
    bounded = c.bounded;
  }

  -- An event that is not the writer's.
  pub Core-react :
      (e : Event)
      → Core reads stream isn tcp to_owner from_owner shut calls
      → NotWriter e
      → Permitted tcp e
      → FromPeer stream isn e
      → Core reads stream isn (react tcp e) to_owner from_owner shut calls
  Core-react e c n p o =
      let (w, end) = react-SameWriter tcp e n in
      record {
        sender = react-IsValid tcp e c.sender p;
        receives = react-Receives stream isn (length to_owner) tcp e c.receives o;
        delivered = c.delivered;
        still_open = λ s. end ∙ c.still_open s;
        written = w ∙ c.written;
        bounded = c.bounded;
      }

  pub Core-end :
      Core reads stream isn tcp to_owner from_owner shut calls
      → Core reads stream isn (end_input_stream tcp) to_owner from_owner true calls
  Core-end c =
      let (w, end) = end_input_stream_lem tcp in
      record {
        sender = unfold react in react-IsValid tcp ends_input c.sender tt;
        receives =
            unfold react in
            react-Receives stream isn (length to_owner) tcp ends_input c.receives tt;
        delivered = c.delivered;
        still_open = λ s. ground arith;
        written = w ∙ c.written;
        bounded = c.bounded;
      }

  -- The bytes of the last call, which the capacity has room for, go to the connection, which takes all.
  pub Core-write :
      (bytes : List ℕ)
      → Core reads stream isn tcp to_owner from_owner shut calls
      → shut ≡ false
      → reads calls ≡ got bytes
      → offered reads (calls + 1) + 2 ^ 17 < 2 ^ 64
      → length bytes ≤ remaining_outbound_capacity tcp
      → Core reads stream isn
          (write_data tcp bytes).0
          to_owner
          (from_owner ++ bytes)
          shut
          (calls + 1)
        × ((write_data tcp bytes).1 ≡ length bytes)
  Core-write bytes c o r small room =
      let e : calls + 1 ≡ suc calls = omega arith in
      let len = ap read_length r in
      let sum : offered reads (calls + 1) ≡ offered reads calls + length bytes =
        rw e (unfold offered in omega (arith, len)) in
      let open_end = c.still_open o in
      let (n, w, end) =
        write_data_lem tcp bytes c.sender.sender.0.stream (omega (arith, c.written, c.bounded))
          room in
      let p : Permitted tcp (writes_data bytes) = (open_end, omega (arith, c.written, c.bounded)) in
      (
        record {
          sender = unfold react in react-IsValid tcp (writes_data bytes) c.sender p;
          receives =
              unfold react in
              react-Receives stream isn (length to_owner) tcp (writes_data bytes) c.receives tt;
          delivered = c.delivered;
          still_open = λ s. end ∙ open_end;
          written = w ∙ omega (arith, c.written, length-append from_owner bytes);
          bounded = omega (arith, c.bounded, length-append from_owner bytes);
        },
        n,
      )
