-- ===== src/TcpSpongeSocket/Invariant.antt =====
-- The event loop of libsponge/tcp_helpers/tcp_sponge_socket.cc around a connection whose peer sends a
-- stream.
use cs144_lab_assignment.Common.{
  ℕ, ◌+◌, ◌≤◌, ◌<◌, ◌^◌, ◌≡◌, refl, ap, sym, subst, ◌∙◌, Bool, false, not, ◌||◌, List, [], ◌∷◌,
  ◌++◌, Option, none, some, length, if_both, ◌==◌, arith, inl, inr, Option-cases,
}
use cs144_lab_assignment.Adapters.{Adapter}
use cs144_lab_assignment.ByteStream.{eof}
use cs144_lab_assignment.FileDescriptor.{got}
use cs144_lab_assignment.FileDescriptor
use cs144_lab_assignment.FileDescriptor.Reading.{offered, read-HasRead}
use cs144_lab_assignment.Socket.{shutdown, shut_wr}
use cs144_lab_assignment.SystemCall.{Exception, Result-cases, ok, throws}
use cs144_lab_assignment.TcpConnection.{remaining_outbound_capacity, write_data}
use cs144_lab_assignment.TcpConnection.Inbound.{OfPeer}
use cs144_lab_assignment.TcpConnection.Valid.{receives, react}
use cs144_lab_assignment.TcpSegment.{TcpSegment}
use cs144_lab_assignment.WrappingIntegers.{WrappingInt32}
use cs144_lab_assignment.TcpSpongeSocket.{
  Environment, Thread, hand_over, note_acked, read_datagram, end_outbound, write_outbound,
  read_owner, end_inbound, pop_written, write_owner, send_segments, inbound_stream,
}
use cs144_lab_assignment.TcpSpongeSocket.Core.{
  Core, Core-call, Core-queue, Core-react, Core-end, Core-write,
}
use cs144_lab_assignment.TcpSpongeSocket.Owner.{write_ends, Core-written, Core-threw}

-- An adapter that reads nothing but segments of the peer's stream, with windows of 16 bits.
abbrev pub Honest : Adapter → List ℕ → WrappingInt32 → Type 0
Honest A stream isn =
    (n : ℕ) (a : A.Self) (seg : TcpSegment)
    → (A.read n a).1 ≡ ok (some seg)
    → OfPeer stream isn seg × (seg.header.win < 2 ^ 16)

-- An owner who writes fewer bytes than the 64-bit counters count.
abbrev pub Modest : Environment → Type 0
Modest env = (n : ℕ) → offered env.thread_read n + 2 ^ 17 < 2 ^ 64

-- The invariant of the thread.
abbrev pub IsValid : {A : Adapter} → Environment → List ℕ → WrappingInt32 → Thread A → Type 0
IsValid env stream isn t =
    Core env.thread_read stream isn t.tcp t.to_owner t.from_owner t.outbound_shutdown t.system_calls

module _ (A : Adapter) (env : Environment) (stream : List ℕ) (isn : WrappingInt32)
    (honest : Honest A stream isn) (modest : Modest env) where
  abbrev pub Keeps : Thread A → Type 0
  Keeps t = IsValid env stream isn t

  note_acked-Keeps : (t : Thread A) → Keeps t → Keeps (note_acked A env t)
  unfolding note_acked
  note_acked-Keeps t v = if_both Keeps _ (λ _. v) λ _. v

  pub read_datagram-Keeps : (t : Thread A) → Keeps t → Keeps (read_datagram A env t).0
  unfolding read_datagram hand_over
  read_datagram-Keeps t v = elim (Result-cases (A.read t.system_calls t.datagram_adapter).1) [
    | inl (e, h) ↦ rw (read_datagram, h) (Core-call v)
    | inr (none, h) ↦ rw (read_datagram, h) (note_acked-Keeps _ (Core-call v))
    | inr (some seg, h) ↦
        let (peer, win) = honest t.system_calls t.datagram_adapter seg h in
        rw (read_datagram, h)
          (note_acked-Keeps _ (unfold react in Core-react (receives seg) (Core-call v) tt win peer))
  ]

  -- The outbound half is open, and the bytes are those of the last system call.
  write_outbound-Keeps :
      (t : Thread A) (bytes : List ℕ) (calls : ℕ)
      → Core env.thread_read stream isn t.tcp t.to_owner t.from_owner t.outbound_shutdown calls
      → t.outbound_shutdown ≡ false
      → env.thread_read calls ≡ got bytes
      → t.system_calls ≡ calls + 1
      → length bytes ≤ remaining_outbound_capacity t.tcp
      → Keeps (write_outbound A env t bytes).0
  unfolding write_outbound end_outbound
  write_outbound-Keeps t bytes calls v o r n room =
      let (v', all) = Core-write bytes v o r (modest (calls + 1)) room in
      let done : Bool = not ((write_data t.tcp bytes).1 == length bytes) in
      let v'' =
        subst
          (λ (k : ℕ).
            Core env.thread_read stream isn (write_data t.tcp bytes).0 t.to_owner
              (t.from_owner ++ bytes) t.outbound_shutdown k)
          (sym n) v' in
      if_both (λ (out : Thread A × Option Exception). Keeps out.0) done (λ _. v'')
        λ _. if_both Keeps t.thread_data.eof (λ _. Core-end v'') λ _. v''

  end_inbound-Keeps : (t : Thread A) → Keeps t → Keeps (end_inbound A env t).0
  unfolding end_inbound
  end_inbound-Keeps t v =
      if_both (λ (out : Thread A × Option Exception). Keeps out.0)
        (eof (inbound_stream t.tcp) || (inbound_stream t.tcp).error)
        (λ _.
          elim (Option-cases
            (shutdown t.thread_data (env.thread_shutdown t.system_calls) shut_wr).1) [
              | inl h ↦ rw h (Core-call v)
              | inr (e, h) ↦ rw h (Core-call v)
            ])
        λ _. v

  pub write_owner-Keeps : (t : Thread A) → Keeps t → Keeps (write_owner A env t).0
  unfolding write_owner pop_written
  write_owner-Keeps t v =
      let writev = env.thread_write t.system_calls in
      let (r, ended) = write_ends v writev t.thread_data in
      elim (Result-cases r) [
        | inl (e, x) ↦
            let h = ended ∙ ap some x in
            rw (write_owner, h) (Core-call (Core-threw v writev t.thread_data e h))
        | inr (n, x) ↦
            let h = ended ∙ ap some x in
            rw (write_owner, h)
              (end_inbound-Keeps _ (Core-call (Core-written v writev t.thread_data n h)))
      ]

  pub read_owner-Keeps :
      (t : Thread A) → Keeps t → t.outbound_shutdown ≡ false → Keeps (read_owner A env t).0
  unfolding read_owner
  read_owner-Keeps t v o =
      let answer = env.thread_read t.system_calls in
      let limit = remaining_outbound_capacity t.tcp in
      elim (Result-cases (FileDescriptor.read t.thread_data answer limit).1) [
        | inl (e, h) ↦ rw (read_owner, h) (Core-call v)
        | inr (bytes, h) ↦
            let has = read-HasRead t.thread_data answer limit bytes h in
            rw (read_owner, h)
              (write_outbound-Keeps _ bytes t.system_calls v o has.given refl has.asked)
      ]

  pub send_segments-Keeps :
      (segments : List TcpSegment) (t : Thread A)
      → Keeps t
      → Keeps (send_segments A env segments t).0
  unfolding send_segments
  send_segments-Keeps [] t v = Core-queue [] v
  send_segments-Keeps (seg ∷ segments) t v =
      let (adapter, seg', thrown) = A.write t.system_calls t.datagram_adapter seg in
      elim (Option-cases (A.write t.system_calls t.datagram_adapter seg).2) [
        | inl h ↦ rw (send_segments, h) (send_segments-Keeps segments _ (Core-call v))
        | inr (e, h) ↦ rw (send_segments, h) (Core-queue _ (Core-call v))
      ]

  -- For a valid thread with its outbound half open, rule 2 throws only what the read throws: the
  -- connection takes all the bytes that were read.
  pub read_owner_throws :
      (t : Thread A) (e : Exception)
      → Keeps t
      → t.outbound_shutdown ≡ false
      → (read_owner A env t).1 ≡ some e
      → (FileDescriptor.read t.thread_data
          (env.thread_read t.system_calls)
          (remaining_outbound_capacity t.tcp)).1
        ≡ throws e
  unfolding read_owner write_outbound
  read_owner_throws t e v o =
      let answer = env.thread_read t.system_calls in
      let limit = remaining_outbound_capacity t.tcp in
      elim (Result-cases (FileDescriptor.read t.thread_data answer limit).1) [
        | inl (x, h) ↦
            rw (read_owner, h) (λ thrown. let same : x ≡ e = ground arith in ap throws same)
        | inr (bytes, h) ↦
            let has = read-HasRead t.thread_data answer limit bytes h in
            let (_, all) = Core-write bytes v o has.given (modest (t.system_calls + 1)) has.asked in
            let done : not ((write_data t.tcp bytes).1 == length bytes) ≡ false = ground arith in
            rw (read_owner, h, write_outbound, done) (λ thrown. absurd (ground arith))
      ]
