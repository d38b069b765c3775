-- ===== src/TcpSpongeSocket/Rules.antt =====
-- The rules of libsponge/tcp_helpers/tcp_sponge_socket.cc beside each other.
use cs144_lab_assignment.Common.{
  ℕ, ◌≡◌, refl, ◌∙◌, true, false, List, [], ◌∷◌, Option, none, some, arith, inl, inr, Option-cases,
  ◌≢◌,
}
use cs144_lab_assignment.Adapters.{Adapter}
use cs144_lab_assignment.EventLoop.Rules.{Respects}
use cs144_lab_assignment.SystemCall.{Result-cases, Result, ok, throws}
use cs144_lab_assignment.TcpSegment.{TcpSegment}
use cs144_lab_assignment.WrappingIntegers.{WrappingInt32}
use cs144_lab_assignment.TcpSpongeSocket.{
  Environment, Thread, RuleName, datagram_in, owner_in, owner_out, datagram_out, hand_over,
  note_acked, read_datagram, end_outbound, end_inbound, pop_written, write_owner, send_segments,
  write_datagrams, wants_owner_in, rule,
}
use cs144_lab_assignment.TcpSpongeSocket.Core.{Core-end}
use cs144_lab_assignment.TcpSpongeSocket.Invariant.{
  Honest, Modest, IsValid, read_datagram-Keeps, read_owner-Keeps, write_owner-Keeps,
  send_segments-Keeps,
}

-- What the interest of a rule ensures until its callback runs.
abbrev pub Ensured : {A : Adapter} → RuleName → Thread A → Type 0
Ensured owner_in t = t.outbound_shutdown ≡ false
Ensured _ t = Unit {0}

module _ (A : Adapter) (env : Environment) where
  note_acked-shutdown :
      (t : Thread A) → (note_acked A env t).outbound_shutdown ≡ t.outbound_shutdown
  unfolding note_acked
  note_acked-shutdown t = ground arith

  read_datagram-shutdown :
      (t : Thread A) → (read_datagram A env t).0.outbound_shutdown ≡ t.outbound_shutdown
  unfolding read_datagram hand_over
  read_datagram-shutdown t = elim (Result-cases (A.read t.system_calls t.datagram_adapter).1) [
    | inl (e, h) ↦ rw (read_datagram, h) refl
    | inr (none, h) ↦ rw (read_datagram, h) (note_acked-shutdown _)
    | inr (some seg, h) ↦ rw (read_datagram, h) (note_acked-shutdown _)
  ]

  end_inbound-shutdown :
      (t : Thread A) → (end_inbound A env t).0.outbound_shutdown ≡ t.outbound_shutdown
  unfolding end_inbound
  end_inbound-shutdown t = ground arith

  pop_written-shutdown :
      (t : Thread A) (o : Option (Result ℕ))
      → (pop_written A env t o).0.outbound_shutdown ≡ t.outbound_shutdown
  unfolding pop_written
  pop_written-shutdown t none = refl
  pop_written-shutdown t (some (throws e)) = refl
  pop_written-shutdown t (some (ok n)) = end_inbound-shutdown _

  write_owner-shutdown :
      (t : Thread A) → (write_owner A env t).0.outbound_shutdown ≡ t.outbound_shutdown
  unfolding write_owner
  write_owner-shutdown t = pop_written-shutdown _ _

  send_segments-shutdown :
      (segments : List TcpSegment) (t : Thread A)
      → (send_segments A env segments t).0.outbound_shutdown ≡ t.outbound_shutdown
  unfolding send_segments
  send_segments-shutdown [] t = refl
  send_segments-shutdown (seg ∷ segments) t =
      elim (Option-cases (A.write t.system_calls t.datagram_adapter seg).2) [
        | inl h ↦ rw (send_segments, h) (send_segments-shutdown segments _)
        | inr (e, h) ↦ rw (send_segments, h) refl
      ]

module _ (A : Adapter) (env : Environment) (stream : List ℕ) (isn : WrappingInt32)
    (honest : Honest A stream isn) (modest : Modest env) where
  pub rule-Respects : Respects (rule A env) (IsValid env stream isn) Ensured
  unfolding rule wants_owner_in write_datagrams end_outbound
  rule-Respects = record {
    interested = interested;
    runs = runs;
    stops = stops;
    runs_beside = runs_beside;
    stops_beside = stops_beside;
  }
    where
      interested :
          (i : RuleName) (t : Thread A)
          → IsValid env stream isn t
          → (rule A env i).interest t ≡ true
          → Ensured i t
      interested datagram_in t v h = tt
      interested owner_in t v h = ground arith
      interested owner_out t v h = tt
      interested datagram_out t v h = tt

      runs :
          (i : RuleName) (t : Thread A)
          → IsValid env stream isn t
          → Ensured i t
          → IsValid env stream isn ((rule A env i).callback t).0
      runs datagram_in t v g = read_datagram-Keeps A env stream isn honest modest t v
      runs owner_in t v g = read_owner-Keeps A env stream isn honest modest t v g
      runs owner_out t v g = write_owner-Keeps A env stream isn honest modest t v
      runs datagram_out t v g =
          send_segments-Keeps A env stream isn honest modest t.tcp.segments_out t v

      stops :
          (i : RuleName) (t : Thread A)
          → IsValid env stream isn t
          → IsValid env stream isn ((rule A env i).cancel t).0
      stops datagram_in t v = v
      stops owner_in t v = Core-end v
      stops owner_out t v = v
      stops datagram_out t v = v

      runs_beside :
          (i j : RuleName) (t : Thread A)
          → i ≢ j
          → IsValid env stream isn t
          → Ensured i t
          → Ensured j t
          → Ensured j ((rule A env i).callback t).0
      runs_beside i datagram_in t n v g h = tt
      runs_beside i owner_out t n v g h = tt
      runs_beside i datagram_out t n v g h = tt
      runs_beside datagram_in owner_in t n v g h = read_datagram-shutdown A env t ∙ h
      runs_beside owner_in owner_in t n v g h = absurd (n refl)
      runs_beside owner_out owner_in t n v g h = write_owner-shutdown A env t ∙ h
      runs_beside datagram_out owner_in t n v g h =
          send_segments-shutdown A env t.tcp.segments_out t ∙ h

      stops_beside :
          (i j : RuleName) (t : Thread A)
          → i ≢ j
          → IsValid env stream isn t
          → Ensured j t
          → Ensured j ((rule A env i).cancel t).0
      stops_beside i datagram_in t n v h = tt
      stops_beside i owner_out t n v h = tt
      stops_beside i datagram_out t n v h = tt
      stops_beside datagram_in owner_in t n v h = h
      stops_beside owner_in owner_in t n v h = absurd (n refl)
      stops_beside owner_out owner_in t n v h = h
      stops_beside datagram_out owner_in t n v h = h
