-- ===== src/TcpSpongeSocket/Owner.antt =====
-- Rule 3 of `_initialize_TCP` of libsponge/tcp_helpers/tcp_sponge_socket.cc: the bytes for the owner.
use cs144_lab_assignment.Common.{
  ℕ, ◌≡◌, ap, sym, subst, ◌∙◌, Bool, false, List, [], ◌∷◌, ◌++◌, some, length, take, length-append,
  length-take, append-nil, arith, min,
}
use cs144_lab_assignment.ByteStream.{buffer_size, pop_output}
use cs144_lab_assignment.ByteStream
use cs144_lab_assignment.ByteStream.Valid.{
  contents, pop_output-Popped, read_lem, buffer_size-length,
}
use cs144_lab_assignment.FileDescriptor.{FdWrapper, Writev, Written}
use cs144_lab_assignment.FileDescriptor
use cs144_lab_assignment.FileDescriptor.Draining.{shown, drain_ends, drain_taken, drain_threw}
use cs144_lab_assignment.StreamReassembler.Delivery as Reassembler
use cs144_lab_assignment.StreamReassembler.History.{read_output, read_output-IsValid}
use cs144_lab_assignment.SystemCall.{Exception, Result, ok, throws}
use cs144_lab_assignment.TcpConnection.{TcpConnection}
use cs144_lab_assignment.WrappingIntegers.{WrappingInt32}
use cs144_lab_assignment.TcpSpongeSocket.{inbound_stream, pop_inbound}
use cs144_lab_assignment.TcpSpongeSocket.Core.{Core}

module _ {reads : ℕ → FileDescriptor.ReadReturn} {stream : List ℕ} {isn : WrappingInt32}
    {tcp : TcpConnection} {to_owner from_owner : List ℕ} {shut : Bool} {calls : ℕ}
    (c : Core reads stream isn tcp to_owner from_owner shut calls) where
  -- Bytes that the inbound stream holds first are taken and popped.
  pub Core-pop :
      (taken : List ℕ)
      → taken ≡ take (length taken) (contents (inbound_stream tcp))
      → Core reads stream isn
          (pop_inbound tcp (length taken))
          (to_owner ++ taken)
          from_owner
          shut
          calls
  unfolding pop_inbound read_output ByteStream.read
  Core-pop taken same =
      let valid = c.receives.valid.reassembler.delivered.valid in
      let out = inbound_stream tcp in
      let n : ℕ = length taken in
      let size = buffer_size-length valid in
      let count : n ≡ min n (length (contents out)) =
        ap length same ∙ length-take n (contents out) in
      let all : min n (buffer_size out) ≡ n = omega (arith, size) in
      let (v, bytes) = read_output-IsValid n c.receives.valid.reassembler in
      let (shows, _) = read_lem n valid in
      let p = pop_output-Popped n valid in
      let r = tcp.receiver.reassembler in
      let v' : Reassembler.IsValid stream (record r { output = pop_output out n }) =
        subst (λ (k : ℕ). Reassembler.IsValid stream (record r { output = pop_output out k })) all
          v in
      let next : take (pop_output out n).byte_read stream ≡ take out.byte_read stream ++ taken =
        subst
          (λ (k : ℕ). take (pop_output out k).byte_read stream ≡ take out.byte_read stream ++ taken)
          all (bytes ∙ ap (◌++◌ (take out.byte_read stream)) (shows ∙ sym same)) in
      let read : (pop_output out n).byte_read ≡ length (to_owner ++ taken) =
        omega (arith, p.count, c.receives.read, count, length-append to_owner taken) in
      record {
        sender = record { sender = c.sender.sender; handed = c.sender.handed };
        receives = record {
          valid = record { reassembler = v'; knows = c.receives.valid.knows };
          isn_small = c.receives.isn_small;
          short = c.receives.short;
          small = c.receives.small;
          read = read;
        };
        delivered =
            ap (λ (xs : List ℕ). xs ++ taken)
              (c.delivered ∙ ap (λ (k : ℕ). take k stream) (sym c.receives.read))
            ∙ sym next
            ∙ ap (λ (k : ℕ). take k stream) read;
        still_open = c.still_open;
        written = c.written;
        bounded = c.bounded;
      }

  -- What `write` of the stream's first bytes leaves.
  pub write_ends :
      (writev : Writev) (f : FdWrapper)
      → (r : Result ℕ) × ((FileDescriptor.write writev f
            (shown (inbound_stream tcp) ∷ [])
            false).result
          ≡ some r)
  write_ends writev f =
      drain_ends (inbound_stream tcp) c.receives.valid.reassembler.delivered.valid writev f

  pub Core-written :
      (writev : Writev) (f : FdWrapper) (n : ℕ)
      → let out = FileDescriptor.write writev f (shown (inbound_stream tcp) ∷ []) false in
        out.result ≡ some (ok n)
        → Core reads stream isn (pop_inbound tcp n) (to_owner ++ out.taken) from_owner shut calls
  Core-written writev f n h =
      let out : Written = FileDescriptor.write writev f (shown (inbound_stream tcp) ∷ []) false in
      let valid = c.receives.valid.reassembler.delivered.valid in
      let (first, count) = drain_taken (inbound_stream tcp) valid writev f n h in
      subst
        (λ (k : ℕ).
          Core reads stream isn (pop_inbound tcp k) (to_owner ++ out.taken) from_owner shut calls)
        count
        (Core-pop out.taken
          (first ∙ ap (λ (k : ℕ). take k (contents (inbound_stream tcp))) (sym count)))

  pub Core-threw :
      (writev : Writev) (f : FdWrapper) (e : Exception)
      → let out = FileDescriptor.write writev f (shown (inbound_stream tcp) ∷ []) false in
        out.result ≡ some (throws e)
        → Core reads stream isn tcp (to_owner ++ out.taken) from_owner shut calls
  Core-threw writev f e h =
      let valid = c.receives.valid.reassembler.delivered.valid in
      let none_taken = drain_threw (inbound_stream tcp) valid writev f e h in
      subst (λ (xs : List ℕ). Core reads stream isn tcp xs from_owner shut calls)
        (sym (ap (◌++◌ to_owner) none_taken ∙ append-nil to_owner)) c
