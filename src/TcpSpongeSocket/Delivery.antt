-- ===== src/TcpSpongeSocket/Delivery.antt =====
-- What the loops of libsponge/tcp_helpers/tcp_sponge_socket.cc deliver to the owner.
use cs144_lab_assignment.Common.{
  ℕ, ◌+◌, ◌<◌, ◌^◌, ◌≡◌, refl, true, List, [], ◌∷◌, none, length, take, arith, inl,
}
use cs144_lab_assignment.Adapters.{Adapter}
use cs144_lab_assignment.EventLoop.{add_rule}
use cs144_lab_assignment.FdAdapter.{FdAdapterConfig, set_listening}
use cs144_lab_assignment.FileDescriptor.{FdWrapper}
use cs144_lab_assignment.StreamReassembler
use cs144_lab_assignment.StreamReassembler.Delivery as Reassembler
use cs144_lab_assignment.ByteStream
use cs144_lab_assignment.TcpConfig.{TcpConfig}
use cs144_lab_assignment.TcpConnection
use cs144_lab_assignment.TcpConnection.Valid.{connects, react, react_all, react_all-init-IsValid}
use cs144_lab_assignment.TcpReceiver
use cs144_lab_assignment.TcpSender
use cs144_lab_assignment.TcpState.{State}
use cs144_lab_assignment.WrappingIntegers.{WrappingInt32}
use cs144_lab_assignment.TcpSpongeSocket.{
  Environment, Thread, datagram_in, owner_in, owner_out, datagram_out,
}
use cs144_lab_assignment.TcpSpongeSocket.Core.{Core-react}
use cs144_lab_assignment.TcpSpongeSocket.Invariant.{Honest, Modest}
use cs144_lab_assignment.TcpSpongeSocket.Lifecycle.{
  Looped, tcp_loop, initialize_tcp, SpongeSocket, looped, start_connecting, connect,
  listen_and_accept, tcp_main, is_in, configure, is_opening,
}
use cs144_lab_assignment.TcpSpongeSocket.Opening.{connect_lem}
use cs144_lab_assignment.TcpSpongeSocket.Sound.{reached, Sound, tcp_loop-Sound}

-- A stream whose peer and whose receiver's buffer keep to the sequence numbers.
pub record IsShort (stream : List ℕ) (isn : WrappingInt32) (cfg : TcpConfig) : Type 0 where
  pub isn_small : isn < 2 ^ 32
  pub short : length stream + 3 < 2 ^ 31
  pub recv_small : cfg.recv_capacity + length stream + 4 < 2 ^ 64
  pub send_small : cfg.send_capacity < 2 ^ 64

-- What the owner has got is a prefix of the peer's stream, and what was read from the owner has all been
-- taken by the connection.
pub record Delivers {A : Adapter} (stream : List ℕ) (t : Thread A) : Type 0 where
  pub delivered : t.to_owner ≡ take (length t.to_owner) stream
  pub accepted : t.tcp.sender.stream.byte_written ≡ length t.from_owner

module _ (A : Adapter) (env : Environment) (stream : List ℕ) (isn : WrappingInt32)
    (honest : Honest A stream isn) (modest : Modest env) where
  -- A new connection.
  pub initialize_tcp-Sound :
      (cfg : TcpConfig) (random : WrappingInt32) (thread_data : FdWrapper) (adapter : A.Self)
      → IsShort stream isn cfg
      → Sound A env stream isn honest modest (initialize_tcp A env cfg random thread_data adapter)
  unfolding initialize_tcp add_rule TcpConnection.init TcpReceiver.init TcpSender.init
      StreamReassembler.init ByteStream.init
  initialize_tcp-Sound cfg random thread_data adapter h = record {
    valid = record {
      sender = unfold react_all in react_all-init-IsValid cfg random [] h.send_small tt;
      receives = record {
        valid = record {
          reassembler =
              Reassembler.init-IsValid stream cfg.recv_capacity (omega (arith, h.recv_small));
          knows = inl refl;
        };
        isn_small = h.isn_small;
        short = h.short;
        small = h.recv_small;
        read = refl;
      };
      delivered = refl;
      still_open = λ _. refl;
      written = refl;
      bounded = omega arith;
    };
    ids = datagram_in ∷ owner_in ∷ owner_out ∷ datagram_out ∷ [];
    left = refl;
    distinct = (
      (ground arith, (ground arith, (ground arith, tt))),
      ((ground arith, (ground arith, tt)), ((ground arith, tt), (tt, tt))),
    );
  }

  start_connecting-Sound :
      (s : SpongeSocket A env) (cfg : TcpConfig) (random : WrappingInt32) (c_ad : FdAdapterConfig)
      → IsShort stream isn cfg
      → Sound A env stream isn honest modest (start_connecting A env s cfg random c_ad)
  unfolding start_connecting
  start_connecting-Sound s cfg random c_ad h =
      let adapter = configure A env s.datagram_adapter c_ad in
      let v = initialize_tcp-Sound cfg random s.thread_data adapter h in
      record {
        valid = unfold react in Core-react connects v.valid tt tt tt;
        ids = v.ids;
        left = v.left;
        distinct = v.distinct;
      }

  main-Delivers :
      (fuel : ℕ) (l : Looped A)
      → Sound A env stream isn honest modest (reached l)
      → Delivers stream (reached (tcp_main A env fuel (reached l))).thread
  unfolding tcp_main
  main-Delivers fuel l v =
      let w = tcp_loop-Sound A env stream isn honest modest fuel (λ _. true) (reached l) v in
      record { delivered = w.valid.delivered; accepted = w.valid.written }

  -- A socket whose connection has not been initialized, over an adapter that reads only segments of a
  -- peer's stream, shorter than half of the sequence numbers: `connect` is not refused, and however long
  -- its loop and that of `_tcp_main` run, whatever the kernel answers and whatever is thrown, the bytes
  -- given to the owner are a prefix of the peer's stream, and the connection has taken as many bytes as
  -- were read from the owner.
  pub connect-Delivers :
      (fuel fuel' : ℕ) (s : SpongeSocket A env) (cfg : TcpConfig) (random : WrappingInt32)
      (c_ad : FdAdapterConfig)
      → IsShort stream isn cfg
      → s.running ≡ none
      → (l : Looped A) × (connect A env fuel s cfg random c_ad ≡ looped l)
        × Delivers stream (reached (tcp_main A env fuel' (reached l))).thread
  connect-Delivers fuel fuel' s cfg random c_ad h n =
      let r = start_connecting A env s cfg random c_ad in
      let l : Looped A = tcp_loop A env fuel (is_in State.syn_sent) r in
      (
        l,
        connect_lem A env fuel s cfg random c_ad n,
        main-Delivers fuel' l (
            tcp_loop-Sound A env stream isn honest modest fuel (is_in State.syn_sent) r
              (start_connecting-Sound s cfg random c_ad h)),
      )

  -- The same of `listen_and_accept`: a new socket over such an adapter loops, and through its loop and
  -- that of `_tcp_main` the owner gets a prefix of the peer's stream.
  pub listen_and_accept-Delivers :
      (fuel fuel' : ℕ) (s : SpongeSocket A env) (cfg : TcpConfig) (random : WrappingInt32)
      (c_ad : FdAdapterConfig)
      → IsShort stream isn cfg
      → s.running ≡ none
      → (l : Looped A) × (listen_and_accept A env fuel s cfg random c_ad ≡ looped l)
        × Delivers stream (reached (tcp_main A env fuel' (reached l))).thread
  unfolding listen_and_accept
  listen_and_accept-Delivers fuel fuel' s cfg random c_ad h n =
      let a = configure A env s.datagram_adapter c_ad in
      let a' = A.with_base a (set_listening (A.base a) true) in
      let r = initialize_tcp A env cfg random s.thread_data a' in
      let l : Looped A = tcp_loop A env fuel (is_opening A env) r in
      (
        l,
        rw (listen_and_accept, n) refl,
        main-Delivers fuel' l (
            tcp_loop-Sound A env stream isn honest modest fuel (is_opening A env) r
              (initialize_tcp-Sound cfg random s.thread_data a' h)),
      )
