-- ===== src/Socket.antt =====
-- libsponge/util/socket.hh and socket.cc: what sockets do beyond a file descriptor. The calls that only
-- pass their arguments on to the kernel are left out.
use cs144_lab_assignment.Common.{ℕ, not, List, Option, none, some, length, ltb, ◌==◌, if◌then◌else◌}
use cs144_lab_assignment.Buffer.{BufferViewList, view_size}
use cs144_lab_assignment.FdAdapter.{Address}
use cs144_lab_assignment.FileDescriptor.{FdWrapper, register_read, register_write}
use cs144_lab_assignment.SystemCall.{
  Exception, runtime_error, unix_error, Result, ok, throws, SysReturn, system_call,
}

-- The argument of `shutdown`; `other` is a number that is none of the three.
pub data How : Type 0 where
  shut_rd shut_wr shut_rdwr other : How

-- The `switch` of `shutdown`.
unfoldable pub count_shutdown : FdWrapper → How → FdWrapper × Option Exception
count_shutdown f shut_rd = (register_read f, none)
count_shutdown f shut_wr = (register_write f, none)
count_shutdown f shut_rdwr = (register_write (register_read f), none)
count_shutdown f other = (f, some runtime_error)

-- `Socket::shutdown`: the descriptor, and what is thrown, if anything.
unfoldable pub shutdown : FdWrapper → SysReturn → How → FdWrapper × Option Exception
shutdown f answer how = elim (system_call answer) [
  | throws e ↦ (f, some e)
  | ok n ↦ count_shutdown f how
]

-- What the kernel answers to `recvfrom`: the sender and the whole datagram, whose length it returns even
-- if it was cut off, or a failure with its `errno`.
pub data RecvReturn : Type 0 where
  received : Address → List ℕ → RecvReturn
  recv_fails : ℕ → RecvReturn

-- The default `mtu` of `recv`.
abbrev pub default_mtu : ℕ
default_mtu = 65536

-- `UDPSocket::recv`
unfoldable pub recv : FdWrapper → RecvReturn → ℕ → FdWrapper × Result (Address × List ℕ)
recv f (recv_fails errno) mtu = (f, throws (unix_error errno))
recv f (received source_address payload) mtu =
    if ltb mtu (length payload)
    then (f, throws runtime_error)
    else (register_read f, ok (source_address, payload))

-- `sendmsg_helper`, with what it throws, if anything.
unfoldable pub sendmsg_helper : SysReturn → BufferViewList → Option Exception
sendmsg_helper answer payload = elim (system_call answer) [
  | throws e ↦ some e
  | ok bytes_sent ↦ if not (bytes_sent == view_size payload) then some runtime_error else none
]

-- `UDPSocket::sendto`, the same as `send` but for the address that the kernel is given.
unfoldable pub sendto : FdWrapper → SysReturn → BufferViewList → FdWrapper × Option Exception
unfolding sendmsg_helper
sendto f answer payload = elim (sendmsg_helper answer payload) [
  | some e ↦ (f, some e)
  | none ↦ (register_write f, none)
]
