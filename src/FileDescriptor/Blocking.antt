-- ===== src/FileDescriptor/Blocking.antt =====
-- `FileDescriptor::set_blocking` of libsponge/util/file_descriptor.cc.
use cs144_lab_assignment.Common.{ℕ, ◌*◌, ◌/◌, ◌%◌, ◌≡◌, Bool, not, to_nat, arith, true, false}
use cs144_lab_assignment.FileDescriptor.{nonblock, blocking_flags}

-- The flag becomes the one that is asked for, and the bits below and above it stay.
pub blocking_flags_lem :
    (blocking_state : Bool) (flags : ℕ)
    → let flags' = blocking_flags blocking_state flags in
      (flags' / nonblock % 2 ≡ to_nat (not blocking_state))
      × (flags' % nonblock ≡ flags % nonblock)
      × (flags' / (2 * nonblock) ≡ flags / (2 * nonblock))
unfolding blocking_flags
blocking_flags_lem true flags = (omega arith, omega arith, omega arith)
blocking_flags_lem false flags = (omega arith, omega arith, omega arith)
