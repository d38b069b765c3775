-- ===== src/WrappingIntegers/Unwrap.antt =====
-- `wrap` and `unwrap` of libsponge/wrapping_integers.cc.
use cs144_lab_assignment.Common.{ℕ, ◌+◌, ◌-◌, ◌^◌, ◌≤◌, ◌<◌, ◌≡◌, arith}
use cs144_lab_assignment.WrappingIntegers.{wrap, unwrap}

-- `wrap` after `unwrap` gives a sequence number of 32 bits back, for any initial number of 32 bits and
-- any checkpoint of 64 bits.
pub wrap-unwrap :
    (n isn checkpoint : ℕ)
    → n < 2 ^ 32
    → isn < 2 ^ 32
    → checkpoint < 2 ^ 64
    → wrap (unwrap n isn checkpoint) isn ≡ n
unfolding wrap unwrap
wrap-unwrap n isn checkpoint hn hi hc = ground arith

-- The absolute value of a difference.
abbrev pub distance : ℕ → ℕ → ℕ
distance a b = (a - b) + (b - a)

-- A position less than 2 ^ 31 away from the checkpoint, on either side, comes back from its sequence
-- number; position and checkpoint are 64 bits wide, the initial number 32 bits.
pub unwrap-wrap :
    (position isn checkpoint : ℕ)
    → isn < 2 ^ 32
    → checkpoint < 2 ^ 64
    → position < 2 ^ 64
    → distance position checkpoint < 2 ^ 31
    → unwrap (wrap position isn) isn checkpoint ≡ position
unfolding wrap unwrap
unwrap-wrap position isn checkpoint hi hc hp near = ground arith

-- No position with the same sequence number is closer to the checkpoint.
unwrap_nearest :
    (n isn checkpoint other : ℕ)
    → n < 2 ^ 32
    → isn < 2 ^ 32
    → checkpoint < 2 ^ 64 - 2 ^ 32
    → wrap other isn ≡ n
    → distance (unwrap n isn checkpoint) checkpoint ≤ distance other checkpoint
unfolding wrap unwrap
unwrap_nearest n isn checkpoint other hn hi hc same = ground arith

-- The position that `unwrap` returns has the sequence number, and none with it is closer to the
-- checkpoint. The sequence numbers are 32 bits wide, and the checkpoint is not among the last 2 ^ 32
-- positions of 64 bits, where the sum could wrap.
pub unwrap_closest :
    (n isn checkpoint : ℕ)
    → n < 2 ^ 32
    → isn < 2 ^ 32
    → checkpoint < 2 ^ 64 - 2 ^ 32
    → (wrap (unwrap n isn checkpoint) isn ≡ n)
      × ((other : ℕ)
          → wrap other isn ≡ n
          → distance (unwrap n isn checkpoint) checkpoint ≤ distance other checkpoint)
unwrap_closest n isn checkpoint hn hi hc = (
  wrap-unwrap n isn checkpoint hn hi (omega arith),
  λ other same. unwrap_nearest n isn checkpoint other hn hi hc same,
)
