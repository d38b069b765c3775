-- ===== src/InternetChecksum.antt =====
-- `InternetChecksum` of libsponge/util/util.hh and util.cc.
pub mod Value
use cs144_lab_assignment.Common.{
  ℕ, zero, suc, ◌-◌, ◌*◌, ◌/◌, ◌%◌, ◌^◌, Bool, false, not, List, [], ◌∷◌, ltb, if◌then◌else◌, add32,
}

pub record InternetChecksum : Type 0 where
  pub sum : ℕ
  pub parity : Bool

-- `InternetChecksum(initial_sum)`
unfoldable pub init : ℕ → InternetChecksum
init initial_sum = record { sum = initial_sum; parity = false }

-- The 16-bit value that a byte stands for: `val <<= 8` at even places.
unfoldable pub weight : Bool → ℕ → ℕ
weight parity byte = if not parity then byte * 256 % 2 ^ 16 else byte

unfoldable pub add : InternetChecksum → List ℕ → InternetChecksum
add c [] = c
add c (b ∷ bs) = add (record { sum = add32 c.sum (weight c.parity b); parity = not c.parity }) bs

-- The loop of `value`, which adds the high half to the low half, on fuel.
unfoldable pub fold : ℕ → ℕ → ℕ
fold zero ret = ret
fold (suc fuel) ret =
    let rest = fold fuel (add32 (ret / 2 ^ 16) (ret % 2 ^ 16)) in
    if ltb 0xffff ret then rest else ret

-- `~ret` cut to 16 bits.
unfoldable pub value : InternetChecksum → ℕ
value c = (2 ^ 32 - 1 - fold 3 c.sum) % 2 ^ 16
