-- ===== src/WrappingIntegers.antt =====
-- libsponge/wrapping_integers.hh and wrapping_integers.cc: 32-bit sequence numbers relative to an
-- initial one, and their absolute 64-bit positions.
pub mod Unwrap
use cs144_lab_assignment.Common.{
  ℕ, ◌&&◌, u32, add32, sub32, add64, sub64, ltb, leb, ◌==◌, if◌then◌else◌,
}

-- A `WrappingInt32` is its `raw_value()`, a number below 2 ^ 32.
abbrev pub WrappingInt32 : Type 0
WrappingInt32 = ℕ

-- `operator+(WrappingInt32, uint32_t)`
unfoldable pub advance : WrappingInt32 → ℕ → WrappingInt32
advance a b = add32 a b

-- `operator-(WrappingInt32, WrappingInt32)`
unfoldable pub offset : WrappingInt32 → WrappingInt32 → ℕ
offset a b = sub32 a b

unfoldable pub wrap : ℕ → WrappingInt32 → WrappingInt32
unfolding advance
wrap n isn = advance isn (u32 n)

unfoldable pub unwrap : WrappingInt32 → WrappingInt32 → ℕ → ℕ
unfolding offset
unwrap n isn checkpoint =
    let checkpoint_mod = u32 checkpoint in
    let index = offset n isn in
    if index == checkpoint_mod
    then checkpoint
    else if ltb (offset checkpoint_mod index) (offset index checkpoint_mod)
        && leb (offset checkpoint_mod index) checkpoint
    then sub64 checkpoint (offset checkpoint_mod index)
    else add64 checkpoint (offset index checkpoint_mod)
