-- ===== src/NetParser.antt =====
-- libsponge/util/parser.hh and parser.cc: integers in network byte order, read from and written to
-- strings of bytes. A method of the parser returns the new parser beside its result.
pub mod Laws
use cs144_lab_assignment.Common.{
  ℕ, zero, suc, ◌+◌, ◌*◌, ◌/◌, ◌%◌, ◌^◌, Bool, true, false, List, [], ◌∷◌, ◌++◌, none, some, take,
  ltb, if◌then◌else◌,
}
use cs144_lab_assignment.Buffer.{Buffer, str, size}
use cs144_lab_assignment.Buffer

pub data ParseResult : Type 0 where
  no_error bad_checksum packet_too_short wrong_ip_version header_too_short truncated_packet
        unsupported :
      ParseResult

pub record NetParser : Type 0 where
  pub buffer : Buffer
  pub result : ParseResult

-- `NetParser(buffer)`
unfoldable pub init : Buffer → NetParser
init buffer = record { buffer = buffer; result = no_error }

-- `NetParser::set_error`
unfoldable pub set_error : NetParser → ParseResult → NetParser
set_error p res = record p { result = res }

-- `r != ParseResult::NoError`
abbrev pub is_error : ParseResult → Bool
is_error no_error = false
is_error _ = true

unfoldable pub error : NetParser → Bool
error p = is_error p.result

-- `NetParser::_check_size`
unfoldable pub check_size : NetParser → ℕ → NetParser
unfolding set_error
check_size p n = if ltb (size p.buffer) n then set_error p packet_too_short else p

-- The buffer without its first bytes. The callers have checked the size, so the exception of
-- `Buffer::remove_prefix` does not arise.
abbrev pub advance : Buffer → ℕ → Buffer
advance b n = elim (Buffer.remove_prefix b n) [ none ↦ b | some b' ↦ b' ]

-- The loop of `_parse_int` over the bytes, for an integer of `w` bytes.
unfoldable pub from_bytes : ℕ → ℕ → List ℕ → ℕ
from_bytes w ret [] = ret
from_bytes w ret (b ∷ bs) = from_bytes w ((ret * 256 % 256 ^ w + b) % 256 ^ w) bs

-- `NetParser::_parse_int` for an integer of `w` bytes.
unfoldable pub parse_int : ℕ → NetParser → NetParser × ℕ
unfolding check_size error from_bytes
parse_int w p =
    let q = check_size p w in
    if error q
    then (q, 0)
    else (record q { buffer = advance q.buffer w }, from_bytes w 0 (take w (str q.buffer)))

unfoldable pub u32 : NetParser → NetParser × ℕ
u32 p = parse_int 4 p

unfoldable pub u16 : NetParser → NetParser × ℕ
u16 p = parse_int 2 p

unfoldable pub u8 : NetParser → NetParser × ℕ
u8 p = parse_int 1 p

-- `NetParser::remove_prefix`
unfoldable pub skip : NetParser → ℕ → NetParser
unfolding check_size error
skip p n = let q = check_size p n in if error q then q else record q { buffer = advance q.buffer n }

-- The loop of `NetUnparser::_unparse_int`: the bytes of `val` from the one at place `k - 1` down.
unfoldable pub to_bytes : ℕ → ℕ → List ℕ
to_bytes zero val = []
to_bytes (suc k) val = (val / 256 ^ k % 256) ∷ to_bytes k val

-- `NetUnparser::u32`, `u16` and `u8` append to a string.
unfoldable pub put_u32 : List ℕ → ℕ → List ℕ
unfolding to_bytes
put_u32 s val = s ++ to_bytes 4 val

unfoldable pub put_u16 : List ℕ → ℕ → List ℕ
unfolding to_bytes
put_u16 s val = s ++ to_bytes 2 val

unfoldable pub put_u8 : List ℕ → ℕ → List ℕ
unfolding to_bytes
put_u8 s val = s ++ to_bytes 1 val
