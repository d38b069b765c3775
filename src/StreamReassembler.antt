-- ===== src/StreamReassembler.antt =====
-- libsponge/stream_reassembler.hh and stream_reassembler.cc: substrings of a stream, in any order
-- and overlapping, put together and written to a byte stream.
pub mod Collecting
pub mod Taking
pub mod Pushing
pub mod Stored
pub mod Segments
pub mod Nodes
pub mod Prefix
pub mod Delivery
pub mod Mirror
pub mod Coverage
pub mod History
pub mod Unassembled
pub mod Held
pub mod Counting
pub mod Accounting
pub mod Ranges
pub mod EarlyEnd
pub mod Completeness
use cs144_lab_assignment.Common.{
  ℕ, ◌-◌, ◌^◌, Bool, false, ◌&&◌, ◌||◌, List, [], ◌∷◌, length, take, drop, ltb, leb, ◌==◌,
  if◌then◌else◌, add64, sub64,
}
use cs144_lab_assignment.ByteStream.{ByteStream, write, end_input, bytes_read}
use cs144_lab_assignment.ByteStream
use Segments.{Segment, store_range}
use Nodes.{Node, Entry, Store, store_text}
use Nodes

pub record StreamReassembler : Type 0 where
  pub output : ByteStream
  pub capacity : ℕ
  pub assembled_bytes : ℕ
  pub stored_bytes : ℕ
  pub store : Store
  pub eof : Bool
  pub used_byte : List Segment

-- `StreamReassembler(capacity)`
unfoldable pub init : ℕ → StreamReassembler
init capacity = record {
  output = ByteStream.init capacity;
  capacity = capacity;
  assembled_bytes = 0;
  stored_bytes = 0;
  store = record { nodes = []; existed = []; next_id = 0 };
  eof = false;
  used_byte = (0, 2 ^ 64 - 1) ∷ [];
}

unfoldable pub unassembled_bytes : StreamReassembler → ℕ
unassembled_bytes r = sub64 r.stored_bytes r.assembled_bytes

unfoldable pub empty : StreamReassembler → Bool
empty r = r.stored_bytes == r.assembled_bytes && r.eof

-- `if(empty()) _output.end_input()`
unfoldable pub close_if_empty : StreamReassembler → StreamReassembler
unfolding empty
close_if_empty r = if empty r then record r { output = end_input r.output } else r

-- One past the last position that the capacity leaves room for.
unfoldable pub window_end : StreamReassembler → ℕ
window_end r = add64 r.capacity (bytes_read r.output)

-- The text of a node behind the assembled bytes, `_data.substr(…)`.
abbrev pub fresh_part : Node → ℕ → List ℕ
fresh_part n assembled =
    take (sub64 (add64 n.index (length n.text)) assembled) (drop (sub64 assembled n.index) n.text)

-- The variables of the assembling loop.
pub record Progress : Type 0 where
  pub out : ByteStream
  pub assembled : ℕ
  pub entries : List Entry

-- The body of the loop for a front node whose index is not behind the assembled bytes.
unfoldable pub take_front : Node → Progress → Progress
take_front n p =
    let p' = record p { entries = Nodes.erase p.entries n.index } in
    if ltb p.assembled (add64 n.index (length n.text))
    then record p' {
      out = (write p.out (fresh_part n p.assembled)).0;
      assembled = add64 n.index (length n.text);
    }
    else p'

-- The loop of `push_substring` over the front of `_str_to_assemble`: what is written, and the nodes
-- that stay.
unfoldable pub assemble : List Node → Progress → Progress × List Node
assemble [] p = (p, [])
assemble (n ∷ ns) p =
    let rest = assemble ns (take_front n p) in if leb n.index p.assembled then rest else (p, n ∷ ns)

-- Both stores, the loop and the last line of `push_substring`, for a text that reaches past the
-- assembled bytes.
unfoldable pub accept : StreamReassembler → List ℕ → ℕ → StreamReassembler
accept r text index =
    let (stored, used) = store_range r.stored_bytes r.used_byte index (add64 index (length text)) in
    let s = store_text r.store text index in
    let (p, left) =
      assemble s.nodes
        (record { out = r.output; assembled = r.assembled_bytes; entries = s.existed }) in
    close_if_empty (record r {
      output = p.out;
      assembled_bytes = p.assembled;
      stored_bytes = stored;
      store = record { nodes = left; existed = p.entries; next_id = s.next_id };
      used_byte = used;
    })

-- `push_substring` behind the truncation.
unfoldable pub push_within : StreamReassembler → List ℕ → ℕ → StreamReassembler
push_within r text index =
    if leb (add64 index (length text)) r.assembled_bytes
    then close_if_empty r
    else accept r text index

unfoldable pub push_substring : StreamReassembler → List ℕ → ℕ → Bool → StreamReassembler
push_substring r text index eof =
    if leb (window_end r) index
    then r
    else if ltb (window_end r) (add64 index (length text))
    then push_within r (take (sub64 (window_end r) index) text) index
    else push_within (record r { eof = r.eof || eof }) text index
