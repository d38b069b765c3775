-- ===== src/Tests/Wire.antt =====
-- The header and the checksum at concrete inputs.
use cs144_lab_assignment.Common.{ℕ, ◌/◌, ◌%◌, ◌≡◌, refl, true, List, [], ◌∷◌, ◌++◌, some, arith}
use cs144_lab_assignment.Buffer.{str, of_string}
use cs144_lab_assignment.NetParser.{init, no_error}
use cs144_lab_assignment.InternetChecksum.{add, value, weight}
use cs144_lab_assignment.InternetChecksum
use cs144_lab_assignment.InternetChecksum.Value.{total, parity_after, value-inserted}
use cs144_lab_assignment.TcpHeader.{TcpHeader, default, parse, serialize}
use cs144_lab_assignment.TcpHeader.RoundTrip.{IsValid, parse-serialize}

-- Eight bytes of options.
abbrev header : TcpHeader
header = record default {
  sport = 80;
  seqno = 4294967295;
  doff = 7;
  ack = true;
  fin = true;
  win = 65535;
}

header-IsValid : IsValid header
header-IsValid = record {
  sport = omega arith;
  dport = omega arith;
  seqno = omega arith;
  ackno = omega arith;
  doff_min = omega arith;
  doff_max = omega arith;
  win = omega arith;
  cksum = omega arith;
  uptr = omega arith;
}

parse-serialize_example :
    (bytes : List ℕ) × (serialize header ≡ some bytes)
    × (let read = parse (init (of_string (bytes ++ 1 ∷ 2 ∷ []))) in
        (str read.0.buffer ≡ 1 ∷ 2 ∷ []) × (read.1 ≡ header) × (read.2 ≡ no_error))
parse-serialize_example = parse-serialize header (1 ∷ 2 ∷ []) header-IsValid (omega arith)

value-inserted_example :
    let cksum = value (add (InternetChecksum.init 6) (69 ∷ 200 ∷ 0 ∷ 0 ∷ 17 ∷ [])) in
    value (add (InternetChecksum.init 6) (69 ∷ 200 ∷ cksum / 256 ∷ cksum % 256 ∷ 17 ∷ [])) ≡ 0
value-inserted_example =
    value-inserted 6 (69 ∷ 200 ∷ []) (17 ∷ []) (unfold parity_after in refl)
      (unfold total weight in omega arith)
