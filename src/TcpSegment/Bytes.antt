-- ===== src/TcpSegment/Bytes.antt =====
-- The bytes of a TCP segment, for libsponge/tcp_helpers/tcp_segment.cc.
use cs144_lab_assignment.Common.{
  ℕ, zero, suc, ◌+◌, ◌-◌, ◌*◌, ◌/◌, ◌%◌, ◌^◌, ◌≤◌, ◌<◌, ◌≡◌, refl, ap₂, ◌∙◌, Bool, false, not, List,
  [], ◌∷◌, ◌++◌, append_assoc, length, length-append, length-replicate, replicate, arith, All,
  All-append,
}
use cs144_lab_assignment.InternetChecksum.{weight}
use cs144_lab_assignment.InternetChecksum.Value.{total, parity_after}
use cs144_lab_assignment.NetParser.{to_bytes}
use cs144_lab_assignment.TcpHeader.{TcpHeader, header_length, fixed_part, flag_byte}
use cs144_lab_assignment.TcpHeader.RoundTrip.{
  IsValid, options, layout, fixed_part-layout, length-fixed_part,
}

-- The header with a checksum.
abbrev pub with_cksum : TcpHeader → ℕ → TcpHeader
with_cksum h cksum = record h { cksum = cksum }

pub with_cksum-IsValid :
    (h : TcpHeader) (cksum : ℕ) → IsValid h → cksum < 2 ^ 16 → IsValid (with_cksum h cksum)
with_cksum-IsValid h cksum v small = record {
  sport = v.sport;
  dport = v.dport;
  seqno = v.seqno;
  ackno = v.ackno;
  doff_min = v.doff_min;
  doff_max = v.doff_max;
  win = v.win;
  cksum = small;
  uptr = v.uptr;
}

-- The bytes of a header, and those before and behind the checksum.
abbrev pub header_bytes : TcpHeader → List ℕ
header_bytes h = fixed_part h ++ options h

abbrev pub before : TcpHeader → List ℕ
before h =
    to_bytes 2 h.sport
    ++ (to_bytes 2 h.dport
        ++ (to_bytes 4 h.seqno
            ++ (to_bytes 4 h.ackno
                ++ (to_bytes 1 (h.doff * 2 ^ 4 % 2 ^ 8)
                    ++ (to_bytes 1 (flag_byte h) ++ to_bytes 2 h.win)))))

abbrev pub after : TcpHeader → List ℕ → List ℕ
after h payload = to_bytes 2 h.uptr ++ (options h ++ payload)

-- A segment with the checksum in it.
abbrev pub bytes : TcpHeader → ℕ → List ℕ → List ℕ
bytes h cksum payload = header_bytes (with_cksum h cksum) ++ payload

pub bytes-layout :
    (h : TcpHeader) (cksum : ℕ) (payload : List ℕ)
    → bytes h cksum payload ≡ layout (with_cksum h cksum) (options h ++ payload)
bytes-layout h cksum payload =
    append_assoc (fixed_part (with_cksum h cksum)) (options h) payload
    ∙ fixed_part-layout (with_cksum h cksum) (options h ++ payload)

pub bytes-split :
    (h : TcpHeader) (cksum : ℕ) (payload : List ℕ)
    → cksum < 2 ^ 16
    → bytes h cksum payload ≡ before h ++ cksum / 256 ∷ cksum % 256 ∷ after h payload
unfolding to_bytes flag_byte
bytes-split h cksum payload small =
    let high : cksum / 256 ^ 1 % 256 ≡ cksum / 256 = omega arith in
    let low : cksum / 256 ^ 0 % 256 ≡ cksum % 256 = omega arith in
    bytes-layout h cksum payload ∙ ap₂ (λ (i j : ℕ). before h ++ i ∷ j ∷ after h payload) high low

pub even : (h : TcpHeader) → parity_after false (before h) ≡ false
unfolding parity_after to_bytes
even h = refl

pub length-bytes :
    (h : TcpHeader) (cksum : ℕ) (payload : List ℕ)
    → IsValid h
    → length (bytes h cksum payload) ≡ 4 * h.doff + length payload
length-bytes h cksum payload v =
    let min : 5 ≤ h.doff = v.doff_min in
    omega (
      arith,
      length-append (header_bytes (with_cksum h cksum)) payload,
      length-append (fixed_part (with_cksum h cksum)) (options h),
      length-fixed_part (with_cksum h cksum),
      length-replicate {A = ℕ} (4 * h.doff - header_length) 0,
    )

-- How much the bytes can add to the sum.
total-bound :
    (parity : Bool) (bs : List ℕ)
    → All (λ (b : ℕ). b < 256) bs
    → total parity bs ≤ 65280 * length bs
unfolding total weight
total-bound parity [] h = omega arith
total-bound parity (b ∷ bs) h =
    let rest = total-bound (not parity) bs h.1 in let small : b < 256 = h.0 in ground arith

zeros-bytes : (n : ℕ) → All (λ (b : ℕ). b < 256) (replicate n 0)
zeros-bytes zero = tt
zeros-bytes (suc n) = (omega arith, zeros-bytes n)

pub whole-bound :
    (h : TcpHeader) (payload : List ℕ)
    → IsValid h
    → All (λ (b : ℕ). b < 256) payload
    → total false (before h ++ 0 ∷ 0 ∷ after h payload) ≤ 65280 * (60 + length payload)
unfolding total weight to_bytes
whole-bound h payload v small =
    let max : h.doff < 16 = v.doff_max in
    let rest = total-bound false (options h ++ payload) (
      All-append (λ (b : ℕ). b < 256) (options h) payload (zeros-bytes (4 * h.doff - header_length))
        small) in
    omega (
      arith,
      length-append (options h) payload,
      length-replicate {A = ℕ} (4 * h.doff - header_length) 0,
    )
