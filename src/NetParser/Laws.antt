-- ===== src/NetParser/Laws.antt =====
-- Lemmas on `NetParser` after `NetUnparser`, of libsponge/util/parser.cc.
use cs144_lab_assignment.Common.{
  ℕ, ◌+◌, ◌-◌, ◌/◌, ◌%◌, ◌^◌, ◌<◌, ◌≡◌, refl, ap, ◌∙◌, List, [], ◌∷◌, ◌++◌, length, length-append,
  take, drop, take-append_ge, drop-append_ge, append-nil, arith,
}
use cs144_lab_assignment.Buffer.{Buffer, str, size}
use cs144_lab_assignment.Buffer.Laws as Buffer
use cs144_lab_assignment.NetParser.{
  NetParser, no_error, init, check_size, advance, is_error, parse_int, from_bytes, to_bytes, u8,
  u16, u32, skip,
}

-- A parser without an error whose buffer holds these bytes.
pub record Holds (bytes : List ℕ) (p : NetParser) : Type 0 where
  pub fine : p.result ≡ no_error
  pub valid : Buffer.IsValid p.buffer
  pub held : str p.buffer ≡ bytes

pub init-Holds : (b : Buffer) → Buffer.IsValid b → Holds (str b) (init b)
unfolding init
init-Holds b v = record { fine = refl; valid = v; held = refl }

-- With enough bytes the check of the size sets no error.
check_size_fine :
    (bs rest : List ℕ) (p : NetParser) (n : ℕ)
    → Holds (bs ++ rest) p
    → length bs ≡ n
    → check_size p n ≡ p
unfolding check_size size
check_size_fine bs rest p n h e =
    let len : length (str p.buffer) ≡ length bs + length rest =
      ap length h.held ∙ length-append bs rest in
    ground arith

advance-Holds :
    (bs rest : List ℕ) (p : NetParser) (n : ℕ)
    → Holds (bs ++ rest) p
    → length bs ≡ n
    → Holds rest (record p { buffer = advance p.buffer n })
advance-Holds bs rest p n h e =
    let len : length (str p.buffer) ≡ length bs + length rest =
      ap length h.held ∙ length-append bs rest in
    let (b, r, s, v) =
      Buffer.remove_prefix-Removes p.buffer n h.valid (unfold size in omega arith) in
    let none_left : n - length bs ≡ 0 = omega arith in
    rw (r, advance)
      (record {
        fine = h.fine;
        valid = v;
        held =
            s
            ∙ ap (drop n) h.held
            ∙ drop-append_ge n bs rest (omega arith)
            ∙ ap (λ (k : ℕ). drop k rest) none_left;
      })

-- Reading an integer takes its bytes off the front.
pub parse_int-Holds :
    (bs rest : List ℕ) (p : NetParser) (w : ℕ)
    → Holds (bs ++ rest) p
    → length bs ≡ w
    → Holds rest (parse_int w p).0 × ((parse_int w p).1 ≡ from_bytes w 0 bs)
unfolding parse_int
parse_int-Holds bs rest p w h e =
    let front : take w (str p.buffer) ≡ bs =
      ap (take w) h.held
      ∙ take-append_ge w bs rest (omega arith)
      ∙ ap (λ (k : ℕ). bs ++ take k rest) none_left
      ∙ append-nil bs in
    rw (check_size_fine bs rest p w h e, ap is_error h.fine)
      (advance-Holds bs rest p w h e, ap (from_bytes w 0) front)
  where
    none_left : w - length bs ≡ 0
    none_left = omega arith

pub skip-Holds :
    (bs rest : List ℕ) (p : NetParser) (n : ℕ)
    → Holds (bs ++ rest) p
    → length bs ≡ n
    → Holds rest (skip p n)
unfolding skip
skip-Holds bs rest p n h e =
    rw (check_size_fine bs rest p n h e, ap is_error h.fine) (advance-Holds bs rest p n h e)

-- The integers of one, two and four bytes come back as they were written.
pub u8-to_bytes :
    (val : ℕ) (rest : List ℕ) (p : NetParser)
    → val < 2 ^ 8
    → Holds (to_bytes 1 val ++ rest) p
    → Holds rest (u8 p).0 × ((u8 p).1 ≡ val)
unfolding u8 to_bytes
u8-to_bytes val rest p small h =
    let (h', e) = parse_int-Holds ((val / 256 ^ 0 % 256) ∷ []) rest p 1 h refl in
    (h', e ∙ (unfold from_bytes in omega arith))

pub u16-to_bytes :
    (val : ℕ) (rest : List ℕ) (p : NetParser)
    → val < 2 ^ 16
    → Holds (to_bytes 2 val ++ rest) p
    → Holds rest (u16 p).0 × ((u16 p).1 ≡ val)
unfolding u16
u16-to_bytes val rest p small h =
    let (h', e) = parse_int-Holds (to_bytes 2 val) rest p 2 h (unfold to_bytes in refl) in
    (h', e ∙ (unfold from_bytes to_bytes in omega arith))

pub u32-to_bytes :
    (val : ℕ) (rest : List ℕ) (p : NetParser)
    → val < 2 ^ 32
    → Holds (to_bytes 4 val ++ rest) p
    → Holds rest (u32 p).0 × ((u32 p).1 ≡ val)
unfolding u32
u32-to_bytes val rest p small h =
    let (h', e) = parse_int-Holds (to_bytes 4 val) rest p 4 h (unfold to_bytes in refl) in
    (h', e ∙ (unfold from_bytes to_bytes in omega arith))
