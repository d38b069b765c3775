-- ===== src/InternetChecksum/Value.antt =====
-- `InternetChecksum::value` of libsponge/util/util.cc: its loop, and the checksum in its field.
use cs144_lab_assignment.Common.{
  ℕ, zero, suc, ◌+◌, ◌-◌, ◌*◌, ◌/◌, ◌%◌, ◌^◌, ◌≤◌, ◌<◌, ◌≡◌, refl, ◌∙◌, Bool, false, not, List, [],
  ◌∷◌, ◌++◌, ltb, add32, arith, Bool-cases, inl, inr, ltb→lt, ltb→le,
}
use cs144_lab_assignment.InternetChecksum.{InternetChecksum, init, weight, add, fold, value}

-- The number that the loop of `value` goes on with.
abbrev carried : ℕ → ℕ
carried ret = add32 (ret / 2 ^ 16) (ret % 2 ^ 16)

-- A 16-bit number for `ret`: the two differ by a multiple of 65535, and only 0 stands for 0.
record StandsFor (ret r : ℕ) : Type 0 where
  q : ℕ
  short : r ≤ 0xffff
  same : ret ≡ 65535 * q + r
  positive : 0 < ret → 0 < r

fold-small : (fuel ret : ℕ) → ret ≤ 0xffff → fold fuel ret ≡ ret
unfolding fold
fold-small zero ret h = refl
fold-small (suc fuel) ret h = let rest = fold fuel (carried ret) in ground arith

fold-large : (fuel ret : ℕ) → 0xffff < ret → fold (suc fuel) ret ≡ fold fuel (carried ret)
unfolding fold
fold-large fuel ret h = let rest = fold fuel (carried ret) in ground arith

-- A number that one round is enough for, or none.
fold-mid : (fuel ret : ℕ) → ret ≤ 0x1fffe → StandsFor ret (fold (suc fuel) ret)
fold-mid fuel ret h = elim (Bool-cases (ltb 0xffff ret)) [
  | inl e ↦
      let b : 0xffff < ret = ltb→lt 0xffff ret e in
      rw (fold-large fuel ret b, fold-small fuel (carried ret) (omega arith))
        (record {
          q = ret / 2 ^ 16;
          short = omega arith;
          same = omega arith;
          positive = λ p. omega arith;
        })
  | inr e ↦
      let b : ret ≤ 0xffff = ltb→le 0xffff ret e in
      rw (fold-small (suc fuel) ret b)
        (record { q = 0; short = b; same = omega arith; positive = λ p. p })
]

-- For a sum of 32 bits the loop ends, after two rounds at the most.
fold-StandsFor : (fuel ret : ℕ) → ret < 2 ^ 32 → StandsFor ret (fold (suc (suc fuel)) ret)
fold-StandsFor fuel ret h = elim (Bool-cases (ltb 0xffff ret)) [
  | inl e ↦
      let b : 0xffff < ret = ltb→lt 0xffff ret e in
      let s : StandsFor (carried ret) (fold (suc fuel) (carried ret)) =
        fold-mid fuel (carried ret) (omega arith) in
      let same : carried ret ≡ 65535 * s.q + fold (suc fuel) (carried ret) = s.same in
      rw (fold-large (suc fuel) ret b) (record {
        q = ret / 2 ^ 16 + s.q;
        short = s.short;
        same = omega arith;
        positive = λ p. s.positive (omega arith);
      })
  | inr e ↦
      let b : ret ≤ 0xffff = ltb→le 0xffff ret e in
      rw (fold-small (suc (suc fuel)) ret b)
        (record { q = 0; short = b; same = omega arith; positive = λ p. p })
]

-- A number stands for itself by one 16-bit number alone.
StandsFor-unique : {ret r s : ℕ} → StandsFor ret r → StandsFor ret s → r ≡ s
StandsFor-unique {ret} {r} {s} a b =
    let same_a : ret ≡ 65535 * a.q + r = a.same in
    let same_b : ret ≡ 65535 * b.q + s = b.same in
    let short_a : r ≤ 0xffff = a.short in
    let short_b : s ≤ 0xffff = b.short in
    elim (Bool-cases (ltb 0 ret)) [
      | inl e ↦
          let positive_a : 0 < r = a.positive (ltb→lt 0 ret e) in
          let positive_b : 0 < s = b.positive (ltb→lt 0 ret e) in omega arith
      | inr e ↦ let zero_sum : ret ≤ 0 = ltb→le 0 ret e in omega arith
    ]

-- The loop of `value` ends on every 32-bit sum: more fuel than 3 changes nothing, and the number
-- that it ends with fits 16 bits, so that the loop's test lets it through.
pub fold_lem :
    (n ret : ℕ) → ret < 2 ^ 32 → (fold (suc (suc (suc n))) ret ≡ fold 3 ret) × (fold 3 ret ≤ 0xffff)
fold_lem n ret h =
    let three = fold-StandsFor 1 ret h in
    (StandsFor-unique (fold-StandsFor (suc n) ret h) three, three.short)

-- What a text adds to the sum, without wrapping around.
unfoldable pub total : Bool → List ℕ → ℕ
total parity [] = 0
total parity (b ∷ bs) = weight parity b + total (not parity) bs

-- The parity after a text.
unfoldable pub parity_after : Bool → List ℕ → Bool
parity_after parity [] = parity
parity_after parity (b ∷ bs) = parity_after (not parity) bs

pub add-sum :
    (c : InternetChecksum) (bs : List ℕ)
    → c.sum + total c.parity bs < 2 ^ 32
    → (add c bs).sum ≡ c.sum + total c.parity bs
unfolding add total
add-sum c [] h = omega arith
add-sum c (b ∷ bs) h =
    let w = weight c.parity b in
    let one : add32 c.sum w ≡ c.sum + w = omega arith in
    add-sum (record { sum = add32 c.sum w; parity = not c.parity }) bs (rw (one) (omega arith))
    ∙ (rw (one) (omega arith))

init-sum :
    (n : ℕ) (bs : List ℕ) → n + total false bs < 2 ^ 32 → (add (init n) bs).sum ≡ n + total false bs
unfolding init
init-sum n bs h = add-sum (record { sum = n; parity = false }) bs h

total-append :
    (parity : Bool) (xs ys : List ℕ)
    → total parity (xs ++ ys) ≡ total parity xs + total (parity_after parity xs) ys
unfolding total parity_after
total-append parity [] ys = omega arith
total-append parity (x ∷ xs) ys = omega (arith, total-append (not parity) xs ys)

-- The one's complement of the 16-bit number that stands for it.
value-StandsFor : (c : InternetChecksum) → c.sum < 2 ^ 32 → StandsFor c.sum (0xffff - value c)
unfolding value
value-StandsFor c h =
    let s = fold-StandsFor 1 c.sum h in
    let short : fold 3 c.sum ≤ 0xffff = s.short in
    let back : 0xffff - (2 ^ 32 - 1 - fold 3 c.sum) % 2 ^ 16 ≡ fold 3 c.sum = omega arith in
    rw (back) s

pub value_small : (c : InternetChecksum) → value c ≤ 0xffff
unfolding value
value_small c = omega arith

-- Two bytes at an even place add the number they are the digits of.
total-field :
    (before after : List ℕ) (v : ℕ)
    → v ≤ 0xffff
    → parity_after false before ≡ false
    → total false (before ++ v / 256 ∷ v % 256 ∷ after) ≡ total false (before ++ 0 ∷ 0 ∷ after) + v
total-field before after v h even =
    rw
      (
        total-append false before (v / 256 ∷ v % 256 ∷ after),
        total-append false before (0 ∷ 0 ∷ after),
        even,
      )
      (unfold total weight in omega arith)

-- The checksum of a text whose checksum field (two bytes at an even place) is 0, put into that field,
-- makes the text's checksum 0, which is what a receiver tests. The sum of the text's 16-bit words
-- stays below 2 ^ 32 - 2 ^ 16, so that it does not wrap around.
pub value-inserted :
    (initial_sum : ℕ) (before after : List ℕ)
    → parity_after false before ≡ false
    → initial_sum + total false (before ++ 0 ∷ 0 ∷ after) + 2 ^ 16 < 2 ^ 32
    → (let cksum = value (add (init initial_sum) (before ++ 0 ∷ 0 ∷ after)) in
        value (add (init initial_sum) (before ++ cksum / 256 ∷ cksum % 256 ∷ after)) ≡ 0)
value-inserted initial_sum before after even small =
    let zeroed = before ++ 0 ∷ 0 ∷ after in
    let c : InternetChecksum = add (init initial_sum) zeroed in
    let v = value c in
    let filled = before ++ v / 256 ∷ v % 256 ∷ after in
    let c' : InternetChecksum = add (init initial_sum) filled in
    let v_small : v ≤ 0xffff = value_small c in
    let field : total false filled ≡ total false zeroed + v =
      total-field before after v v_small even in
    let sum : c.sum ≡ initial_sum + total false zeroed =
      init-sum initial_sum zeroed (omega arith) in
    let sum' : c'.sum ≡ initial_sum + total false filled =
      init-sum initial_sum filled (omega arith) in
    let before_field : StandsFor c.sum (0xffff - v) = value-StandsFor c (omega arith) in
    let split : c.sum ≡ 65535 * before_field.q + (0xffff - v) = before_field.same in
    let after_field : StandsFor c'.sum 0xffff = record {
      q = before_field.q;
      short = omega arith;
      same = omega arith;
      positive = λ p. omega arith;
    } in
    let unique : 0xffff - value c' ≡ 0xffff =
      StandsFor-unique (value-StandsFor c' (omega arith)) after_field in
    let small' : value c' ≤ 0xffff = value_small c' in omega arith
