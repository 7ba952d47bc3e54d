-- ===== src/Rudp/Peer/Window.antt =====
-- What one arrival does to the set of acknowledged sequence numbers.
use loot_of_legends_public.Base.{
  ℕ, ◌+◌, ◌-◌, ◌*◌, ◌^◌, ◌<◌, ◌≡◌, ◌≢◌, ◌⊎◌, inl, inr, refl, Bool, true, not, ◌&&◌, ◌||◌, ltb, leb,
  ◌==◌, Bool-cases, if◌then◌else◌, bit_and, sub32, shl32, arith,
}
use loot_of_legends_public.Base.Bits.{
  bit, bit-zero, bit_and-pow, bit-bit_or_pow, bit-mul_pow, bit-mod_pow, bit_or-lt_pow, pow-pos,
}
use loot_of_legends_public.Rudp.Sequence.{is_sequence_newer}
use loot_of_legends_public.Rudp.Peer.{
  AckState, observe, is_acknowledged, distance_bit, advance, fill,
}

-- 32-bit fields, and no digit is set before the first arrival.
pub record IsValid (p : AckState) : Type 0 where
  pub ack_fits : p.ack < 2 ^ 32
  pub bits_fit : p.ack_bits < 2 ^ 32
  pub starts_empty : p.ack ≡ 0 → p.ack_bits ≡ 0

-- A sequence number is in the window of `ack` when it is `ack` or one of the 32 before it.
abbrev pub in_window : ℕ → ℕ → Bool
in_window ack s = leb (sub32 ack s) 32

-- The digit test of the code reads the digit.
test-bit : (x d : ℕ) → not (bit_and x (distance_bit d) == 0) ≡ bit x (d - 1)
test-bit x d = ground (arith, bit_and-pow x (d - 1), pow-pos (d - 1))

-- The digits after the window has moved by `d`.
bit-advance :
    (p : AckState) (s d j : ℕ)
    → 0 < d
    → bit (advance p s d).ack_bits j
      ≡ (ltb d 33 && (d - 1 == j || leb d j && ltb j 32 && bit p.ack_bits (j - d)))
unfolding advance
bit-advance p s d j h = ground (
  arith,
  bit-zero j,
  bit-bit_or_pow (if d == 32 then 0 else shl32 p.ack_bits d) (d - 1) j,
  bit-mod_pow (p.ack_bits * 2 ^ d) 32 j,
  bit-mul_pow p.ack_bits d j,
)

-- `is_acknowledged`, with its tests gathered.
is_acknowledged-bit :
    (s : ℕ) (p : AckState)
    → IsValid p
    → p.ack ≢ 0
    → 0 < s
    → s < 2 ^ 32
    → is_acknowledged s p
      ≡ (in_window p.ack s && (s == p.ack || bit p.ack_bits (sub32 p.ack s - 1)))
unfolding is_acknowledged is_sequence_newer
is_acknowledged-bit s p v n h k = ground (arith, test-bit p.ack_bits (sub32 p.ack s))

advance-ack : (p : AckState) (q d : ℕ) → (advance p q d).ack ≡ q
unfolding advance
advance-ack p q d = refl

advance-IsValid :
    (p : AckState) (q d : ℕ) → IsValid p → 0 < q → q < 2 ^ 32 → 0 < d → IsValid (advance p q d)
unfolding advance
advance-IsValid p q d v h k l =
    ground (arith, bit_or-lt_pow (if d == 32 then 0 else shl32 p.ack_bits d) 32 (d - 1))

-- The distance of `s` from the new newest number `q` is that from the old one, `a`, and the move.
gap_shift :
    (a q s : ℕ)
    → a < 2 ^ 32
    → q < 2 ^ 32
    → s < 2 ^ 32
    → (sub32 q s ≡ sub32 a s + sub32 q a) ⊎ (sub32 q s + 2 ^ 32 ≡ sub32 a s + sub32 q a)
gap_shift a q s ha hq hs = ground arith

gap_zero : (a s : ℕ) → a < 2 ^ 32 → s < 2 ^ 32 → (s == a) ≡ (sub32 a s == 0)
gap_zero a s ha hs = ground arith

-- The two windows agree, in terms of the distances: N new, O old, D moved.
shift_window :
    (x N O D : ℕ)
    → 0 < D
    → D < 2 ^ 31
    → O < 2 ^ 32
    → (N ≡ O + D) ⊎ (N + 2 ^ 32 ≡ O + D)
    → (leb N 32
        && (N == 0
            || ltb D 33
              && (D - 1 == N - 1 || leb D (N - 1) && ltb (N - 1) 32 && bit x (N - 1 - D))))
      ≡ (leb N 32 && (N == 0 || leb O 32 && (O == 0 || bit x (O - 1))))
shift_window x N O D h k o (inl e) = let f : N - 1 - D ≡ O - 1 = omega arith in rw f (ground arith)
shift_window x N O D h k o (inr e) = ground arith

advance-acknowledged :
    (p : AckState) (q s : ℕ)
    → IsValid p
    → p.ack ≢ 0
    → q ≢ p.ack
    → is_sequence_newer q p.ack ≡ true
    → 0 < q
    → q < 2 ^ 32
    → 0 < s
    → s < 2 ^ 32
    → is_acknowledged s (advance p q (sub32 q p.ack))
      ≡ (in_window q s && (s == q || is_acknowledged s p))
unfolding is_sequence_newer
advance-acknowledged p q s v n m w hq kq hs ks =
    let D : ℕ = sub32 q p.ack in
    let moved : 0 < D = ground arith in
    let near : D < 2 ^ 31 = ground arith in
    let valid = advance-IsValid p q D v hq kq moved in
    rw
      (
        is_acknowledged-bit s (advance p q D) valid (rw (advance-ack p q D) (omega arith)) hs ks,
        advance-ack p q D,
        is_acknowledged-bit s p v n hs ks,
        bit-advance p q D (sub32 q s - 1) moved,
        gap_zero q s kq ks,
        gap_zero p.ack s v.ack_fits ks,
      )
      (shift_window p.ack_bits (sub32 q s) (sub32 p.ack s) D moved near (omega arith)
        (gap_shift p.ack q s v.ack_fits kq ks))

bit-fill :
    (p : AckState) (d j : ℕ)
    → bit (fill p d).0.ack_bits j ≡ (leb d 32 && d - 1 == j || bit p.ack_bits j)
unfolding fill
bit-fill p d j = ground (arith, test-bit p.ack_bits d, bit-bit_or_pow p.ack_bits (d - 1) j)

fill-ack : (p : AckState) (d : ℕ) → (fill p d).0.ack ≡ p.ack
unfolding fill
fill-ack p d = ground arith

fill-IsValid : (p : AckState) (d : ℕ) → IsValid p → p.ack ≢ 0 → 0 < d → IsValid (fill p d).0
unfolding fill
fill-IsValid p d v n h = ground (arith, bit_or-lt_pow p.ack_bits 32 (d - 1))

same_place :
    (x N D : ℕ)
    → 0 < D
    → (leb N 32 && (N == 0 || (leb D 32 && D - 1 == N - 1 || bit x (N - 1))))
      ≡ (leb N 32 && (N == D || leb N 32 && (N == 0 || bit x (N - 1))))
same_place x N D h = ground arith

gap_same : (a q s : ℕ) → a < 2 ^ 32 → q < 2 ^ 32 → s < 2 ^ 32 → (s == q) ≡ (sub32 a s == sub32 a q)
gap_same a q s ha hq hs = ground arith

-- Filling place `d` of the window adds the number at that distance.
fill-acknowledged :
    (p : AckState) (q s : ℕ)
    → IsValid p
    → p.ack ≢ 0
    → q ≢ p.ack
    → 0 < q
    → q < 2 ^ 32
    → 0 < s
    → s < 2 ^ 32
    → is_acknowledged s (fill p (sub32 p.ack q)).0
      ≡ (in_window p.ack s && (s == q || is_acknowledged s p))
fill-acknowledged p q s v n m hq kq hs ks =
    let D : ℕ = sub32 p.ack q in
    let behind : 0 < D = ground arith in
    let valid = fill-IsValid p D v n behind in
    rw
      (
        is_acknowledged-bit s (fill p D).0 valid (rw (fill-ack p D) n) hs ks,
        fill-ack p D,
        is_acknowledged-bit s p v n hs ks,
        bit-fill p D (sub32 p.ack s - 1),
        gap_zero p.ack s v.ack_fits ks,
        gap_same p.ack q s v.ack_fits kq ks,
      )
      (same_place p.ack_bits (sub32 p.ack s) D behind)

pub observe-IsValid : (p : AckState) (q : ℕ) → IsValid p → q < 2 ^ 32 → IsValid (observe p q).0
unfolding observe
observe-IsValid p q v h =
    ground (arith, advance-IsValid p q (sub32 q p.ack) v, fill-IsValid p (sub32 p.ack q) v)

-- The first arrival.
start-acknowledged :
    (p : AckState) (q s : ℕ)
    → IsValid p
    → p.ack ≡ 0
    → q < 2 ^ 32
    → s < 2 ^ 32
    → 0 < q
    → 0 < s
    → is_acknowledged s (record p { ack = q }) ≡ (in_window q s && (s == q || is_acknowledged s p))
unfolding is_acknowledged
start-acknowledged p q s v e kq ks hq hs =
    ground (arith, test-bit p.ack_bits (sub32 q s), bit-zero (sub32 q s - 1))

-- After an arrival at a valid peer, for nonzero 32-bit numbers, the acknowledged numbers are that
-- number and those acknowledged before, so far as they are within 32 of the newest one.
pub observe-is_acknowledged :
    (p : AckState) (q s : ℕ)
    → IsValid p
    → 0 < q
    → q < 2 ^ 32
    → 0 < s
    → s < 2 ^ 32
    → is_acknowledged s (observe p q).0
      ≡ (in_window (observe p q).0.ack s && (s == q || is_acknowledged s p))
unfolding observe
observe-is_acknowledged p q s v hq kq hs ks = elim (Bool-cases (p.ack == 0)) [
  | inl e ↦ ground (arith, start-acknowledged p q s v)
  | inr e ↦ ground (
    arith,
    is_acknowledged-bit s p v (ground arith) hs ks,
    advance-ack p q (sub32 q p.ack),
    fill-ack p (sub32 p.ack q),
    advance-acknowledged p q s v,
    fill-acknowledged p q s v,
  )
]
