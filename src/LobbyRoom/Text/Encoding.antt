-- ===== src/LobbyRoom/Text/Encoding.antt =====
-- `validUtf8` of Room.cpp against the definition of UTF-8: the scalar values and their encoding.
use loot_of_legends_public.Base.{
  ℕ, ◌+◌, ◌-◌, ◌*◌, ◌/◌, ◌%◌, ◌^◌, ◌≤◌, ◌<◌, ◌≡◌, ◌⊎◌, Bool, true, false, not, ◌&&◌, ◌||◌, ltb, leb,
  ◌==◌, if◌then◌else◌, bit_and, bit_or, List, [], ◌∷◌, ◌++◌, Option, none, some, shl32, arith,
}
use loot_of_legends_public.Base.Bits.{bit_and-mask, bit_or-mul_pow}
use loot_of_legends_public.LobbyRoom.Text.{scan, between}

-- A code point that is no surrogate and at most U+10FFFF.
abbrev pub IsScalar : ℕ → Type 0
IsScalar c = (c < 0xd800) ⊎ ((0xe000 ≤ c) × (c < 0x110000))

abbrev pub is_control : ℕ → Bool
is_control c = leb c 0x1f || between 0x7f c 0x9f

-- What the text rule asks of a code point.
abbrev pub Allowed : Bool → ℕ → Type 0
Allowed reject_controls c = IsScalar c × ((reject_controls && is_control c) ≡ false)

abbrev pub encode : ℕ → List ℕ
encode c =
    if ltb c 0x80
    then c ∷ []
    else if ltb c 0x800
    then (0xc0 + c / 64) ∷ (0x80 + c % 64) ∷ []
    else if ltb c 0x10000
    then (0xe0 + c / 4096) ∷ (0x80 + c / 64 % 64) ∷ (0x80 + c % 64) ∷ []
    else (0xf0 + c / 262144) ∷ (0x80 + c / 4096 % 64) ∷ (0x80 + c / 64 % 64) ∷ (0x80 + c % 64) ∷ []

abbrev pub encode_all : List ℕ → List ℕ
encode_all [] = []
encode_all (c ∷ cs) = encode c ++ encode_all cs

-- One continuation byte adds six bits.
abbrev pub is_tail : ℕ → Bool
is_tail byte = not (ltb byte 0x80 || ltb 0xbf byte)

push_bits :
    (c byte : ℕ)
    → c < 2 ^ 20
    → is_tail byte ≡ true
    → bit_or (shl32 c 6) (bit_and byte 0x3f) ≡ c * 64 + (byte - 0x80)
push_bits c byte h t =
    let small : shl32 c 6 ≡ c * 2 ^ 6 = omega arith in
    let low : bit_and byte 0x3f ≡ byte - 0x80 = ground (arith, bit_and-mask byte 6) in
    rw (small, low) (bit_or-mul_pow c 6 (byte - 0x80) (ground arith))

lead_bits :
    (lead : ℕ)
    → (bit_and lead 0x1f ≡ lead % 32)
      × (bit_and lead 0x0f ≡ lead % 16)
      × (bit_and lead 0x07 ≡ lead % 8)
lead_bits lead = (bit_and-mask lead 5, bit_and-mask lead 4, bit_and-mask lead 3)

-- The end of a round whose code point is `c`.
abbrev pub verdict : Bool → ℕ → List ℕ → Option (List ℕ)
verdict b c rest = if b && between 0x7f c 0x9f then none else some rest

pub scan_two :
    (b : Bool) (lead x : ℕ) (rest : List ℕ)
    → between 0xc2 lead 0xdf ≡ true
    → is_tail x ≡ true
    → scan b lead (x ∷ rest) ≡ verdict b ((lead - 0xc0) * 64 + (x - 0x80)) rest
unfolding scan
scan_two b lead x rest h t = ground (arith, lead_bits lead, push_bits (lead % 32) x)

-- The second byte of a longer sequence lies in the range that the lead gives it.
abbrev pub second_ok : ℕ → ℕ → Bool
second_ok lead x = not (
    ltb x (if lead == 0xe0 then 0xa0 else if lead == 0xf0 then 0x90 else 0x80)
    || ltb (if lead == 0xed then 0x9f else if lead == 0xf4 then 0x8f else 0xbf) x)

pub scan_three :
    (b : Bool) (lead x y : ℕ) (rest : List ℕ)
    → between 0xe0 lead 0xef ≡ true
    → second_ok lead x ≡ true
    → is_tail y ≡ true
    → scan b lead (x ∷ y ∷ rest)
      ≡ verdict b (((lead - 0xe0) * 64 + (x - 0x80)) * 64 + (y - 0x80)) rest
unfolding scan
scan_three b lead x y rest h s t =
    ground
      (arith, lead_bits lead, push_bits (lead % 16) x, push_bits (lead % 16 * 64 + (x - 0x80)) y)

pub scan_four :
    (b : Bool) (lead x y z : ℕ) (rest : List ℕ)
    → between 0xf0 lead 0xf4 ≡ true
    → second_ok lead x ≡ true
    → is_tail y ≡ true
    → is_tail z ≡ true
    → scan b lead (x ∷ y ∷ z ∷ rest)
      ≡ verdict b ((((lead - 0xf0) * 64 + (x - 0x80)) * 64 + (y - 0x80)) * 64 + (z - 0x80)) rest
unfolding scan
scan_four b lead x y z rest h s t u = ground (
  arith,
  lead_bits lead,
  push_bits (lead % 8) x,
  push_bits (lead % 8 * 64 + (x - 0x80)) y,
  push_bits ((lead % 8 * 64 + (x - 0x80)) * 64 + (y - 0x80)) z,
)

pub scan_one :
    (b : Bool) (lead : ℕ) (rest : List ℕ)
    → leb lead 0x7f ≡ true
    → scan b lead rest ≡ (if b && is_control lead then none else some rest)
unfolding scan
scan_one b lead rest h = ground arith
