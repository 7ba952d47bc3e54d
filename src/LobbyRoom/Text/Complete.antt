-- ===== src/LobbyRoom/Text/Complete.antt =====
-- All UTF-8 is accepted by `validUtf8` of Room.cpp, and its fuel suffices.
use loot_of_legends_public.Base.{
  ℕ, zero, suc, ◌+◌, ◌-◌, ◌*◌, ◌/◌, ◌%◌, ◌≤◌, ◌<◌, ◌≡◌, refl, ap, ◌∙◌, inl, inr, Bool, true, ltb,
  List, [], ◌∷◌, ◌++◌, some, length, arith, All, Bool-cases,
}
use loot_of_legends_public.LobbyRoom.Text.{scan, valid_utf8_loop}
use loot_of_legends_public.LobbyRoom.Text.Encoding.{
  Allowed, encode, encode_all, scan_one, scan_two, scan_three, scan_four,
}

-- The first byte of an encoding and the round of the loop that starts there.
abbrev Scans : Bool → ℕ → List ℕ → Type 0
Scans b c more =
    (lead : ℕ) × (text : List ℕ) × (encode c ++ more ≡ lead ∷ text)
    × (scan b lead text ≡ some more)
    × (length more ≤ length text)

encode_two : (c : ℕ) → 0x80 ≤ c → c < 0x800 → encode c ≡ (0xc0 + c / 64) ∷ (0x80 + c % 64) ∷ []
encode_two c h k = ground arith

encode_three :
    (c : ℕ)
    → 0x800 ≤ c
    → c < 0x10000
    → encode c ≡ (0xe0 + c / 4096) ∷ (0x80 + c / 64 % 64) ∷ (0x80 + c % 64) ∷ []
encode_three c h k = ground arith

encode_four :
    (c : ℕ)
    → 0x10000 ≤ c
    → encode c
      ≡ (0xf0 + c / 262144) ∷ (0x80 + c / 4096 % 64) ∷ (0x80 + c / 64 % 64) ∷ (0x80 + c % 64) ∷ []
encode_four c h = ground arith

Scans-one : (b : Bool) (c : ℕ) (more : List ℕ) → Allowed b c → c < 0x80 → Scans b c more
Scans-one b c more a h =
    (c, more, ground arith, ground (arith, scan_one b c more (ground arith)), omega arith)

Scans-two : (b : Bool) (c : ℕ) (more : List ℕ) → Allowed b c → 0x80 ≤ c → c < 0x800 → Scans b c more
Scans-two b c more a h k =
    let lead : ℕ = 0xc0 + c / 64 in
    let x : ℕ = 0x80 + c % 64 in
    let back : (lead - 0xc0) * 64 + (x - 0x80) ≡ c = omega arith in
    (
      lead,
      x ∷ more,
      rw (encode_two c h k),
      scan_two b lead x more (ground arith) (ground arith) ∙ (rw back (ground arith)),
      omega arith,
    )

Scans-three :
    (b : Bool) (c : ℕ) (more : List ℕ) → Allowed b c → 0x800 ≤ c → c < 0x10000 → Scans b c more
Scans-three b c more a h k =
    let lead : ℕ = 0xe0 + c / 4096 in
    let x : ℕ = 0x80 + c / 64 % 64 in
    let y : ℕ = 0x80 + c % 64 in
    let back : ((lead - 0xe0) * 64 + (x - 0x80)) * 64 + (y - 0x80) ≡ c = omega arith in
    (
      lead,
      x ∷ y ∷ more,
      rw (encode_three c h k),
      scan_three b lead x y more (ground arith) (ground arith) (ground arith)
          ∙ (rw back (ground arith)),
      omega arith,
    )

Scans-four : (b : Bool) (c : ℕ) (more : List ℕ) → Allowed b c → 0x10000 ≤ c → Scans b c more
Scans-four b c more a h =
    let lead : ℕ = 0xf0 + c / 262144 in
    let x : ℕ = 0x80 + c / 4096 % 64 in
    let y : ℕ = 0x80 + c / 64 % 64 in
    let z : ℕ = 0x80 + c % 64 in
    let back : (((lead - 0xf0) * 64 + (x - 0x80)) * 64 + (y - 0x80)) * 64 + (z - 0x80) ≡ c =
      omega arith in
    (
      lead,
      x ∷ y ∷ z ∷ more,
      rw (encode_four c h),
      scan_four b lead x y z more (ground arith) (ground arith) (ground arith) (ground arith)
          ∙ (rw back (ground arith)),
      omega arith,
    )

scans : (b : Bool) (c : ℕ) (more : List ℕ) → Allowed b c → Scans b c more
scans b c more a = elim (Bool-cases (ltb c 0x80)) [
  | inl h ↦ Scans-one b c more a (ground arith)
  | inr h ↦ elim (Bool-cases (ltb c 0x800)) [
    | inl k ↦ Scans-two b c more a (ground arith) (ground arith)
    | inr k ↦ elim (Bool-cases (ltb c 0x10000)) [
      | inl l ↦ Scans-three b c more a (ground arith) (ground arith)
      | inr l ↦ Scans-four b c more a (ground arith)
    ]
  ]
]

pub loop_complete :
    (fuel : ℕ) (b : Bool) (cs text : List ℕ)
    → All (Allowed b) cs
    → text ≡ encode_all cs
    → length text ≤ fuel
    → valid_utf8_loop fuel b text ≡ true
unfolding valid_utf8_loop
loop_complete fuel b [] text h e k = rw e
loop_complete zero b (c ∷ cs) text h e k =
    let (lead, rest, f, s, l) = scans b c (encode_all cs) h.0 in
    absurd (omega (arith, ap length (e ∙ f)))
loop_complete (suc fuel) b (c ∷ cs) text h e k =
    let (lead, rest, f, s, l) = scans b c (encode_all cs) h.0 in
    rw (e ∙ f, s, valid_utf8_loop)
      (loop_complete fuel b cs (encode_all cs) h.1 refl (omega (arith, ap length (e ∙ f))))
