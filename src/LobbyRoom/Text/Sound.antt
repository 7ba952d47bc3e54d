-- ===== src/LobbyRoom/Text/Sound.antt =====
-- Whatever `validUtf8` of Room.cpp accepts is UTF-8.
use loot_of_legends_public.Base.{
  ℕ, zero, suc, ◌+◌, ◌-◌, ◌*◌, ◌≡◌, refl, sym, ap, ◌∙◌, inl, inr, Bool, true, false, ◌&&◌, leb,
  List, [], ◌∷◌, ◌++◌, some, arith, All, Bool-cases, Option-cases,
}
use loot_of_legends_public.LobbyRoom.Text.{scan, classify, between, valid_utf8_loop}
use loot_of_legends_public.LobbyRoom.Text.Encoding.{
  Allowed, encode, encode_all, is_tail, verdict, second_ok, scan_one, scan_two, scan_three,
  scan_four,
}

-- Accepted input is the encoding of an allowed code point.
abbrev Decodes : Bool → ℕ → List ℕ → List ℕ → Type 0
Decodes b lead text more = (c : ℕ) × Allowed b c × (lead ∷ text ≡ encode c ++ more)

verdict-some :
    (b : Bool) (c : ℕ) (rest more : List ℕ)
    → verdict b c rest ≡ some more
    → (rest ≡ more) × ((b && between 0x7f c 0x9f) ≡ false)
verdict-some b c rest more h = ground arith

sound_one :
    (b : Bool) (lead : ℕ) (text more : List ℕ)
    → leb lead 0x7f ≡ true
    → scan b lead text ≡ some more
    → Decodes b lead text more
sound_one b lead text more h k =
    (lead, ground (arith, scan_one b lead text h), ground (arith, scan_one b lead text h))

sound_two :
    (b : Bool) (lead : ℕ) (text more : List ℕ)
    → between 0xc2 lead 0xdf ≡ true
    → scan b lead text ≡ some more
    → Decodes b lead text more
unfolding scan
sound_two b lead [] more h k = absurd (ground arith)
sound_two b lead (x ∷ rest) more h k = elim (Bool-cases (is_tail x)) [
  | inl t ↦
      let c : ℕ = (lead - 0xc0) * 64 + (x - 0x80) in
      let (same, kept) = verdict-some b c rest more (sym (scan_two b lead x rest h t) ∙ k) in
      (c, ground arith, ground arith)
  | inr t ↦ absurd (ground arith)
]

sound_three :
    (b : Bool) (lead : ℕ) (text more : List ℕ)
    → between 0xe0 lead 0xef ≡ true
    → scan b lead text ≡ some more
    → Decodes b lead text more
unfolding scan
sound_three b lead [] more h k = absurd (ground arith)
sound_three b lead (x ∷ []) more h k = absurd (ground arith)
sound_three b lead (x ∷ y ∷ rest) more h k = elim (Bool-cases (second_ok lead x && is_tail y)) [
  | inl t ↦
      let c : ℕ = ((lead - 0xe0) * 64 + (x - 0x80)) * 64 + (y - 0x80) in
      let e = scan_three b lead x y rest h (ground arith) (ground arith) in
      let (same, kept) = verdict-some b c rest more (sym e ∙ k) in (c, ground arith, ground arith)
  | inr t ↦ absurd (ground arith)
]

sound_four :
    (b : Bool) (lead : ℕ) (text more : List ℕ)
    → between 0xf0 lead 0xf4 ≡ true
    → scan b lead text ≡ some more
    → Decodes b lead text more
unfolding scan
sound_four b lead [] more h k = absurd (ground arith)
sound_four b lead (x ∷ []) more h k = absurd (ground arith)
sound_four b lead (x ∷ y ∷ []) more h k = absurd (ground arith)
sound_four b lead (x ∷ y ∷ z ∷ rest) more h k =
    elim (Bool-cases (second_ok lead x && (is_tail y && is_tail z))) [
      | inl t ↦
          let c : ℕ = (((lead - 0xf0) * 64 + (x - 0x80)) * 64 + (y - 0x80)) * 64 + (z - 0x80) in
          let e = scan_four b lead x y z rest h (ground arith) (ground arith) (ground arith) in
          let (same, kept) = verdict-some b c rest more (sym e ∙ k) in
          (c, ground arith, ground arith)
      | inr t ↦ absurd (ground arith)
    ]

scan_sound :
    (b : Bool) (lead : ℕ) (text more : List ℕ)
    → scan b lead text ≡ some more
    → Decodes b lead text more
unfolding scan classify
scan_sound b lead text more k = elim (Bool-cases (leb lead 0x7f)) [
  | inl h ↦ sound_one b lead text more h k
  | inr h ↦ elim (Bool-cases (between 0xc2 lead 0xdf)) [
    | inl i ↦ sound_two b lead text more i k
    | inr i ↦ elim (Bool-cases (between 0xe0 lead 0xef)) [
      | inl j ↦ sound_three b lead text more j k
      | inr j ↦ elim (Bool-cases (between 0xf0 lead 0xf4)) [
        | inl l ↦ sound_four b lead text more l k
        | inr l ↦ absurd (ground arith)
      ]
    ]
  ]
]

pub loop_sound :
    (fuel : ℕ) (b : Bool) (text : List ℕ)
    → valid_utf8_loop fuel b text ≡ true
    → (cs : List ℕ) × All (Allowed b) cs × (text ≡ encode_all cs)
unfolding valid_utf8_loop
loop_sound fuel b [] h = ([], tt, refl)
loop_sound zero b (lead ∷ text) h = cc
loop_sound (suc fuel) b (lead ∷ text) h = elim (Option-cases (scan b lead text)) [
  | inl x ↦ absurd (ground arith)
  | inr (more, x) ↦
      let (c, allowed, e) = scan_sound b lead text more x in
      let (cs, each, f) = loop_sound fuel b more (ground arith) in
      (c ∷ cs, (allowed, each), e ∙ ap (λ t. encode c ++ t) f)
]
