-- ===== src/LobbyRoom/Text.antt =====
-- The text rules of game-server/modules/lobby-room/src/domain/Room.cpp. A text is its bytes.
pub mod Encoding
pub mod Sound
pub mod Complete
pub mod Utf8
use loot_of_legends_public.Base.{
  ℕ, zero, suc, ◌*◌, ◌%◌, ◌^◌, Bool, true, false, not, ◌&&◌, ◌||◌, ltb, leb, ◌==◌, if◌then◌else◌,
  bit_and, bit_or, List, [], ◌∷◌, Option, none, some, length, shl32,
}
use mathlib.Core.List.{reverse}

unfoldable pub ascii_whitespace : ℕ → Bool
ascii_whitespace value =
    value == b' '
    || value == 0x09
    || value == 0x0a
    || value == 0x0d
    || value == 0x0c
    || value == 0x0b

-- What the first byte of a sequence says: how many bytes follow, its bits of the code point, and
-- the range of the second byte.
pub record Lead : Type 0 where
  pub continuation_count : ℕ
  pub code_point : ℕ
  pub second_minimum : ℕ
  pub second_maximum : ℕ

abbrev pub between : ℕ → ℕ → ℕ → Bool
between lo x hi = leb lo x && leb x hi

unfoldable pub classify : ℕ → Option Lead
classify lead =
    if between 0xc2 lead 0xdf
    then some (record {
      continuation_count = 1;
      code_point = bit_and lead 0x1f;
      second_minimum = 0x80;
      second_maximum = 0xbf;
    })
    else if between 0xe0 lead 0xef
    then some (record {
      continuation_count = 2;
      code_point = bit_and lead 0x0f;
      second_minimum = if lead == 0xe0 then 0xa0 else 0x80;
      second_maximum = if lead == 0xed then 0x9f else 0xbf;
    })
    else if between 0xf0 lead 0xf4
    then some (record {
      continuation_count = 3;
      code_point = bit_and lead 0x07;
      second_minimum = if lead == 0xf0 then 0x90 else 0x80;
      second_maximum = if lead == 0xf4 then 0x8f else 0xbf;
    })
    else none

-- The inner loop: `count` continuation bytes, with the code point so far; the rest of the text.
unfoldable pub continuations : ℕ → ℕ → List ℕ → Option (ℕ × List ℕ)
continuations zero code_point text = some (code_point, text)
continuations (suc count) code_point [] = none
continuations (suc count) code_point (byte ∷ rest) =
    if ltb byte 0x80 || ltb 0xbf byte
    then none
    else continuations count (bit_or (shl32 code_point 6) (bit_and byte 0x3f)) rest

-- The check of the second byte; a text that is too short fails here or in `continuations`.
abbrev pub second_in_range : Lead → List ℕ → Bool
second_in_range lead [] = false
second_in_range lead (second ∷ _) =
    not (ltb second lead.second_minimum || ltb lead.second_maximum second)

abbrev pub finish_sequence : Bool → Option (ℕ × List ℕ) → Option (List ℕ)
finish_sequence reject_controls none = none
finish_sequence reject_controls (some (code_point, rest)) =
    if reject_controls && between 0x7f code_point 0x9f then none else some rest

abbrev pub finish_lead : Bool → Option Lead → List ℕ → Option (List ℕ)
finish_lead reject_controls none rest = none
finish_lead reject_controls (some lead) rest =
    if second_in_range lead rest
    then finish_sequence reject_controls
        (continuations lead.continuation_count lead.code_point rest)
    else none

-- One round of the loop of `validUtf8`: the text behind one code point, or none for `return false`.
unfoldable pub scan : Bool → ℕ → List ℕ → Option (List ℕ)
unfolding continuations classify
scan reject_controls lead rest =
    if leb lead 0x7f
    then (if reject_controls && (leb lead 0x1f || lead == 0x7f) then none else some rest)
    else finish_lead reject_controls (classify lead) rest

-- The loop, on fuel; `valid_utf8` gives as much as there are bytes.
unfoldable pub valid_utf8_loop : ℕ → Bool → List ℕ → Bool
valid_utf8_loop fuel reject_controls [] = true
valid_utf8_loop zero reject_controls (lead ∷ rest) = false
valid_utf8_loop (suc fuel) reject_controls (lead ∷ rest) = elim (scan reject_controls lead rest) [
  | none ↦ false
  | some text ↦ valid_utf8_loop fuel reject_controls text
]

unfoldable pub valid_utf8 : List ℕ → Bool → Bool
unfolding valid_utf8_loop scan
valid_utf8 text reject_controls = valid_utf8_loop (length text) reject_controls text

abbrev pub maximum_title_bytes : ℕ
maximum_title_bytes = 48

unfoldable pub trim_front : List ℕ → List ℕ
trim_front [] = []
trim_front (c ∷ rest) = if ascii_whitespace c then trim_front rest else c ∷ rest

-- `substr(first, last - first)`: the text without white space at either end.
unfoldable pub trim : List ℕ → List ℕ
unfolding trim_front ascii_whitespace
trim title = reverse (trim_front (reverse (trim_front title)))

abbrev pub is_empty {ℓ} : {A : Type ℓ} → List A → Bool
is_empty [] = true
is_empty (_ ∷ _) = false

unfoldable pub normalize_title : List ℕ → Option (List ℕ)
unfolding trim valid_utf8
normalize_title title =
    let normalized = trim title in
    if is_empty normalized
      || ltb maximum_title_bytes (length normalized)
      || not (valid_utf8 normalized true)
    then none
    else some normalized
