-- ===== src/LobbyRoom/Text/Utf8.antt =====
-- `validUtf8` of Room.cpp decides UTF-8.
use loot_of_legends_public.Base.{ℕ, ◌≡◌, ◌↔◌, Bool, true, List, length, arith, All}
use loot_of_legends_public.LobbyRoom.Text.{valid_utf8}
use loot_of_legends_public.LobbyRoom.Text.Encoding.{Allowed, encode_all}
use loot_of_legends_public.LobbyRoom.Text.Sound.{loop_sound}
use loot_of_legends_public.LobbyRoom.Text.Complete.{loop_complete}

-- `validUtf8` accepts exactly the encodings of sequences of Unicode scalar values (none of them a
-- control character, where it rejects those), and its loop never runs out of fuel on one.
pub valid_utf8_exactly :
    (text : List ℕ) (reject_controls : Bool)
    → (valid_utf8 text reject_controls ≡ true)
      ↔ ((cs : List ℕ) × All (Allowed reject_controls) cs × (text ≡ encode_all cs))
unfolding valid_utf8
valid_utf8_exactly text b = (
  loop_sound (length text) b text,
  λ (cs, h, e). loop_complete (length text) b cs text h e (omega arith),
)
