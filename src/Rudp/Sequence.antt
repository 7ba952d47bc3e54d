-- ===== src/Rudp/Sequence.antt =====
-- Serial-number order of 32-bit sequence numbers (src/RudpHeader.cpp of transport-rudp).
use loot_of_legends_public.Base.{ℕ, Bool, ◌&&◌, not, ltb, ◌==◌, sub32}

unfoldable pub is_sequence_newer : ℕ → ℕ → Bool
is_sequence_newer candidate reference =
    not (candidate == reference) && ltb (sub32 candidate reference) 0x80000000
