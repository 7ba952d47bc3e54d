-- ===== src/Rudp/Header/Roundtrip.antt =====
-- Decoding what was encoded.
use loot_of_legends_public.Base.{
  ℕ, ◌+◌, ◌^◌, ◌<◌, ◌≤◌, ◌≡◌, ◌⊎◌, refl, true, false, ltb, List, [], ◌∷◌, none, some, length, arith,
  Bool-cases, inl, inr,
}
use loot_of_legends_public.Rudp.Header.{
  RudpHeader, RudpFlag, unreliable, reliable, ack_only, heartbeat, no_error, DecodedRudpDatagram,
  read_big_endian, write_big_endian, set_at, byte_at, write_fields, encode, decode, checksum,
  checksum_loop, valid_fields, read_header, drop_bytes, flag_value, parse_flag, decode_flag,
}

written_2 : (v : ℕ) → v < 2 ^ 16 → read_big_endian 2 (write_big_endian 2 (0 ∷ 0 ∷ []) 0 v) 0 ≡ v
unfolding read_big_endian write_big_endian set_at byte_at
written_2 v h = omega arith

written_4 :
    (v : ℕ) → v < 2 ^ 32 → read_big_endian 4 (write_big_endian 4 (0 ∷ 0 ∷ 0 ∷ 0 ∷ []) 0 v) 0 ≡ v
unfolding read_big_endian write_big_endian set_at byte_at
written_4 v h = omega arith

written_8 :
    (v : ℕ)
    → v < 2 ^ 64
    → read_big_endian 8 (write_big_endian 8 (0 ∷ 0 ∷ 0 ∷ 0 ∷ 0 ∷ 0 ∷ 0 ∷ 0 ∷ []) 0 v) 0 ≡ v
unfolding read_big_endian write_big_endian set_at byte_at
written_8 v h = omega arith

abbrev written : RudpHeader → List ℕ → ℕ → List ℕ
written h payload crc = write_big_endian 4 (write_fields h payload) 44 crc

-- Every field fits its width.
abbrev pub IsHeader : RudpHeader → Type 0
IsHeader h =
    ((h.session_id < 2 ^ 64) × (h.session_generation < 2 ^ 64))
    × ((h.transport_epoch < 2 ^ 32)
        × (h.sequence < 2 ^ 32)
        × (h.ack < 2 ^ 32)
        × (h.ack_bits < 2 ^ 32))
    × (h.message_id < 2 ^ 16)

read_header-written :
    (h : RudpHeader) (payload : List ℕ) (crc : ℕ)
    → IsHeader h
    → read_header h.flag (written h payload crc) ≡ h
unfolding read_header write_fields read_big_endian write_big_endian set_at byte_at
read_header-written h payload crc ((s, g), (e, q, a, b), m) i = record {
  flag = h.flag;
  session_id = written_8 h.session_id s i;
  session_generation = written_8 h.session_generation g i;
  transport_epoch = written_4 h.transport_epoch e i;
  sequence = written_4 h.sequence q i;
  ack = written_4 h.ack a i;
  ack_bits = written_4 h.ack_bits b i;
  message_id = written_2 h.message_id m i;
}

read_length-written :
    (h : RudpHeader) (payload : List ℕ) (crc : ℕ)
    → length payload < 2 ^ 16
    → read_big_endian 2 (written h payload crc) 42 ≡ length payload
unfolding write_fields read_big_endian write_big_endian set_at byte_at
read_length-written h payload crc small = written_2 (length payload) small

read_crc-written :
    (h : RudpHeader) (payload : List ℕ) (crc : ℕ)
    → crc < 2 ^ 32
    → read_big_endian 4 (written h payload crc) 44 ≡ crc
unfolding write_fields read_big_endian write_big_endian set_at byte_at
read_crc-written h payload crc small = written_4 crc small

checksum-written :
    (h : RudpHeader) (payload : List ℕ) (crc : ℕ)
    → checksum (written h payload crc) ≡ checksum (write_fields h payload)
unfolding write_fields write_big_endian set_at checksum checksum_loop
checksum-written h payload crc = refl

length-written :
    (h : RudpHeader) (payload : List ℕ) (crc : ℕ)
    → length (written h payload crc) ≡ 48 + length payload
unfolding write_fields write_big_endian set_at
length-written h payload crc = omega arith

parse_flag-written :
    (h : RudpHeader) (payload : List ℕ) (crc : ℕ)
    → parse_flag (byte_at (written h payload crc) 5) ≡ some h.flag
unfolding write_fields write_big_endian set_at byte_at
parse_flag-written h payload crc = known h.flag
  where
    known : (f : RudpFlag) → parse_flag (flag_value f) ≡ some f
    known unreliable = refl
    known reliable = refl
    known ack_only = refl
    known heartbeat = refl

constants-written :
    (h : RudpHeader) (payload : List ℕ) (crc : ℕ)
    → ((read_big_endian 4 (written h payload crc) 0 ≡ 0x4c4f4c32)
        × (byte_at (written h payload crc) 4 ≡ 1))
      × (read_big_endian 2 (written h payload crc) 6 ≡ 48)
unfolding write_fields read_big_endian write_big_endian set_at byte_at
constants-written h payload crc = ((refl, refl), refl)

payload-written :
    (h : RudpHeader) (payload : List ℕ) (crc : ℕ) → drop_bytes 48 (written h payload crc) ≡ payload
unfolding write_fields write_big_endian set_at drop_bytes
payload-written h payload crc = refl

abbrev pub decoded : RudpHeader → List ℕ → DecodedRudpDatagram
decoded h payload = record { error = no_error; header = some h; payload = payload }

decode_flag-written :
    (h : RudpHeader) (payload : List ℕ) (crc : ℕ)
    → IsHeader h
    → length payload ≤ 1152
    → valid_fields h (length payload) ≡ true
    → crc < 2 ^ 32
    → checksum (write_fields h payload) ≡ crc
    → decode_flag (written h payload crc) (some h.flag) ≡ decoded h payload
decode_flag-written h payload crc fits short valid small same =
    rw
      (
        read_header-written h payload crc fits,
        read_length-written h payload crc (omega arith),
        read_crc-written h payload crc small,
        checksum-written h payload crc,
        length-written h payload crc,
        payload-written h payload crc,
        same,
        valid,
      )
      (ground arith)

decode-written :
    (h : RudpHeader) (payload : List ℕ) (crc : ℕ)
    → IsHeader h
    → length payload ≤ 1152
    → valid_fields h (length payload) ≡ true
    → crc < 2 ^ 32
    → checksum (write_fields h payload) ≡ crc
    → decode (written h payload crc) ≡ decoded h payload
unfolding decode
decode-written h payload crc fits short valid small same =
    let ((magic, major), bytes) = constants-written h payload crc in
    let long : ltb (48 + length payload) 48 ≡ false = ground arith in
    let fitting : ltb 1200 (48 + length payload) ≡ false = ground arith in
    rw
      (
        decode,
        length-written h payload crc,
        long,
        fitting,
        magic,
        major,
        bytes,
        parse_flag-written h payload crc,
        decode_flag-written h payload crc fits short valid small same,
      )
      refl

checksum-bounded : (datagram : List ℕ) → checksum datagram < 2 ^ 32
unfolding checksum
checksum-bounded datagram = omega arith

-- Where the fields of a header fit their widths, whatever datagram it is encoded to with a payload
-- decodes to that header and that payload. It is encoded exactly when the payload has at most 1152
-- bytes and the fields are valid with a payload of that length.
pub decode-encode :
    (h : RudpHeader) (payload : List ℕ)
    → IsHeader h
    → ((length payload ≤ 1152)
        × (valid_fields h (length payload) ≡ true)
        × ((datagram : List ℕ) × (encode h payload ≡ some datagram)
            × (decode datagram ≡ decoded h payload)))
      ⊎ (((1152 < length payload) ⊎ (valid_fields h (length payload) ≡ false))
          × (encode h payload ≡ none))
unfolding encode
decode-encode h payload fits = elim (Bool-cases (ltb 1152 (length payload))) [
  | inl e ↦ inr (inl (ground (arith, e)), ground (arith, e))
  | inr e ↦ elim (Bool-cases (valid_fields h (length payload))) [
    | inr f ↦ inr (inr f, ground (arith, e, f))
    | inl f ↦
        let short : length payload ≤ 1152 = ground (arith, e) in
        let crc = checksum (write_fields h payload) in
        inl (
          short,
          f,
          (
            written h payload crc,
            rw (encode, e, f) refl,
            decode-written h payload crc fits short f (checksum-bounded (write_fields h payload))
                refl,
          ),
        )
  ]
]
