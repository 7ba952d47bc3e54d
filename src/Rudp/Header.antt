-- ===== src/Rudp/Header.antt =====
-- The header of a datagram: game-server/platform/transport-rudp/src/RudpHeader.cpp. A byte is a
-- number below 256.
pub mod Roundtrip
use loot_of_legends_public.Base.{
  ℕ, zero, suc, ◌+◌, ◌-◌, ◌*◌, ◌/◌, ◌%◌, ◌^◌, Bool, true, false, not, ◌&&◌, ◌||◌, ltb, leb, ◌==◌,
  if◌then◌else◌, bit_and, bit_xor, List, [], ◌∷◌, ◌++◌, Option, none, some, length,
}

pub data RudpFlag : Type 0 where
  unreliable reliable ack_only heartbeat : RudpFlag

pub record RudpHeader : Type 0 where
  pub flag : RudpFlag
  pub session_id : ℕ
  pub session_generation : ℕ
  pub transport_epoch : ℕ
  pub sequence : ℕ
  pub ack : ℕ
  pub ack_bits : ℕ
  pub message_id : ℕ

pub data RudpHeaderError : Type 0 where
  no_error datagram_too_short datagram_too_large invalid_magic : RudpHeaderError
  unsupported_version invalid_header_bytes invalid_flags : RudpHeaderError
  payload_length_mismatch invalid_checksum invalid_header_field : RudpHeaderError

pub record DecodedRudpDatagram : Type 0 where
  pub error : RudpHeaderError
  pub header : Option RudpHeader
  pub payload : List ℕ

abbrev pub magic : ℕ
magic = 0x4c4f4c32

abbrev pub protocol_major : ℕ
protocol_major = 1

abbrev pub header_bytes : ℕ
header_bytes = 48

abbrev pub maximum_datagram_bytes : ℕ
maximum_datagram_bytes = 1200

abbrev pub crc_offset : ℕ
crc_offset = 44

abbrev pub heartbeat_message_id : ℕ
heartbeat_message_id = 24

abbrev pub crc_polynomial : ℕ
crc_polynomial = 0xedb88320

-- The offsets are always inside the datagram.
unfoldable pub byte_at : List ℕ → ℕ → ℕ
byte_at [] offset = 0
byte_at (b ∷ bs) zero = b
byte_at (b ∷ bs) (suc offset) = byte_at bs offset

unfoldable pub set_at : List ℕ → ℕ → ℕ → List ℕ
set_at [] offset value = []
set_at (b ∷ bs) zero value = value ∷ bs
set_at (b ∷ bs) (suc offset) value = b ∷ set_at bs offset value

-- `left` bytes are still to read into a number of `width` bytes. A byte fills the digits that the
-- shift has cleared.
unfoldable pub read_loop : ℕ → List ℕ → ℕ → ℕ → ℕ → ℕ
unfolding byte_at
read_loop width bytes offset zero value = value
read_loop width bytes offset (suc left) value =
    read_loop width bytes (offset + 1) left ((value * 256 + byte_at bytes offset) % 2 ^ (8 * width))

unfoldable pub read_big_endian : ℕ → List ℕ → ℕ → ℕ
unfolding read_loop
read_big_endian width bytes offset = read_loop width bytes offset width 0

unfoldable pub write_big_endian : ℕ → List ℕ → ℕ → ℕ → List ℕ
unfolding set_at
write_big_endian zero bytes offset value = bytes
write_big_endian (suc left) bytes offset value =
    write_big_endian left (set_at bytes offset (value / 2 ^ (left * 8) % 256)) (offset + 1) value

pub crc_bits : ℕ → ℕ → ℕ
crc_bits zero value = value
crc_bits (suc left) value =
    crc_bits left (bit_xor (value / 2) (if not (bit_and value 1 == 0) then crc_polynomial else 0))

-- The bytes of the checksum itself count as 0.
unfoldable pub checksum_loop : ℕ → List ℕ → ℕ → ℕ
unfolding crc_bits
checksum_loop index [] value = value
checksum_loop index (b ∷ bs) value = checksum_loop (index + 1) bs (
    crc_bits 8
      (bit_xor value (if leb crc_offset index && ltb index (crc_offset + 4) then 0 else b)))

-- All values have 32 bits.
unfoldable pub checksum : List ℕ → ℕ
unfolding checksum_loop
checksum datagram = bit_xor (checksum_loop 0 datagram (2 ^ 32 - 1)) (2 ^ 32 - 1) % 2 ^ 32

abbrev pub parse_flag : ℕ → Option RudpFlag
parse_flag raw =
    if raw == 0
    then some unreliable
    else if raw == 1
    then some reliable
    else if raw == 2
    then some ack_only
    else if raw == 4
    then some heartbeat
    else none

abbrev pub flag_value : RudpFlag → ℕ
flag_value unreliable = 0
flag_value reliable = 1
flag_value ack_only = 2
flag_value heartbeat = 4

abbrev pub valid_message : RudpFlag → ℕ → ℕ → Bool
valid_message unreliable message payload_bytes = not (message == 0)
valid_message reliable message payload_bytes = not (message == 0)
valid_message ack_only message payload_bytes = message == 0 && payload_bytes == 0
valid_message heartbeat message payload_bytes =
    message == heartbeat_message_id && payload_bytes == 0

unfoldable pub valid_fields : RudpHeader → ℕ → Bool
valid_fields h payload_bytes =
    if h.session_id == 0 || h.session_generation == 0 || h.sequence == 0
    then false
    else valid_message h.flag h.message_id payload_bytes

abbrev pub failure : RudpHeaderError → DecodedRudpDatagram
failure error = record { error = error; header = none; payload = [] }

abbrev pub zeros : ℕ → List ℕ
zeros zero = []
zeros (suc n) = 0 ∷ zeros n

-- The datagram before its checksum is written.
unfoldable pub write_fields : RudpHeader → List ℕ → List ℕ
unfolding write_big_endian set_at
write_fields h payload =
    let a = write_big_endian 4 (zeros header_bytes ++ payload) 0 magic in
    let b = set_at (set_at a 4 protocol_major) 5 (flag_value h.flag) in
    let c = write_big_endian 2 b 6 header_bytes in
    let d = write_big_endian 8 c 8 h.session_id in
    let e = write_big_endian 8 d 16 h.session_generation in
    let f = write_big_endian 4 e 24 h.transport_epoch in
    let g = write_big_endian 4 f 28 h.sequence in
    let i = write_big_endian 4 g 32 h.ack in
    let j = write_big_endian 4 i 36 h.ack_bits in
    let k = write_big_endian 2 j 40 h.message_id in write_big_endian 2 k 42 (length payload)

unfoldable pub encode : RudpHeader → List ℕ → Option (List ℕ)
encode h payload =
    if ltb (maximum_datagram_bytes - header_bytes) (length payload)
      || not (valid_fields h (length payload))
    then none
    else some
        (write_big_endian 4 (write_fields h payload) crc_offset (checksum (write_fields h payload)))

unfoldable pub drop_bytes : ℕ → List ℕ → List ℕ
drop_bytes zero bytes = bytes
drop_bytes (suc n) [] = []
drop_bytes (suc n) (b ∷ bs) = drop_bytes n bs

unfoldable pub read_header : RudpFlag → List ℕ → RudpHeader
unfolding read_big_endian
read_header flag datagram = record {
  flag = flag;
  session_id = read_big_endian 8 datagram 8;
  session_generation = read_big_endian 8 datagram 16;
  transport_epoch = read_big_endian 4 datagram 24;
  sequence = read_big_endian 4 datagram 28;
  ack = read_big_endian 4 datagram 32;
  ack_bits = read_big_endian 4 datagram 36;
  message_id = read_big_endian 2 datagram 40;
}

abbrev pub decode_flag : List ℕ → Option RudpFlag → DecodedRudpDatagram
decode_flag datagram none = failure invalid_flags
decode_flag datagram (some flag) =
    if not (read_big_endian 2 datagram 42 == length datagram - header_bytes)
    then failure payload_length_mismatch
    else if not (read_big_endian 4 datagram crc_offset == checksum datagram)
    then failure invalid_checksum
    else if not (valid_fields (read_header flag datagram) (read_big_endian 2 datagram 42))
    then failure invalid_header_field
    else record {
      error = no_error;
      header = some (read_header flag datagram);
      payload = drop_bytes header_bytes datagram;
    }

unfoldable pub decode : List ℕ → DecodedRudpDatagram
decode datagram =
    if ltb (length datagram) header_bytes
    then failure datagram_too_short
    else if ltb maximum_datagram_bytes (length datagram)
    then failure datagram_too_large
    else if not (read_big_endian 4 datagram 0 == magic)
    then failure invalid_magic
    else if not (byte_at datagram 4 == protocol_major)
    then failure unsupported_version
    else if not (read_big_endian 2 datagram 6 == header_bytes)
    then failure invalid_header_bytes
    else decode_flag datagram (parse_flag (byte_at datagram 5))
