-- ===== src/Examples/Wire.antt =====
-- The wire formats at concrete messages, frames and packets.
use ea_share.Base.{
  ◌+◌, ◌-◌, ◌≡◌, refl, none, some, [], ◌∷◌, ◌++◌, Bytes, length, pos, negsuc, arith, put_uint32,
  bytes_eq, replicate, All, IsByte, uint32_at, uint64_at,
}
use ea_share.Protocol.{Message, message, MsgType, write_message, read_message}
use ea_share.Protocol.Framing.{frame, read_message-frame, read_message-write_message}
use ea_share.Stream.{Writer, Result, ok, IsEof, Extends, Error}
use ea_share.Clipsync.{read_frame, kind_text}
use ea_share.Mousesync.{Packet, encode_packet, decode_packet}
use ea_share.Mousesync.Codec.{decode_packet_authentic}
use ea_share.Examples.Rational.{rational}
use ea_share.Examples.Values.{codec, tag, empty_writer, hi, after}

abbrev hello : Message rational
hello = record (message rational MsgType.auth) { token = 11 ∷ 12 ∷ [] }

abbrev hello_body : Bytes
hello_body = 0 ∷ 0 ∷ 11 ∷ 12 ∷ []

read_message-write_message_example :
    (f : Bytes) × (write_message rational codec empty_writer hello
      ≡ (record { sent = [] ++ f; room = 10000 - (length hello_body + 4) }, none))
    × (read_message rational codec (f ++ after) ≡ ok (hello, after))
read_message-write_message_example =
    read_message-write_message rational codec empty_writer hello hello_body after refl refl
      (omega arith) (omega arith)

abbrev ping_frame : Bytes
ping_frame = frame (2 ∷ [])

read_ping :
    read_message rational codec (ping_frame ++ after) ≡ ok (message rational MsgType.ping, after)
read_ping =
    read_message-frame rational codec (message rational MsgType.ping) (2 ∷ []) after refl
      (omega arith)

cut_frame :
    put_uint32 (length hello_body) ++ hello_body ≡ (0 ∷ 0 ∷ 0 ∷ 4 ∷ 0 ∷ []) ++ (0 ∷ 11 ∷ 12 ∷ [])
unfolding put_uint32
cut_frame = refl

abbrev text_frame : Bytes
text_frame = 4 ∷ 0 ∷ 0 ∷ 0 ∷ 2 ∷ 104 ∷ 105 ∷ after

read_text : read_frame text_frame ≡ ok (kind_text, hi, after)
unfolding read_frame ea_share.Stream.read_full uint32_at
read_text = refl

abbrev packet : Packet
packet = record { seq = 5; x = pos 300; y = negsuc 1 }

abbrev datagram : Bytes
datagram = 0 ∷ 0 ∷ 0 ∷ 0 ∷ 0 ∷ 0 ∷ 0 ∷ 5 ∷ 0 ∷ 0 ∷ 1 ∷ 44 ∷ 255 ∷ 255 ∷ 255 ∷ 254 ∷ replicate 32 1

datagram_bytes : All IsByte datagram
datagram_bytes = ground arith

datagram_decodes : decode_packet tag (7 ∷ []) datagram ≡ some packet
unfolding decode_packet uint64_at uint32_at bytes_eq
datagram_decodes = refl

decode_packet_authentic_example : datagram ≡ encode_packet tag (7 ∷ []) packet
decode_packet_authentic_example =
    decode_packet_authentic tag (7 ∷ []) datagram packet datagram_bytes datagram_decodes
