-- ===== src/Client/Get/Opening.antt =====
-- The packets of the opening exchange between two clients of skeleton/client.c.
use mathlib.Core.Path.{ap₂}
use cpe_464_program.Protocol.Udp.Laws.{be32-drop}
use cpe_464_program.Base.{
  ℕ, ◌+◌, ◌^◌, ◌<◌, ◌≡◌, refl, sym, ◌∙◌, ap, true, false, some, List, [], ◌∷◌, arith, ltb, ◌==◌,
  ==_iff, length, drop, drop-drop,
}
use cpe_464_program.Protocol.Checksum.{verify_checksum}
use cpe_464_program.Protocol.Udp.{decode, store_checksum, be32, udp_file_start, sizeof_udp_header}
use cpe_464_program.Protocol.Tcp.{put32}
use cpe_464_program.Transfer.Sender.{Addr}
use cpe_464_program.Transfer.Packet.Laws.{calculate_checksum-lt}
use cpe_464_program.Client.Get.{same_bytes, same_addr, opening_packet, accept_start}

pub same_bytes_refl : (xs : List ℕ) → same_bytes xs xs ≡ true
same_bytes_refl [] = refl
same_bytes_refl (x ∷ xs) = rw ((==_iff x x).1 refl) (same_bytes_refl xs)

pub same_bytes_sound : (xs ys : List ℕ) → same_bytes xs ys ≡ true → xs ≡ ys
same_bytes_sound [] [] h = refl
same_bytes_sound [] (y ∷ ys) h = cc
same_bytes_sound (x ∷ xs) [] h = cc
same_bytes_sound (x ∷ xs) (y ∷ ys) h = ground (arith, same_bytes_sound xs ys)

pub same_addr_refl : (a : Addr) → same_addr a a ≡ true
same_addr_refl a = ground arith

-- A packet of the opening exchange as its receiver reads it.
pub record IsOpening (msg_type data_len : ℕ) (body packet : List ℕ) : Type 0 where
  pub size : length packet ≡ sizeof_udp_header + length body
  pub matches : verify_checksum (store_checksum packet 0) (decode packet).checksum ≡ true
  pub kind : (decode packet).msg_type ≡ msg_type
  pub len : (decode packet).data_len ≡ data_len
  pub behind : drop sizeof_udp_header packet ≡ body

pub opening_packet-IsOpening :
    (msg_type data_len : ℕ) (body : List ℕ)
    → msg_type < 256
    → data_len < 2 ^ 16
    → IsOpening msg_type data_len body (opening_packet msg_type data_len body)
unfolding verify_checksum
opening_packet-IsOpening msg_type data_len body small short = record {
  size = omega arith;
  matches =
      ground
        (arith, calculate_checksum-lt (store_checksum (opening_packet msg_type data_len body) 0));
  kind = omega arith;
  len = omega arith;
  behind = refl;
}

-- The confirmation of an owner is accepted, and its two numbers are read.
pub accept_start_lem :
    (peer : Addr) (packet : List ℕ) (size chunks : ℕ)
    → IsOpening udp_file_start 8 (put32 size (put32 chunks [])) packet
    → size < 2 ^ 32
    → chunks < 2 ^ 32
    → accept_start peer (record { source = peer; bytes = packet }) ≡ some (some (size, chunks))
unfolding accept_start
accept_start_lem peer packet size chunks p size_fits chunks_fits =
    let long : ltb (length packet) 16 ≡ false = ground (arith, p.size) in
    let whole : ltb (length packet) (16 + (decode packet).data_len) ≡ false =
      ground (arith, p.size, p.len) in
    let start : ((decode packet).msg_type == udp_file_start) ≡ true = (==_iff _ _).1 p.kind in
    let eight : ((decode packet).data_len == 8) ≡ true = (==_iff _ _).1 p.len in
    let first : be32 packet 16 ≡ size =
      be32-drop 16 packet ∙ ap (λ b. be32 b 0) p.behind ∙ omega arith in
    let second : be32 packet 20 ≡ chunks =
      be32-drop 20 packet
      ∙ ap (λ b. be32 b 0) (sym (drop-drop 16 4 packet) ∙ ap (drop 4) p.behind)
      ∙ omega arith in
    rw (long, accept_start, whole, p.matches, same_addr_refl peer, start, eight)
      (ap₂ (λ a b. some (some (a, b))) first second)
