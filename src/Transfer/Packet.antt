-- ===== src/Transfer/Packet.antt =====
-- `build_data_packet` and `build_ack_packet` of skeleton/selective_repeat.c. A packet is the list of
-- its bytes; `payload` is the memory behind the pointer, of which `data_len` bytes are copied.
pub mod Laws
use cpe_464_program.Base.{ℕ, List, [], ◌==◌, Bool, take}
use cpe_464_program.Protocol.Checksum.{calculate_checksum}
use cpe_464_program.Protocol.Udp.{
  UdpHeader, encode, decode, store_checksum, udp_data, udp_ack, window_size,
}

unfoldable pub build_data_packet : ℕ → List ℕ → ℕ → List ℕ
build_data_packet seq_num payload data_len =
    let packet = encode header (take data_len payload) in
    store_checksum packet (calculate_checksum packet)
  where
    header : UdpHeader
    header = record {
      msg_type = udp_data;
      flags = 0;
      checksum = 0;
      seq_num = seq_num;
      ack_num = 0;
      data_len = data_len;
      window = window_size;
    }

unfoldable pub build_ack_packet : ℕ → List ℕ
build_ack_packet ack_num =
    let packet = encode header [] in store_checksum packet (calculate_checksum packet)
  where
    header : UdpHeader
    header = record {
      msg_type = udp_ack;
      flags = 0;
      checksum = 0;
      seq_num = 0;
      ack_num = ack_num;
      data_len = 0;
      window = window_size;
    }

-- The receiver's test: the checksum field against the checksum of the packet with that field zero.
unfoldable pub checksum_matches : List ℕ → Bool
checksum_matches packet = (decode packet).checksum == calculate_checksum (store_checksum packet 0)
