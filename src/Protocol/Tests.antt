-- ===== src/Protocol/Tests.antt =====
-- The messages and the checksum at concrete bytes.
use cpe_464_program.Base.{ℕ, ◌-◌, ◌/◌, ◌^◌, ◌≡◌, List, [], ◌∷◌, arith}
use cpe_464_program.Protocol.Udp.{UdpHeader, udp_data}
use cpe_464_program.Protocol.Checksum.{calculate_checksum, sum_bytes, fold_carries}
use cpe_464_program.Protocol.Checksum.Laws.{folded, total, calculate_checksum-folded}

abbrev header : UdpHeader
header = record {
  msg_type = udp_data;
  flags = 0;
  checksum = 48879;
  seq_num = 66051;
  ack_num = 0;
  data_len = 1024;
  window = 64;
}

abbrev some_bytes : List ℕ
some_bytes = 255 ∷ 3 ∷ 128 ∷ []

calculate_checksum-folded_example :
    (calculate_checksum some_bytes ≡ 65535 - folded (total some_bytes))
    × (fold_carries 3 (sum_bytes 0 some_bytes) / 2 ^ 16 ≡ 0)
calculate_checksum-folded_example =
    calculate_checksum-folded some_bytes (omega arith, (omega arith, (omega arith, tt)))
      (omega arith)
