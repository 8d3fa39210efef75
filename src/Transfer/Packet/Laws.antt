-- ===== src/Transfer/Packet/Laws.antt =====
-- What the receiving side reads from a packet that was built.
use cpe_464_program.Base.{
  ℕ, ◌+◌, ◌^◌, ◌≤◌, ◌<◌, ◌≡◌, ◌≢◌, refl, sym, ◌∙◌, true, false, List, arith, take, drop, length,
  get_or, set, length-take, length-set, set_comm, set-set_self, get_or-set_ne, get_or-set_self,
}
use native.Mathlib.Decide.{ℕ_discrete}
use cpe_464_program.Protocol.Checksum.{calculate_checksum}
use cpe_464_program.Protocol.Checksum.Laws.{IsBytes, calculate_checksum-set_ne, set-IsBytes}
use cpe_464_program.Protocol.Udp.{decode, store_checksum, udp_data, udp_ack, sizeof_udp_header}
use cpe_464_program.Transfer.Packet.{build_data_packet, build_ack_packet, checksum_matches}

-- A data packet carries its kind, sequence number, length and payload, and a matching checksum.
pub record IsDataPacket (seq_num : ℕ) (payload : List ℕ) (packet : List ℕ) : Type 0 where
  pub size : length packet ≡ sizeof_udp_header + length payload
  pub matches : checksum_matches packet ≡ true
  pub kind : (decode packet).msg_type ≡ udp_data
  pub seq : (decode packet).seq_num ≡ seq_num
  pub len : (decode packet).data_len ≡ length payload
  pub body : drop sizeof_udp_header packet ≡ payload

pub calculate_checksum-lt : (xs : List ℕ) → calculate_checksum xs < 2 ^ 16
unfolding calculate_checksum
calculate_checksum-lt xs = omega arith

-- Only the copied bytes matter.
pub build_data_packet_ext :
    (seq_num : ℕ) (xs ys : List ℕ) (n : ℕ)
    → take n xs ≡ take n ys
    → build_data_packet seq_num xs n ≡ build_data_packet seq_num ys n
unfolding build_data_packet
build_data_packet_ext seq_num xs ys n e = rw e

-- Whatever the payload, a built packet passes the receiver's test and is read back field by field.
pub build_data_packet-IsDataPacket :
    (seq_num : ℕ) (src : List ℕ) (data_len : ℕ)
    → seq_num < 2 ^ 32
    → data_len < 2 ^ 16
    → data_len ≤ length src
    → IsDataPacket seq_num (take data_len src) (build_data_packet seq_num src data_len)
unfolding build_data_packet checksum_matches
build_data_packet-IsDataPacket seq_num src n hs hn fits = record {
  size = omega arith;
  matches = ground (arith, calculate_checksum-lt packet);
  kind = refl;
  seq = omega arith;
  len = omega (arith, length-take n src);
  body = refl;
}
  where
    packet : List ℕ
    packet = store_checksum (build_data_packet seq_num src n) 0

-- An acknowledgement carries its kind and number, no payload, and a matching checksum.
pub record IsAckPacket (ack_num : ℕ) (packet : List ℕ) : Type 0 where
  pub size : length packet ≡ sizeof_udp_header
  pub matches : checksum_matches packet ≡ true
  pub kind : (decode packet).msg_type ≡ udp_ack
  pub ack : (decode packet).ack_num ≡ ack_num
  pub len : (decode packet).data_len ≡ 0

-- A built acknowledgement passes the checksum test and is read back field by field.
pub build_ack_packet-IsAckPacket :
    (ack_num : ℕ) → ack_num < 2 ^ 32 → IsAckPacket ack_num (build_ack_packet ack_num)
unfolding build_ack_packet checksum_matches
build_ack_packet-IsAckPacket ack_num h = record {
  size = refl;
  matches = ground (arith, calculate_checksum-lt (store_checksum (build_ack_packet ack_num) 0));
  kind = refl;
  ack = omega arith;
  len = refl;
}

module _ (p : List ℕ) (b : IsBytes p) (small : length p < 2 ^ 24) (v : ℕ) (hv : v < 256) where
  abbrev cleared : List ℕ
  cleared = store_checksum p 0

  cleared-IsBytes : IsBytes cleared
  cleared-IsBytes = set-IsBytes (set p 2 0) 3 0 (set-IsBytes p 2 0 b (omega arith)) (omega arith)

  length-cleared : length cleared ≡ length p
  length-cleared = length-set (set p 2 0) 3 0 ∙ length-set p 2 0

  store_checksum-set : (i : ℕ) → i ≢ 2 → i ≢ 3 → store_checksum (set p i v) 0 ≡ set cleared i v
  store_checksum-set i n2 n3 = rw (set_comm p i 2 v 0 n2) (set_comm (set p 2 0) i 3 v 0 n3)

  get_or-cleared : (i : ℕ) → i ≢ 2 → i ≢ 3 → get_or cleared i 0 ≡ get_or p i 0
  get_or-cleared i n2 n3 =
      get_or-set_ne (set p 2 0) 3 i 0 0 (λ e. n3 (sym e))
      ∙ get_or-set_ne p 2 i 0 0 (λ e. n2 (sym e))

  checksum-cleared-set :
      (i : ℕ)
      → i ≢ 2
      → i ≢ 3
      → i < length p
      → v ≢ get_or p i 0
      → calculate_checksum (store_checksum (set p i v) 0) ≢ calculate_checksum cleared
  checksum-cleared-set i n2 n3 hi ne = rw (store_checksum-set i n2 n3) (
      calculate_checksum-set_ne cleared i v cleared-IsBytes (rw length-cleared small)
        (rw length-cleared hi) hv (rw (get_or-cleared i n2 n3) ne))

  body_corruption :
      (i : ℕ)
      → i ≢ 2
      → i ≢ 3
      → i < length p
      → v ≢ get_or p i 0
      → checksum_matches p ≡ true
      → checksum_matches (set p i v) ≡ false
  unfolding checksum_matches
  body_corruption i n2 n3 hi ne good = ground (
    arith,
    get_or-set_ne p i 2 v 0 n2,
    get_or-set_ne p i 3 v 0 n3,
    checksum-cleared-set i n2 n3 hi ne,
  )

  low_byte_corruption :
      2 < length p
      → v ≢ get_or p 2 0
      → checksum_matches p ≡ true
      → checksum_matches (set p 2 v) ≡ false
  unfolding checksum_matches
  low_byte_corruption hi ne good = ground (
    arith,
    set-set_self p 2 v 0,
    get_or-set_self p 2 v 0 hi,
    get_or-set_ne p 2 3 v 0 (omega arith),
  )

  high_byte_corruption :
      3 < length p
      → v ≢ get_or p 3 0
      → checksum_matches p ≡ true
      → checksum_matches (set p 3 v) ≡ false
  unfolding checksum_matches
  high_byte_corruption hi ne good = ground (
    arith,
    set_comm p 3 2 v 0 (omega arith),
    set-set_self (set p 2 0) 3 v 0,
    get_or-set_self p 3 v 0 hi,
    get_or-set_ne p 3 2 v 0 (omega arith),
  )

  -- Any packet that passes the test, of less than 16 MiB, fails it once one of its bytes, of the
  -- header, the checksum or the payload, is replaced by another.
  pub checksum_matches-set :
      (i : ℕ)
      → i < length p
      → v ≢ get_or p i 0
      → checksum_matches p ≡ true
      → checksum_matches (set p i v) ≡ false
  checksum_matches-set i hi ne good = elim (ℕ_discrete i 2) [
    | yes two ↦ rw two (low_byte_corruption (rw two at hi) (rw two at ne) good)
    | no n2 ↦ elim (ℕ_discrete i 3) [
      | yes three ↦ rw three (high_byte_corruption (rw three at hi) (rw three at ne) good)
      | no n3 ↦ body_corruption i n2 n3 hi ne good
    ]
  ]
