-- ===== src/Transfer/Receiver.antt =====
-- The receiver of skeleton/selective_repeat.c. A function that updates `*receiver` returns the new
-- state. An `Rx` is the receiver with the datagrams that it has handed to `lossy_send` or `sendto`.
-- `none` is a copy that writes outside its array, which C leaves undefined. A null `file_buffer` is an
-- empty one.
pub mod Invariant
pub mod DeliverOne
pub mod Deliver
pub mod Buffer
pub mod Handle
pub mod Complete
use cpe_464_program.Base.{
  ℕ, zero, suc, ◌+◌, ◌*◌, ◌%◌, Bool, true, false, not, ◌&&◌, Option, none, some, List, [], ◌∷◌,
  ◌++◌, ltb, leb, ◌==◌, if◌then◌else◌, u32, length, get_or, set, take, drop, replicate, memcpy,
}
use cpe_464_program.Protocol.Udp.{decode, udp_data, chunk_size, window_size, sizeof_udp_header}
use cpe_464_program.Transfer.Packet.{build_ack_packet, checksum_matches}
use cpe_464_program.Transfer.Sender.{Addr, Datagram}

-- `recv_window_entry_t`; `bytes` is its `data`, an array of `chunk_size` bytes.
pub record RecvEntry : Type 0 where
  pub received : Bool
  pub seq_num : ℕ
  pub bytes : List ℕ
  pub data_len : ℕ

-- `sr_receiver_t`; `lossy_link` tells whether the pointer is set.
pub record Receiver : Type 0 where
  pub udp_fd : ℕ
  pub peer_addr : Addr
  pub base : ℕ
  pub window : List RecvEntry
  pub file_buffer : List ℕ
  pub file_size : ℕ
  pub num_chunks : ℕ
  pub chunks_received : ℕ
  pub lossy_link : Bool

pub record Rx : Type 0 where
  pub receiver : Receiver
  pub outbox : List Datagram

unfoldable pub blank_entry : RecvEntry
blank_entry = record { received = false; seq_num = 0; bytes = replicate chunk_size 0; data_len = 0 }

abbrev pub slot : List RecvEntry → ℕ → RecvEntry
slot window seq = get_or window (seq % window_size) blank_entry

abbrev pub set_slot : List RecvEntry → ℕ → RecvEntry → List RecvEntry
set_slot window seq entry = set window (seq % window_size) entry

-- What `sr_receiver_init` stores, with the memory that `malloc` returned.
abbrev pub init_receiver : ℕ → Addr → ℕ → ℕ → List ℕ → Receiver
init_receiver udp_fd peer_addr file_size num_chunks memory = record {
  udp_fd = udp_fd;
  peer_addr = peer_addr;
  base = 0;
  window = replicate window_size blank_entry;
  file_buffer = memory;
  file_size = file_size;
  num_chunks = num_chunks;
  chunks_received = 0;
  lossy_link = true;
}

-- `sr_receiver_init`: the flags tell whether `receiver` and `lossy_link` are set, and `none` is the -1
-- for a null pointer or for a `malloc` that failed.
module _ (malloc : ℕ → Option (List ℕ)) where
  unfoldable pub sr_receiver_init : Bool → ℕ → Option Addr → ℕ → ℕ → Bool → Option Receiver
  sr_receiver_init true udp_fd (some peer_addr) file_size num_chunks true =
      elim (malloc file_size) [
        | none ↦ none
        | some memory ↦ some (init_receiver udp_fd peer_addr file_size num_chunks memory)
      ]
  sr_receiver_init _ _ _ _ _ _ = none

-- `sr_receiver_send_ack`.
unfoldable pub sr_receiver_send_ack : Rx → ℕ → Rx
sr_receiver_send_ack rx seq_num =
    let ack : Datagram = record {
      via_link = rx.receiver.lossy_link;
      dest = rx.receiver.peer_addr;
      bytes = build_ack_packet seq_num;
    } in
    record rx { outbox = rx.outbox ++ (ack ∷ []) }

-- The `if (!slot->received)` of `sr_receiver_handle_data`: a packet is copied to its slot once.
unfoldable pub buffer_packet : Receiver → ℕ → ℕ → List ℕ → Option Receiver
buffer_packet r seq_num data_len payload =
    let entry = slot r.window seq_num in
    if entry.received then some r else elim (memcpy entry.bytes 0 (take data_len payload)) [
      | none ↦ none
      | some bytes ↦ some (record r {
        window =
            set_slot r.window seq_num
              (record { received = true; seq_num = seq_num; bytes = bytes; data_len = data_len });
        chunks_received = u32 (r.chunks_received + 1);
      })
    ]

-- One round of the sliding loop runs where the packet at the base is there.
unfoldable pub can_deliver : Receiver → Bool
can_deliver r = ltb r.base r.num_chunks && (slot r.window r.base).received

unfoldable pub deliver_one : Receiver → Option Receiver
deliver_one r =
    let entry = slot r.window r.base in
    elim (memcpy r.file_buffer (u32 (r.base * chunk_size)) (take entry.data_len entry.bytes)) [
      | none ↦ none
      | some buffer ↦ some (record r {
        file_buffer = buffer;
        window = set_slot r.window r.base (record entry { received = false });
        base = u32 (r.base + 1);
      })
    ]

-- The sliding loop, with fuel: a round frees a slot, so there are no more than `window_size`.
unfoldable pub deliver_loop : ℕ → Receiver → Option Receiver
deliver_loop zero r = some r
deliver_loop (suc fuel) r = elim (can_deliver r) [
  | true ↦ elim (deliver_one r) [ none ↦ none | some r' ↦ deliver_loop fuel r' ]
  | false ↦ some r
]

-- The tests on the packet alone: its length, checksum, kind and payload length.
unfoldable pub is_intact : List ℕ → Bool
is_intact packet =
    leb sizeof_udp_header (length packet)
    && checksum_matches packet
    && (decode packet).msg_type == udp_data
    && leb (sizeof_udp_header + (decode packet).data_len) (length packet)

-- A packet in the window is copied to its slot, acknowledged, and delivered with what follows it.
unfoldable pub accept_packet : Rx → ℕ → ℕ → List ℕ → Option Rx
accept_packet rx seq_num data_len payload =
    elim (buffer_packet rx.receiver seq_num data_len payload) [
      | none ↦ none
      | some r ↦
          let acked = sr_receiver_send_ack (record rx { receiver = r }) seq_num in
          elim (deliver_loop (window_size + 1) acked.receiver) [
            | none ↦ none
            | some r' ↦ some (record acked { receiver = r' })
          ]
    ]

-- `sr_receiver_handle_data`, which returns 0 on every path.
unfoldable pub sr_receiver_handle_data : Rx → List ℕ → Option Rx
sr_receiver_handle_data rx packet =
    let hdr = decode packet in
    let r = rx.receiver in
    if not (is_intact packet)
    then some rx
    else if leb r.num_chunks hdr.seq_num
    then some rx
    else if ltb hdr.seq_num r.base
    then some (sr_receiver_send_ack rx hdr.seq_num)
    else if leb (u32 (r.base + window_size)) hdr.seq_num
    then some rx
    else accept_packet rx hdr.seq_num hdr.data_len (drop sizeof_udp_header packet)

unfoldable pub sr_receiver_is_complete : Receiver → Bool
sr_receiver_is_complete r = leb r.num_chunks r.base

-- `sr_receiver_get_file`: the buffer, and what goes through `size`.
unfoldable pub sr_receiver_get_file : Receiver → List ℕ × ℕ
sr_receiver_get_file r = (r.file_buffer, r.file_size)

-- `sr_receiver_cleanup` frees the buffer.
unfoldable pub sr_receiver_cleanup : Receiver → Receiver
sr_receiver_cleanup r = record r { file_buffer = [] }
