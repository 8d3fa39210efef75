-- ===== src/Transfer/Sender.antt =====
-- The sender of skeleton/selective_repeat.c. A function that updates `*sender` returns the new state.
-- A `Tx` is the sender with the file's counters and with the datagrams it has handed to
-- `lossy_send` or `sendto`, in order; `lossy_send` drops some of them.
pub mod Invariant
pub mod Sending
pub mod SendWindow
pub mod Slide
pub mod Mark
pub mod Ack
pub mod Retransmit
pub mod Scan
pub mod Resend
pub mod Timeout
pub mod Complete
use cpe_464_program.Base.{
  ℕ, zero, suc, ◌+◌, ◌-◌, ◌*◌, ◌/◌, ◌%◌, ◌^◌, Bool, true, false, not, ◌&&◌, ◌||◌, Option, none,
  some, List, [], ◌∷◌, ◌++◌, ltb, leb, ◌==◌, if◌then◌else◌, u16, u32, sub64, get_or, set, take,
  drop, replicate, splice,
}
use cpe_464_program.Protocol.Udp.{
  UdpHeader, udp_ack, chunk_size, window_size, timeout_ms, max_retries,
}
use cpe_464_program.Transfer.Packet.{build_data_packet}

-- `packet_state_t`.
pub data PacketState : Type 0 where
  empty pending acked : PacketState

abbrev pub is_empty : PacketState → Bool
is_empty empty = true
is_empty _ = false

abbrev pub is_pending : PacketState → Bool
is_pending pending = true
is_pending _ = false

abbrev pub is_acked : PacketState → Bool
is_acked acked = true
is_acked _ = false

-- `send_window_entry_t`; `bytes` is its `data`, an array of `chunk_size` bytes.
pub record SendEntry : Type 0 where
  pub state : PacketState
  pub seq_num : ℕ
  pub bytes : List ℕ
  pub data_len : ℕ
  pub send_time_ms : ℕ
  pub retries : ℕ

-- The two fields of `struct sockaddr_in` that the programs use, in network order.
pub record Addr : Type 0 where
  pub ip : ℕ
  pub port : ℕ

-- `sr_sender_t`; `lossy_link` tells whether the pointer is set.
pub record Sender : Type 0 where
  pub udp_fd : ℕ
  pub peer_addr : Addr
  pub base : ℕ
  pub next_seq : ℕ
  pub window : List SendEntry
  pub file_data : List ℕ
  pub file_size : ℕ
  pub num_chunks : ℕ
  pub chunks_acked : ℕ
  pub lossy_link : Bool

-- `sr_stats_t` and the static counters behind `sr_get_stats`.
pub record Stats : Type 0 where
  pub packets_sent : ℕ
  pub packets_retransmitted : ℕ
  pub acks_received : ℕ

-- One call of `lossy_send` (`via_link`) or `sendto`.
pub record Datagram : Type 0 where
  pub via_link : Bool
  pub dest : Addr
  pub bytes : List ℕ

pub record Tx : Type 0 where
  pub sender : Sender
  pub stats : Stats
  pub outbox : List Datagram

unfoldable pub blank_entry : SendEntry
blank_entry = record {
  state = empty;
  seq_num = 0;
  bytes = replicate chunk_size 0;
  data_len = 0;
  send_time_ms = 0;
  retries = 0;
}

-- The entry at `window[seq % WINDOW_SIZE]`.
abbrev pub slot : List SendEntry → ℕ → SendEntry
slot window seq = get_or window (seq % window_size) blank_entry

abbrev pub set_slot : List SendEntry → ℕ → SendEntry → List SendEntry
set_slot window seq entry = set window (seq % window_size) entry

-- What `sr_sender_init` stores: the structure is zeroed first.
abbrev pub init_sender : ℕ → Addr → List ℕ → ℕ → Sender
init_sender udp_fd peer_addr file_data file_size = record {
  udp_fd = udp_fd;
  peer_addr = peer_addr;
  base = 0;
  next_seq = 0;
  window = replicate window_size blank_entry;
  file_data = file_data;
  file_size = file_size;
  num_chunks = u32 (file_size + chunk_size - 1) / chunk_size;
  chunks_acked = 0;
  lossy_link = true;
}

-- `sr_sender_init`: the flags tell whether `sender` and `lossy_link` are set, and `none` is the -1
-- for a null pointer.
unfoldable pub sr_sender_init : Bool → ℕ → Option Addr → Option (List ℕ) → ℕ → Bool → Option Sender
sr_sender_init true udp_fd (some peer_addr) (some file_data) file_size true =
    some (init_sender udp_fd peer_addr file_data file_size)
sr_sender_init _ _ _ _ _ _ = none

-- The call of `lossy_send`, or of `sendto` where there is no link.
abbrev pub hand_over : Sender → List ℕ → Datagram
hand_over s packet = record { via_link = s.lossy_link; dest = s.peer_addr; bytes = packet }

-- `chunk_len`: the last chunk may be shorter. The conversion to `uint16_t` is the outer cast.
unfoldable pub chunk_len : ℕ → ℕ → ℕ
chunk_len offset file_size = u16 (
    if ltb file_size (u32 (offset + chunk_size))
    then u32 (file_size + 2 ^ 32 - offset)
    else chunk_size)

-- The loop condition of `sr_sender_send_window` and the `break` at its top.
unfoldable pub can_send : Sender → Bool
can_send s =
    ltb s.next_seq (u32 (s.base + window_size))
    && ltb s.next_seq s.num_chunks
    && is_empty (slot s.window s.next_seq).state

-- The rest of the loop's body: send chunk `next_seq` and record it in its slot.
unfoldable pub send_one : ℕ → Tx → Tx
send_one now tx =
    let s = tx.sender in
    let offset = u32 (s.next_seq * chunk_size) in
    let len = chunk_len offset s.file_size in
    let chunk = drop offset s.file_data in
    let entry = slot s.window s.next_seq in
    record {
      sender = record s {
        next_seq = u32 (s.next_seq + 1);
        window = set_slot s.window s.next_seq (record {
          state = pending;
          seq_num = s.next_seq;
          bytes = splice entry.bytes 0 (take len chunk);
          data_len = len;
          send_time_ms = now;
          retries = 0;
        });
      };
      stats = record (tx.stats) {
        packets_sent = if s.lossy_link then tx.stats.packets_sent + 1 else tx.stats.packets_sent;
      };
      outbox = tx.outbox ++ (hand_over s (build_data_packet s.next_seq chunk len) ∷ []);
    }

-- The loop, with fuel; it counts the packets.
unfoldable pub send_loop : ℕ → ℕ → Tx → ℕ → Tx × ℕ
send_loop zero now tx packets = (tx, packets)
send_loop (suc fuel) now tx packets = elim (can_send tx.sender) [
  | true ↦ send_loop fuel now (send_one now tx) (packets + 1)
  | false ↦ (tx, packets)
]

-- `sr_sender_send_window` at the time that `get_time_ms` returns.
unfoldable pub sr_sender_send_window : ℕ → Tx → Tx × ℕ
sr_sender_send_window now tx = send_loop (window_size + 1) now tx 0

-- The ranges of acknowledgements that `sr_sender_handle_ack` ignores.
unfoldable pub ignores_ack : Sender → UdpHeader → Bool
ignores_ack s hdr =
    ltb hdr.ack_num s.base
    || not (hdr.msg_type == udp_ack)
    || leb (u32 (s.base + window_size)) hdr.ack_num
    || leb s.num_chunks hdr.ack_num

-- Marks the packet of the acknowledgement, if its slot waits for it.
unfoldable pub mark_acked : ℕ → Tx → Tx
mark_acked ack_num tx =
    let s = tx.sender in
    let entry = slot s.window ack_num in
    if is_pending entry.state && entry.seq_num == ack_num
    then record tx {
      sender = record s {
        window = set_slot s.window ack_num (record entry { state = acked });
        chunks_acked = u32 (s.chunks_acked + 1);
      };
      stats = record (tx.stats) { acks_received = tx.stats.acks_received + 1 };
    }
    else tx

-- One round of the sliding loop runs at an acknowledged base.
unfoldable pub can_slide : Sender → Bool
can_slide s = ltb s.base s.num_chunks && is_acked (slot s.window s.base).state

unfoldable pub slide_one : Sender → Sender
slide_one s = record s {
  window = set_slot s.window s.base (record (slot s.window s.base) { state = empty });
  base = u32 (s.base + 1);
}

-- The sliding loop, with fuel.
unfoldable pub slide_loop : ℕ → Sender → Sender
slide_loop zero s = s
slide_loop (suc fuel) s = elim (can_slide s) [ true ↦ slide_loop fuel (slide_one s) | false ↦ s ]

-- `sr_sender_handle_ack`. It returns 0 on every path. A slide empties a slot, so the loop makes no
-- more than `window_size` rounds.
unfoldable pub sr_sender_handle_ack : UdpHeader → Tx → Tx
sr_sender_handle_ack hdr tx =
    if ignores_ack tx.sender hdr
    then tx
    else (let tx' = mark_acked hdr.ack_num tx in
        record tx' { sender = slide_loop (window_size + 1) tx'.sender })

-- A pending packet whose last sending is at least `timeout_ms` ago, at slot `seq`.
unfoldable pub timed_out : ℕ → Sender → ℕ → Bool
timed_out now s seq =
    let entry = slot s.window seq in
    is_pending entry.state && entry.seq_num == seq && leb timeout_ms (sub64 now entry.send_time_ms)

unfoldable pub retransmit : ℕ → ℕ → Tx → Tx
retransmit now seq tx =
    let s = tx.sender in
    let entry = slot s.window seq in
    record {
      sender = record s {
        window =
            set_slot s.window seq
              (record entry { send_time_ms = now; retries = entry.retries + 1 });
      };
      stats = record (tx.stats) {
        packets_sent = if s.lossy_link then tx.stats.packets_sent + 1 else tx.stats.packets_sent;
        packets_retransmitted =
            if s.lossy_link
            then tx.stats.packets_retransmitted + 1
            else tx.stats.packets_retransmitted;
      };
      outbox =
          tx.outbox
          ++ (hand_over s (build_data_packet entry.seq_num entry.bytes entry.data_len) ∷ []);
    }

-- The rounds left, `seq`, and the count of retransmissions; `none` is the -1 of a packet out of
-- retries, where what was done before stays done.
unfoldable pub timeout_loop : ℕ → ℕ → ℕ → Tx → ℕ → Tx × Option ℕ
timeout_loop zero now seq tx retransmissions = (tx, some retransmissions)
timeout_loop (suc left) now seq tx retransmissions = elim (timed_out now tx.sender seq) [
  | false ↦ timeout_loop left now (seq + 1) tx retransmissions
  | true ↦ elim (leb max_retries (slot tx.sender.window seq).retries) [
    | true ↦ (tx, none)
    | false ↦ timeout_loop left now (seq + 1) (retransmit now seq tx) (retransmissions + 1)
  ]
]

-- `sr_sender_check_timeouts`: `for (seq = base; seq < next_seq; seq++)`.
unfoldable pub sr_sender_check_timeouts : ℕ → Tx → Tx × Option ℕ
sr_sender_check_timeouts now tx =
    timeout_loop (tx.sender.next_seq - tx.sender.base) now tx.sender.base tx 0

unfoldable pub sr_sender_is_complete : Sender → Bool
sr_sender_is_complete s = leb s.num_chunks s.chunks_acked
