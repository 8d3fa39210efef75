-- ===== src/Client/Owner.antt =====
-- The main loop of skeleton/client.c: the datagrams that reach the owner of a file, and the transfer
-- that the loop drives.
pub mod Laws
pub mod Invariant
pub mod Sound
pub mod Table
mod Tests
use cpe_464_program.Base.{
  ℕ, ◌+◌, ◌-◌, ◌/◌, ◌^◌, Bool, true, false, not, ◌&&◌, Option, none, some, List, [], ◌∷◌, ◌++◌, ltb,
  ◌==◌, u32, if◌then◌else◌, length, take, drop, get_or,
}
use cpe_464_program.Protocol.Udp.{
  decode, be32, udp_request_file, udp_file_start, udp_ack, chunk_size, sizeof_udp_header,
}
use cpe_464_program.Protocol.Tcp.{put32}
use cpe_464_program.Transfer.Sender.{
  Addr, Datagram, Stats, Tx, sr_sender_init, sr_sender_send_window, sr_sender_handle_ack,
  sr_sender_check_timeouts, sr_sender_is_complete,
}
use cpe_464_program.Shares.{Shares, OfferedFile, blank_offer, find_shared_file_by_id}
use cpe_464_program.Client.{Arrival}
use cpe_464_program.Client.Get.{
  same_bytes, opening_packet, sizeof_udp_request_file, sizeof_udp_file_start,
}

-- `transfer` has `global_sender` while `transfer_active` is set; `stats` are the counters of the
-- sender's file, and `sent` all datagrams that were handed over.
pub record Owner : Type 0 where
  pub shares : Shares
  pub transfer : Option Tx
  pub stats : Stats
  pub sent : List Datagram

-- An opened file: what `ftell` gives at its end, and what `fread` reads. The result -1 of `ftell`, which is
-- not tested for, is the size 2 ^ 64 - 1, as which `malloc` and `fread` get it: the counts modulo 2 ^ 32 in
-- the confirmation are those of -1 (2 ^ 32 - 1 bytes, 0 chunks), and `fread` never reads as much.
pub record OpenFile : Type 0 where
  pub size : ℕ
  pub contents : List ℕ

abbrev pub sizeof_owner_request : ℕ
sizeof_owner_request = 52

unfoldable pub build_start : ℕ → List ℕ
build_start size =
    opening_packet udp_file_start sizeof_udp_file_start
      (put32 (u32 size) (put32 (u32 ((size + chunk_size - 1) / chunk_size)) []))

-- The owner with the transfer in a state, whose datagrams are handed over.
abbrev pub with_transfer : Owner → Tx → Owner
with_transfer o tx = record o {
  transfer = some (record tx { outbox = [] });
  stats = tx.stats;
  sent = o.sent ++ tx.outbox;
}

-- The tests on a request, which lead to the file that it asks for.
unfoldable pub requested : Owner → List ℕ → Option OfferedFile
requested o packet =
    if ltb (length packet) sizeof_owner_request
    then none
    else if not ((decode packet).data_len == sizeof_udp_request_file)
    then none
    else elim (find_shared_file_by_id o.shares (be32 packet 16)) [
      | none ↦ none
      | some k ↦
          let file = get_or o.shares.table k blank_offer in
          if same_bytes file.hash (take 32 (drop 20 packet)) then some file else none
    ]

-- UDP_ACK.
unfoldable pub on_ack : Arrival → Owner → Owner
on_ack a o = elim o.transfer [
  | none ↦ o
  | some tx ↦ with_transfer o (sr_sender_handle_ack (decode a.bytes) tx)
]

-- The calls of the system: what `fopen` opens, whether `sendto` sends, and whether `malloc` has so many
-- bytes.
module _ (udp_fd : ℕ) (fopen : List ℕ → Option OpenFile) (sendto : Datagram → Bool)
    (malloc : ℕ → Bool) where
  -- What follows the confirmation: the file is read, the sender made, and the first window sent.
  unfoldable pub start_transfer : ℕ → Addr → OpenFile → Owner → Bool × Owner
  start_transfer now peer file o =
      if not (malloc file.size)
      then (false, o)
      else if not (length (take file.size file.contents) == file.size)
      then (false, o)
      else elim (sr_sender_init true udp_fd (some peer) (some (take file.size file.contents))
          (u32 file.size) true) [
            | none ↦ (false, o)
            | some s ↦ (
              true,
              with_transfer o
                  (sr_sender_send_window now
                    (record { sender = s; stats = o.stats; outbox = [] })).0,
            )
          ]

  -- UDP_REQUEST_FILE.
  unfoldable pub on_request : ℕ → Arrival → Owner → Bool × Owner
  on_request now a o = elim (requested o a.bytes) [
    | none ↦ (false, o)
    | some file ↦ elim (fopen file.file_name) [
      | none ↦ (false, o)
      | some opened ↦
          let confirmation : Datagram = record {
            via_link = false;
            dest = a.source;
            bytes = build_start opened.size;
          } in
          elim (sendto confirmation) [
            | false ↦ (false, o)
            | true ↦
                start_transfer now a.source opened
                  (record o { sent = o.sent ++ (confirmation ∷ []) })
          ]
    ]
  ]

  -- A datagram of at least a header is taken by its kind; its bytes are those that `lossy_recv` has put
  -- into a buffer of one packet's size. The Boolean is false after a `continue`, which skips the end of the
  -- round.
  unfoldable pub on_datagram : ℕ → Arrival → Owner → Bool × Owner
  on_datagram now a o =
      if ltb (length a.bytes) sizeof_udp_header
      then (false, o)
      else if (decode a.bytes).msg_type == udp_request_file
      then on_request now a o
      else if (decode a.bytes).msg_type == udp_ack
      then (true, on_ack a o)
      else (true, o)

-- The end of each round: the window is sent, the timeouts are checked, and a transfer that ran out of
-- retries or is complete is over. `now` and `later` are the times of the two calls.
unfoldable pub drive_transfer : ℕ → ℕ → Owner → Owner
drive_transfer now later o = elim o.transfer [
  | none ↦ o
  | some tx ↦
      let tx1 = (sr_sender_send_window now tx).0 in
      let (tx2, res) = sr_sender_check_timeouts later tx1 in
      let driven = with_transfer o tx2 in
      elim res [
        | none ↦ record driven { transfer = none }
        | some retransmissions ↦
            if sr_sender_is_complete tx2.sender then record driven { transfer = none } else driven
      ]
]

-- What the main loop does for the owner: a datagram is taken, or a round ends.
pub data OwnerEvent : Type 0 where
  arrived : ℕ → Arrival → OwnerEvent
  round : ℕ → ℕ → OwnerEvent

module _ (udp_fd : ℕ) (fopen : List ℕ → Option OpenFile) (sendto : Datagram → Bool)
    (malloc : ℕ → Bool) where
  abbrev pub owner_step : OwnerEvent → Owner → Owner
  owner_step (arrived now a) o = (on_datagram udp_fd fopen sendto malloc now a o).1
  owner_step (round now later) o = drive_transfer now later o

  unfoldable pub owner_run : List OwnerEvent → Owner → Owner
  owner_run [] o = o
  owner_run (e ∷ events) o = owner_run events (owner_step e o)
