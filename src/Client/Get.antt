-- ===== src/Client/Get.antt =====
-- `get` of skeleton/client.c from the server's answer on: the request to the file's owner, the owner's
-- confirmation, the transfer, and the test of the hash before the file is saved.
pub mod Opening
pub mod Loop
pub mod Save
pub mod Feed
pub mod Keeps
pub mod Whole
mod Tests
use cpe_464_program.Base.{
  ℕ, ◌+◌, Bool, true, false, not, ◌&&◌, ◌||◌, Option, none, some, List, [], ◌∷◌, ◌++◌, leb, ltb,
  ◌==◌, if◌then◌else◌, length, take, drop,
}
use cpe_464_program.Protocol.Checksum.{calculate_checksum, verify_checksum}
use cpe_464_program.Protocol.Udp.{
  UdpHeader, encode, decode, store_checksum, be32, udp_request_file, udp_file_start, chunk_size,
  window_size, sizeof_udp_header,
}
use cpe_464_program.Protocol.Tcp.{put32}
use cpe_464_program.Transfer.Sender.{Addr, Datagram}
use cpe_464_program.Transfer.Receiver.{
  Receiver, Rx, sr_receiver_init, sr_receiver_handle_data, sr_receiver_is_complete,
  sr_receiver_get_file,
}
use cpe_464_program.Client.{World, Arrival, Saved, Action, pure, fail, guard, ◌>>=◌, ◌>>◌}
use cpe_464_program.Client.Dialogue.{Location, locate}

-- `memcmp(a, b, n) == 0` on arrays of `n` bytes.
abbrev pub same_bytes : List ℕ → List ℕ → Bool
same_bytes [] [] = true
same_bytes (a ∷ xs) (b ∷ ys) = a == b && same_bytes xs ys
same_bytes _ _ = false

abbrev pub same_addr : Addr → Addr → Bool
same_addr a b = a.ip == b.ip && a.port == b.port

-- The sizes of `udp_request_file_t` and `udp_file_start_t`.
abbrev pub sizeof_udp_request_file : ℕ
sizeof_udp_request_file = 36

abbrev pub sizeof_udp_file_start : ℕ
sizeof_udp_file_start = 8

-- A packet of the opening exchange, with its checksum.
abbrev pub opening_packet : ℕ → ℕ → List ℕ → List ℕ
opening_packet msg_type data_len body =
    let header : UdpHeader = record {
      msg_type = msg_type;
      flags = 0;
      checksum = 0;
      seq_num = 0;
      ack_num = 0;
      data_len = data_len;
      window = window_size;
    } in
    let packet = encode header body in store_checksum packet (calculate_checksum packet)

unfoldable pub build_request : ℕ → List ℕ → List ℕ
build_request file_id hash =
    opening_packet udp_request_file sizeof_udp_request_file (put32 file_id (take 32 hash))

-- What `lossy_recv` brings into a buffer of one packet's size.
abbrev pub lossy_recv : Action Arrival
lossy_recv w = elim w.arrivals [
  | [] ↦ (none, w)
  | next ∷ rest ↦ elim next [
    | none ↦ (none, record w { arrivals = rest })
    | some a ↦ (
      some (record a { bytes = take (sizeof_udp_header + chunk_size) a.bytes }),
      record w { arrivals = rest },
    )
  ]
]

-- The tests on the owner's confirmation, in their order. `none` is the code 1, and `some none` the code 0
-- that a packet of another kind leads to; else the size of the file and its number of chunks.
unfoldable pub accept_start : Addr → Arrival → Option (Option (ℕ × ℕ))
accept_start peer a =
    let hdr = decode a.bytes in
    if ltb (length a.bytes) sizeof_udp_header
    then none
    else if ltb (length a.bytes) (sizeof_udp_header + hdr.data_len)
    then none
    else if not (verify_checksum (store_checksum a.bytes 0) hdr.checksum)
    then none
    else if not (same_addr a.source peer)
    then none
    else if not (hdr.msg_type == udp_file_start)
    then some none
    else if not (hdr.data_len == sizeof_udp_file_start)
    then none
    else some (some (be32 a.bytes 16, be32 a.bytes 20))

-- How the loop of the transfer ends: in a copy outside an array, with a call of `lossy_recv` that failed,
-- or with a complete receiver; the arrivals that are left come with it.
pub data Transfer : Type 0 where
  faulted : Transfer
  failed complete : Rx → List (Option Arrival) → Transfer

-- `while (!sr_receiver_is_complete(&receiver))`; packets from elsewhere are skipped.
unfoldable pub receive_loop : Addr → List (Option Arrival) → Rx → Transfer
receive_loop peer [] rx =
    if sr_receiver_is_complete rx.receiver then complete rx [] else failed rx []
receive_loop peer (next ∷ rest) rx = elim (sr_receiver_is_complete rx.receiver) [
  | true ↦ complete rx (next ∷ rest)
  | false ↦ elim next [
    | none ↦ failed rx rest
    | some a ↦ elim (same_addr a.source peer) [
      | false ↦ receive_loop peer rest rx
      | true ↦ elim (sr_receiver_handle_data rx (take (sizeof_udp_header + chunk_size) a.bytes)) [
        | none ↦ faulted
        | some rx' ↦ receive_loop peer rest rx'
      ]
    ]
  ]
]

-- The owner, as the server's answer gives it.
abbrev pub peer_of : Location → Addr
peer_of loc = record { ip = loc.peer_ip; port = loc.peer_port }

-- The end of `get`, with the digest, and what `fopen` of a name for writing gives: `none` for NULL, or a file,
-- as the count that `fwrite` to it returns for a size.
module _ (sha256 : List ℕ → List ℕ) (writable : List ℕ → Option (ℕ → ℕ)) where
  -- The file is saved if its digest is the one that the server gave; a digest that differs is only
  -- printed. The count that `fwrite` returns is not looked at: the bytes up to it are in the file, and
  -- the result is 0.
  unfoldable pub save : Location → Receiver → Action (Unit {0})
  save loc r w =
      let (assembled, size) = sr_receiver_get_file r in
      if not (same_bytes (sha256 (take size assembled)) loc.hash)
      then (some tt, w)
      else elim (writable loc.filename) [
        | none ↦ (none, w)
        | some fwrite ↦ (
          some tt,
          record w {
            saved =
                w.saved
                ++ (record {
                  name = loc.filename;
                  contents = take (fwrite size) (take size assembled);
                }
                    ∷ []);
          },
        )
      ]

-- `get`, with the UDP socket, whether `sendto` sends a datagram, what `malloc` returns, the digest, and what
-- `fopen` and `fwrite` do with a name.
module _ (udp_fd : ℕ) (sendto : Datagram → Bool) (malloc : ℕ → Option (List ℕ))
    (sha256 : List ℕ → List ℕ) (writable : List ℕ → Option (ℕ → ℕ)) where
  abbrev pub send_datagram : Datagram → Action (Unit {0})
  send_datagram d w = elim (sendto d) [
    | true ↦ (some tt, record w { sent = w.sent ++ (d ∷ []) })
    | false ↦ (none, w)
  ]

  abbrev pub init_transfer : Location → Option (ℕ × ℕ) → Action (Option (Location × Receiver))
  init_transfer loc none w = (some none, w)
  init_transfer loc (some (size, chunks)) w =
      elim (sr_receiver_init malloc true udp_fd (some (peer_of loc)) size chunks true) [
        | none ↦ (none, w)
        | some r ↦ (some (some (loc, r)), w)
      ]

  -- Up to `sr_receiver_init`. The result `none` is the code 0 without a transfer.
  unfoldable pub open_transfer : ℕ → Action (Option (Location × Receiver))
  open_transfer file_id = do
    loc ← locate file_id
    send_datagram
        (record { via_link = false; dest = peer_of loc; bytes = build_request file_id loc.hash })
    a ← lossy_recv
    start ← λ w. (accept_start (peer_of loc) a, w)
    init_transfer loc start

  -- From the loop on, with what `sr_receiver_init` has left; `none` is a copy outside an array.
  abbrev pub run_transfer :
      Option (Option (Location × Receiver)) × World → Option (Option (Unit {0}) × World)
  run_transfer (none, w) = some (none, w)
  run_transfer (some none, w) = some (some tt, w)
  run_transfer (some (some (loc, r)), w) =
      elim (receive_loop (peer_of loc) w.arrivals (record { receiver = r; outbox = [] })) [
        | faulted ↦ none
        | failed rx rest ↦ some (none, record w { arrivals = rest; sent = w.sent ++ rx.outbox })
        | complete rx rest ↦ some (
            save sha256 writable loc rx.receiver
              (record w { arrivals = rest; sent = w.sent ++ rx.outbox }))
      ]

  unfoldable pub get : ℕ → World → Option (Option (Unit {0}) × World)
  get file_id w = run_transfer (open_transfer file_id w)
