-- ===== src/Client/Owner/Tests.antt =====
-- The owner of one file of three bytes in the main loop of skeleton/client.c.
use cpe_464_program.Base.{
  ℕ, ◌-◌, ◌^◌, ◌≡◌, refl, Bool, true, false, Option, none, some, List, [], ◌∷◌, ◌++◌, arith, length,
  replicate, get_or,
}
use cpe_464_program.Transfer.Packet.{build_ack_packet}
use cpe_464_program.Transfer.Window.{chunks_of}
use cpe_464_program.Transfer.Sender.{Addr, Datagram, Sender, sr_sender_init, sr_sender_send_window}
use cpe_464_program.Shares.{blank_offer, no_shares, add_shared_file, find_shared_file_by_id}
use cpe_464_program.Client.Get.{accept_start, build_request, opening_packet, sizeof_udp_file_start}
use cpe_464_program.Protocol.Udp.{udp_file_start}
use cpe_464_program.Protocol.Tcp.{put32}
use cpe_464_program.Client.Owner.{
  Owner, OpenFile, build_start, with_transfer, on_datagram, OwnerEvent, arrived, round,
}
use cpe_464_program.Client.Owner.Laws.{opening_exchange}

abbrev text : List ℕ
text = 7 ∷ 8 ∷ 9 ∷ []

abbrev hash : List ℕ
hash = replicate 32 1

abbrev idle : Owner
idle = record {
  shares = add_shared_file no_shares 1 3 hash (97 ∷ 98 ∷ []);
  transfer = none;
  stats = record { packets_sent = 0; packets_retransmitted = 0; acks_received = 0 };
  sent = [];
}

abbrev on_disk : OpenFile
on_disk = record { size = 3; contents = text }

abbrev fopen : List ℕ → Option OpenFile
fopen name = some on_disk

abbrev sendto : Datagram → Bool
sendto d = true

abbrev malloc : ℕ → Bool
malloc n = true

abbrev requester : Addr
requester = record { ip = 16777343; port = 9000 }

abbrev owner : Addr
owner = record { ip = 16777343; port = 8080 }

-- The confirmation of a file whose size `ftell` does not tell.
untold_start :
    build_start (2 ^ 64 - 1)
    ≡ opening_packet udp_file_start sizeof_udp_file_start (put32 (2 ^ 32 - 1) (put32 0 []))
unfolding build_start
untold_start = refl

found : find_shared_file_by_id idle.shares 1 ≡ some 0
unfolding add_shared_file find_shared_file_by_id
found = refl

same_hash : (get_or idle.shares.table 0 blank_offer).hash ≡ hash
unfolding add_shared_file
same_hash = refl

opening_exchange_example :
    (s : Sender) × (sr_sender_init true 3 (some requester) (some text) (length text) true ≡ some s)
    × (on_datagram 3 fopen sendto malloc 5
          (record { source = requester; bytes = build_request 1 hash })
          idle
        ≡ (
          true,
          with_transfer
              (record idle {
                sent =
                    []
                    ++ (record {
                      via_link = false;
                      dest = requester;
                      bytes = build_start (length text);
                    }
                        ∷ []);
              })
              (sr_sender_send_window 5 (record { sender = s; stats = idle.stats; outbox = [] })).0,
        ))
    × (accept_start owner (record { source = owner; bytes = build_start (length text) })
        ≡ some (some (length text, chunks_of (length text))))
opening_exchange_example =
    opening_exchange 3 fopen sendto malloc 5 1 0 hash text requester owner idle (omega arith) refl
      (omega arith) found same_hash refl refl refl

-- The request, a round, the acknowledgement, and another round.
abbrev serving : List OwnerEvent
serving =
    arrived 5 (record { source = requester; bytes = build_request 1 hash })
    ∷ round 6 7
    ∷ arrived 8 (record { source = requester; bytes = build_ack_packet 0 })
    ∷ round 9 10
    ∷ []
