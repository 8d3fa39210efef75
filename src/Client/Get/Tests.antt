-- ===== src/Client/Get/Tests.antt =====
-- `get` of skeleton/client.c for a file of three bytes.
use mathlib.Core.Option.{some-injective}
use mathlib.Core.Path.{subst}
use cpe_464_program.Base.{
  ℕ, ◌+◌, ◌≡◌, refl, sym, ◌∙◌, Bool, true, false, Option, some, List, [], ◌∷◌, ◌++◌, arith, length,
  take, take-all, All, replicate, ◌⊎◌,
}
use cpe_464_program.Protocol.Udp.{chunk_size, sizeof_udp_header}
use cpe_464_program.Transfer.Packet.{build_data_packet}
use cpe_464_program.Transfer.Packet.Laws.{IsDataPacket, build_data_packet-IsDataPacket}
use cpe_464_program.Transfer.Window.{chunk}
use cpe_464_program.Transfer.Sender.{Addr, Datagram}
use cpe_464_program.Transfer.Receiver.{Rx, init_receiver, sr_receiver_init, sr_receiver_get_file}
use cpe_464_program.Transfer.Receiver.Invariant.{
  IsReceiving, IsSettled, sr_receiver_init-IsReceiving,
}
use cpe_464_program.Client.{World, Arrival}
use cpe_464_program.Client.Dialogue.Tests.{
  text, digest, located_at, asking_with, located, located_hash, located_peer,
}
use cpe_464_program.Client.Get.{same_addr, peer_of, receive_loop, save, get}
use cpe_464_program.Client.Get.Loop.{IsHonest, carries}
use cpe_464_program.Client.Get.Save.{save_verifies}
use cpe_464_program.Client.Get.Opening.{same_addr_refl}
use cpe_464_program.Client.Get.Feed.{IsFeed, all_sent, between, brings, Ends, receive_loop-Ends}
use cpe_464_program.Client.Get.Whole.{get_saves, get_saves_or_not}
use cpe_464_program.Client.Owner.{build_start}

abbrev sendto : Datagram → Bool
sendto d = true

abbrev malloc : ℕ → Option (List ℕ)
malloc n = some (replicate n 0)

abbrev writable : List ℕ → Option (ℕ → ℕ)
writable filename = some (λ size. size)

abbrev data_packet : List ℕ
data_packet = build_data_packet 0 text 3

packet : IsDataPacket 0 (chunk text 0) (take (sizeof_udp_header + chunk_size) data_packet)
packet =
    let p = build_data_packet-IsDataPacket 0 text 3 (omega arith) (omega arith) (omega arith) in
    subst (IsDataPacket 0 text) (sym (take-all 1040 data_packet (omega (arith, p.size)))) p

clash : (b : Bool) → b ≡ true → b ≡ false → ⊥
clash b same other = cc

-- A stranger's datagram comes before the packet of the file, and the packet comes twice.
module _ (peer stranger : Addr) where
  abbrev arrivals : List (Option Arrival)
  arrivals =
      some (record { source = stranger; bytes = 1 ∷ 2 ∷ [] })
      ∷ some (record { source = peer; bytes = data_packet })
      ∷ some (record { source = peer; bytes = data_packet })
      ∷ []

  feed : same_addr stranger peer ≡ false → IsFeed text peer 0 arrivals
  feed other =
      between (record { source = stranger; bytes = 1 ∷ 2 ∷ [] })
        (λ same. absurd (clash _ same other))
        (brings (record { source = peer; bytes = data_packet }) (same_addr_refl peer) (omega arith)
          packet (all_sent (omega arith)))

  honest : same_addr stranger peer ≡ false → All (IsHonest text peer) arrivals
  honest other = (
    λ same. absurd (clash _ same other),
    (λ same. carries 0 (omega arith) packet, (λ same. carries 0 (omega arith) packet, tt)),
  )

abbrev home : Addr
home = record { ip = 16777343; port = 8080 }

abbrev away : Addr
away = record { ip = 16777343; port = 9 }

abbrev fresh : Rx
fresh = record { receiver = init_receiver 4 home 3 1 (0 ∷ 0 ∷ 0 ∷ []); outbox = [] }

fresh-IsReceiving : IsReceiving text fresh.receiver × IsSettled fresh.receiver
unfolding sr_receiver_init
fresh-IsReceiving =
    let (r, made, receiving, settled, base0) =
      sr_receiver_init-IsReceiving malloc 4 home text (0 ∷ 0 ∷ 0 ∷ []) (omega arith) refl refl in
    let same : r ≡ fresh.receiver = some-injective _ _ (sym made ∙ refl) in
    (subst (IsReceiving text) same receiving, subst IsSettled same settled)

receive_loop-Ends_example : Ends text (receive_loop home (arrivals home away) fresh)
receive_loop-Ends_example =
    receive_loop-Ends text home 0 (arrivals home away) fresh fresh-IsReceiving.0 fresh-IsReceiving.1
      (omega arith) (feed home away refl)

abbrev owner : Addr
owner = peer_of located_at

abbrev getting : World
getting =
    asking_with
      (some (record { source = owner; bytes = build_start (length text) }) ∷ arrivals owner away)

not_away : same_addr away owner ≡ false
not_away = ground (arith, located_peer.1)

get_saves_example :
    (after : World) × (get 4 sendto malloc digest writable 1 getting ≡ some (some tt, after))
    × (after.saved ≡ [] ++ (record { name = located_at.filename; contents = text } ∷ []))
get_saves_example =
    get_saves 4 sendto malloc digest writable 1 getting located_at text (0 ∷ 0 ∷ 0 ∷ [])
      (arrivals owner away) (located _) (omega arith) refl refl refl refl (feed owner away not_away)
      (sym located_hash) (λ size. size) refl refl

get_saves_or_not_example :
    (res : Option (Unit {0})) × (after : World) × (get 4 sendto malloc digest writable 1 getting
      ≡ some (res, after))
    × ((after.saved ≡ [])
        ⊎ ((fwrite : ℕ → ℕ) × (writable located_at.filename ≡ some fwrite)
            × (res ≡ some tt)
            × (after.saved
                ≡ []
                  ++ (record { name = located_at.filename; contents = take (fwrite 3) text }
                      ∷ []))))
get_saves_or_not_example =
    get_saves_or_not 4 sendto malloc digest writable 1 getting located_at text (0 ∷ 0 ∷ 0 ∷ [])
      (arrivals owner away) (located _) (omega arith) refl refl refl refl
      (honest owner away not_away) (sym located_hash)

save_verifies_example :
    ((save digest writable located_at fresh.receiver getting).1 ≡ getting)
    ⊎ ((fwrite : ℕ → ℕ) × (writable located_at.filename ≡ some fwrite)
        × (digest (take 3 (0 ∷ 0 ∷ 0 ∷ [])) ≡ located_at.hash)
        × (save digest writable located_at fresh.receiver getting ≡ (
          some tt,
          record getting {
            saved =
                []
                ++ (record {
                  name = located_at.filename;
                  contents = take (fwrite 3) (take 3 (0 ∷ 0 ∷ 0 ∷ []));
                }
                    ∷ []);
          },
        )))
unfolding sr_receiver_get_file
save_verifies_example = save_verifies digest writable located_at fresh.receiver getting
