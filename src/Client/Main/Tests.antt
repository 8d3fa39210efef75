-- ===== src/Client/Main/Tests.antt =====
-- A client that offers one file: a request comes, then the acknowledgement, then the user types `quit`.
use cpe_464_program.Base.{
  ℕ, ◌+◌, ◌≡◌, refl, Bool, true, false, Option, none, some, List, ap, [], ◌∷◌, ◌++◌, arith,
  replicate, length,
}
use mathlib.Core.Option.{some-injective}
use cpe_464_program.Transfer.Packet.{build_ack_packet}
use cpe_464_program.Transfer.Sender.{Datagram, Addr}
use cpe_464_program.Shares.{no_shares, add_shared_file}
use cpe_464_program.Client.{Arrival, send_exact, send_rounds, tcp_send}
use cpe_464_program.Client.Dialogue.{quit}
use cpe_464_program.Client.Get.{build_request}
use cpe_464_program.Client.Owner.{OpenFile, drive_transfer}
use cpe_464_program.Client.Command.{word_quit, handle_command, parse_command}
use cpe_464_program.Client.Main.{Node, Poll, poll_failed, polled, main_loop}
use cpe_464_program.Client.Main.State.{no_shares-IsShares, add_shared_file-IsShares}
use cpe_464_program.Client.Main.Invariant.{IsLoopEnd, IsNode, main_loop-IsNode}

abbrev text : List ℕ
text = 7 ∷ 8 ∷ 9 ∷ []

abbrev digest : List ℕ → List ℕ
digest contents = replicate 32 1

abbrev requester : Addr
requester = record { ip = 16777343; port = 9000 }

abbrev comes : List ℕ → Option Arrival
comes bytes = some (record { source = requester; bytes = bytes })

abbrev node : Node
node = record {
  world = record {
    socket = record { incoming = []; recv_sizes = []; outgoing = []; send_sizes = some 4 ∷ [] };
    shares = add_shared_file no_shares 1 3 (digest text) (97 ∷ 98 ∷ []);
    arrivals = comes (build_request 1 (digest text)) ∷ comes (build_ack_packet 0) ∷ [];
    sent = [];
    saved = [];
  };
  transfer = none;
  stats = record { packets_sent = 0; packets_retransmitted = 0; acks_received = 0 };
  running = true;
}

node-IsNode : IsNode node
node-IsNode = record {
  world = record {
    shares = add_shared_file-IsShares no_shares 1 3 (digest text) (97 ∷ 98 ∷ []) no_shares-IsShares;
    sent = tt;
  };
  transfer = tt;
}

abbrev on_disk : OpenFile
on_disk = record { size = 3; contents = text }

abbrev fopen : List ℕ → Option OpenFile
fopen name = some on_disk

abbrev sendto : Datagram → Bool
sendto d = true

abbrev malloc : ℕ → Option (List ℕ)
malloc n = some (replicate n 0)

abbrev writable : List ℕ → Option (ℕ → ℕ)
writable filename = some (λ size. size)

abbrev read_file : List ℕ → Option (List ℕ)
read_file filename = some text

abbrev round_at : ℕ → Option (List ℕ) → Bool → Poll
round_at t line datagram = polled (record {
  line = line;
  datagram = datagram;
  opened_at = t;
  sent_at = t + 1;
  checked_at = t + 2;
})

abbrev quits : Poll
quits = round_at 15 (some (word_quit ++ (10 ∷ []))) false

abbrev session : List Poll
session = round_at 5 none true ∷ round_at 10 none true ∷ quits ∷ poll_failed ∷ []

abbrev facts : Option Node → Bool × ℕ × ℕ
facts none = (true, 0, 0)
facts (some n) = (n.running, length n.world.sent, length n.world.socket.outgoing)

-- The command alone: what is reported later is not looked at.
quit_ends :
    facts (
      main_loop 3 sendto malloc digest writable read_file fopen
        (quits ∷ round_at 20 none true ∷ [])
        node)
    ≡ (false, 0, 4)
unfolding main_loop drive_transfer handle_command parse_command quit send_exact send_rounds tcp_send
quit_ends = refl

main_loop-IsNode_example :
    IsLoopEnd session (main_loop 3 sendto malloc digest writable read_file fopen session node)
main_loop-IsNode_example =
    main_loop-IsNode 3 sendto malloc digest writable read_file fopen
      (λ name file opened. omega (arith, ap (λ f. f.size) (some-injective on_disk file opened)))
      session node node-IsNode
