-- ===== src/Client/Get/Feed.antt =====
-- The loop of `get` in skeleton/client.c: arrivals on which it ends.
use native.Mathlib.Decide.{dec_lt}
use mathlib.Core.Path.{subst}
use cpe_464_program.Base.{
  ℕ, ◌+◌, ◌≤◌, ◌<◌, ◌≡◌, refl, ◌∙◌, true, Option, some, List, [], ◌∷◌, arith, length, take,
  Bool-cases, inl, inr,
}
use cpe_464_program.Protocol.Udp.{chunk_size, sizeof_udp_header}
use cpe_464_program.Transfer.Packet.Laws.{IsDataPacket}
use cpe_464_program.Transfer.Window.{chunk, chunks_of}
use cpe_464_program.Transfer.Sender.{Addr}
use cpe_464_program.Transfer.Receiver.{Receiver, Rx, sr_receiver_is_complete, sr_receiver_get_file}
use cpe_464_program.Transfer.Receiver.Invariant.{IsReceiving, IsSettled, has}
use cpe_464_program.Transfer.Receiver.Handle.{Takes, sr_receiver_handle_data-Takes}
use cpe_464_program.Transfer.Receiver.Complete.{sr_receiver_get_file_complete}
use cpe_464_program.Client.{Arrival}
use cpe_464_program.Client.Get.{same_addr, Transfer, complete, receive_loop}
use cpe_464_program.Client.Get.Loop.{IsHonest, handle_FromPeer}

-- Arrivals among which the packets of all chunks from `from` on come in this order, each at least once.
-- What comes between them is anything from elsewhere, and damaged packets and packets of any chunks
-- from the peer.
pub data IsFeed (file : List ℕ) (peer : Addr) : ℕ → List (Option Arrival) → Type 0 where
  all_sent :
      {from : ℕ} {arrivals : List (Option Arrival)}
      → chunks_of (length file) ≤ from
      → IsFeed file peer from arrivals
  between :
      {from : ℕ} {arrivals : List (Option Arrival)} (a : Arrival)
      → IsHonest file peer (some a)
      → IsFeed file peer from arrivals
      → IsFeed file peer from (some a ∷ arrivals)
  brings :
      {from : ℕ} {arrivals : List (Option Arrival)} (a : Arrival)
      → same_addr a.source peer ≡ true
      → from < chunks_of (length file)
      → IsDataPacket from (chunk file from) (take (sizeof_udp_header + chunk_size) a.bytes)
      → IsFeed file peer (from + 1) arrivals
      → IsFeed file peer from (some a ∷ arrivals)

-- The loop has ended with the whole file.
pub record Ends (file : List ℕ) (out : Transfer) : Type 0 where
  pub rx : Rx
  pub rest : List (Option Arrival)
  pub ended : out ≡ complete rx rest
  pub received : sr_receiver_get_file rx.receiver ≡ (file, length file)

-- What a receiver has is behind its base, or it is not the number at its base.
has_base : (r : Receiver) → IsSettled r → r.base < r.num_chunks → has r r.base ≡ true → ⊥
has_base r settled more there = ground (arith, settled more)

-- The packet that the receiver waits for moves its window on.
past :
    (file : List ℕ) (rx out : Rx) (from : ℕ)
    → from ≤ rx.receiver.base
    → from < chunks_of (length file)
    → Takes file from rx out
    → from < out.receiver.base
past file rx out from reached inside t = elim (dec_lt from out.receiver.base) [
  | yes passed ↦ passed
  | no stuck ↦
      let at : from ≡ out.receiver.base = omega (arith, t.forward) in
      let there : has out.receiver from ≡ true = t.exactly from ∙ ground arith in
      absurd (
        has_base out.receiver t.settled (omega (arith, t.valid.chunks))
          (subst (λ b. has out.receiver b ≡ true) at there))
]

over_complete : (r : Receiver) → r.num_chunks ≤ r.base → sr_receiver_is_complete r ≡ true
unfolding sr_receiver_is_complete
over_complete r h = ground (arith, h)

finished :
    (file : List ℕ) (peer : Addr) (arrivals : List (Option Arrival)) (rx : Rx)
    → IsReceiving file rx.receiver
    → sr_receiver_is_complete rx.receiver ≡ true
    → Ends file (receive_loop peer arrivals rx)
unfolding receive_loop
finished file peer [] rx v done = record {
  rx = rx;
  rest = [];
  ended = rw (done, receive_loop) refl;
  received = sr_receiver_get_file_complete file rx.receiver v done;
}
finished file peer (next ∷ rest) rx v done = record {
  rx = rx;
  rest = next ∷ rest;
  ended = rw (done, receive_loop) refl;
  received = sr_receiver_get_file_complete file rx.receiver v done;
}

-- A receiver of a file that has all chunks before `from` runs the loop over arrivals that bring the
-- chunks from `from` on in their order, with anything from elsewhere, damaged packets, repeated packets
-- and packets of other chunks between them: the loop ends with a complete receiver, whose buffer
-- is exactly the file.
pub receive_loop-Ends :
    (file : List ℕ) (peer : Addr) (from : ℕ) (arrivals : List (Option Arrival)) (rx : Rx)
    → IsReceiving file rx.receiver
    → IsSettled rx.receiver
    → from ≤ rx.receiver.base
    → IsFeed file peer from arrivals
    → Ends file (receive_loop peer arrivals rx)
unfolding receive_loop
receive_loop-Ends file peer from arrivals rx v settled reached (all_sent passed) =
    finished file peer arrivals rx v
      (over_complete rx.receiver (omega (arith, v.chunks, passed, reached)))
receive_loop-Ends file peer from _ rx v settled reached
      (between {arrivals = arrivals} a honest feed) =
    elim (Bool-cases (sr_receiver_is_complete rx.receiver)) [
      | inl done ↦ finished file peer (some a ∷ arrivals) rx v done
      | inr more ↦ elim (Bool-cases (same_addr a.source peer)) [
        | inr stranger ↦
            rw (more, receive_loop, stranger)
              (receive_loop-Ends file peer from arrivals rx v settled reached feed)
        | inl from_peer ↦
            let c =
              handle_FromPeer file rx (take (sizeof_udp_header + chunk_size) a.bytes) v settled
                (honest from_peer) in
            rw (more, receive_loop, from_peer, c.handled)
              (receive_loop-Ends file peer from arrivals c.after c.receiving c.settled
                (omega (arith, reached, c.forward)) feed)
      ]
    ]
receive_loop-Ends file peer from _ rx v settled reached
      (brings {arrivals = arrivals} a from_peer inside packet feed) =
    elim (Bool-cases (sr_receiver_is_complete rx.receiver)) [
      | inl done ↦ finished file peer (some a ∷ arrivals) rx v done
      | inr more ↦
          let taken =
            (sr_receiver_handle_data-Takes file rx from
              (take (sizeof_udp_header + chunk_size) a.bytes) v settled inside packet).0 in
          let (out, run, t) = taken (omega arith) in
          rw (more, receive_loop, from_peer, run)
            (receive_loop-Ends file peer (from + 1) arrivals out t.valid t.settled
              (omega (arith, past file rx out from reached inside t)) feed)
    ]
