-- ===== src/Client/Get/Loop.antt =====
-- The loop of the transfer in `get` of skeleton/client.c.
use native.Mathlib.Decide.{dec_lt}
use native.Mathlib.Nat.{le_refl}
use cpe_464_program.Transfer.Receiver.Complete.{sr_receiver_get_file_complete}
use cpe_464_program.Base.{
  ℕ, ◌+◌, ◌≤◌, ◌<◌, ◌≡◌, true, false, Option, none, some, List, [], ◌∷◌, arith, length, take,
  Bool-cases, inl, inr, All,
}
use cpe_464_program.Protocol.Udp.{chunk_size, window_size, sizeof_udp_header}
use cpe_464_program.Transfer.Window.{chunk, chunks_of}
use cpe_464_program.Transfer.Sender.{Addr}
use cpe_464_program.Transfer.Packet.Laws.{IsDataPacket}
use cpe_464_program.Transfer.Receiver.{
  Rx, is_intact, sr_receiver_handle_data, sr_receiver_is_complete, sr_receiver_get_file,
}
use cpe_464_program.Transfer.Receiver.Invariant.{IsReceiving, IsSettled}
use cpe_464_program.Transfer.Receiver.Handle.{
  sr_receiver_handle_data-Takes, sr_receiver_handle_data_drops,
}
use cpe_464_program.Client.{Arrival}
use cpe_464_program.Client.Get.{same_addr, Transfer, faulted, failed, complete, receive_loop}

-- What the peer of a transfer sends: packets of the file, and packets that were damaged on the way.
pub data FromPeer (file bytes : List ℕ) : Type 0 where
  carries :
      (seq : ℕ)
      → seq < chunks_of (length file)
      → IsDataPacket seq (chunk file seq) bytes
      → FromPeer file bytes
  damaged : is_intact bytes ≡ false → FromPeer file bytes

-- Nothing is asked of packets from elsewhere.
abbrev pub IsHonest : List ℕ → Addr → Option Arrival → Type 0
IsHonest file peer none = Unit
IsHonest file peer (some a) =
    same_addr a.source peer ≡ true → FromPeer file (take (sizeof_udp_header + chunk_size) a.bytes)

-- The loop ends without a copy outside an array, and if it ends with a complete receiver, the file is
-- there.
abbrev pub IsReceived : List ℕ → Transfer → Type 0
IsReceived file faulted = ⊥
IsReceived file (failed rx rest) = Unit
IsReceived file (complete rx rest) = sr_receiver_get_file rx.receiver ≡ (file, length file)

pub record Continues (file : List ℕ) (rx : Rx) (bytes : List ℕ) : Type 0 where
  pub after : Rx
  pub handled : sr_receiver_handle_data rx bytes ≡ some after
  pub receiving : IsReceiving file after.receiver
  pub settled : IsSettled after.receiver
  pub forward : rx.receiver.base ≤ after.receiver.base

pub handle_FromPeer :
    (file : List ℕ) (rx : Rx) (bytes : List ℕ)
    → IsReceiving file rx.receiver
    → IsSettled rx.receiver
    → FromPeer file bytes
    → Continues file rx bytes
handle_FromPeer file rx bytes v settled (damaged h) = record {
  after = rx;
  handled = sr_receiver_handle_data_drops rx bytes h;
  receiving = v;
  settled = settled;
  forward = le_refl _;
}
handle_FromPeer file rx bytes v settled (carries seq inside packet) =
    let (near, far) = sr_receiver_handle_data-Takes file rx seq bytes v settled inside packet in
    elim (dec_lt seq (rx.receiver.base + window_size)) [
      | yes u ↦
          let (out, run, t) = near u in
          record {
            after = out;
            handled = run;
            receiving = t.valid;
            settled = t.settled;
            forward = t.forward;
          }
      | no n ↦ record {
        after = rx;
        handled = far (omega arith);
        receiving = v;
        settled = settled;
        forward = le_refl _;
      }
    ]

-- A receiver of a file runs the loop of `get` over any packets: those that come from the peer's address
-- carry chunks of the file, in any order and number, or fail the receiver's tests, and those from other
-- addresses are anything. No copy leaves its array, and where the loop ends with a complete receiver,
-- its buffer is exactly the file.
pub receive_loop-IsReceived :
    (file : List ℕ) (peer : Addr) (arrivals : List (Option Arrival)) (rx : Rx)
    → IsReceiving file rx.receiver
    → IsSettled rx.receiver
    → All (IsHonest file peer) arrivals
    → IsReceived file (receive_loop peer arrivals rx)
unfolding receive_loop
receive_loop-IsReceived file peer [] rx v settled honest =
    elim (Bool-cases (sr_receiver_is_complete rx.receiver)) [
      | inl done ↦ rw (done, receive_loop) (sr_receiver_get_file_complete file rx.receiver v done)
      | inr more ↦ rw (more, receive_loop) tt
    ]
receive_loop-IsReceived file peer (none ∷ rest) rx v settled honest =
    elim (Bool-cases (sr_receiver_is_complete rx.receiver)) [
      | inl done ↦ rw (done, receive_loop) (sr_receiver_get_file_complete file rx.receiver v done)
      | inr more ↦ rw (more, receive_loop) tt
    ]
receive_loop-IsReceived file peer (some a ∷ rest) rx v settled honest =
    elim (Bool-cases (sr_receiver_is_complete rx.receiver)) [
      | inl done ↦ rw (done, receive_loop) (sr_receiver_get_file_complete file rx.receiver v done)
      | inr more ↦ elim (Bool-cases (same_addr a.source peer)) [
        | inr stranger ↦
            rw (more, receive_loop, stranger)
              (receive_loop-IsReceived file peer rest rx v settled honest.1)
        | inl from_peer ↦
            let c =
              handle_FromPeer file rx (take (sizeof_udp_header + chunk_size) a.bytes) v settled
                (honest.0 from_peer) in
            rw (more, receive_loop, from_peer, c.handled)
              (receive_loop-IsReceived file peer rest c.after c.receiving c.settled honest.1)
      ]
    ]
