-- ===== src/Transfer/Session/Invariant.antt =====
-- The invariant of a session: both ends of skeleton/selective_repeat.c and the datagrams between them.
use mathlib.Core.Path.{subst}
use native.Mathlib.Nat.{le_refl}
use cpe_464_program.Base.{
  ℕ, zero, suc, ◌+◌, ◌≤◌, ◌<◌, ◌≡◌, Bool, true, false, List, arith, length, take-all, All,
  Bool-cases, inl, inr,
}
use cpe_464_program.Transfer.Packet.Laws.{IsDataPacket, IsAckPacket, build_data_packet-IsDataPacket}
use cpe_464_program.Transfer.Window.{chunk, chunks_of, max_file_size, length-chunk}
use cpe_464_program.Transfer.Sender.{Addr, Datagram}
use cpe_464_program.Transfer.Sender.Invariant.{IsValid, data_packet}
use cpe_464_program.Transfer.Sender.Invariant
use cpe_464_program.Transfer.Sender.SendWindow.{chunk_datagrams}
use cpe_464_program.Transfer.Sender.Mark.{done}
use cpe_464_program.Transfer.Sender.Scan.{chosen_datagrams}
use cpe_464_program.Transfer.Receiver.Invariant.{IsReceiving, has}
use cpe_464_program.Transfer.Receiver.Invariant as Receiving
use cpe_464_program.Transfer.Session.{Session}

-- A datagram that carries a chunk of the file.
pub record CarriesChunk (file : List ℕ) (d : Datagram) : Type 0 where
  pub seq : ℕ
  pub inside : seq < chunks_of (length file)
  pub packet : IsDataPacket seq (chunk file seq) d.bytes

-- A datagram that acknowledges a packet which the receiver has.
pub record CarriesAck (has_seq : ℕ → Bool) (d : Datagram) : Type 0 where
  pub seq : ℕ
  pub held : has_seq seq ≡ true
  pub packet : IsAckPacket seq d.bytes

-- Both ends are valid, what is on the way is true, and, unless acknowledgements may be damaged, the
-- receiver has what the sender takes for acknowledged.
pub record IsGood (damaged : Bool) (file : List ℕ) (w : Session) : Type 0 where
  pub sending : IsValid w.tx.sender
  pub sender_settled : Invariant.IsSettled w.tx.sender
  pub same_file : w.tx.sender.file_data ≡ file
  pub receiving : IsReceiving file w.rx.receiver
  pub receiver_settled : Receiving.IsSettled w.rx.receiver
  pub chunks_out : All (CarriesChunk file) w.tx.outbox
  pub acks_out : All (CarriesAck (has w.rx.receiver)) w.rx.outbox
  pub agreed :
      damaged ≡ false
      → (seq : ℕ) → seq < w.tx.sender.next_seq
      → done w.tx.sender seq ≡ true
      → has w.rx.receiver seq ≡ true

pub data_packet-IsDataPacket :
    (file : List ℕ) (seq : ℕ)
    → length file ≤ max_file_size
    → seq < chunks_of (length file)
    → IsDataPacket seq (chunk file seq) (data_packet file seq)
data_packet-IsDataPacket file seq small h =
    subst (λ payload. IsDataPacket seq payload (data_packet file seq))
      (take-all _ (chunk file seq) (le_refl _))
      (build_data_packet-IsDataPacket seq (chunk file seq) (length (chunk file seq)) (omega arith)
        (omega (arith, length-chunk file seq)) (le_refl _))

module _ (via : Bool) (dest : Addr) (file : List ℕ) (small : length file ≤ max_file_size) where
  pub chunk_datagrams-CarriesChunk :
      (seq n : ℕ)
      → seq + n ≤ chunks_of (length file)
      → All (CarriesChunk file) (chunk_datagrams via dest file seq n)
  chunk_datagrams-CarriesChunk seq zero h = tt
  chunk_datagrams-CarriesChunk seq (suc n) h = (
    record {
      seq = seq;
      inside = omega arith;
      packet = data_packet-IsDataPacket file seq small (omega arith);
    },
    chunk_datagrams-CarriesChunk (seq + 1) n (omega arith),
  )

  pub chosen_datagrams-CarriesChunk :
      (p : ℕ → Bool) (seq n : ℕ)
      → seq + n ≤ chunks_of (length file)
      → All (CarriesChunk file) (chosen_datagrams via dest file p seq n)
  chosen_datagrams-CarriesChunk p seq zero h = tt
  chosen_datagrams-CarriesChunk p seq (suc n) h = elim (Bool-cases (p seq)) [
    | inl yes_due ↦ rw yes_due (
      record {
        seq = seq;
        inside = omega arith;
        packet = data_packet-IsDataPacket file seq small (omega arith);
      },
      chosen_datagrams-CarriesChunk p (seq + 1) n (omega arith),
    )
    | inr idle ↦ rw idle (chosen_datagrams-CarriesChunk p (seq + 1) n (omega arith))
  ]
