-- ===== src/Transfer/Sender/Invariant.antt =====
-- The invariant of a sender between two calls, and `sr_sender_init` of skeleton/selective_repeat.c.
use cpe_464_program.Base.{
  ℕ, ◌+◌, ◌-◌, ◌*◌, ◌%◌, ◌≤◌, ◌<◌, ◌≡◌, refl, sym, Bool, true, false, some, List, arith, length,
  take, u32, get_or-replicate,
}
use Prim.Native.Nat.{min}
use cpe_464_program.Protocol.Udp.{chunk_size, window_size}
use cpe_464_program.Transfer.Packet.{build_data_packet}
use cpe_464_program.Transfer.Window.{count_from, chunk, chunks_of, max_file_size, length-chunk}
use cpe_464_program.Transfer.Sender.{
  Sender, SendEntry, empty, is_empty, is_acked, slot, blank_entry, chunk_len, sr_sender_init,
  init_sender, Addr,
}

-- An entry holds a chunk: it is occupied, with the number, the length and the buffered bytes.
pub record Holds (file : List ℕ) (seq : ℕ) (entry : SendEntry) : Type 0 where
  pub occupied : is_empty entry.state ≡ false
  pub numbered : entry.seq_num ≡ seq
  pub sized : entry.data_len ≡ length (chunk file seq)
  pub buffered : take (length (chunk file seq)) entry.bytes ≡ chunk file seq

abbrev pub acked_at : List SendEntry → ℕ → Bool
acked_at window seq = is_acked (slot window seq).state

-- The numbers from `base` to `next_seq` are in flight, and the rest of the window is free.
pub record IsValid (s : Sender) : Type 0 where
  pub small : s.file_size ≤ max_file_size
  pub file : length s.file_data ≡ s.file_size
  pub chunks : s.num_chunks ≡ chunks_of s.file_size
  pub slots : length s.window ≡ window_size
  pub sent : s.base ≤ s.next_seq
  pub bounded : s.next_seq ≤ s.num_chunks
  pub fits : s.next_seq ≤ s.base + window_size
  pub arrays : (seq : ℕ) → length (slot s.window seq).bytes ≡ chunk_size
  pub in_flight :
      (seq : ℕ) → s.base ≤ seq → seq < s.next_seq → Holds s.file_data seq (slot s.window seq)
  pub free :
      (seq : ℕ) → s.next_seq ≤ seq → seq < s.base + window_size → (slot s.window seq).state ≡ empty
  pub counted :
      s.chunks_acked ≡ s.base + count_from (acked_at s.window) s.base (s.next_seq - s.base)

-- The packet that carries a chunk of the file.
abbrev pub data_packet : List ℕ → ℕ → List ℕ
data_packet file seq = build_data_packet seq (chunk file seq) (length (chunk file seq))

-- The base is not acknowledged: the window has slid as far as it can.
abbrev pub IsSettled : Sender → Type 0
IsSettled s = s.base < s.next_seq → acked_at s.window s.base ≡ false

pub init_sender-IsValid :
    (fd : ℕ) (peer : Addr) (file : List ℕ)
    → length file ≤ max_file_size
    → IsValid (init_sender fd peer file (length file))
unfolding blank_entry count_from
init_sender-IsValid fd peer file h = record {
  small = h;
  file = refl;
  chunks = omega arith;
  slots = refl;
  sent = omega arith;
  bounded = omega arith;
  fits = omega arith;
  arrays = λ seq. rw (get_or-replicate window_size (seq % window_size) blank_entry);
  in_flight = λ seq l u. absurd (omega arith);
  free = λ seq l u. rw (get_or-replicate window_size (seq % window_size) blank_entry);
  counted = refl;
}

-- `sr_sender_init` accepts a file of up to `max_file_size` bytes, and starts a valid transfer of it.
pub sr_sender_init-IsValid :
    (fd : ℕ) (peer : Addr) (file : List ℕ)
    → length file ≤ max_file_size
    → (s : Sender) × (sr_sender_init true fd (some peer) (some file) (length file) true ≡ some s)
      × IsValid s
      × IsSettled s
      × (s.file_data ≡ file)
      × (s.base ≡ 0)
      × (s.next_seq ≡ 0)
unfolding sr_sender_init
sr_sender_init-IsValid fd peer file h = (
  init_sender fd peer file (length file),
  refl,
  init_sender-IsValid fd peer file h,
  (λ sent. absurd (omega arith)),
  refl,
  refl,
  refl,
)

chunk_len-eq-min :
    (offset size : ℕ)
    → size ≤ max_file_size
    → offset < size
    → chunk_len offset size ≡ min chunk_size (size - offset)
unfolding chunk_len
chunk_len-eq-min offset size small h = ground arith

pub u32_offset :
    (size seq : ℕ)
    → size ≤ max_file_size
    → seq < chunks_of size
    → (u32 (seq * chunk_size) ≡ seq * chunk_size) × (seq * chunk_size < size)
u32_offset size seq small h = omega arith

-- The code's length of a chunk is the number of bytes that the chunk has.
pub chunk_len-eq :
    (file : List ℕ) (seq : ℕ)
    → length file ≤ max_file_size
    → seq < chunks_of (length file)
    → chunk_len (u32 (seq * chunk_size)) (length file) ≡ length (chunk file seq)
chunk_len-eq file seq small h =
    let (exact, inside) = u32_offset (length file) seq small h in
    rw (exact, chunk_len-eq-min (seq * chunk_size) (length file) small inside)
      (sym (length-chunk file seq))
