-- ===== src/Transfer/Receiver/Invariant.antt =====
-- The invariant of a receiver between two packets, and `sr_receiver_init` of skeleton/selective_repeat.c.
use Prim.Native.Nat.{min}
use cpe_464_program.Base.{
  ℕ, ◌+◌, ◌*◌, ◌%◌, ◌≤◌, ◌<◌, ◌≡◌, refl, sym, ◌∙◌, Bool, true, false, Option, some, List, arith,
  length, take, get_or-replicate, replicate, ap, ltb, ◌&&◌, ◌||◌,
}
use cpe_464_program.Protocol.Udp.{chunk_size, window_size}
use cpe_464_program.Transfer.Window.{count_from, chunk, chunks_of, max_file_size}
use cpe_464_program.Transfer.Sender.{Addr}
use cpe_464_program.Transfer.Receiver.{
  Receiver, RecvEntry, slot, blank_entry, init_receiver, sr_receiver_init,
}

abbrev pub received_at : List RecvEntry → ℕ → Bool
received_at window seq = (slot window seq).received

-- An entry holds a chunk of the file.
pub record Holds (file : List ℕ) (seq : ℕ) (entry : RecvEntry) : Type 0 where
  pub numbered : entry.seq_num ≡ seq
  pub sized : entry.data_len ≡ length (chunk file seq)
  pub buffered : take (length (chunk file seq)) entry.bytes ≡ chunk file seq

-- How many bytes the chunks below `seq` make up.
abbrev pub prefix : List ℕ → ℕ → ℕ
prefix file seq = min (seq * chunk_size) (length file)

-- The receiver is on the way to the file: what it holds are the file's chunks, and what it has
-- delivered is the file's beginning.
pub record IsReceiving (file : List ℕ) (r : Receiver) : Type 0 where
  pub small : length file ≤ max_file_size
  pub size : r.file_size ≡ length file
  pub chunks : r.num_chunks ≡ chunks_of (length file)
  pub buffer : length r.file_buffer ≡ length file
  pub slots : length r.window ≡ window_size
  pub arrays : (seq : ℕ) → length (slot r.window seq).bytes ≡ chunk_size
  pub bounded : r.base ≤ r.num_chunks
  pub held :
      (seq : ℕ)
      → r.base ≤ seq
      → seq < r.base + window_size
      → received_at r.window seq ≡ true
      → (seq < r.num_chunks) × Holds file seq (slot r.window seq)
  pub delivered : take (prefix file r.base) r.file_buffer ≡ take (prefix file r.base) file
  pub counted : r.chunks_received ≡ r.base + count_from (received_at r.window) r.base window_size

-- The packet at the base is missing: all that could be delivered was.
abbrev pub IsSettled : Receiver → Type 0
IsSettled r = r.base < r.num_chunks → received_at r.window r.base ≡ false

-- The packets that the receiver has, delivered or in its window.
abbrev pub has : Receiver → ℕ → Bool
has r seq = ltb seq r.base || (ltb seq (r.base + window_size) && received_at r.window seq)

count_from-none : (p : ℕ → Bool) (lo n : ℕ) → ((k : ℕ) → p k ≡ false) → count_from p lo n ≡ 0
unfolding count_from
count_from-none p lo ℕ.zero h = refl
count_from-none p lo (ℕ.suc n) h = ground (arith, h lo, count_from-none p (lo + 1) n h)

pub blank_slot :
    (seq : ℕ)
    → (received_at (replicate window_size blank_entry) seq ≡ false)
      × (length (slot (replicate window_size blank_entry) seq).bytes ≡ chunk_size)
unfolding blank_entry
blank_slot seq =
    let e = get_or-replicate window_size (seq % window_size) blank_entry in
    (ap (λ r. r.received) e, ap (λ r. length r.bytes) e)

-- With memory of the file's size, `sr_receiver_init` starts to receive the file.
pub sr_receiver_init-IsReceiving :
    (malloc : ℕ → Option (List ℕ)) (fd : ℕ) (peer : Addr) (file memory : List ℕ)
    → length file ≤ max_file_size
    → malloc (length file) ≡ some memory
    → length memory ≡ length file
    → (r : Receiver) × (sr_receiver_init malloc true fd
          (some peer)
          (length file)
          (chunks_of (length file))
          true
        ≡ some r)
      × IsReceiving file r
      × IsSettled r
      × (r.base ≡ 0)
unfolding sr_receiver_init
sr_receiver_init-IsReceiving malloc fd peer file memory small got fits = (
  init_receiver fd peer (length file) (chunks_of (length file)) memory,
  rw (got, sr_receiver_init),
  record {
    small = small;
    size = refl;
    chunks = refl;
    buffer = fits;
    slots = refl;
    arrays = λ seq. (blank_slot seq).1;
    bounded = omega arith;
    held = λ seq l u there. absurd (ground (arith, none_yet seq));
    delivered = ap (λ k. take k memory) start ∙ sym (ap (λ k. take k file) start);
    counted = omega (
      arith,
      count_from-none (received_at (replicate window_size blank_entry)) 0 window_size none_yet,
    );
  },
  (λ more. none_yet 0),
  refl,
)
  where
    start : prefix file 0 ≡ 0
    start = omega arith

    none_yet : (seq : ℕ) → received_at (replicate window_size blank_entry) seq ≡ false
    none_yet seq = (blank_slot seq).0
