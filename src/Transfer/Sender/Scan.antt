-- ===== src/Transfer/Sender/Scan.antt =====
-- What a scan of `sr_sender_check_timeouts` does, and its rounds that send nothing.
use mathlib.Core.List.{append-nil}
use native.Mathlib.Decide.{ℕ_discrete}
use native.Mathlib.Nat.{add-zero}
use mathlib.Core.Path.{subst}
use cpe_464_program.Base.{
  ℕ, zero, suc, ◌+◌, ◌≤◌, ◌<◌, ◌≡◌, refl, sym, ap, Bool, true, false, Option, none, some, List, [],
  ◌∷◌, ◌++◌, arith, if◌then◌else◌, inl, inr, ◌⊎◌,
}
use cpe_464_program.Transfer.Window.{count_from}
use cpe_464_program.Transfer.Sender.{Sender, SendEntry, Addr, Tx, Datagram, slot, timed_out}
use cpe_464_program.Transfer.Sender.Invariant.{IsValid, data_packet}
use cpe_464_program.Transfer.Sender.SendWindow.{SameTransfer}

module _ (via : Bool) (dest : Addr) (file : List ℕ) (p : ℕ → Bool) where
  -- The datagrams of those of `n` chunks from `seq` on that pass a test.
  abbrev pub chosen_datagrams : ℕ → ℕ → List Datagram
  chosen_datagrams seq zero = []
  chosen_datagrams seq (suc n) =
      let rest = chosen_datagrams (seq + 1) n in
      if p seq
      then record { via_link = via; dest = dest; bytes = data_packet file seq } ∷ rest
      else rest

pub chosen_datagrams_ext :
    (via : Bool) (dest : Addr) (file : List ℕ) (p q : ℕ → Bool) (lo n : ℕ)
    → ((k : ℕ) → lo ≤ k → k < lo + n → p k ≡ q k)
    → chosen_datagrams via dest file p lo n ≡ chosen_datagrams via dest file q lo n
chosen_datagrams_ext via dest file p q lo zero h = refl
chosen_datagrams_ext via dest file p q lo (suc n) h = ground (
  arith,
  h lo,
  chosen_datagrams_ext via dest file p q (lo + 1) n (λ k l u. h k (omega arith) (omega arith)),
)

abbrev pub due_datagrams : ℕ → Sender → ℕ → ℕ → List Datagram
due_datagrams now s = chosen_datagrams s.lossy_link s.peer_addr s.file_data (timed_out now s)

-- A packet that timed out and may not be sent again.
pub record IsExhausted (now : ℕ) (s : Sender) (seq : ℕ) : Type 0 where
  pub due : timed_out now s seq ≡ true
  pub spent : 10 ≤ (slot s.window seq).retries

-- The entry of a packet that is sent again.
abbrev pub resent_entry : ℕ → SendEntry → SendEntry
resent_entry now entry = record entry { send_time_ms = now; retries = entry.retries + 1 }

-- The outcome of a scan of `n` packets from `lo` on, of which it looked at `m`.
pub record Scans (now lo n : ℕ) (tx out : Tx) (found : ℕ) (result : Option ℕ) : Type 0 where
  pub valid : IsValid out.sender
  pub same : SameTransfer tx.sender out.sender
  pub base : out.sender.base ≡ tx.sender.base
  pub next_seq : out.sender.next_seq ≡ tx.sender.next_seq
  pub chunks_acked : out.sender.chunks_acked ≡ tx.sender.chunks_acked
  pub states : (seq : ℕ) → (slot out.sender.window seq).state ≡ (slot tx.sender.window seq).state
  pub looked : ℕ
  pub resent :
      (seq : ℕ)
      → lo ≤ seq
      → seq < lo + looked
      → timed_out now tx.sender seq ≡ true
      → slot out.sender.window seq ≡ resent_entry now (slot tx.sender.window seq)
  pub untouched :
      (seq : ℕ)
      → tx.sender.base ≤ seq
      → seq < tx.sender.next_seq
      → (lo ≤ seq → seq < lo + looked → timed_out now tx.sender seq ≡ false)
      → slot out.sender.window seq ≡ slot tx.sender.window seq
  pub outbox : out.outbox ≡ tx.outbox ++ due_datagrams now tx.sender lo looked
  pub allowed :
      (seq : ℕ)
      → lo ≤ seq
      → seq < lo + looked
      → timed_out now tx.sender seq ≡ true
      → (slot tx.sender.window seq).retries < 10
  pub within : looked ≤ n
  pub ends :
      ((looked ≡ n) × (result ≡ some (found + count_from (timed_out now tx.sender) lo n)))
      ⊎ ((looked < n) × (result ≡ none) × IsExhausted now tx.sender (lo + looked))

pub nothing_left :
    (now lo found : ℕ) (tx : Tx) → IsValid tx.sender → Scans now lo 0 tx tx found (some found)
unfolding count_from
nothing_left now lo found tx v = record {
  valid = v;
  same = record {
    file_data = refl;
    file_size = refl;
    num_chunks = refl;
    peer_addr = refl;
    lossy_link = refl;
  };
  base = refl;
  next_seq = refl;
  chunks_acked = refl;
  states = λ seq. refl;
  looked = 0;
  resent = λ seq l u d. absurd (omega arith);
  untouched = λ seq l u idle. refl;
  outbox = sym (append-nil tx.outbox);
  allowed = λ seq l u d. absurd (omega arith);
  within = omega arith;
  ends = inl (refl, ap some (omega arith));
}

pub gives_up :
    (now lo n found : ℕ) (tx : Tx)
    → IsValid tx.sender
    → IsExhausted now tx.sender lo
    → Scans now lo (suc n) tx tx found none
gives_up now lo n found tx v spent = record {
  valid = v;
  same = record {
    file_data = refl;
    file_size = refl;
    num_chunks = refl;
    peer_addr = refl;
    lossy_link = refl;
  };
  base = refl;
  next_seq = refl;
  chunks_acked = refl;
  states = λ seq. refl;
  looked = 0;
  resent = λ seq l u d. absurd (omega arith);
  untouched = λ seq l u idle. refl;
  outbox = sym (append-nil tx.outbox);
  allowed = λ seq l u d. absurd (omega arith);
  within = omega arith;
  ends = inr (omega arith, refl, rw (add-zero lo) spent);
}

module _ (now lo n : ℕ) {tx out : Tx} {found : ℕ} {result : Option ℕ} where
  pub passes_over :
      timed_out now tx.sender lo ≡ false
      → Scans now (lo + 1) n tx out found result
      → Scans now lo (suc n) tx out found result
  unfolding count_from
  passes_over idle rest = record {
    valid = rest.valid;
    same = rest.same;
    base = rest.base;
    next_seq = rest.next_seq;
    chunks_acked = rest.chunks_acked;
    states = rest.states;
    looked = suc rest.looked;
    resent = λ seq l u d. elim (ℕ_discrete seq lo) [
      | yes e ↦ absurd (ground (arith, idle, rw e at d))
      | no ne ↦ rest.resent seq (omega arith) (omega arith) d
    ];
    untouched =
        λ seq l u still. rest.untouched seq l u (λ l' u'. still (omega arith) (omega arith));
    outbox = ground (arith, rest.outbox, idle);
    allowed = λ seq l u d. elim (ℕ_discrete seq lo) [
      | yes e ↦ absurd (ground (arith, idle, rw e at d))
      | no ne ↦ rest.allowed seq (omega arith) (omega arith) d
    ];
    within = omega (arith, rest.within);
    ends = elim (rest.ends) [
      | inl (all, r) ↦ inl (omega arith, ground (arith, idle, r))
      | inr (some_left, r, spent) ↦
          inr (omega arith, r, subst (IsExhausted now tx.sender) (omega arith) spent)
    ];
  }
