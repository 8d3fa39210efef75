-- ===== src/Client/Main/State.antt =====
-- What every action of skeleton/client.c keeps of a client's state, and that the parts of the dialogue with the
-- server keep it.
use cpe_464_program.Base.{
  ℕ, ◌≤◌, ◌≡◌, refl, sym, ◌∙◌, Bool, Option, none, some, List, [], ◌∷◌, arith, leb, length,
  length-set, Bool-cases, inl, inr, All,
}
use mathlib.Core.Path.{subst}
use cpe_464_program.Protocol.Tcp.{sizeof_tcp_header}
use cpe_464_program.Transfer.Sender.{Datagram}
use cpe_464_program.Transfer.Packet.{build_ack_packet}
use cpe_464_program.Client.Owner.Invariant.{IsOutput}
use cpe_464_program.Shares.{Shares, max_shared_files, no_shares, offered, add_shared_file}
use cpe_464_program.Client.{World, Arrival, Action, continue, ◌>>=◌, recv_exact, send_exact, guard}
use cpe_464_program.Client.Dialogue.{recv_body, recv_reply}
use cpe_464_program.Client.Get.{lossy_recv, build_request}
use cpe_464_program.Client.Get.Keeps.{
  Keeps, guard-Keeps, recv_exact-Keeps, send_exact-Keeps, recv_body-Keeps,
}

-- The table has its size, and the files in it are within it.
pub record IsShares (t : Shares) : Type 0 where
  pub places : length t.table ≡ max_shared_files
  pub within : t.num_files ≤ max_shared_files

pub no_shares-IsShares : IsShares no_shares
no_shares-IsShares = record { places = refl; within = omega arith }

pub add_shared_file-IsShares :
    (t : Shares) (file_id size : ℕ) (hash filename : List ℕ)
    → IsShares t
    → IsShares (add_shared_file t file_id size hash filename)
unfolding add_shared_file
add_shared_file-IsShares t file_id size hash filename v =
    elim (Bool-cases (leb max_shared_files t.num_files)) [
      | inl full ↦ rw (full, add_shared_file) v
      | inr room ↦
          rw (room, add_shared_file)
            (record {
              places =
                  length-set t.table t.num_files (offered file_id size hash filename) ∙ v.places;
              within = ground arith;
            })
    ]

-- What a client hands over: what the owner's side does, the request of `get`, or an acknowledgement.
pub data IsFromClient (d : Datagram) : Type 0 where
  owned : IsOutput d → IsFromClient d
  requests : (file_id : ℕ) (hash : List ℕ) → d.bytes ≡ build_request file_id hash → IsFromClient d
  acknowledges : (seq_num : ℕ) → d.bytes ≡ build_ack_packet seq_num → IsFromClient d

pub record IsWorld (w : World) : Type 0 where
  pub shares : IsShares w.shares
  pub sent : All IsFromClient w.sent

-- An action that keeps this.
abbrev pub Preserves {ℓ} : {A : Type ℓ} → Action A → Type 0
Preserves m = (w : World) → IsWorld w → IsWorld (m w).1

pub of_Keeps {ℓ} : {A : Type ℓ} (m : Action A) → Keeps m → Preserves m
of_Keeps m keeps w v = subst IsWorld (sym (keeps w)) (record { shares = v.shares; sent = v.sent })

-- One action after another.
continue-IsWorld {ℓ κ} :
    {A : Type ℓ} {B : Type κ} (out : Option A × World) (f : A → Action B)
    → IsWorld out.1
    → ((a : A) → Preserves (f a))
    → IsWorld (continue out f).1
continue-IsWorld (none, u) f first rest = first
continue-IsWorld (some a, u) f first rest = rest a u first

pub bind-Preserves {ℓ κ} :
    {A : Type ℓ} {B : Type κ} (m : Action A) (f : A → Action B)
    → Preserves m
    → ((a : A) → Preserves (f a))
    → Preserves (m >>= f)
bind-Preserves m f first rest w v = continue-IsWorld (m w) f (first w v) rest

pub recv_reply-Preserves : (kind len : ℕ) → Preserves (recv_reply kind len)
unfolding recv_reply
recv_reply-Preserves kind len =
    bind-Preserves (recv_exact sizeof_tcp_header) (recv_body kind len)
      (of_Keeps (recv_exact sizeof_tcp_header) (recv_exact-Keeps sizeof_tcp_header))
      (λ header. of_Keeps (recv_body kind len header) (recv_body-Keeps kind len header))

pub guard-Preserves : (b : Bool) → Preserves (guard b)
guard-Preserves b = of_Keeps (guard b) (guard-Keeps b)

pub send_exact-Preserves : (bytes : List ℕ) → Preserves (send_exact bytes)
send_exact-Preserves bytes = of_Keeps (send_exact bytes) (send_exact-Keeps bytes)

pub recv_exact-Preserves : (len : ℕ) → Preserves (recv_exact len)
recv_exact-Preserves len = of_Keeps (recv_exact len) (recv_exact-Keeps len)

-- A call of `lossy_recv` changes the arrivals alone.
pub lossy_recv-arrivals :
    (l : List (Option Arrival)) (w : World)
    → w.arrivals ≡ l
    → (lossy_recv w).1 ≡ record w { arrivals = (lossy_recv w).1.arrivals }
lossy_recv-arrivals [] w e = rw (e, lossy_recv) refl
lossy_recv-arrivals (none ∷ rest) w e = rw (e, lossy_recv) refl
lossy_recv-arrivals (some a ∷ rest) w e = rw (e, lossy_recv) refl

pub lossy_recv-Preserves : Preserves lossy_recv
lossy_recv-Preserves w v =
    subst IsWorld (sym (lossy_recv-arrivals w.arrivals w refl))
      (record { shares = v.shares; sent = v.sent })
