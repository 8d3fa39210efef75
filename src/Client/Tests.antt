-- ===== src/Client/Tests.antt =====
-- Connections and loops of skeleton/client.c, run on small inputs.
use cpe_464_program.Base.{
  ℕ, zero, suc, ◌≡◌, refl, Option, some, List, [], ◌∷◌, arith, All, replicate, length-replicate,
}
use cpe_464_program.Client.{Socket, recv_rounds, tcp_recv}
use cpe_464_program.Client.Stream.{Moves, IsLive}
use cpe_464_program.Client.Stream.Receive.{Receives, recv_rounds-Receives}

-- Calls that move one byte each.
abbrev pub single : ℕ → List (Option ℕ)
single n = replicate n (some 1)

single-Moves : (n : ℕ) → All Moves (single n)
single-Moves zero = tt
single-Moves (suc n) = (omega arith, single-Moves n)

pub single-IsLive : (n : ℕ) → IsLive n (single n)
single-IsLive n = record {
  enough = omega (arith, length-replicate {A = Option ℕ} n (some 1));
  all_move = single-Moves n;
}

-- Five bytes come in two pieces.
abbrev pieces : Socket
pieces = record {
  incoming = 1 ∷ 2 ∷ 3 ∷ 4 ∷ 5 ∷ [];
  recv_sizes = some 3 ∷ some 9 ∷ some 1 ∷ some 1 ∷ [];
  outgoing = [];
  send_sizes = some 2 ∷ some 2 ∷ some 7 ∷ [];
}

two_pieces : recv_rounds 4 4 [] pieces ≡ (
  some (1 ∷ 2 ∷ 3 ∷ 4 ∷ []),
  record pieces { incoming = 5 ∷ []; recv_sizes = some 1 ∷ some 1 ∷ [] },
)
unfolding recv_rounds tcp_recv
two_pieces = refl

recv_rounds-Receives_example : Receives 4 [] pieces (recv_rounds 4 4 [] pieces)
recv_rounds-Receives_example =
    recv_rounds-Receives 4 4 [] pieces pieces.recv_sizes refl (omega arith) (omega arith) (record {
      enough = omega arith;
      all_move = (omega arith, (omega arith, (omega arith, (omega arith, tt))));
    })
