-- ===== src/Client/Stream.antt =====
-- Connections of skeleton/client.c whose calls all move some bytes.
pub mod Receive
pub mod Send
use Prim.Native.Nat.{min}
use mathlib.Core.Path.{subst}
use native.Mathlib.Decide.{dec_lt}
use mathlib.Core.List.{append_assoc, append-nil}
use cpe_464_program.Base.{
  ℕ, zero, suc, ◌+◌, ◌-◌, ◌≤◌, ◌<◌, ◌≡◌, refl, sym, ◌∙◌, ap, false, Option, none, some, List, [],
  ◌∷◌, ◌++◌, arith, ltb, length, take, drop, length-take, length-drop, length-append, take-add,
  drop-drop, lt→ltb, All,
}
use cpe_464_program.Client.{Socket, tcp_recv, tcp_send, recv_rounds, send_rounds}

-- A call moves a byte at least.
abbrev pub Moves : Option ℕ → Type 0
Moves none = ⊥
Moves (some n) = 0 < n

-- The next `n` calls move bytes.
pub record IsLive (n : ℕ) (sizes : List (Option ℕ)) : Type 0 where
  pub enough : n ≤ length sizes
  pub all_move : All Moves sizes
