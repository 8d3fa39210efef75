-- ===== src/Client/Stream/Send.antt =====
-- The loops by which skeleton/client.c sends bytes over its TCP connection.
use Prim.Native.Nat.{min}
use mathlib.Core.Path.{subst}
use mathlib.Core.List.{append_assoc, append-nil}
use cpe_464_program.Base.{
  ℕ, zero, suc, ◌+◌, ◌-◌, ◌≤◌, ◌<◌, ◌≡◌, refl, sym, ◌∙◌, ap, Option, none, some, List, [], ◌∷◌,
  ◌++◌, arith, length, take, drop, length-drop, lt→ltb, All,
}
use cpe_464_program.Client.{Socket, tcp_send, send_rounds}
use cpe_464_program.Client.Stream.{Moves, IsLive}

-- The connection takes all the bytes, however they are cut.
pub record Delivers (bytes : List ℕ) (s : Socket) (out : Option (Unit {0}) × Socket) : Type 0 where
  pub result : out.0 ≡ some tt
  pub outgoing : out.1.outgoing ≡ s.outgoing ++ bytes
  pub incoming : out.1.incoming ≡ s.incoming
  pub recv_sizes : out.1.recv_sizes ≡ s.recv_sizes
  pub moves : All Moves out.1.send_sizes
  pub spent : length s.send_sizes ≤ length out.1.send_sizes + length bytes

nothing_left : (s : Socket) → All Moves s.send_sizes → Delivers [] s (some tt, s)
nothing_left s moves = record {
  result = refl;
  outgoing = sym (append-nil s.outgoing);
  incoming = refl;
  recv_sizes = refl;
  moves = moves;
  spent = omega arith;
}

abbrev handed : Socket → ℕ → List ℕ → List (Option ℕ) → Socket
handed s n bytes rest = record s { outgoing = s.outgoing ++ take (suc n) bytes; send_sizes = rest }

tcp_send-some :
    (bytes : List ℕ) (s : Socket) (n : ℕ) (rest : List (Option ℕ))
    → s.send_sizes ≡ some (suc n) ∷ rest
    → tcp_send bytes s ≡ (some (min (suc n) (length bytes)), handed s n bytes rest)
unfolding tcp_send
tcp_send-some bytes s n rest e = rw (e, tcp_send) refl

send_round :
    (fuel : ℕ) (bytes : List ℕ) (s after : Socket) (k : ℕ)
    → 0 < length bytes
    → tcp_send bytes s ≡ (some (suc k), after)
    → send_rounds (suc fuel) bytes s ≡ send_rounds fuel (drop (suc k) bytes) after
unfolding send_rounds
send_round fuel bytes s after k h e =
    rw (lt→ltb _ _ h, send_rounds, e) (ap (λ p. send_rounds fuel (drop (suc k) bytes) p.1) e)

drop-min : (n : ℕ) (bytes : List ℕ) → drop (min n (length bytes)) bytes ≡ drop n bytes
drop-min zero bytes = ap (λ k. drop k bytes) {x = min 0 (length bytes)} {y = 0} (omega arith)
drop-min (suc n) [] = ap (λ k. drop {A = ℕ} k []) {x = min (suc n) 0} {y = 0} (omega arith)
drop-min (suc n) (b ∷ bytes) =
    ap (λ k. drop k (b ∷ bytes)) {x = min (suc n) (suc (length bytes))}
      {y = suc (min n (length bytes))} (omega arith)
    ∙ drop-min n bytes

take-drop : (n : ℕ) (bytes : List ℕ) → take n bytes ++ drop n bytes ≡ bytes
take-drop zero bytes = refl
take-drop (suc n) [] = refl
take-drop (suc n) (b ∷ bytes) = ap (λ r. b ∷ r) (take-drop n bytes)

-- A send loop that has fuel for its bytes, on a connection whose calls each take a byte at least: it
-- returns success and has sent exactly its bytes in order, however they are cut, and has read nothing.
pub send_rounds-Delivers :
    (fuel : ℕ) (bytes : List ℕ) (s : Socket) (sizes : List (Option ℕ))
    → s.send_sizes ≡ sizes
    → length bytes ≤ fuel
    → IsLive (length bytes) sizes
    → Delivers bytes s (send_rounds fuel bytes s)
unfolding send_rounds
send_rounds-Delivers zero [] s sizes e h live = nothing_left s (rw e (live.all_move))
send_rounds-Delivers zero (b ∷ bytes) s sizes e h live = absurd (omega arith)
send_rounds-Delivers (suc fuel) [] s sizes e h live = nothing_left s (rw e (live.all_move))
send_rounds-Delivers (suc fuel) (b ∷ bytes) s [] e h live = absurd (omega (arith, live.enough))
send_rounds-Delivers (suc fuel) (b ∷ bytes) s (none ∷ rest) e h live = absurd live.all_move.0
send_rounds-Delivers (suc fuel) (b ∷ bytes) s (some zero ∷ rest) e h live =
    absurd (omega (arith, live.all_move.0))
send_rounds-Delivers (suc fuel) (b ∷ bytes) s (some (suc n) ∷ rest) e h live =
    let r =
      send_rounds-Delivers fuel (drop (suc n) (b ∷ bytes)) (handed s n (b ∷ bytes) rest) rest refl
        (omega (arith, length-drop (suc n) (b ∷ bytes)))
        (record {
          enough = omega (arith, length-drop (suc n) (b ∷ bytes), live.enough);
          all_move = live.all_move.1;
        }) in
    let left = min (suc n) (suc (length bytes)) - 1 in
    let count : min (suc n) (suc (length bytes)) ≡ suc left = omega arith in
    let called =
      tcp_send-some (b ∷ bytes) s n rest e
      ∙ ap (λ k. (some k, handed s n (b ∷ bytes) rest)) count in
    let same : drop (suc left) (b ∷ bytes) ≡ drop (suc n) (b ∷ bytes) =
      ap (λ k. drop k (b ∷ bytes)) (sym count) ∙ drop-min (suc n) (b ∷ bytes) in
    let round =
      send_round fuel (b ∷ bytes) s (handed s n (b ∷ bytes) rest) left (omega arith) called
      ∙ ap (λ more. send_rounds fuel more (handed s n (b ∷ bytes) rest)) same in
    subst (Delivers (b ∷ bytes) s) (sym round) (record {
      result = r.result;
      outgoing =
          r.outgoing
          ∙ append_assoc s.outgoing (take (suc n) (b ∷ bytes)) _
          ∙ ap (λ t. s.outgoing ++ t) (take-drop (suc n) (b ∷ bytes));
      incoming = r.incoming;
      recv_sizes = r.recv_sizes;
      moves = r.moves;
      spent = omega (arith, r.spent, length-drop (suc n) (b ∷ bytes), ap (λ l. length l) e);
    })
