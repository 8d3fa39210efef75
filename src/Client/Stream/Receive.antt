-- ===== src/Client/Stream/Receive.antt =====
-- The loops by which skeleton/client.c receives bytes over its TCP connection.
use Prim.Native.Nat.{min}
use mathlib.Core.Path.{subst}
use native.Mathlib.Decide.{dec_lt}
use mathlib.Core.List.{append_assoc, append-nil}
use cpe_464_program.Base.{
  ℕ, zero, suc, ◌+◌, ◌-◌, ◌≤◌, ◌<◌, ◌≡◌, refl, sym, ◌∙◌, ap, false, Option, none, some, List, [],
  ◌∷◌, ◌++◌, arith, ltb, length, take, drop, length-take, length-drop, length-append, take-add,
  drop-drop, lt→ltb, All,
}
use cpe_464_program.Client.{Socket, tcp_recv, recv_rounds}
use cpe_464_program.Client.Stream.{Moves, IsLive}

-- The connection delivers `len` bytes that are there, however they are cut.
pub record Receives (len : ℕ) (read : List ℕ) (s : Socket) (out : Option (List ℕ) × Socket)
    : Type 0 where
  pub result : out.0 ≡ some (read ++ take (len - length read) s.incoming)
  pub rest : out.1.incoming ≡ drop (len - length read) s.incoming
  pub outgoing : out.1.outgoing ≡ s.outgoing
  pub send_sizes : out.1.send_sizes ≡ s.send_sizes
  pub moves : All Moves out.1.recv_sizes
  pub spent : length s.recv_sizes ≤ length out.1.recv_sizes + (len - length read)

nothing_missing :
    (len : ℕ) (read : List ℕ) (s : Socket)
    → len - length read ≡ 0
    → All Moves s.recv_sizes
    → Receives len read s (some read, s)
nothing_missing len read s e moves = record {
  result = ap some (sym (ap (λ k. read ++ take k s.incoming) e ∙ append-nil read));
  rest = sym (ap (λ k. drop k s.incoming) e);
  outgoing = refl;
  send_sizes = refl;
  moves = moves;
  spent = omega arith;
}

finished :
    (fuel len : ℕ) (read : List ℕ) (s : Socket)
    → ¬ (length read < len)
    → All Moves s.recv_sizes
    → Receives len read s (recv_rounds (suc fuel) len read s)
unfolding recv_rounds
finished fuel len read s full moves =
    let stop : ltb (length read) len ≡ false = ground arith in
    rw (stop, recv_rounds) (nothing_missing len read s (omega arith) moves)

one_round :
    (fuel len : ℕ) (read : List ℕ) (s after : Socket) (bytes : List ℕ)
    → 0 < length bytes
    → length read < len
    → tcp_recv (len - length read) s ≡ (some bytes, after)
    → recv_rounds (suc fuel) len read s ≡ recv_rounds fuel len (read ++ bytes) after
unfolding recv_rounds
one_round fuel len read s after [] h missing e = absurd (omega arith)
one_round fuel len read s after (b ∷ more) h missing e =
    rw (lt→ltb _ _ missing, recv_rounds, e)
      (ap (λ p. recv_rounds fuel len (read ++ (b ∷ more)) p.1) e)

-- One call: it takes `k` bytes, which are missing and there.
module _ (len : ℕ) (read : List ℕ) (s : Socket) (n : ℕ) (rest : List (Option ℕ))
    (sizes : s.recv_sizes ≡ some (suc n) ∷ rest) where
  abbrev k : ℕ
  k = min (suc n) (len - length read)

  abbrev after : Socket
  after = record s { incoming = drop k s.incoming; recv_sizes = rest }

  tcp_recv-some : tcp_recv (len - length read) s ≡ (some (take k s.incoming), after)
  unfolding tcp_recv
  tcp_recv-some = rw (sizes, tcp_recv) refl

  round :
      (fuel : ℕ)
      → length read < len
      → len - length read ≤ length s.incoming
      → recv_rounds (suc fuel) len read s ≡ recv_rounds fuel len (read ++ take k s.incoming) after
  round fuel missing there =
      one_round fuel len read s after (take k s.incoming) (omega (arith, length-take k s.incoming))
        missing tcp_recv-some

  after-Receives :
      (fuel : ℕ)
      → length read < len
      → len - length read ≤ length s.incoming
      → Receives len
          (read ++ take k s.incoming)
          after
          (recv_rounds fuel len (read ++ take k s.incoming) after)
      → Receives len read s (recv_rounds (suc fuel) len read s)
  after-Receives fuel missing there r =
      subst (Receives len read s) (sym (round fuel missing there)) (record {
        result =
            r.result
            ∙ ap some (
                append_assoc read (take k s.incoming) _
                ∙ ap (λ t. read ++ t)
                    (sym (take-add k left s.incoming) ∙ ap (λ m. take m s.incoming) whole));
        rest = r.rest ∙ drop-drop k left s.incoming ∙ ap (λ m. drop m s.incoming) whole;
        outgoing = r.outgoing;
        send_sizes = r.send_sizes;
        moves = r.moves;
        spent = omega (arith, r.spent, long, ap (λ l. length l) sizes);
      })
    where
      left : ℕ
      left = len - length (read ++ take k s.incoming)

      long : length (read ++ take k s.incoming) ≡ length read + k
      long = omega (arith, length-append read (take k s.incoming), length-take k s.incoming)

      whole : k + (len - length (read ++ take k s.incoming)) ≡ len - length read
      whole = omega (arith, long)

-- A receive loop that has fuel for the bytes that are missing, on a connection that has them and whose calls
-- each bring a byte at least: it returns exactly these bytes, however they are cut, leaves the rest unread, and
-- has sent nothing.
pub recv_rounds-Receives :
    (fuel len : ℕ) (read : List ℕ) (s : Socket) (sizes : List (Option ℕ))
    → s.recv_sizes ≡ sizes
    → len - length read ≤ fuel
    → len - length read ≤ length s.incoming
    → IsLive (len - length read) sizes
    → Receives len read s (recv_rounds fuel len read s)
unfolding recv_rounds
recv_rounds-Receives zero len read s sizes e h there live =
    nothing_missing len read s (omega arith) (rw e (live.all_move))
recv_rounds-Receives (suc fuel) len read s [] e h there live =
    finished fuel len read s (λ missing. absurd (omega (arith, live.enough))) (rw e tt)
recv_rounds-Receives (suc fuel) len read s (none ∷ rest) e h there live = absurd live.all_move.0
recv_rounds-Receives (suc fuel) len read s (some zero ∷ rest) e h there live =
    absurd (omega (arith, live.all_move.0))
recv_rounds-Receives (suc fuel) len read s (some (suc n) ∷ rest) e h there live =
    elim (dec_lt (length read) len) [
      | no full ↦ finished fuel len read s full (rw e (live.all_move))
      | yes missing ↦
          let taken = take (min (suc n) (len - length read)) s.incoming in
          let long : length (read ++ taken) ≡ length read + min (suc n) (len - length read) =
            omega (
              arith,
              length-append read taken,
              length-take (min (suc n) (len - length read)) s.incoming,
            ) in
          after-Receives len read s n rest e fuel missing there (
            recv_rounds-Receives fuel len (read ++ taken)
              (record s {
                incoming = drop (min (suc n) (len - length read)) s.incoming;
                recv_sizes = rest;
              })
              rest refl (omega (arith, long))
              (omega (arith, long, length-drop (min (suc n) (len - length read)) s.incoming))
              (record { enough = omega (arith, long, live.enough); all_move = live.all_move.1 }))
    ]
