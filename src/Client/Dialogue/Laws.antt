-- ===== src/Client/Dialogue/Laws.antt =====
-- What the exchanges of skeleton/client.c with the server do on a connection whose calls all move bytes.
pub mod Share
pub mod Fields
pub mod Locate
pub mod Register
pub mod Listed
use mathlib.Core.Path.{subst}
use cpe_464_program.Base.{
  ℕ, zero, suc, ◌+◌, ◌-◌, ◌*◌, ◌^◌, ◌≤◌, ◌<◌, ◌≡◌, ◌≢◌, refl, sym, ◌∙◌, ap, Bool, true, false, not,
  Option, none, some, List, [], ◌∷◌, ◌++◌, arith, ltb, ◌==◌, length, get_or, take, drop,
  length-take, length-drop, length-append, take-append_eq, drop-append_eq, drop-drop, All,
  Bool-cases, inl, inr,
}
use cpe_464_program.Protocol.Udp.{be16, be32}
use cpe_464_program.Protocol.Tcp.{tcp_message, tcp_error, err_none, sizeof_tcp_header}
use cpe_464_program.Client.{
  World, Socket, Action, pure, guard, continue, ◌>>=◌, ◌>>◌, recv_exact, send_exact, recv_rounds,
  send_rounds,
}
use cpe_464_program.Client.Stream.{Moves, IsLive}
use cpe_464_program.Client.Stream.Receive.{Receives, recv_rounds-Receives}
use cpe_464_program.Client.Stream.Send.{Delivers, send_rounds-Delivers}
use cpe_464_program.Client.Dialogue.{recv_body, recv_reply}

-- A connection whose next calls can send `m` bytes and receive `n`.
pub record IsReady (m n : ℕ) (s : Socket) : Type 0 where
  pub sends : IsLive m s.send_sizes
  pub receives : IsLive n s.recv_sizes

-- An action that has read `len` bytes of what is there, and returned `a`.
pub record Reads {ℓ} {A : Type ℓ} (len : ℕ) (w : World) (a : A) (out : Option A × World)
    : Type ℓ where
  pub socket : Socket
  pub returned : out ≡ (some a, record w { socket = socket })
  pub incoming : socket.incoming ≡ drop len w.socket.incoming
  pub outgoing : socket.outgoing ≡ w.socket.outgoing
  pub send_sizes : socket.send_sizes ≡ w.socket.send_sizes
  pub moves : All Moves socket.recv_sizes
  pub spent : length w.socket.recv_sizes ≤ length socket.recv_sizes + len

pub recv_exact-Reads :
    (len : ℕ) (w : World)
    → len ≤ length w.socket.incoming
    → IsLive len w.socket.recv_sizes
    → Reads len w (take len w.socket.incoming) (recv_exact len w)
unfolding recv_exact
recv_exact-Reads len w there live =
    let none_read : len - length {A = ℕ} [] ≡ len = omega arith in
    let r =
      recv_rounds-Receives len len [] (w.socket) w.socket.recv_sizes refl (omega arith)
        (omega (arith, there))
        (record { enough = omega (arith, live.enough); all_move = live.all_move }) in
    let after = (recv_rounds len len [] (w.socket)).1 in
    record {
      socket = after;
      returned =
          ap (λ read. (read, record w { socket = after }))
            (r.result ∙ ap (λ k. some (take k w.socket.incoming)) none_read);
      incoming = r.rest ∙ ap (λ k. drop k w.socket.incoming) none_read;
      outgoing = r.outgoing;
      send_sizes = r.send_sizes;
      moves = r.moves;
      spent = omega (arith, r.spent);
    }

-- An action that has sent some bytes.
pub record Writes (bytes : List ℕ) (w : World) (out : Option (Unit {0}) × World) : Type 0 where
  pub socket : Socket
  pub returned : out ≡ (some tt, record w { socket = socket })
  pub outgoing : socket.outgoing ≡ w.socket.outgoing ++ bytes
  pub incoming : socket.incoming ≡ w.socket.incoming
  pub recv_sizes : socket.recv_sizes ≡ w.socket.recv_sizes

pub send_exact-Writes :
    (bytes : List ℕ) (w : World)
    → IsLive (length bytes) w.socket.send_sizes
    → Writes bytes w (send_exact bytes w)
unfolding send_exact
send_exact-Writes bytes w live =
    let r =
      send_rounds-Delivers (length bytes) bytes (w.socket) w.socket.send_sizes refl (omega arith)
        live in
    record {
      socket = (send_rounds (length bytes) bytes (w.socket)).1;
      returned =
          ap (λ done. (done, record w { socket = (send_rounds (length bytes) bytes (w.socket)).1 }))
            r.result;
      outgoing = r.outgoing;
      incoming = r.incoming;
      recv_sizes = r.recv_sizes;
    }

-- What follows an action that has returned `a`.
pub continue-some {ℓ κ} :
    {A : Type ℓ} {B : Type κ} {out : Option A × World} {a : A} {w : World} (f : A → Action B)
    → out ≡ (some a, w)
    → continue out f ≡ f a w
continue-some f e = ap (λ o. continue o f) e

recv_body_passes :
    (kind len : ℕ) (header : List ℕ) (w : World)
    → kind ≢ tcp_error
    → get_or header 0 0 ≡ kind
    → be16 header 2 ≡ len
    → recv_body kind len header w ≡ recv_exact len w
recv_body_passes kind len header w ok k l =
    let a : (get_or header 0 0 == tcp_error) ≡ false = ground arith in
    let b : (get_or header 0 0 == kind) ≡ true = ground arith in
    let c : (be16 header 2 == len) ≡ true = ground arith in rw (a, b, c) refl

-- A reply of the expected kind and length is there, and is read whole.
pub recv_reply-Reads :
    (kind len : ℕ) (body rest : List ℕ) (w : World)
    → kind < 256
    → kind ≢ tcp_error
    → len < 2 ^ 16
    → length body ≡ len
    → w.socket.incoming ≡ tcp_message kind err_none len (body ++ rest)
    → IsLive (4 + len) w.socket.recv_sizes
    → Reads (4 + len) w body (recv_reply kind len w)
unfolding recv_reply
recv_reply-Reads kind len body rest w small ok short fits there live = record {
  socket = b.socket;
  returned =
      continue-some (recv_body kind len) h.returned
      ∙ recv_body_passes kind len header w1 ok (ap (λ s. get_or (take 4 s) 0 0) there ∙ omega arith)
          (ap (λ s. be16 (take 4 s) 2) there ∙ omega arith)
      ∙ b.returned
      ∙ ap (λ read. (some read, record w { socket = b.socket }))
          (ap (take len) left ∙ take-append_eq len body rest (sym fits));
  incoming = b.incoming ∙ ap (drop len) h.incoming ∙ drop-drop 4 len w.socket.incoming;
  outgoing = b.outgoing ∙ h.outgoing;
  send_sizes = b.send_sizes ∙ h.send_sizes;
  moves = b.moves;
  spent = omega (arith, b.spent, h.spent);
}
  where
    header : List ℕ
    header = take 4 w.socket.incoming

    long : 4 + len ≤ length w.socket.incoming
    long = omega (arith, ap (λ s. length s) there, length-append body rest)

    h : Reads 4 w (take 4 w.socket.incoming) (recv_exact 4 w)
    h =
        recv_exact-Reads 4 w (omega (arith, long))
          (record { enough = omega (arith, live.enough); all_move = live.all_move })

    w1 : World
    w1 = record w { socket = h.socket }

    left : h.socket.incoming ≡ body ++ rest
    left = h.incoming ∙ ap (drop 4) there

    b : Reads len w1 (take len h.socket.incoming) (recv_exact len w1)
    b =
        recv_exact-Reads len w1
          (omega (arith, long, ap (λ s. length s) h.incoming, length-drop 4 w.socket.incoming))
          (record { enough = omega (arith, h.spent, live.enough); all_move = h.moves })
