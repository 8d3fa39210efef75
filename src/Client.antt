-- ===== src/Client.antt =====
-- skeleton/client.c: what a client keeps and what its functions do to it. A function that returns a code
-- is an action: `none` is a code other than 0, and what was done before stays done. What the system calls
-- give is part of the state: how many bytes the next calls of `send` and `recv` take, and what the next
-- calls of `lossy_recv` bring. What is printed is left out, but for the list of files.
pub mod Stream
pub mod Dialogue
pub mod Get
pub mod Owner
pub mod Command
pub mod Main
pub mod Together
mod Files
pub mod Tests
use Prim.Native.Nat.{min}
use cpe_464_program.Base.{
  ℕ, zero, suc, ◌+◌, ◌-◌, Bool, true, false, Option, none, some, List, [], ◌∷◌, ◌++◌, ltb, length,
  take, drop,
}
use cpe_464_program.Transfer.Sender.{Addr, Datagram}
use cpe_464_program.Shares.{Shares}

-- The TCP connection to the server: an ordered stream of bytes each way. A call of `recv` or `send`
-- takes the next number of its list and moves at most that many bytes; `none`, and the end of the
-- list, is the result -1.
pub record Socket : Type 0 where
  pub incoming : List ℕ
  pub recv_sizes : List (Option ℕ)
  pub outgoing : List ℕ
  pub send_sizes : List (Option ℕ)

-- A datagram that a call of `lossy_recv` brings, with its sender's address.
pub record Arrival : Type 0 where
  pub source : Addr
  pub bytes : List ℕ

-- A file that was written to disk.
pub record Saved : Type 0 where
  pub name : List ℕ
  pub contents : List ℕ

-- `arrivals` has what the next calls of `lossy_recv` give: `none`, and the end of the list, is -1.
pub record World : Type 0 where
  pub socket : Socket
  pub shares : Shares
  pub arrivals : List (Option Arrival)
  pub sent : List Datagram
  pub saved : List Saved

abbrev pub Action {ℓ} : Type ℓ → Type ℓ
Action A = World → Option A × World

abbrev pub pure {ℓ} : {A : Type ℓ} → A → Action A
pure a w = (some a, w)

abbrev pub fail {ℓ} : {A : Type ℓ} → Action A
fail w = (none, w)

-- What follows an action that has returned.
abbrev pub continue {ℓ κ} :
    {A : Type ℓ} {B : Type κ} → Option A × World → (A → Action B) → Option B × World
continue (none, w) f = (none, w)
continue (some a, w) f = f a w

infixl 5 ◌>>=◌ ◌>>◌
abbrev pub ◌>>=◌ {ℓ κ} : {A : Type ℓ} {B : Type κ} → Action A → (A → Action B) → Action B
◌>>=◌ m f w = continue (m w) f

abbrev pub ◌>>◌ {ℓ} : {B : Type ℓ} → Action (Unit {0}) → Action B → Action B
m >> k = m >>= λ _. k

abbrev pub guard : Bool → Action (Unit {0})
guard true = pure tt
guard false = fail

-- `recv(tcp_sock, ..., len, 0)`: `none` is -1, and no bytes are the result 0.
unfoldable pub tcp_recv : ℕ → Socket → Option (List ℕ) × Socket
tcp_recv len s = elim s.recv_sizes [
  | [] ↦ (none, s)
  | size ∷ rest ↦ elim size [
    | none ↦ (none, record s { recv_sizes = rest })
    | some n ↦ (
      some (take (min n len) s.incoming),
      record s { incoming = drop (min n len) s.incoming; recv_sizes = rest },
    )
  ]
]

-- `send(tcp_sock, bytes, length bytes, 0)`: `none` is -1.
unfoldable pub tcp_send : List ℕ → Socket → Option ℕ × Socket
tcp_send bytes s = elim s.send_sizes [
  | [] ↦ (none, s)
  | size ∷ rest ↦ elim size [
    | none ↦ (none, record s { send_sizes = rest })
    | some n ↦ (
      some (min n (length bytes)),
      record s { outgoing = s.outgoing ++ take n bytes; send_sizes = rest },
    )
  ]
]

-- The loops `while (bytes_read < len) { n = recv(...); ... }`, with fuel: a round that goes on has read
-- a byte.
unfoldable pub recv_rounds : ℕ → ℕ → List ℕ → Socket → Option (List ℕ) × Socket
recv_rounds zero len read s = (some read, s)
recv_rounds (suc fuel) len read s = elim (ltb (length read) len) [
  | false ↦ (some read, s)
  | true ↦
      let (n, s') = tcp_recv (len - length read) s in
      elim n [
        | none ↦ (none, s')
        | some bytes ↦ elim bytes [
          | [] ↦ (none, s')
          | b ∷ more ↦ recv_rounds fuel len (read ++ (b ∷ more)) s'
        ]
      ]
]

-- The loops `while (bytes_sent < len) { n = send(...); ... }`, with fuel: `bytes` is what is left.
unfoldable pub send_rounds : ℕ → List ℕ → Socket → Option (Unit {0}) × Socket
send_rounds zero bytes s = (some tt, s)
send_rounds (suc fuel) bytes s = elim (ltb 0 (length bytes)) [
  | false ↦ (some tt, s)
  | true ↦
      let (n, s') = tcp_send bytes s in
      elim n [
        | none ↦ (none, s')
        | some sent ↦ elim sent [
          | zero ↦ (none, s')
          | suc k ↦ send_rounds fuel (drop (suc k) bytes) s'
        ]
      ]
]

-- Both loops, on the client's state.
unfoldable pub recv_exact : ℕ → Action (List ℕ)
recv_exact len w =
    let (read, s) = recv_rounds len len [] (w.socket) in (read, record w { socket = s })

unfoldable pub send_exact : List ℕ → Action (Unit {0})
send_exact bytes w =
    let (done, s) = send_rounds (length bytes) bytes (w.socket) in (done, record w { socket = s })
