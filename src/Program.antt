-- ===== src/Program.antt =====
-- The programs from start to end: skeleton/common.c makes the sockets, and `main` of skeleton/client.c and
-- skeleton/server.c uses them. What a call of the system returns is an argument, and the descriptors that are open
-- are a list.
pub mod Sockets
pub mod ClientMain
pub mod ServerMain
mod Tests
use cpe_464_program.Base.{
  ℕ, ◌+◌, ◌-◌, ◌*◌, ◌/◌, ◌%◌, ◌^◌, Bool, true, false, Option, none, some, List, [], ◌∷◌, ◌==◌,
  if◌then◌else◌,
}
use cpe_464_program.Transfer.Sender.{Addr}
use cpe_464_program.Client.Command.{skip_space, scan_sign, scan_digits, value_of}

-- `close`
abbrev pub close : ℕ → List ℕ → List ℕ
close fd [] = []
close fd (held ∷ fds) = if held == fd then fds else held ∷ close fd fds

-- `create_tcp_socket`, with what `socket` and `setsockopt` return.
unfoldable pub create_tcp_socket : Option ℕ → Bool → List ℕ → Option ℕ × List ℕ
create_tcp_socket socket reuse fds = elim socket [
  | none ↦ (none, fds)
  | some fd ↦ if reuse then (some fd, fd ∷ fds) else (none, close fd (fd ∷ fds))
]

-- `create_udp_socket`
unfoldable pub create_udp_socket : Option ℕ → Bool → List ℕ → Option ℕ × List ℕ
create_udp_socket socket reuse fds = elim socket [
  | none ↦ (none, fds)
  | some fd ↦ if reuse then (some fd, fd ∷ fds) else (none, close fd (fd ∷ fds))
]

-- `bind_socket`: the address is `INADDR_ANY`.
abbrev pub bind_socket : (ℕ → Addr → Bool) → ℕ → ℕ → Bool
bind_socket bind fd port = bind fd (record { ip = 0; port = port })

-- `(uint16_t)atoi(s)`, for the numbers that an `int` holds.
unfoldable pub port_of : List ℕ → ℕ
port_of s =
    let (negative, unsigned) = scan_sign (skip_space s) in
    let (digits, rest) = scan_digits unsigned in
    let value = value_of 0 digits % 2 ^ 16 in if negative then (2 ^ 16 - value) % 2 ^ 16 else value

-- `get_time_ms`, from the seconds and microseconds of `gettimeofday`.
abbrev pub get_time_ms : ℕ → ℕ → ℕ
get_time_ms tv_sec tv_usec = (tv_sec * 1000 + tv_usec / 1000) % 2 ^ 64
