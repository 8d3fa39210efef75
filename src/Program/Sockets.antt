-- ===== src/Program/Sockets.antt =====
-- The sockets of skeleton/common.c: what stays open.
use cpe_464_program.Base.{ℕ, ◌≡◌, refl, Bool, true, false, Option, none, some, List, ◌∷◌, ==_iff}
use cpe_464_program.Program.{close, create_tcp_socket, create_udp_socket}

-- The descriptor that was opened last.
pub close_first : (fd : ℕ) (fds : List ℕ) → close fd (fd ∷ fds) ≡ fds
close_first fd fds = rw ((==_iff fd fd).1 refl, close) refl

-- What making a socket comes to: one descriptor more, or none.
abbrev IsOpened : List ℕ → Option ℕ × List ℕ → Type 0
IsOpened fds (none, held) = held ≡ fds
IsOpened fds (some fd, held) = held ≡ fd ∷ fds

create_tcp_socket-IsOpened :
    (socket : Option ℕ) (reuse : Bool) (fds : List ℕ)
    → IsOpened fds (create_tcp_socket socket reuse fds)
unfolding create_tcp_socket
create_tcp_socket-IsOpened none reuse fds = refl
create_tcp_socket-IsOpened (some fd) true fds = refl
create_tcp_socket-IsOpened (some fd) false fds = close_first fd fds

create_udp_socket-IsOpened :
    (socket : Option ℕ) (reuse : Bool) (fds : List ℕ)
    → IsOpened fds (create_udp_socket socket reuse fds)
unfolding create_udp_socket
create_udp_socket-IsOpened none reuse fds = refl
create_udp_socket-IsOpened (some fd) true fds = refl
create_udp_socket-IsOpened (some fd) false fds = close_first fd fds
