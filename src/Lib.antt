-- ===== src/Lib.antt =====
-- A peer-to-peer file sharing system: skeleton/server.c is a directory server to which clients announce
-- files over TCP, and skeleton/client.c transfers a file between two clients over UDP with the selective
-- repeat protocol of skeleton/selective_repeat.c. This library models the protocol's messages, the transfer, the
-- directory, the client and the two programs.
--
-- The parts, each in a module with children of its own:
-- - Base: lists as C arrays, tests into Bool, wrap-around. A number is a native natural number, and a
--   `uint32_t` keeps its wrap-around as `u32`. `memcpy` gives `none` where it would leave its array.
-- - Protocol: skeleton/protocol.h. Checksum has `calculate_checksum` and `verify_checksum`, Udp the
--   transfer's header as bytes, Tcp the messages to and from the server.
-- - Transfer: skeleton/selective_repeat.c. Packet builds and tests packets. Sender has the state
--   `sr_sender_t` and the `sr_sender_*` functions, Receiver the state `sr_receiver_t` and the
--   `sr_receiver_*` functions, one definition for each function and each loop. Window has what both ends'
--   windows share. Session joins the two ends by a step relation with the rounds of the main loop: any datagram that one end
--   has handed over may reach the other at any time, any number of times, or never, and a round may give the
--   transfer up. A parameter says whether any other bytes may reach the sender, which tests no checksum.
-- - Directory: skeleton/server.c. The static variables are one record; Messages has a function for each
--   message, `accept_new_client` and the body of the event loop, with what `poll`, `recv`, `accept` and
--   `malloc` return as arguments. What `send` returns is read nowhere. Catalogue is the server without slots,
--   arrays and bytes.
-- - Shares: skeleton/share_file_logic.c, the table of the files that a client offers.
-- - Client: skeleton/client.c. What `send`, `recv`, `lossy_recv`, `sendto`, `malloc`, `fopen` and the digest do is
--   state or an argument; a function that returns a code is an action on the state `World`. Dialogue has `share`,
--   `list`, `quit`, the registration and the part of `get` that asks the server, Get the rest of `get`, Owner the
--   datagrams and the rounds of the main loop on the state `Owner`, and Command `handle_command`. Their laws
--   put the definitions of Directory on the other end of the connection, and Together has two clients.
--   Main joins the commands, the datagrams and the rounds on the state `Node`: its `main_loop` is the loop of
--   `main`. Files has what skeleton/common.c does to read and write a file
--   and print a digest.
-- - Lossy: skeleton/lossy_udp.c, the link between a client and its UDP socket. A `double` is a number with a
--   sign over a power of two, an infinity or no number; the draws and their comparison with the rate are exact.
-- - Program: `main` of skeleton/client.c and of skeleton/server.c with the sockets of skeleton/common.c. The
--   results of the system's calls are arguments, and the descriptors that are open are a list.
-- Modules called Tests run the definitions on concrete inputs.
--
-- Bounds and fuel. A transfer is of at most `max_file_size` = 2 ^ 32 - 1024 bytes: beyond it the
-- 32-bit count of chunks in `sr_sender_init` wraps. The loops that send, slide and deliver have the fuel
-- `window_size + 1`, since each round fills or frees one of 64 slots; the theorems about them say
-- what the loop's own test leaves, so the fuel never decides. The carry loop of the checksum has the fuel 3,
-- which is enough for 32 bits. The loops of `remove_client` and the timeout scan have as much fuel as they
-- have rounds. The loops of the client around `send` and `recv` have as much fuel as they have bytes to move.
-- A round of the server's loop has at most `max_clients` + 1 = 257 events.
--
-- Not modelled: the digest, what the C library does to read a `double` (`atof`), and the conversion of that to
-- `float`, which are arguments; `set_nonblocking` of skeleton/common.c, which nothing calls; the signals but for
-- the end of the server's loop. A session of Transfer lets every datagram be lost, so what Lossy says of the link
-- is not needed there. Printing is left out but for the lines of `list`, and so are null pointers except where a
-- function reports them by its result.
pub mod Base
pub mod Protocol
pub mod Transfer
pub mod Directory
pub mod Shares
pub mod Client
pub mod Lossy
pub mod Program
