-- ===== src/Client/Command/Server.antt =====
-- `handle_command` of skeleton/client.c with the server of skeleton/server.c on the other end.
use cpe_464_program.Base.{
  ℕ, ◌^◌, ◌≤◌, ◌<◌, ◌≡◌, refl, sym, ◌∙◌, ap, Bool, false, Option, some, List, ◌++◌, length,
  if◌then◌else◌,
}
use mathlib.Core.Path.{subst}
use cpe_464_program.Transfer.Sender.{Datagram}
use cpe_464_program.Directory.{Directory, max_files, listed, client_at}
use cpe_464_program.Directory.Invariant.{IsDirectory}
use cpe_464_program.Directory.Messages.{process_client_message, handle_unregister}
use cpe_464_program.Directory.Removal.{kept, listed-remove_client}
use cpe_464_program.Directory.Requests.{last_reply, unregister_message_handled}
use cpe_464_program.Client.{World}
use cpe_464_program.Client.Stream.{IsLive}
use cpe_464_program.Client.Dialogue.{share_message, unregister_message, quit, share}
use cpe_464_program.Client.Dialogue.Laws.{IsReady, send_exact-Writes}
use cpe_464_program.Client.Dialogue.Laws.Share.{share_refused}
use cpe_464_program.Client.Command.{share_file, quit_client, parse_command, handle_command, finish}

module _ (udp_fd : ℕ) (sendto : Datagram → Bool) (malloc : ℕ → Option (List ℕ))
    (sha256 : List ℕ → List ℕ) (writable : List ℕ → Option (ℕ → ℕ))
    (read_file : List ℕ → Option (List ℕ)) where
  -- On a line that is read as `quit`, over a connection that takes the message, the client's loop ends, its
  -- tables stay, and what it sends is the message on which a valid server takes the files of this client,
  -- if it is active, out of its list, and leaves all others, in their order.
  pub quit_unregisters :
      (server_malloc : ℕ → Bool) (d : Directory) (i : ℕ) (v : IsDirectory d) (line : List ℕ)
      (w : World)
      → parse_command line ≡ quit_client
      → IsLive 4 w.socket.send_sizes
      → (handle_command udp_fd sendto malloc sha256 writable read_file line w
          ≡ some (false, quit w))
        × ((quit w).shares ≡ w.shares)
        × ((quit w).socket.outgoing ≡ w.socket.outgoing ++ unregister_message)
        × (listed (process_client_message server_malloc d i unregister_message) ≡ (
            if (client_at d i).active then kept (client_at d i).client_id (listed d) else listed d))
  unfolding handle_command quit handle_unregister
  quit_unregisters server_malloc d i v line w read live =
      let sent = send_exact-Writes unregister_message w live in
      (
        rw (handle_command, read) refl,
        ap (λ out. out.1.shares) sent.returned,
        ap (λ out. out.1.socket.outgoing) sent.returned ∙ sent.outgoing,
        ap (λ after. listed after) (unregister_message_handled server_malloc d i)
            ∙ listed-remove_client d i (subst (λ n. d.num_files ≤ n) (sym v.entries) v.within),
      )

  -- On a line that is read as `share` of a file that the client can read, where the answer of a server with
  -- a full table comes back over a ready connection: the client does not go on without the file, but
  -- its loop ends, as after `quit`; its own table is not changed.
  pub share_refused_ends :
      (filename contents : List ℕ)
      → read_file filename ≡ some contents
      → length contents < 2 ^ 32
      → length (sha256 contents) ≡ 32
      → (server_malloc : ℕ → Bool) (d : Directory) (i : ℕ) → IsDirectory d
      → (w : World) → IsReady 296 8 w.socket
      → (rest : List ℕ)
      → (w.socket.incoming
          ≡ last_reply
              (process_client_message server_malloc d i
                (share_message (length contents) (sha256 contents) filename)).replies
            ++ rest)
      → max_files ≤ d.num_files
      → (line : List ℕ) → parse_command line ≡ share_file filename
      → (w' : World) × (handle_command udp_fd sendto malloc sha256 writable read_file line w
          ≡ some (false, quit w'))
        × (w'.shares ≡ w.shares)
        × (w'.socket.incoming ≡ rest)
  unfolding handle_command
  share_refused_ends filename contents got small digest server_malloc d i v w ready rest answered
        full line read =
      let (refused, same_table, left) =
        share_refused read_file sha256 filename contents got small digest server_malloc d i v w
          ready rest answered full in
      let after = (share read_file sha256 filename w).1 in
      (
        after,
        rw (handle_command, read)
            (ap (λ res. some (finish udp_fd sendto malloc sha256 writable read_file (res, after)))
              refused),
        same_table,
        left,
      )
