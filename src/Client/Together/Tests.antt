-- ===== src/Client/Together/Tests.antt =====
-- One client shares a file, and the other finds it.
use cpe_464_program.Base.{none, [], ◌++◌}
use cpe_464_program.Directory.Messages.{process_client_message}
use cpe_464_program.Directory.Requests.{last_reply}
use cpe_464_program.Directory.Tests.{joined}
use cpe_464_program.Client.{World}
use cpe_464_program.Client.Dialogue.{share, share_message, request_message}
use cpe_464_program.Client.Dialogue.Tests.{
  facing, text, name, on_disk, digest, sharing, server_malloc,
}
use cpe_464_program.Client.Owner.{Owner}

abbrev asking : World
asking = facing 8 306 (
    last_reply
      (process_client_message server_malloc
        (process_client_message server_malloc joined 0 (share_message 3 (digest text) name)) 1
        (request_message joined.next_file_id)).replies
    ++ [])

abbrev serving : Owner
serving = record {
  shares = (share on_disk digest name sharing).1.shares;
  transfer = none;
  stats = record { packets_sent = 0; packets_retransmitted = 0; acks_received = 0 };
  sent = [];
}
