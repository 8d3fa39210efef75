-- ===== src/Transfer/Session/Progress.antt =====
-- How a session of skeleton/selective_repeat.c goes on from a state that it has reached.
use cpe_464_program.Base.{Option}
use cpe_464_program.Transfer.Sender.{Sender}
use cpe_464_program.Transfer.Receiver.{Receiver}
use cpe_464_program.Transfer.Session.{Session}
