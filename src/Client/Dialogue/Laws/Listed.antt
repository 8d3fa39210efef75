-- ===== src/Client/Dialogue/Laws/Listed.antt =====
-- `list` of skeleton/client.c against the answers of skeleton/server.c.
use cpe_464_program.Base.{ℕ, ◌≡◌, Option, some, List}
use cpe_464_program.Directory.{Directory}
use cpe_464_program.Client.{World}
use cpe_464_program.Client.Dialogue.{Line}

-- What the list's body leads to.
record Lists (w : World) (lines : List Line) (rest : List ℕ) (out : Option (List Line) × World)
    : Type 0 where
  returned : out.0 ≡ some lines
  left : out.1.socket.incoming ≡ rest
