-- ===== src/Client/Get/Keeps.antt =====
-- What the questions to the server in skeleton/client.c leave as it is.
use cpe_464_program.Base.{
  ℕ, ◌≡◌, refl, ◌∙◌, ap, Bool, true, false, not, Option, none, some, List, ◌==◌, get_or,
}
use cpe_464_program.Protocol.Udp.{be16}
use cpe_464_program.Protocol.Tcp.{
  tcp_error, tcp_file_location, sizeof_tcp_file_location, sizeof_tcp_header,
}
use cpe_464_program.Client.{World, Action, continue, recv_exact, send_exact, guard}
use cpe_464_program.Client.Dialogue.{
  decode_location, locate, recv_reply, recv_body, request_message,
}

-- An action that changes the connection to the server alone.
abbrev pub Keeps {ℓ} : {A : Type ℓ} → Action A → Type 0
Keeps m = (w : World) → (m w).1 ≡ record w { socket = (m w).1.socket }

continue-Keeps {ℓ κ} :
    {A : Type ℓ} {B : Type κ} (w : World) (out : Option A × World) (f : A → Action B)
    → out.1 ≡ record w { socket = out.1.socket }
    → ((a : A) → Keeps (f a))
    → (continue out f).1 ≡ record w { socket = (continue out f).1.socket }
continue-Keeps w (none, u) f first then = first
continue-Keeps w (some a, u) f first then =
    then a u ∙ ap {A = World} (λ v. record v { socket = (f a u).1.socket }) first

pub guard-Keeps : (b : Bool) → Keeps (guard b)
guard-Keeps true w = refl
guard-Keeps false w = refl

pub recv_exact-Keeps : (len : ℕ) → Keeps (recv_exact len)
unfolding recv_exact
recv_exact-Keeps len w = refl

pub send_exact-Keeps : (bytes : List ℕ) → Keeps (send_exact bytes)
unfolding send_exact
send_exact-Keeps bytes w = refl

pub recv_body-Keeps : (kind len : ℕ) (header : List ℕ) → Keeps (recv_body kind len header)
recv_body-Keeps kind len header w =
    continue-Keeps w (guard (not (get_or header 0 0 == tcp_error)) w) _
      (guard-Keeps (not (get_or header 0 0 == tcp_error)) w)
      (λ u w1.
        continue-Keeps w1 (guard (get_or header 0 0 == kind) w1) _
          (guard-Keeps (get_or header 0 0 == kind) w1)
          (λ u w2.
            continue-Keeps w2 (guard (be16 header 2 == len) w2) _
              (guard-Keeps (be16 header 2 == len) w2) (λ u. recv_exact-Keeps len)))

pub locate-Keeps : (file_id : ℕ) → Keeps (locate file_id)
unfolding locate recv_reply
locate-Keeps file_id w =
    continue-Keeps w (send_exact (request_message file_id) w) _
      (send_exact-Keeps (request_message file_id) w)
      (λ u w1.
        continue-Keeps w1 (recv_reply tcp_file_location sizeof_tcp_file_location w1) _
          (continue-Keeps w1 (recv_exact sizeof_tcp_header w1)
            (recv_body tcp_file_location sizeof_tcp_file_location)
            (recv_exact-Keeps sizeof_tcp_header w1)
            (recv_body-Keeps tcp_file_location sizeof_tcp_file_location))
          (λ body w2.
            continue-Keeps w2 (guard (file_id == (decode_location body).file_id) w2) _
              (guard-Keeps (file_id == (decode_location body).file_id) w2) (λ u w3. refl)))
