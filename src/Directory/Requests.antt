-- ===== src/Directory/Requests.antt =====
-- The requests that clients send, as `process_client_message` of skeleton/server.c takes them apart.
use cpe_464_program.Base.{
  ℕ, ◌+◌, ◌^◌, ◌≤◌, ◌<◌, ◌≡◌, refl, sym, ◌∙◌, ap, Bool, true, false, List, [], ◌∷◌, ◌++◌, arith,
  ltb, leb, ◌==◌, length, take, drop, length-append, take-append_eq, drop-append_eq, take-all,
}
use cpe_464_program.Protocol.Udp.{byte, be16, be32}
use cpe_464_program.Protocol.Tcp.{
  tcp_share_ack, err_invalid_msg, ShareFile, decode_share_file, tcp_message, err_none, put16, put32,
  filename_of, strncpy,
}
use cpe_464_program.Directory.{Directory, Reply, max_files}
use cpe_464_program.Directory.Listing.{length-strncpy}
use cpe_464_program.Directory.Messages.{
  error_reply, dispatch, process_client_message, handle_register, handle_share_file,
  handle_list_files, handle_request_file, handle_unregister,
}
use cpe_464_program.Client.Dialogue.{
  register_message, share_message, list_message, request_message, unregister_message,
}

-- A message whose header declares the length of its body is dispatched by its kind.
process_client_message-tcp_message :
    (malloc : ℕ → Bool) (d : Directory) (i kind len : ℕ) (body : List ℕ)
    → kind < 256
    → length body ≡ len
    → len < 2 ^ 16
    → process_client_message malloc d i (tcp_message kind err_none len body)
      ≡ dispatch malloc d i kind len body
unfolding process_client_message
process_client_message-tcp_message malloc d i kind len body small fits short =
    let declared : be16 (tcp_message kind err_none len body) 2 ≡ len = omega arith in
    let long : ltb (length (tcp_message kind err_none len body)) 4 ≡ false = ground arith in
    let whole : (4 + len == length (tcp_message kind err_none len body)) ≡ true =
      ground (arith, fits) in
    let same : byte kind 0 ≡ kind = omega arith in
    rw (declared, long, whole, same, process_client_message) refl

pub length-filename_of : (name : List ℕ) → length (filename_of name) ≡ 256
length-filename_of name =
    omega (arith, length-append (strncpy 255 name) (0 ∷ []), length-strncpy 255 name)

pub be32-put32 : (v : ℕ) (rest : List ℕ) → v < 2 ^ 32 → be32 (put32 v rest) 0 ≡ v
be32-put32 v rest h = omega arith

-- The fields of the request to share are read back.
decode_share_file_lem :
    (size : ℕ) (hash name : List ℕ)
    → size < 2 ^ 32
    → length hash ≡ 32
    → decode_share_file (put32 size (hash ++ filename_of name))
      ≡ record { file_size = size; hash = hash; filename = filename_of name }
decode_share_file_lem size hash name small long =
    ap
      (λ n. record {
        file_size = n;
        hash = take 32 (hash ++ filename_of name);
        filename = take 256 (drop 32 (hash ++ filename_of name));
      })
      (be32-put32 size (hash ++ filename_of name) small)
    ∙ ap
        (λ h. record {
          file_size = size;
          hash = h;
          filename = take 256 (drop 32 (hash ++ filename_of name));
        })
        (take-append_eq 32 hash (filename_of name) (sym long))
    ∙ ap (λ n. record { file_size = size; hash = hash; filename = n })
        (ap (take 256) (drop-append_eq 32 hash (filename_of name) (sym long))
          ∙ take-all 256 (filename_of name) (omega (arith, length-filename_of name)))

module _ (malloc : ℕ → Bool) (d : Directory) (i : ℕ) where
  pub share_message_handled :
      (size : ℕ) (hash name : List ℕ)
      → size < 2 ^ 32
      → length hash ≡ 32
      → process_client_message malloc d i (share_message size hash name)
        ≡ handle_share_file d i
            (record { file_size = size; hash = hash; filename = filename_of name })
  unfolding dispatch
  share_message_handled size hash name small long =
      process_client_message-tcp_message malloc d i 3 292 (put32 size (hash ++ filename_of name))
        (omega arith)
        (omega (arith, length-append hash (filename_of name), length-filename_of name))
        (omega arith)
      ∙ ap (handle_share_file d i) (decode_share_file_lem size hash name small long)

  pub request_message_handled :
      (file_id : ℕ)
      → file_id < 2 ^ 32
      → process_client_message malloc d i (request_message file_id)
        ≡ handle_request_file d i file_id
  unfolding dispatch
  request_message_handled file_id small =
      process_client_message-tcp_message malloc d i 7 4 (put32 file_id []) (omega arith) refl
        (omega arith)
      ∙ ap (handle_request_file d i) (be32-put32 file_id [] small)

  pub list_message_handled :
      process_client_message malloc d i list_message ≡ handle_list_files malloc d i
  unfolding dispatch
  list_message_handled =
      process_client_message-tcp_message malloc d i 5 0 [] (omega arith) refl (omega arith)

  pub register_message_handled :
      (udp_port : ℕ)
      → udp_port < 2 ^ 16
      → process_client_message malloc d i (register_message udp_port) ≡ handle_register d i udp_port
  unfolding dispatch
  register_message_handled udp_port small =
      process_client_message-tcp_message malloc d i 1 2 (put16 udp_port []) (omega arith) refl
        (omega arith)
      ∙ ap (handle_register d i) (omega arith)

  pub unregister_message_handled :
      process_client_message malloc d i unregister_message ≡ handle_unregister d i
  unfolding dispatch
  unregister_message_handled =
      process_client_message-tcp_message malloc d i 9 0 [] (omega arith) refl (omega arith)

-- The bytes of the last reply.
abbrev pub last_reply : List Reply → List ℕ
last_reply [] = []
last_reply (r ∷ []) = r.bytes
last_reply (r ∷ s ∷ replies) = last_reply (s ∷ replies)

pub last_reply-append :
    (replies : List Reply) (r : Reply) → last_reply (replies ++ (r ∷ [])) ≡ r.bytes
last_reply-append [] r = refl
last_reply-append (a ∷ []) r = refl
last_reply-append (a ∷ b ∷ replies) r = last_reply-append (b ∷ replies) r

pub last_reply-handle_share_file :
    (d : Directory) (i : ℕ) (share : ShareFile)
    → d.num_files < max_files
    → last_reply (handle_share_file d i share).replies
      ≡ tcp_message tcp_share_ack err_none 4 (put32 d.next_file_id [])
unfolding handle_share_file
last_reply-handle_share_file d i share room =
    let space : leb max_files d.num_files ≡ false = ground arith in
    rw (space, handle_share_file) (last_reply-append d.replies _)

pub last_reply-handle_share_file_full :
    (d : Directory) (i : ℕ) (share : ShareFile)
    → max_files ≤ d.num_files
    → last_reply (handle_share_file d i share).replies ≡ error_reply err_invalid_msg
unfolding handle_share_file
last_reply-handle_share_file_full d i share full =
    let no_space : leb max_files d.num_files ≡ true = ground arith in
    rw (no_space, handle_share_file) (last_reply-append d.replies _)
