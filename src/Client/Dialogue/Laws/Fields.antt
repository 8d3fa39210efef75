-- ===== src/Client/Dialogue/Laws/Fields.antt =====
-- The fields of the answers of skeleton/server.c, as skeleton/client.c reads them back.
use cpe_464_program.Base.{
  ℕ, ◌^◌, ◌<◌, ◌≡◌, refl, sym, ◌∙◌, ap, List, [], ◌∷◌, ◌++◌, map, arith, get_or, length,
  length-append, take, drop, take-append_eq, drop-append_eq, drop-drop, get_or-drop, take-all, All,
}
use mathlib.Core.Path.{ap₂}
use mathlib.Core.List.{append_assoc}
use cpe_464_program.Protocol.Udp.{be16, be32}
use cpe_464_program.Protocol.Udp.Laws.{be16-drop, be32-drop}
use cpe_464_program.Protocol.Tcp.{put32, put16, filename_of}
use cpe_464_program.Directory.{SharedFile, Client}
use cpe_464_program.Directory.Messages.{file_location, file_info, file_infos}
use cpe_464_program.Directory.Listing.{length-file_info}
use cpe_464_program.Directory.Requests.{length-filename_of}
use cpe_464_program.Client.Dialogue.{
  FileInfo, Location, decode_file_info, decode_location, decode_file_infos,
}

-- The fields of a file that is listed fit the messages.
pub record IsEncodable (f : SharedFile) : Type 0 where
  pub id_fits : f.file_id < 2 ^ 32
  pub size_fits : f.file_size < 2 ^ 32
  pub hash_fits : length f.hash ≡ 32

abbrev pub info_of : SharedFile → FileInfo
info_of f = record {
  file_id = f.file_id;
  file_size = f.file_size;
  hash = f.hash;
  num_peers = 1;
  filename = filename_of f.filename;
}

abbrev pub location_of : SharedFile → Client → Location
location_of f owner = record {
  file_id = f.file_id;
  file_size = f.file_size;
  hash = f.hash;
  peer_ip = owner.addr.ip;
  peer_port = owner.udp_port;
  filename = filename_of f.filename;
}

module _ (id size : ℕ) (hash name : List ℕ) (id_fits : id < 2 ^ 32) (size_fits : size < 2 ^ 32)
    (hash_fits : length hash ≡ 32) (name_fits : length name ≡ 256) where
  decode_file_info_lem :
      (rest : List ℕ)
      → decode_file_info (put32 id (put32 size (hash ++ (1 ∷ (name ++ rest)))))
        ≡ record { file_id = id; file_size = size; hash = hash; num_peers = 1; filename = name }
  decode_file_info_lem rest =
      let behind : drop 32 (hash ++ (1 ∷ (name ++ rest))) ≡ 1 ∷ (name ++ rest) =
        drop-append_eq 32 hash (1 ∷ (name ++ rest)) (sym hash_fits) in
      let peers : get_or (hash ++ (1 ∷ (name ++ rest))) 32 0 ≡ 1 =
        sym (get_or-drop 32 0 (hash ++ (1 ∷ (name ++ rest))) 0) ∙ ap (λ p. get_or p 0 0) behind in
      let named : take 256 (drop 33 (hash ++ (1 ∷ (name ++ rest)))) ≡ name =
        ap (take 256) (sym (drop-drop 32 1 (hash ++ (1 ∷ (name ++ rest)))) ∙ ap (drop 1) behind)
        ∙ take-append_eq 256 name rest (sym name_fits) in
      ground (arith, take-append_eq 32 hash (1 ∷ (name ++ rest)) (sym hash_fits), peers, named)

  decode_location_lem :
      (ip port : ℕ)
      → ip < 2 ^ 32
      → port < 2 ^ 16
      → decode_location (put32 id (put32 size (hash ++ put32 ip (put16 port name)))) ≡ record {
        file_id = id;
        file_size = size;
        hash = hash;
        peer_ip = ip;
        peer_port = port;
        filename = name;
      }
  decode_location_lem ip port ip_fits port_fits =
      let body = hash ++ put32 ip (put16 port name) in
      let behind : drop 32 body ≡ put32 ip (put16 port name) =
        drop-append_eq 32 hash (put32 ip (put16 port name)) (sym hash_fits) in
      let at : be32 body 32 ≡ ip = be32-drop 32 body ∙ ap (λ p. be32 p 0) behind ∙ omega arith in
      let through : be16 body 36 ≡ port =
        be16-drop 36 body
        ∙ ap (λ p. be16 p 0) (sym (drop-drop 32 4 body) ∙ ap (drop 4) behind)
        ∙ omega arith in
      let named : take 256 (drop 38 body) ≡ name =
        ap (take 256) (sym (drop-drop 32 6 body) ∙ ap (drop 6) behind)
        ∙ take-all 256 name (omega (arith, name_fits)) in
      ground (
        arith,
        take-append_eq 32 hash (put32 ip (put16 port name)) (sym hash_fits),
        at,
        through,
        named,
      )

pub decode_location-file_location :
    (f : SharedFile) (owner : Client)
    → IsEncodable f
    → owner.addr.ip < 2 ^ 32
    → owner.udp_port < 2 ^ 16
    → decode_location (file_location f owner) ≡ location_of f owner
decode_location-file_location f owner v ip port =
    decode_location_lem f.file_id f.file_size f.hash (filename_of f.filename) v.id_fits v.size_fits
      v.hash_fits (length-filename_of f.filename) owner.addr.ip owner.udp_port ip port

pub decode_file_infos-file_infos :
    (files : List SharedFile)
    → All IsEncodable files
    → decode_file_infos (length files) (file_infos files) ≡ map info_of files
decode_file_infos-file_infos [] v = refl
decode_file_infos-file_infos (f ∷ files) v =
    ap₂ (λ a infos. a ∷ infos)
      (ap (λ body. decode_file_info (put32 f.file_id (put32 f.file_size body)))
          (append_assoc f.hash (1 ∷ filename_of f.filename) (file_infos files))
        ∙ decode_file_info_lem f.file_id f.file_size f.hash (filename_of f.filename) v.0.id_fits
            v.0.size_fits v.0.hash_fits (length-filename_of f.filename) (file_infos files))
      (ap (decode_file_infos (length files)) (
          drop-append_eq 297 (file_info f) (file_infos files)
            (sym (length-file_info f v.0.hash_fits)))
        ∙ decode_file_infos-file_infos files v.1)

pub length-file_location :
    (f : SharedFile) (owner : Client) → IsEncodable f → length (file_location f owner) ≡ 302
length-file_location f owner v = omega (
  arith,
  length-append f.hash (put32 owner.addr.ip (put16 owner.udp_port (filename_of f.filename))),
  length-filename_of f.filename,
  v.hash_fits,
)
