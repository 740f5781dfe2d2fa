-- ===== src/Handshake/Layout.antt =====
-- The bytes of the handshake, and what its end makes of a handle.
use ext_zookeeper.Prelude.{
  ℕ, ◌+◌, ◌≤◌, ◌≡◌, sym, ◌∙◌, ap, ap₂, Option, some, List, [], ◌∷◌, ◌++◌, length, take, drop,
  le→leb, arith, take_all, length-append,
}
use mathlib.Core.List.{append-nil, append_assoc}
use ext_zookeeper.Prelude.Bytes.{IsInt32, IsInt64, of_le, be}
use ext_zookeeper.Recordio.{htonl, zoo_htonll, store, fetch, le-htonl, le-zoo_htonll}
use ext_zookeeper.Recordio.Input.{htonl-be, zoo_htonll-be}
use ext_zookeeper.Recordio.Growth.{length-stored, take-stored}
use ext_zookeeper.Handshake.Defs.{
  ConnectReq, PrimeStruct, put_pieces, with_piece, serialize_prime_connect,
  deserialize_prime_response, handshake_req_size,
}

abbrev joined : List (List ℕ) → List ℕ
joined [] = []
joined (piece ∷ pieces) = piece ++ joined pieces

-- Pieces that fill a buffer from `offset` to its end stand behind what is in front of `offset`.
put_pieces_lem :
    (pieces : List (List ℕ)) (offset : ℕ) (buffer : List ℕ)
    → offset + length (joined pieces) ≡ length buffer
    → put_pieces pieces offset buffer ≡ some (take offset buffer ++ joined pieces)
unfolding put_pieces store
put_pieces_lem [] offset buffer h =
    ap some (sym (take_all buffer offset (omega arith)) ∙ sym (append-nil _))
put_pieces_lem (piece ∷ pieces) offset buffer h =
    let buffer' = take offset buffer ++ (piece ++ drop (offset + length piece) buffer) in
    let fits : offset + length piece ≤ length buffer =
      omega (arith, length-append piece (joined pieces)) in
    rw (le→leb _ _ fits, put_pieces)
      (put_pieces_lem pieces (offset + length piece) buffer' (
          omega
            (arith, length-append piece (joined pieces), length-stored buffer piece offset fits))
        ∙ ap (λ l. some (l ++ joined pieces)) (take-stored buffer piece offset fits)
        ∙ ap some (append_assoc (take offset buffer) piece (joined pieces)))

-- serialize_prime_connect fills a buffer of 44 bytes, of which none is left as it was, with the
-- fields one behind the other, numbers in network order, when the password has 16 bytes.
pub serialize_prime_connect-bytes :
    (req : ConnectReq) (buffer : List ℕ)
    → length req.passwd ≡ 16
    → length buffer ≡ handshake_req_size
    → serialize_prime_connect req buffer
      ≡ some (
          be 4 req.protocol_version
          ++ (be 8 req.last_zxid_seen
              ++ (be 4 req.time_out
                  ++ (be 8 req.session_id ++ (be 4 req.passwd_len ++ req.passwd)))))
unfolding serialize_prime_connect
serialize_prime_connect-bytes req buffer h k =
    put_pieces_lem _ 0 buffer (omega (arith, length-append req.passwd [], h, k))
    ∙ ap some (
        ap₂ ◌++◌ (le-htonl req.protocol_version) (
          ap₂ ◌++◌ (le-zoo_htonll req.last_zxid_seen) (
            ap₂ ◌++◌ (le-htonl req.time_out) (
              ap₂ ◌++◌ (le-zoo_htonll req.session_id)
                (ap₂ ◌++◌ (le-htonl req.passwd_len) (append-nil req.passwd))))))

-- The answer of a server, as the client reads it.
abbrev pub prime_bytes : PrimeStruct → List ℕ
prime_bytes p =
    be 4 p.len
    ++ (be 4 p.protocol_version
        ++ (be 4 p.time_out ++ (be 8 p.session_id ++ (be 4 p.passwd_len ++ p.passwd))))

pub record IsPrime (p : PrimeStruct) : Type 0 where
  pub len : IsInt32 p.len
  pub protocol_version : IsInt32 p.protocol_version
  pub time_out : IsInt32 p.time_out
  pub session_id : IsInt64 p.session_id
  pub passwd_len : IsInt32 p.passwd_len
  pub passwd : length p.passwd ≡ 16

fields :
    (p : PrimeStruct)
    → IsPrime p
    → ◌≡◌ {A = Option PrimeStruct}
        (some (record {
          len = htonl (of_le (be 4 p.len));
          protocol_version = htonl (of_le (be 4 p.protocol_version));
          time_out = htonl (of_le (be 4 p.time_out));
          session_id = zoo_htonll (of_le (be 8 p.session_id));
          passwd_len = htonl (of_le (be 4 p.passwd_len));
          passwd = take 16 p.passwd;
        }))
        (some p)
fields p v = λ i. some (record {
  len = htonl-be p.len v.len i;
  protocol_version = htonl-be p.protocol_version v.protocol_version i;
  time_out = htonl-be p.time_out v.time_out i;
  session_id = zoo_htonll-be p.session_id v.session_id i;
  passwd_len = htonl-be p.passwd_len v.passwd_len i;
  passwd = take_all p.passwd 16 (omega (arith, v.passwd)) i;
})

with_piece_lem :
    (at n : ℕ) (block : List ℕ) (rest : List ℕ → Option PrimeStruct)
    → at + n ≤ length block
    → with_piece at n block rest ≡ rest (take n (drop at block))
unfolding with_piece fetch
with_piece_lem at n block rest h = rw (le→leb _ _ h, with_piece)

-- deserialize_prime_response reads every field of an answer of 40 bytes back, and nothing outside
-- them, when the numbers fit their words and the password has 16 bytes.
pub deserialize_prime_response-bytes :
    (p : PrimeStruct) → IsPrime p → deserialize_prime_response (prime_bytes p) ≡ some p
unfolding deserialize_prime_response
deserialize_prime_response-bytes p v =
    piece 0 4 _ (omega arith)
    ∙ piece 4 4 _ (omega arith)
    ∙ piece 8 4 _ (omega arith)
    ∙ piece 12 8 _ (omega arith)
    ∙ piece 20 4 _ (omega arith)
    ∙ piece 24 16 _ (omega arith)
    ∙ fields p v
  where
    piece :
        (at n : ℕ) (rest : List ℕ → Option PrimeStruct)
        → at + n ≤ 40
        → with_piece at n (prime_bytes p) rest ≡ rest (take n (drop at (prime_bytes p)))
    piece at n rest h = with_piece_lem at n (prime_bytes p) rest (omega (arith, v.passwd, h))
