-- ===== src/Tests/HandshakeRuns.antt =====
-- The handshake of src/zk/zookeeper.c.
use ext_zookeeper.Prelude.{refl, replicate, arith}
use ext_zookeeper.Handshake.{ConnectReq, PrimeStruct, SessionHandle}
use ext_zookeeper.Handshake.Layout.{IsPrime}

abbrev first_request : ConnectReq
first_request = record {
  protocol_version = 0;
  last_zxid_seen = 5;
  time_out = 10000;
  session_id = 77;
  passwd_len = 16;
  passwd = replicate 16 1;
}

abbrev pub answer : PrimeStruct
answer = record {
  len = 36;
  protocol_version = 0;
  time_out = 10000;
  session_id = 78;
  passwd_len = 16;
  passwd = replicate 16 1;
}

answer-IsPrime : IsPrime answer
answer-IsPrime = record {
  len = omega arith;
  protocol_version = omega arith;
  time_out = omega arith;
  session_id = omega arith;
  passwd_len = omega arith;
  passwd = refl;
}

-- The session 77 was lost, and the server has answered with the session 78.
abbrev pub old_session : SessionHandle
old_session = record { client_id = 77; passwd = replicate 16 1; recv_timeout = 10000 }

abbrev pub no_session : SessionHandle
no_session = record { client_id = 0; passwd = replicate 16 0; recv_timeout = 10000 }
