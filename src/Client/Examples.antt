-- ===== src/Client/Examples.antt =====
-- The theorems of Client at concrete inputs.
use libmongo_client.Base.{
  ℕ, ◌+◌, ◌≡◌, refl, ap, sym, ◌∙◌, some, List, [], ◌∷◌, ◌++◌, arith, length, drop, take?,
  take?_from, drop_from, leb, true, inr,
}
use libmongo_client.Base.Int.{pos}
use libmongo_client.Base.Errno.{no_error}
use libmongo_client.Base.Run.{gives}
use libmongo_client.Client.{Conn, Net}
use libmongo_client.Client.Open.{mongo_connect}
use libmongo_client.Client.Descriptors.{Tracks, Opens, mongo_connect-Opens}
use libmongo_client.Client.Exchange.{
  IsStream, Parcel, packet_in, send_all, receive_all, receive_all-send_all,
}

-- All sockets are the ends of one pipe: the bytes that were sent and not received yet.
abbrev pipe : Net (List ℕ)
pipe = record {
  sendmsg = λ fd bytes w. ((some (length bytes), no_error), w ++ bytes);
  recv = λ fd n w. ((take? n w, no_error), drop n w);
  getaddrinfo = λ host port w. (inr [], w);
  socket = λ family socktype protocol w. (some 3, w);
  connect = λ fd addr w. (true, w);
  close_fd = λ fd w. w;
  nodelay = λ fd w. w;
}

pipe-IsStream : IsStream pipe (λ w. w)
pipe-IsStream = record {
  sends = λ fd bytes w. refl;
  carries = λ fd bytes w. refl;
  receives = λ fd n bytes rest w counted e.
      ap (λ o. (o, no_error)) (ap (take? n) e ∙ take?_from bytes rest n (sym counted));
  takes = λ fd n bytes rest w counted e. ap (drop n) e ∙ drop_from bytes rest n (sym counted);
}

abbrev near : Conn
near = record { fd = pos 3; request_id = 0 }

abbrev far : Conn
far = record { fd = pos 4; request_id = 0 }

abbrev hello : Parcel
hello = record {
  id = 7;
  resp_to = 0;
  opcode = 2004;
  first = 1;
  others = 2 ∷ 3 ∷ [];
  id_fits = omega arith;
  resp_to_fits = omega arith;
  opcode_fits = omega arith;
  small = omega arith;
}

abbrev again : Parcel
again = record {
  id = 8;
  resp_to = 7;
  opcode = 1;
  first = 0;
  others = [];
  id_fits = omega arith;
  resp_to_fits = omega arith;
  opcode_fits = omega arith;
  small = omega arith;
}

receive_all-send_all_example :
    (s : Conn × List ℕ) × (send_all pipe (hello ∷ again ∷ []) near [] ≡ gives tt s)
    × (w : List ℕ) × (receive_all pipe 2 far (s.1)
        ≡ gives (packet_in hello ∷ packet_in again ∷ []) w)
    × (w ≡ [])
receive_all-send_all_example =
    receive_all-send_all pipe (λ w. w) pipe-IsStream (hello ∷ again ∷ []) near far [] 3 4 refl refl
      refl

-- The state is the list of the open descriptors; of the two addresses of a host the first refuses.
abbrev ledger : Net (List ℕ)
ledger = record pipe {
  getaddrinfo = λ host port w. (
    inr (
        record { family = 2; socktype = 1; protocol = 6; addr = 9 ∷ [] }
        ∷ record { family = 2; socktype = 1; protocol = 6; addr = 127 ∷ 1 ∷ [] }
        ∷ []),
    w,
  );
  socket = λ family socktype protocol w. (some (length w + 3), (length w + 3) ∷ w);
  connect = λ fd addr w. (leb 2 (length addr), w);
  close_fd = λ fd w. drop 1 w;
}

ledger-Tracks : Tracks ledger (λ w. w)
ledger-Tracks = record {
  socket_opens = λ f t p n w h. cc;
  socket_fails = λ f t p w h. cc;
  connect_keeps = λ fd addr w. refl;
  getaddrinfo_keeps = λ host port w. refl;
  nodelay_keeps = λ fd w. refl;
  close_drops = λ fd rest w e. ap (drop 1) e;
}

abbrev localhost : List ℕ
localhost = b'l' ∷ b'o' ∷ []

mongo_connect-Opens_example :
    Opens ledger
      (λ w. w)
      ledger-Tracks
      (3 ∷ [])
      (mongo_connect ledger (some localhost) (pos 27017) (3 ∷ []))
mongo_connect-Opens_example =
    mongo_connect-Opens ledger (λ w. w) ledger-Tracks (some localhost) (pos 27017) (3 ∷ [])
