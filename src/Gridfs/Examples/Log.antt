-- ===== src/Gridfs/Examples/Log.antt =====
-- A server for the theorems on src/sync-gridfs-stream.c: it has the documents of the chunks of one
-- file in a list, and looks a chunk up by the number in the query.
use mathlib.Core.Option
use libmongo_client.Base.{
  ℕ, zero, suc, ◌+◌, ◌<◌, ◌%◌, ◌≡◌, refl, ap, sym, ◌∙◌, Option, Bool, true, false, none, some, List,
  [], ◌∷◌, ◌++◌, ◌⊎◌, inl, inr, arith, length, length-append, get_elem?, replicate, drop, drop_from,
  append_assoc, All, subst, if◌then◌else◌,
}
use libmongo_client.Base.Bytes.{le, length-le, read, read-le, bytes_eq, bytes_eq_self}
use libmongo_client.Base.Int.{word, half64}
use libmongo_client.Base.Errno.{Errno, eproto}
use libmongo_client.Bson.Object.{Bson}
use libmongo_client.Bson.Element.{Element, Value, framed, encode_all, encode, tag, payload}
use libmongo_client.Bson.Build.Appends.{document_of}
use libmongo_client.Wire.Packet.{Packet, op_reply}
use libmongo_client.Wire.Reply.{ReplyHeader}
use libmongo_client.Wire.Documents.{reply_body}
use libmongo_client.Gridfs.Server.{Server, GridFs}
use libmongo_client.Gridfs.Document.{files_id_key}
use libmongo_client.Gridfs.Document.Elements.{query_elements}
use libmongo_client.Gridfs.Reader.Load.{chunk_bytes, as_written, as_written-IsServed, IsChunk}
use libmongo_client.Gridfs.Reader.Reads.{Serves}
use libmongo_client.Gridfs.Writer.Chunks.{All-snoc}
use libmongo_client.Gridfs.Stored.{Storage}

abbrev pub one_returned : ReplyHeader
one_returned = record { flags = 8; cursor_id = 0; start = 0; returned = 1 }

abbrev pub id : List ℕ
id = replicate 12 7

abbrev pub gfs : GridFs
gfs = record { files_ns = 1 ∷ []; chunks_ns = 2 ∷ []; chunk_size = 2 }

abbrev pub bytes_of : Option Bson → List ℕ
bytes_of none = []
bytes_of (some b) = b.data_bytes

-- The number of the chunk that a query asks for.
abbrev pub asked : Option Bson → Option ℕ
asked doc = read 8 (drop 29 (bytes_of doc))

abbrev packet_with : List ℕ → Packet
packet_with doc = record {
  header = record { length_field = 0; id = 3; resp_to = 7; opcode = op_reply };
  payload_data = some (reply_body one_returned (doc ∷ []));
  data_size = 0;
}

unfoldable pub answer : Option (List ℕ) → Errno ⊎ Packet
answer none = inl eproto
answer (some doc) = inr (packet_with doc)

unfoldable pub look_up : List (List ℕ) → Option ℕ → Errno ⊎ Packet
look_up s none = inl eproto
look_up s (some n) = answer (get_elem? s n)

-- The documents of the chunks, and the document of the file.
abbrev pub ChunkLog : Type 0
ChunkLog = List (List ℕ) × List ℕ

unfoldable pub written : Bool → List ℕ → ChunkLog → ChunkLog
written true doc s = (s.0 ++ doc ∷ [], s.1)
written false doc s = (s.0, doc)

-- The field that files are looked for by.
abbrev pub named : Element
named = record { key = b'f' ∷ []; value = Value.string (b'x' ∷ []) }

unfoldable pub found : Bool → Option Bson → ChunkLog → Errno ⊎ Packet
found true doc s = look_up s.0 (asked doc)
found false doc s =
    if bytes_eq (bytes_of doc) (bytes_of (some (document_of (named ∷ []))))
    then inr (packet_with s.1)
    else inl eproto

abbrev pub log_server : Server ChunkLog
log_server = record {
  insert = λ ns doc s. (none, written (bytes_eq ns gfs.chunks_ns) (bytes_of doc) s);
  query = λ ns skip ret doc s. (found (bytes_eq ns gfs.chunks_ns) doc s, s);
}

All-get_elem? :
    (P : List ℕ → Type 0) (ds : List (List ℕ)) (n : ℕ) (d : List ℕ)
    → All P ds
    → get_elem? ds n ≡ some d
    → P d
All-get_elem? P [] n d h e = cc
All-get_elem? P (x ∷ ds) zero d h e = let same : x ≡ d = cc in subst P same h.0
All-get_elem? P (x ∷ ds) (suc n) d h e = All-get_elem? P ds n d h.1 e

unfoldable pub documents : ℕ → List (List ℕ) → List (List ℕ)
documents n [] = []
documents n (d ∷ ds) = chunk_bytes (as_written id) n d ∷ documents (suc n) ds

pub documents-snoc :
    (n : ℕ) (ds : List (List ℕ)) (d : List ℕ)
    → documents n ds ++ chunk_bytes (as_written id) (n + length ds) d ∷ []
      ≡ documents n (ds ++ d ∷ [])
unfolding documents
documents-snoc n [] d = ap (λ k. chunk_bytes (as_written id) k d ∷ []) (omega arith)
documents-snoc n (x ∷ ds) d =
    ap (λ z. chunk_bytes (as_written id) n x ∷ z)
      (ap (λ k. documents (suc n) ds ++ chunk_bytes (as_written id) k d ∷ []) (omega arith)
        ∙ documents-snoc (suc n) ds d)

get_elem?-documents :
    (n k : ℕ) (ds : List (List ℕ)) (d : List ℕ)
    → get_elem? ds k ≡ some d
    → (get_elem? (documents n ds) k ≡ some (chunk_bytes (as_written id) (n + k) d))
      × (k < length ds)
unfolding documents
get_elem?-documents n k [] d h = absurd (ground arith)
get_elem?-documents n zero (x ∷ ds) d h = (
  ap (λ (o : Option (List ℕ)). Option.map (λ y. chunk_bytes (as_written id) n y) o) h
      ∙ ap (λ j. some (chunk_bytes (as_written id) j d)) (omega arith),
  omega arith,
)
get_elem?-documents n (suc k) (x ∷ ds) d h =
    let r = get_elem?-documents (suc n) k ds d h in
    (r.0 ∙ ap (λ j. some (chunk_bytes (as_written id) j d)) (omega arith), omega (arith, r.1))

asked-query_elements :
    (n : ℕ) → n < half64 → asked (some (document_of (query_elements id n))) ≡ some n
unfolding encode_all encode tag payload word
asked-query_elements n small =
    ap (λ m. read 8 (drop 29 m)) (sym (append_assoc (le 4 total) front back))
    ∙ ap (read 8) (
        drop_from (le 4 total ++ front) back 29
          (omega (arith, length-append (le 4 total) front, length-le 4 total)))
    ∙ ap (read 8) (append_assoc (le 8 (n % (half64 + half64))) [] (0 ∷ []))
    ∙ read-le 8 (n % (half64 + half64)) (0 ∷ []) (omega arith)
    ∙ ap some (omega arith)
  where
    total : ℕ
    total = length (encode_all (query_elements id n)) + 5

    front : List ℕ
    front = 7 ∷ (files_id_key ++ 0 ∷ (id ++ 18 ∷ b'n' ∷ 0 ∷ []))

    back : List ℕ
    back = (le 8 (n % (half64 + half64)) ++ []) ++ 0 ∷ []

abbrev pub Logged : List (List ℕ) → ChunkLog → Type 0
Logged ds s = (s.0 ≡ documents 0 ds) × (length ds < half64) × All IsChunk ds

pub log_server-Serves : (ds : List (List ℕ)) → Serves log_server gfs (as_written id) ds (Logged ds)
unfolding answer look_up found bytes_eq
log_server-Serves ds n d s (holds, few, chunks) e =
    let r = get_elem?-documents 0 n ds d e in
    (
      packet_with (chunk_bytes (as_written id) n d),
      s,
      rw (asked-query_elements n (omega (arith, r.1))) (
          ap (λ c. (answer (get_elem? c n), s)) holds
          ∙ rw r.0
              (ap (λ j. (inr (packet_with (chunk_bytes (as_written id) j d)), s)) (omega arith))),
      (
        one_returned,
        (refl, refl),
        (omega arith, omega arith, omega arith, omega arith),
        omega arith,
        omega arith,
      ),
      as_written-IsServed id n d refl (omega (arith, few, r.1))
          (All-get_elem? IsChunk ds n d chunks e),
      (holds, few, chunks),
    )

unfoldable pub log_storage : Storage log_server gfs (as_written id) named
unfolding bytes_eq written found
log_storage = record {
  Holds = Logged;
  inserts = λ ns doc s. refl;
  adds = λ ds d s (holds, few, chunks) chunk more. (
    ap (λ z. z ++ chunk_bytes (as_written id) (length ds) d ∷ []) holds
        ∙ ap (λ k. documents 0 ds ++ chunk_bytes (as_written id) k d ∷ []) (omega arith)
        ∙ documents-snoc 0 ds d,
    omega (arith, length-append ds (d ∷ [])),
    All-snoc IsChunk ds d chunks chunk,
  );
  serves = log_server-Serves;
  finds = λ ds es s holds plain field. (
    packet_with (framed (encode_all es)),
    (s.0, framed (encode_all es)),
    rw (bytes_eq_self (bytes_of (some (document_of (named ∷ []))))) refl,
    (
      one_returned,
      (refl, refl),
      (omega arith, omega arith, omega arith, omega arith),
      omega arith,
      omega arith,
    ),
    holds,
  );
}
