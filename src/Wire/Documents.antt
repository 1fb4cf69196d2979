-- ===== src/Wire/Documents.antt =====
-- The documents of a reply: src/mongo-wire.c reads back what a server puts into the payload.
use libmongo_client.Base.{
  ℕ, suc, ◌+◌, ◌-◌, ◌%◌, ◌^◌, ◌<◌, ◌≡◌, refl, ap, sym, ◌∙◌, true, false, some, List, [], ◌∷◌, ◌++◌,
  append_assoc, arith, length, length-append, All, All-append, eq→==, lt→leb, le→leb, le→ltb, ne→==,
  drop, drop_from, take?, take?_from,
}
use libmongo_client.Base.Bytes.{le, length-le, read, read-le}
use libmongo_client.Base.Int.{pos, half32, slt}
use libmongo_client.Base.Call.{returns, need, ◌>>=◌}
use libmongo_client.Bson.Object.{finish}
use libmongo_client.Bson.Element.{framed, IsFramed}
use libmongo_client.Bson.Build.Appends.{closed, open_with, close-open}
use libmongo_client.Bson.Cursor.BlockSize.{length-framed}
use libmongo_client.Wire.Packet.{Packet, get_data, op_reply}
use libmongo_client.Wire.Batches.{flat}
use libmongo_client.Wire.Reply.{
  ReplyHeader, forward, reply_get_header, reply_get_data, doc_size_at, skip_documents, document_at,
  reply_get_nth_document,
}

-- The payload of a reply.
abbrev pub reply_body : ReplyHeader → List (List ℕ) → List ℕ
reply_body h ds =
    le 4 h.flags ++ (le 8 h.cursor_id ++ (le 4 h.start ++ (le 4 h.returned ++ flat ds)))

abbrev pub IsReplyHeader : ReplyHeader → Type 0
IsReplyHeader h =
    (h.flags < 2 ^ 32) × (h.cursor_id < 2 ^ 64) × (h.start < 2 ^ 32) × (h.returned < 2 ^ 32)

-- A reply packet with this payload.
abbrev pub IsReply : Packet → List ℕ → Type 0
IsReply p body = (p.header.opcode ≡ op_reply) × (p.payload_data ≡ some body)

forward-append : (xs ys : List ℕ) (n : ℕ) → n ≡ length xs → forward n (xs ++ ys) ≡ some ys
unfolding forward
forward-append xs ys n h =
    rw (le→leb n (length (xs ++ ys)) (omega (arith, length-append xs ys)))
      (ap some (drop_from xs ys n h))

read-IsFramed : (d back : List ℕ) → IsFramed d → read 4 (d ++ back) ≡ some (length d)
read-IsFramed d back (body, e, h) =
    ap (λ x. read 4 (x ++ back)) e
    ∙ ap (read 4) (append_assoc (le 4 (length body + 5)) (body ++ 0 ∷ []) back)
    ∙ read-le 4 (length body + 5) _ (omega arith)
    ∙ ap some (omega (arith, ap length e, length-framed body))

-- The four bytes of the size of the document at `p`.
doc_size_at-IsFramed :
    (front d back : List ℕ) (p : ℕ)
    → IsFramed d
    → p ≡ length front
    → p < half32
    → doc_size_at (front ++ (d ++ back)) p ≡ returns (length d)
unfolding doc_size_at
doc_size_at-IsFramed front d back p h hp small =
    rw (lt→leb half32 p small)
      (rw (forward-append front (d ++ back) p hp) (ap need (read-IsFramed d back h)))

-- The fields behind the first one.
module _ (h : ReplyHeader) (rest : List ℕ) where
  abbrev fields : List ℕ
  fields = le 4 h.flags ++ (le 8 h.cursor_id ++ (le 4 h.start ++ (le 4 h.returned ++ rest)))

  drop_four : drop 4 fields ≡ le 8 h.cursor_id ++ (le 4 h.start ++ (le 4 h.returned ++ rest))
  unfolding le
  drop_four = refl

  drop_twelve : drop 12 fields ≡ le 4 h.start ++ (le 4 h.returned ++ rest)
  unfolding le
  drop_twelve = refl

  drop_sixteen : drop 16 fields ≡ le 4 h.returned ++ rest
  unfolding le
  drop_sixteen = refl

  forward_twenty : forward 20 fields ≡ some rest
  unfolding le
  forward_twenty =
      forward-append (le 4 h.flags ++ (le 8 h.cursor_id ++ (le 4 h.start ++ le 4 h.returned))) rest
        20 refl

-- `mongo_wire_reply_packet_get_header` returns the fields that the payload of a reply starts
-- with, each of which fits its width.
pub reply_get_header-body :
    (p : Packet) (h : ReplyHeader) (ds : List (List ℕ))
    → IsReply p (reply_body h ds)
    → IsReplyHeader h
    → reply_get_header (some p) ≡ returns h
unfolding reply_get_header get_data
reply_get_header-body p h ds r v = rw (eq→== p.header.opcode op_reply r.0) (
    rw r.1 (
      rw
        (
          drop_four h (flat ds),
          drop_twelve h (flat ds),
          drop_sixteen h (flat ds),
          read-le 4 h.flags _ v.0,
        )
        (rw (read-le 8 h.cursor_id _ v.1)
          (rw (read-le 4 h.start _ v.2) (rw (read-le 4 h.returned _ v.3))))))

reply_get_data-body :
    (p : Packet) (h : ReplyHeader) (ds : List (List ℕ))
    → IsReply p (reply_body h ds)
    → reply_get_data (some p) ≡ returns (flat ds)
unfolding reply_get_data get_data
reply_get_data-body p h ds r =
    rw (eq→== p.header.opcode op_reply r.0) (rw r.1 (ap need (forward_twenty h (flat ds))))

skip_documents_step :
    (n : ℕ) (m : List ℕ) (p s : ℕ)
    → doc_size_at m p ≡ returns s
    → skip_documents (suc n) m p ≡ skip_documents n m ((p + s) % 2 ^ 32)
unfolding skip_documents
skip_documents_step n m p s e = rw e

skip_documents-flat :
    (front : List (List ℕ)) (done back : List ℕ) (p : ℕ)
    → All IsFramed front
    → p ≡ length done
    → p + length (flat front) < half32
    → skip_documents (length front) (done ++ (flat front ++ back)) p
      ≡ returns (p + length (flat front))
unfolding skip_documents
skip_documents-flat [] done back p h hp small = ap returns (omega arith)
skip_documents-flat (d ∷ front) done back p h hp small =
    let step : (p + length d) % 2 ^ 32 ≡ p + length d =
      omega (arith, length-append d (flat front)) in
    ap (λ m. skip_documents (suc (length front)) (done ++ m) p) (append_assoc d (flat front) back)
    ∙ skip_documents_step (length front) (done ++ (d ++ (flat front ++ back))) p (length d)
        (doc_size_at-IsFramed done d (flat front ++ back) p h.0 hp (omega arith))
    ∙ ap (skip_documents (length front) (done ++ (d ++ (flat front ++ back)))) step
    ∙ ap (λ m. skip_documents (length front) m (p + length d))
        (sym (append_assoc done d (flat front ++ back)))
    ∙ skip_documents-flat front (done ++ d) back (p + length d) h.1
        (omega (arith, length-append done d)) (omega (arith, length-append d (flat front)))
    ∙ ap returns (omega (arith, length-append d (flat front)))

-- `document_at` from what it reads.
document_at_step :
    (m mem bytes : List ℕ) (p s n : ℕ)
    → doc_size_at m p ≡ returns s
    → p < half32
    → forward p m ≡ some mem
    → (s + 2 ^ 32 - 1) % 2 ^ 32 ≡ n
    → 0 < n
    → n < half32
    → take? n mem ≡ some bytes
    → document_at m p ≡ returns (some (open_with bytes))
unfolding document_at
document_at_step m mem bytes p s n es small em en pos_n small_n et =
    rw (es, lt→leb half32 p small)
      (rw em (rw en (rw (ne→== n 0 (omega arith), lt→leb half32 n small_n) (rw et))))

document_at-IsFramed :
    (front d back : List ℕ)
    → IsFramed d
    → length front + length d < half32
    → (document_at (front ++ (d ++ back)) (length front) >>= λ b. returns (finish b))
      ≡ returns (some (closed d), true)
unfolding finish
document_at-IsFramed front d back (body, e, hs) small =
    ap (λ b. b >>= λ x. returns (finish x))
      (document_at_step (front ++ (d ++ back)) (d ++ back) (le 4 (length body + 5) ++ body)
        (length front) (length d) (length body + 4)
        (doc_size_at-IsFramed front d back (length front) (body, e, hs) refl (omega arith))
        (omega arith) (forward-append front (d ++ back) (length front) refl)
        (omega (arith, ap length e, length-framed body)) (omega arith) (omega arith) taken)
    ∙ ap (λ b. returns (some b, true)) (close-open (length body + 5) body ∙ ap closed (sym e))
  where
    taken : take? (length body + 4) (d ++ back) ≡ some (le 4 (length body + 5) ++ body)
    taken =
        ap (λ x. take? (length body + 4) (x ++ back)) e
        ∙ ap (take? (length body + 4)) regroup
        ∙ take?_from (le 4 (length body + 5) ++ body) (0 ∷ back) (length body + 4) (
            omega
              (arith, length-append (le 4 (length body + 5)) body, length-le 4 (length body + 5)))
      where
        regroup : framed body ++ back ≡ (le 4 (length body + 5) ++ body) ++ (0 ∷ back)
        regroup = simp append_assoc

flat-append : (xs ys : List (List ℕ)) → flat (xs ++ ys) ≡ flat xs ++ flat ys
flat-append [] ys = refl
flat-append (x ∷ xs) ys =
    ap (λ r. x ++ r) (flat-append xs ys) ∙ sym (append_assoc x (flat xs) (flat ys))

-- `mongo_wire_reply_packet_get_nth_document` and then `bson_finish` give back the n-th document
-- of a reply, byte for byte, if its header announces that many documents or more, all documents
-- are framed, and the count and the size of the payload fit a signed 32-bit integer.
pub reply_get_nth_document-body :
    (p : Packet) (h : ReplyHeader) (front back : List (List ℕ)) (d : List ℕ)
    → IsReply p (reply_body h (front ++ (d ∷ back)))
    → IsReplyHeader h
    → All IsFramed (front ++ (d ∷ back))
    → length (flat (front ++ (d ∷ back))) < half32
    → length front < h.returned
    → h.returned < half32
    → (reply_get_nth_document (some p) (pos (suc (length front))) >>= λ b. returns (finish b))
      ≡ returns (some (closed d), true)
unfolding reply_get_nth_document
reply_get_nth_document-body p h front back d r v framed_all small announced count =
    rw
      (
        eq→== p.header.opcode op_reply r.0,
        reply_get_header-body p h (front ++ (d ∷ back)) r v,
        reply_get_data-body p h (front ++ (d ∷ back)) r,
      )
      (rw enough (
        rw (flat-append front (d ∷ back)) (
          rw skipped (
            document_at-IsFramed (flat front) d (flat back) d_framed (
              omega (
                arith,
                ap length (flat-append front (d ∷ back)),
                length-append (flat front) (flat (d ∷ back)),
                length-append d (flat back),
              ))))))
  where
    enough : slt h.returned (suc (length front)) ≡ false
    enough = le→ltb _ _ (omega arith)

    front_framed : All IsFramed front
    front_framed = (All-append IsFramed front (d ∷ back) framed_all).0

    skipped :
        skip_documents (length front) (flat front ++ flat (d ∷ back)) 0
        ≡ returns (length (flat front))
    skipped =
        skip_documents-flat front [] (flat (d ∷ back)) 0 front_framed refl (
          omega (
            arith,
            ap length (flat-append front (d ∷ back)),
            length-append (flat front) (flat (d ∷ back)),
          ))
        ∙ ap returns (omega arith)

    d_framed : IsFramed d
    d_framed = (All-append IsFramed front (d ∷ back) framed_all).1.0
