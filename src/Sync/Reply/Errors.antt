-- ===== src/Sync/Reply/Errors.antt =====
-- src/mongo-sync.c: what a reply to a command says of its success, and of an error.
use libmongo_client.Base.{
  ℕ, ◌≡◌, refl, ap, ◌∙◌, Bool, true, false, Option, some, List, [], ◌∷◌, ◌++◌, length, subst,
  take?_from, ◌==◌, if◌then◌else◌, ◌<◌, Bool-cases, inl, inr, All,
}
use libmongo_client.Base.Bytes.{strlen-append, IsCString}
use libmongo_client.Base.Int.{pos, half32}
use libmongo_client.Base.Errno.{eproto, no_error}
use libmongo_client.Base.Call.{Call, returns, Call-cases, ◌>>=◌}
use libmongo_client.Base.Result.{ok}
use libmongo_client.Base.Run.{gives, stops}
use libmongo_client.Bson.Object.{Bson, finish}
use libmongo_client.Bson.Element.{Element, Value, tag, framed, encode_all, IsFramed}
use libmongo_client.Bson.Build.Appends.{document_of}
use libmongo_client.Bson.Cursor.{find}
use libmongo_client.Bson.Cursor.Search.{IsDocument}
use libmongo_client.Bson.Cursor.Find.{Lacks, cursor_at, find_first, find_missing}
use libmongo_client.Bson.Cursor.Under.{behind, IsElement-under, cursor_type-under}
use libmongo_client.Bson.Cursor.Values.{getters-value}
use libmongo_client.Wire.Packet.{Packet}
use libmongo_client.Wire.Reply.{ReplyHeader, reply_get_nth_document}
use libmongo_client.Wire.Batches.{flat}
use libmongo_client.Wire.Documents.{reply_body, IsReply, IsReplyHeader, reply_get_nth_document-body}
use libmongo_client.Sync.Connection.{SyncConn}
use libmongo_client.Sync.Reply.{
  refuse_error, key_ok, key_err, key_errmsg, double_one, fine, wrong, check_ok, strdup, error_text,
  get_error, demand_ok, check_error,
}

strdup-IsCString : (s rest : List ℕ) → IsCString s → strdup (s ++ 0 ∷ rest) ≡ ok s
unfolding strdup
strdup-IsCString s rest h =
    rw (strlen-append s rest h) (rw (take?_from s (0 ∷ rest) (length s) refl) refl)

same_document :
    (r : Option Bson × Bool) (doc : Option Bson) (t : Bool)
    → Call.returns r ≡ returns (doc, t)
    → r.0 ≡ doc
same_document r doc t e = cc

-- A document that has the first element with this key at this place.
abbrev pub Has : List Element → List Element → Element → List Element → Type 0
Has es left e right = (es ≡ left ++ (e ∷ right)) × Lacks e.key left

abbrev pub ok_element : ℕ → Element
ok_element d = record { key = key_ok; value = Value.double d }

abbrev pub message : List ℕ → Element
message s = record { key = key_errmsg; value = Value.string s }

check_ok-Has :
    (es left right : List Element) (d : ℕ)
    → IsDocument es
    → Has es left (ok_element d) right
    → check_ok (some (document_of es)) ≡ (if d == double_one then fine else wrong eproto)
unfolding check_ok
check_ok-Has es left right d h (e, lacks) =
    let h' = subst IsDocument e h in
    let at_ok =
      ap (λ l. find (some (document_of l)) (some key_ok)) e
      ∙ find_first left right (ok_element d) h' lacks in
    rw (at_ok, check_ok) (rw (getters-value left right key_ok (Value.double d) h', check_ok) refl)

error_text-message :
    (left right : List Element) (s : List ℕ)
    → IsDocument (left ++ (message s ∷ right))
    → error_text (cursor_at left (message s) right) ≡ ok s
unfolding error_text
error_text-message left right s h =
    rw (getters-value left right key_errmsg (Value.string s) h, error_text)
      (strdup-IsCString s (behind left right (message s))
        (IsElement-under left right (message s) h).1.0)

-- The text of the error field, where "err" is missing.
get_error-Has :
    (es left right : List Element) (s : List ℕ)
    → IsDocument es
    → Lacks key_err es
    → Has es left (message s) right
    → get_error (some (document_of es)) ≡ ok (some s)
unfolding get_error tag
get_error-Has es left right s h none_err (e, lacks) =
    let h' : IsDocument (left ++ (message s ∷ right)) = subst IsDocument e h in
    let at_text : find (some (document_of es)) (some key_errmsg)
        ≡ ok (cursor_at left (message s) right) =
      ap (λ l. find (some (document_of l)) (some key_errmsg)) e
      ∙ find_first left right (message s) h' lacks in
    rw (find_missing es key_err h none_err, at_text, cursor_type-under left right (message s) h')
      (rw (error_text-message left right s h') refl)

module _ {W : Type 0} (p : Packet) (c : SyncConn) (w : W) where
  check_error-first :
      (doc : Option Bson) (t : Bool) (want_ok : Bool)
      → (reply_get_nth_document (some p) (pos 1) >>= λ b. returns (finish b)) ≡ returns (doc, t)
      → check_error want_ok p c w ≡ (
          if want_ok
          then demand_ok (check_ok doc) (get_error doc) p c w
          else refuse_error (get_error doc) p c w)
  unfolding check_error
  check_error-first doc t want_ok = elim (Call-cases (reply_get_nth_document (some p) (pos 1))) [
    | inl (b, e) ↦ rw (e, check_error) (λ f. rw (same_document (finish b) doc t f) refl)
    | inr (inl (x, e)) ↦ rw e (λ f. cc)
    | inr (inr e) ↦ rw e (λ f. cc)
  ]

  -- On a reply whose first document has a double "ok", no "err" and a text in "errmsg",
  -- `_mongo_sync_packet_check_error` returns the reply unchanged if "ok" is asked for and is 1.0.
  -- Otherwise it refuses the reply, and the text is in the connection's `last_error`: with EPROTO
  -- if "ok" is asked for, and with `errno` as it was if it is not.
  pub check_error-reply :
      (h : ReplyHeader) (es : List Element) (back : List (List ℕ)) (d : ℕ) (s : List ℕ)
      (left right before after : List Element)
      → IsReply p (reply_body h (framed (encode_all es) ∷ back))
      → IsReplyHeader h
      → All IsFramed back
      → length (flat (framed (encode_all es) ∷ back)) < half32
      → 0 < h.returned
      → h.returned < half32
      → IsDocument es
      → Has es left (ok_element d) right
      → Lacks key_err es
      → Has es before (message s) after
      → (check_error true p c w ≡ (
          if d == double_one
          then gives p (c, w)
          else stops eproto (record c { last_error = some s }, w)))
        × (check_error false p c w ≡ stops no_error (record c { last_error = some s }, w))
  unfolding demand_ok refuse_error
  check_error-reply h es back d s left right before after r v framed_back small some_back count doc
        at_ok no_err at_msg =
      let first =
        reply_get_nth_document-body p h [] back (framed (encode_all es)) r v
          ((encode_all es, refl, doc.1), framed_back) small some_back count in
      (
        check_error-first _ _ true first
            ∙ rw
                (
                  check_ok-Has es left right d doc at_ok,
                  get_error-Has es before after s doc no_err at_msg,
                )
                (elim (Bool-cases (d == double_one)) [ inl b ↦ rw b refl | inr b ↦ rw b refl ]),
        check_error-first _ _ false first
            ∙ rw (get_error-Has es before after s doc no_err at_msg) refl,
      )
