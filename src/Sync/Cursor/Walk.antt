-- ===== src/Sync/Cursor/Walk.antt =====
-- The documents that a cursor of src/mongo-sync-cursor.c gives, one after another.
use libmongo_client.Base.{
  ℕ, suc, ◌+◌, ◌-◌, ◌%◌, ◌^◌, ◌<◌, ◌≡◌, refl, ap, ◌∙◌, Bool, true, not, Option, some, List, [], ◌∷◌,
  ◌++◌, ◌⊎◌, inr, arith, length, length-append, All, lt→ltb, le→ltb,
}
use libmongo_client.Base.Int.{pos, signed, half32}
use libmongo_client.Base.Errno.{Errno, erange}
use libmongo_client.Base.Call.{Call, returns, errs, fault, ◌>>=◌}
use libmongo_client.Base.Run.{gives}
use libmongo_client.Bson.Object.{Bson, finish}
use libmongo_client.Bson.Element.{IsFramed}
use libmongo_client.Bson.Build.Single.{signed_small}
use libmongo_client.Bson.Build.Appends.{closed}
use libmongo_client.Wire.Packet.{Packet}
use libmongo_client.Wire.Reply.{ReplyHeader, reply_get_nth_document}
use libmongo_client.Wire.Batches.{flat}
use libmongo_client.Wire.Documents.{
  reply_body, IsReply, IsReplyHeader, reply_get_header-body, reply_get_nth_document-body,
}
use libmongo_client.Sync.Cursor.{
  SyncCursor, with_header_of, refill, sync_cursor_next, sync_cursor_get_data,
}

-- A reply with these documents, whose header tells their number.
abbrev pub Batch : Packet → ReplyHeader → List (List ℕ) → Type 0
Batch p h ds =
    IsReply p (reply_body h ds)
    × IsReplyHeader h
    × All IsFramed ds
    × (length (flat ds) < half32)
    × (h.returned ≡ length ds)
    × (length ds < half32)

-- The cursor that stands on the document `i` of a reply.
abbrev pub cursor_on : List ℕ → Packet → ReplyHeader → ℕ → SyncCursor
cursor_on ns p h i = record { ns = ns; results = some p; offset = i; ph = h }

data_of :
    (m : Call (Option Bson)) (v : Option Bson × Bool)
    → (m >>= λ b. returns (finish b)) ≡ returns v
    → (elim m as (λ _. Call (Option Bson)) [
      | returns b ↦ returns (finish b).0
      | errs e ↦ errs erange
      | fault ↦ fault
    ])
      ≡ returns v.0
data_of (returns b) v e = ground arith
data_of (errs x) v e = absurd (ground arith)
data_of fault v e = absurd (ground arith)

sync_cursor_get_data-closed :
    (ns : List ℕ) (p : Packet) (h : ReplyHeader) (front back : List (List ℕ)) (d : List ℕ)
    → Batch p h (front ++ d ∷ back)
    → sync_cursor_get_data (some (cursor_on ns p h (length front))) ≡ returns (some (closed d))
unfolding sync_cursor_get_data
sync_cursor_get_data-closed ns p h front back d (reply, header, framed_all, small, count, few) =
    rw (index, sync_cursor_get_data)
      (data_of (reply_get_nth_document (some p) (pos (suc (length front)))) (some (closed d), true)
        (reply_get_nth_document-body p h front back d reply header framed_all small
          (omega (arith, count, length-append front (d ∷ back))) (omega (arith, count, few))))
  where
    index : signed half32 ((length front + 1) % 2 ^ 32) ≡ pos (suc (length front))
    index =
        ap (signed half32) (omega (arith, few, length-append front (d ∷ back)))
        ∙ signed_small (suc (length front)) (omega (arith, few, length-append front (d ∷ back)))

with_header_of-Batch :
    (p : Packet) (h ph : ReplyHeader) (ds : List (List ℕ))
    → Batch p h ds
    → with_header_of p ph ≡ some h
unfolding with_header_of
with_header_of-Batch p h ph ds batch =
    rw (reply_get_header-body p h ds batch.0 batch.1, with_header_of) refl

module _ {W : Type 0} (get_more : List ℕ → ℕ → ℕ → W → (Errno ⊎ Packet) × W) (ns : List ℕ) where
  -- On a reply that has another document, the cursor goes on to it without a message, and gives it
  -- finished. The cursor stands in front of that document: on the one before it, or in front of the
  -- first.
  pub sync_cursor_next-inside :
      (p : Packet) (h : ReplyHeader) (front back : List (List ℕ)) (d : List ℕ) (s : W)
      → Batch p h (front ++ d ∷ back)
      → (sync_cursor_next get_more
            (some (cursor_on ns p h ((length front + 2 ^ 32 - 1) % 2 ^ 32)))
            s
          ≡ gives tt (some (cursor_on ns p h (length front)), s))
        × (sync_cursor_get_data (some (cursor_on ns p h (length front)))
            ≡ returns (some (closed d)))
  unfolding sync_cursor_next
  sync_cursor_next-inside p h front back d s batch = (
    rw
        (ap not (
          lt→ltb ((((length front + 2 ^ 32 - 1) % 2 ^ 32) + 2 ^ 31) % 2 ^ 32)
            ((((h.returned + 2 ^ 32 - 1) % 2 ^ 32) + 2 ^ 31) % 2 ^ 32)
            (omega (arith, batch.4, batch.5, length-append front (d ∷ back)))))
        (ap (λ i. gives tt (some (cursor_on ns p h i), s))
          (omega (arith, batch.5, length-append front (d ∷ back)))),
    sync_cursor_get_data-closed ns p h front back d batch,
  )

  -- Behind the last document of a reply, the cursor asks for the number of documents that it had and
  -- for its id, and where there are more, it stands on the first document of the new reply and gives
  -- it finished.
  pub sync_cursor_next-refill :
      (p p' : Packet) (h h' : ReplyHeader) (front back : List (List ℕ)) (d e : List ℕ) (s s' : W)
      → Batch p h (front ++ d ∷ [])
      → get_more ns h.returned h.cursor_id s ≡ (inr p', s')
      → Batch p' h' (e ∷ back)
      → (sync_cursor_next get_more (some (cursor_on ns p h (length front))) s
          ≡ gives tt (some (cursor_on ns p' h' 0), s'))
        × (sync_cursor_get_data (some (cursor_on ns p' h' 0)) ≡ returns (some (closed e)))
  unfolding sync_cursor_next refill
  sync_cursor_next-refill p p' h h' front back d e s s' batch asked more = (
    rw
        (ap not (
          le→ltb ((length front + 2 ^ 31) % 2 ^ 32)
            ((((h.returned + 2 ^ 32 - 1) % 2 ^ 32) + 2 ^ 31) % 2 ^ 32)
            (omega (arith, batch.4, batch.5, length-append front (d ∷ [])))))
        (rw asked (rw (with_header_of-Batch p' h' h (e ∷ back) more, refill) refl)),
    sync_cursor_get_data-closed ns p' h' [] back e more,
  )
