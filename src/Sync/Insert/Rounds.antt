-- ===== src/Sync/Insert/Rounds.antt =====
-- src/mongo-sync.c: inserting documents sends all of them, in order, in packets of limited size.
use libmongo_client.Base.{
  ℕ, zero, suc, ◌+◌, ◌-◌, ◌^◌, ◌≤◌, ◌<◌, ◌≡◌, refl, ap, sym, ◌∙◌, Bool, Option, some, List, [], ◌∷◌,
  ◌++◌, inl, inr, arith, length, length-append, append-nil, drop, drop-append, Zero-cases, subst,
}
use libmongo_client.Base.Int.{pos, half32, word}
use libmongo_client.Base.Errno.{Errno}
use libmongo_client.Base.Call.{returns}
use libmongo_client.Base.Run.{Run, gives, ◌>>=◌, Run-cases}
use libmongo_client.Bson.Object.{Bson, size}
use libmongo_client.Client.{Net}
use libmongo_client.Sync.Connection.{SyncConn}
use libmongo_client.Sync.Insert.{
  sizes_fit, next_batch, max_size, send_batch, insert_rounds, cmd_insert_n,
}
use libmongo_client.Sync.Insert.Batch.{
  total_size, Small, Cut, next_batch-Cut, slt_small, all_left, as_fits,
}
use libmongo_client.Sync.Reconnect.Settings.{Settings, settings, Keeps, Keeps-bind_ap}
use libmongo_client.Sync.Insert.Kept.{send_batch-Keeps}

-- All documents in order, in packets that are not empty: every packet but the last stays below the
-- maximum and would reach it with the next document, the last below twice the maximum.
pub data Batches (max : ℕ) : List (Option Bson) → List (List (Option Bson)) → Type 0 where
  last : (b : List (Option Bson)) → 0 < length b → total_size b < max + max → Batches max b (b ∷ [])
  onward :
      (b rest : List (Option Bson)) (x : Option Bson) (bs : List (List (Option Bson)))
      → 0 < length b
      → total_size b < max
      → max ≤ total_size b + size x
      → Batches max (x ∷ rest) bs
      → Batches max (b ++ (x ∷ rest)) (b ∷ bs)

All-right : (max : ℕ) (b rest : List (Option Bson)) → Small max (b ++ rest) → Small max rest
All-right max [] rest h = h
All-right max (d ∷ b) rest h = All-right max b rest h.1

module _ {W : Type 0} (net : Net W) (junk : ℕ) (strerror : Errno → List ℕ) where
  module _ (reconnect : Bool → SyncConn → W → Run (SyncConn × W) (Unit {0}))
      (again : (s : Settings) (force : Bool) (c : SyncConn) (w : W)
        → settings c ≡ s
        → Keeps s (reconnect force c w)) where
    -- The rounds after the first, with the number of documents that are left.
    abbrev go_on :
        ℕ → List ℕ → ℕ → List (Option Bson) → SyncConn → W → Run (SyncConn × W) (Unit {0})
    go_on n ns zero docs c w = gives tt (c, w)
    go_on n ns (suc more) docs c w =
        insert_rounds net junk strerror reconnect n ns (suc more) docs c w

    insert_rounds_step :
        (n : ℕ) (ns : List ℕ) (left k : ℕ) (docs : List (Option Bson)) (c : SyncConn) (w : W)
        → next_batch (max_size c) left docs ≡ some (pos k)
        → insert_rounds net junk strerror reconnect (suc n) ns left docs c w ≡ (
            send_batch net junk strerror reconnect ns (pos k) docs c w >>= λ u (c1, w1).
            go_on n ns (left - k) (drop k docs) c1 w1)
    unfolding insert_rounds
    insert_rounds_step n ns left k docs c w h =
        elim (Run-cases (send_batch net junk strerror reconnect ns (pos k) docs c w)) [
          | inl (u, s, r) ↦ elim (Zero-cases (left - k)) [
            | inl z ↦ rw (h, insert_rounds) (rw (r, insert_rounds) (rw (z, insert_rounds) refl))
            | inr (m, z) ↦
                rw (h, insert_rounds) (rw (r, insert_rounds) (rw (z, insert_rounds) refl))
          ]
          | inr (inl (e, s, r)) ↦ rw (h, insert_rounds) (rw (r, insert_rounds) refl)
          | inr (inr (inl r)) ↦ rw (h, insert_rounds) (rw (r, insert_rounds) refl)
          | inr (inr (inr r)) ↦ rw (h, insert_rounds) (rw (r, insert_rounds) refl)
        ]

    -- The packets of these numbers of documents, one after the other.
    abbrev pub send_each :
        List ℕ
        → List (Option Bson)
        → List (List (Option Bson))
        → SyncConn
        → W
        → Run (SyncConn × W) (Unit {0})
    send_each ns docs [] c w = gives tt (c, w)
    send_each ns docs (b ∷ bs) c w =
        send_batch net junk strerror reconnect ns (pos (length b)) docs c w >>= λ u (c1, w1).
        send_each ns (drop (length b) docs) bs c1 w1

    -- What the rounds come to on a connection with these settings.
    abbrev Sends : Settings → ℕ → List ℕ → List (Option Bson) → Type 0
    Sends s n ns ds =
        (bs : List (List (Option Bson))) × Batches (word half32 s.max_insert_size) ds bs
        × ((c : SyncConn) (w : W)
            → settings c ≡ s
            → insert_rounds net junk strerror reconnect n ns (length ds) ds c w
              ≡ send_each ns ds bs c w)

    -- The first packet, on a connection with these settings.
    first_round :
        (s : Settings) (n : ℕ) (ns : List ℕ) (b ds : List (Option Bson)) (c : SyncConn) (w : W)
        → next_batch (word half32 s.max_insert_size) (length ds) ds ≡ some (pos (length b))
        → settings c ≡ s
        → insert_rounds net junk strerror reconnect (suc n) ns (length ds) ds c w ≡ (
            send_batch net junk strerror reconnect ns (pos (length b)) ds c w >>= λ u (c1, w1).
            go_on n ns (length ds - length b) (drop (length b) ds) c1 w1)
    first_round s n ns b ds c w next k = insert_rounds_step n ns (length ds) (length b) ds c w (
        subst
          (λ (t : Settings).
            next_batch (word half32 t.max_insert_size) (length ds) ds ≡ some (pos (length b)))
          (sym k) next)

    Sends-Cut :
        (s : Settings) (n : ℕ) (ns : List ℕ) (b rest : List (Option Bson))
        → Cut (word half32 s.max_insert_size) b rest
        → next_batch (word half32 s.max_insert_size) (length (b ++ rest)) (b ++ rest)
          ≡ some (pos (length b))
        → (0 < length rest → length rest ≤ n → Sends s n ns rest)
        → length (b ++ rest) ≤ suc n
        → Sends s (suc n) ns (b ++ rest)
    Sends-Cut s n ns _ _ (all_left b full small) next others fuel =
        let none_left : length (b ++ []) - length b ≡ 0 = omega (arith, length-append b []) in
        (
          b ∷ [],
          subst (λ l. Batches (word half32 s.max_insert_size) l (b ∷ [])) (sym (append-nil b))
              (last b full small),
          λ c w k.
              first_round s n ns b (b ++ []) c w next k
              ∙ ap
                  (λ m.
                    send_batch net junk strerror reconnect ns (pos (length b)) (b ++ []) c w
                    >>= λ u (c1, w1). go_on n ns m (drop (length b) (b ++ [])) c1 w1)
                  none_left,
        )
    Sends-Cut s n ns _ _ (as_fits b rest x full small tight) next others fuel =
        let counted = length-append b (x ∷ rest) in
        let left : length (b ++ (x ∷ rest)) - length b ≡ suc (length rest) =
          omega (arith, counted) in
        let (bs, batches, agree) = others (omega arith) (omega (arith, counted)) in
        (
          b ∷ bs,
          onward b rest x bs full small tight batches,
          λ c w k.
              first_round s n ns b (b ++ (x ∷ rest)) c w next k
              ∙ ap
                  (λ m.
                    send_batch net junk strerror reconnect ns (pos (length b)) (b ++ (x ∷ rest)) c w
                    >>= λ u (c1, w1). go_on n ns m (drop (length b) (b ++ (x ∷ rest))) c1 w1)
                  left
              ∙ Keeps-bind_ap s
                  (send_batch net junk strerror reconnect ns (pos (length b)) (b ++ (x ∷ rest)) c w)
                  _ _ (send_batch-Keeps net junk strerror reconnect again s ns _ _ c w k)
                  (λ u c1 w1 k1.
                    subst
                      (λ l.
                        insert_rounds net junk strerror reconnect n ns (suc (length rest)) l c1 w1
                        ≡ send_each ns l bs c1 w1)
                      (sym (drop-append b (x ∷ rest))) (agree c1 w1 k1)),
        )

    insert_rounds-Sends :
        (s : Settings) (n : ℕ) (ns : List ℕ) (ds : List (Option Bson))
        → word half32 s.max_insert_size ≤ 2 ^ 30
        → Small (word half32 s.max_insert_size) ds
        → 0 < length ds
        → length ds ≤ n
        → Sends s n ns ds
    insert_rounds-Sends s zero ns ds m h full fuel = absurd (omega arith)
    insert_rounds-Sends s (suc n) ns ds m h full fuel =
        let (b, rest, cut, next, is_cut) =
          next_batch-Cut (word half32 s.max_insert_size) ds m h full in
        subst (Sends s (suc n) ns) (sym cut) (
          Sends-Cut s n ns b rest is_cut
            (subst
              (λ l. next_batch (word half32 s.max_insert_size) (length l) l ≡ some (pos (length b)))
              cut next)
            (insert_rounds-Sends s n ns rest m (All-right _ b rest (subst (Small _) cut h)))
            (subst (λ l. length l ≤ suc n) cut fuel))

    fits_all :
        (max : ℕ) (ds : List (Option Bson))
        → max ≤ 2 ^ 30
        → Small max ds
        → sizes_fit max (length ds) ds ≡ returns tt
    unfolding sizes_fit
    fits_all max [] m h = refl
    fits_all max (d ∷ ds) m h =
        let small = h.0 in
        rw (slt_small (size d) max (omega arith) (omega arith) small) (fits_all max ds m h.1)

    -- `mongo_sync_cmd_insert_n` on documents that are each smaller than the maximal size of inserts,
    -- which is at most 2 ^ 30, sends all of them, in order, in packets that are not empty: every packet
    -- but the last stays below the maximum and would reach it with the next document, the last stays
    -- below twice the maximum. The packets are sent until one of them fails, and the loop ends.
    pub cmd_insert_n-Batches :
        (ns : List ℕ) (d : Option Bson) (ds : List (Option Bson)) (c : SyncConn) (w : W)
        → max_size c ≤ 2 ^ 30
        → Small (max_size c) (d ∷ ds)
        → (bs : List (List (Option Bson))) × Batches (max_size c) (d ∷ ds) bs
          × (cmd_insert_n net junk strerror reconnect
                (some ns)
                (pos (length (d ∷ ds)))
                (some (d ∷ ds))
                c
                w
              ≡ send_each ns (d ∷ ds) bs c w)
    unfolding cmd_insert_n
    cmd_insert_n-Batches ns d ds c w m h =
        let (bs, batches, agree) =
          insert_rounds-Sends (settings c) (suc (length ds)) ns (d ∷ ds) m h (omega arith)
            (omega arith) in
        (bs, batches, rw (fits_all (max_size c) (d ∷ ds) m h, cmd_insert_n) (agree c w refl))
