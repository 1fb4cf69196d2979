-- ===== src/Wire/Batches.antt =====
-- The commands of src/mongo-wire.c that carry a number of parts: documents to insert, cursors to
-- kill, and the command that is wrapped in a query.
use libmongo_client.Base.{
  ℕ, ◌+◌, ◌*◌, ◌%◌, ◌^◌, ◌<◌, ◌≡◌, refl, ap, sym, ◌∙◌, Option, some, List, [], ◌∷◌, ◌++◌, map,
  arith, length, length-append, All, lt→leb, ne→==,
}
use libmongo_client.Base.Bytes.{le, length-le}
use libmongo_client.Base.Int.{pos, half32}
use libmongo_client.Base.Call.{returns}
use libmongo_client.Base.Memcpy.{concat, IsConsecutive}
use libmongo_client.Bson.Object.{Bson, new}
use libmongo_client.Bson.Element.{framed}
use libmongo_client.Bson.Build.Appends.{closed, size-closed, finish-open}
use libmongo_client.Wire.Packet.{op_insert, op_query, op_kill_cursors}
use libmongo_client.Wire.Commands.{
  c_string, insert_sizes, insert_copies, cmd_insert_n, cmd_query, kill_copies, cmd_kill_cursors_va,
  cmd_kill_cursors, cmd_custom, cmd_suffix,
}
use libmongo_client.Wire.Layout.{
  sent, total, sizes, contents-closed, packet_of-sent, cmd_query-sent,
}

-- Byte strings one behind the other.
abbrev pub flat : List (List ℕ) → List ℕ
flat [] = []
flat (d ∷ ds) = d ++ flat ds

-- Finished documents, as a caller hands them over.
abbrev pub as_docs : List (List ℕ) → List (Option Bson)
as_docs = map λ d. some (closed d)

-- The copies that put the byte strings one behind the other from the offset `p` on.
abbrev run_from : ℕ → List (List ℕ) → List (ℕ × List ℕ)
run_from p [] = []
run_from p (d ∷ ds) = (p, d) ∷ run_from (p + length d) ds

run_from-IsConsecutive : (p q : ℕ) (ds : List (List ℕ)) → p ≡ q → IsConsecutive q (run_from p ds)
run_from-IsConsecutive p q [] h = tt
run_from-IsConsecutive p q (d ∷ ds) h =
    (h, run_from-IsConsecutive (p + length d) (q + length d) ds (omega arith))

concat-run_from : (p : ℕ) (ds : List (List ℕ)) → concat (run_from p ds) ≡ flat ds
concat-run_from p [] = refl
concat-run_from p (d ∷ ds) = ap (λ r. d ++ r) (concat-run_from (p + length d) ds)

total-run_from : (p : ℕ) (ds : List (List ℕ)) → total (run_from p ds) ≡ length (flat ds)
total-run_from p [] = refl
total-run_from p (d ∷ ds) =
    omega (arith, length-append d (flat ds), total-run_from (p + length d) ds)

insert_sizes-flat :
    (ds : List (List ℕ))
    → All (λ d. 0 < length d) ds
    → length (flat ds) < half32
    → insert_sizes (length ds) (as_docs ds) ≡ returns (length (flat ds))
unfolding insert_sizes
insert_sizes-flat [] h small = refl
insert_sizes-flat (d ∷ ds) h small = rw (size-closed d (omega (arith, length-append d (flat ds)))) (
    rw
      (
        ne→== (length d) 0 (omega (arith, h.0)),
        lt→leb half32 (length d) (omega (arith, length-append d (flat ds))),
      )
      (rw (insert_sizes-flat ds h.1 (omega (arith, length-append d (flat ds))))
        (ap returns (omega (arith, length-append d (flat ds))))))

insert_copies-run_from :
    (ds : List (List ℕ)) (p : ℕ)
    → p + length (flat ds) < half32
    → insert_copies (length ds) p (as_docs ds) ≡ returns (run_from p ds)
unfolding insert_copies
insert_copies-run_from [] p small = refl
insert_copies-run_from (d ∷ ds) p small =
    let next : (p + length d) % 2 ^ 32 ≡ p + length d = omega (arith, length-append d (flat ds)) in
    rw (contents-closed d) (
      rw (size-closed d (omega (arith, length-append d (flat ds)))) (
        rw next (
          rw
            (insert_copies-run_from ds (p + length d) (omega (arith, length-append d (flat ds)))))))

-- The cursor ids, eight bytes each.
abbrev pub id_words : List ℕ → List (List ℕ)
id_words = map (le 8)

kill_copies-run_from :
    (ids : List ℕ) (p : ℕ)
    → p + 8 * length ids < half32
    → kill_copies (length ids) p ids ≡ returns (run_from p (id_words ids))
unfolding kill_copies
kill_copies-run_from [] p small = refl
kill_copies-run_from (i ∷ ids) p small =
    let next : (p + 8) % 2 ^ 32 ≡ p + length (le 8 i) = omega (arith, length-le 8 i) in
    rw next (rw (kill_copies-run_from ids (p + length (le 8 i)) (omega (arith, length-le 8 i))))

length-id_words : (ids : List ℕ) → length (flat (id_words ids)) ≡ 8 * length ids
length-id_words [] = omega arith
length-id_words (i ∷ ids) =
    omega (arith, length-append (le 8 i) (flat (id_words ids)), length-le 8 i, length-id_words ids)

length-framed_empty : length (framed []) ≡ 5
unfolding le
length-framed_empty = refl

module _ (junk id : ℕ) where
  -- OP_INSERT carries a zero, the namespace and the documents one behind the other, for one
  -- document or more, none of them of no bytes, if the size of the whole packet fits a signed
  -- 32-bit integer.
  pub cmd_insert_n-sent :
      (s : List ℕ) (d : List ℕ) (ds : List (List ℕ))
      → All (λ x. 0 < length x) (d ∷ ds)
      → length s + length (flat (d ∷ ds)) + 21 < half32
      → cmd_insert_n junk id (some s) (pos (length (d ∷ ds))) (some (as_docs (d ∷ ds)))
        ≡ returns (sent id op_insert (le 4 0 ++ (c_string s ++ flat (d ∷ ds))))
  unfolding cmd_insert_n
  cmd_insert_n-sent s d ds h small =
      let start : (4 + length s + 1) % 2 ^ 32 ≡ 4 + (length s + 1) = omega arith in
      rw (insert_sizes-flat (d ∷ ds) h (omega arith)) (
        rw start (
          rw (insert_copies-run_from (d ∷ ds) (4 + (length s + 1)) (omega arith)) (
            packet_of-sent junk id op_insert _ _ _
              (ap (λ r. le 4 0 ++ (c_string s ++ r)) (sym (concat-run_from _ (d ∷ ds))))
              (omega (sizes, total-run_from (4 + (length s + 1)) (d ∷ ds)))
              (omega (sizes, total-run_from (4 + (length s + 1)) (d ∷ ds)))
              (refl, (omega sizes, run_from-IsConsecutive _ _ (d ∷ ds) (omega sizes))))))

  -- OP_KILL_CURSORS carries a zero, the number of cursors, and their ids, for one cursor or
  -- more, if the size of the whole packet fits a signed 32-bit integer.
  pub cmd_kill_cursors-sent :
      (i : ℕ) (ids : List ℕ)
      → 8 * length (i ∷ ids) + 24 < half32
      → cmd_kill_cursors junk id (pos (length (i ∷ ids))) (i ∷ ids)
        ≡ returns (
            sent id op_kill_cursors
              (le 4 0 ++ (le 4 (length (i ∷ ids)) ++ flat (id_words (i ∷ ids)))))
  unfolding cmd_kill_cursors cmd_kill_cursors_va
  cmd_kill_cursors-sent i ids small = rw (kill_copies-run_from (i ∷ ids) 8 (omega arith)) (
      packet_of-sent junk id op_kill_cursors _ _ _
        (ap (λ r. le 4 0 ++ (le 4 (length (i ∷ ids)) ++ r))
          (sym (concat-run_from 8 (id_words (i ∷ ids)))))
        (omega (sizes, total-run_from 8 (id_words (i ∷ ids)), length-id_words (i ∷ ids)))
        (omega (sizes, total-run_from 8 (id_words (i ∷ ids)), length-id_words (i ∷ ids)))
        (refl, (omega sizes, run_from-IsConsecutive 8 _ (id_words (i ∷ ids)) (omega sizes))))

  -- A custom command is the query of its document in the namespace `db.$cmd`, of which one
  -- answer is wanted, with an empty document as the selector, if the size of the whole packet
  -- fits a signed 32-bit integer.
  pub cmd_custom-sent :
      (db command : List ℕ) (flags : ℕ)
      → length db + length command + 39 < half32
      → cmd_custom junk id (some db) flags (some (closed command))
        ≡ returns (
            sent id op_query (
              le 4 flags
              ++ (c_string (db ++ cmd_suffix) ++ (le 4 0 ++ (le 4 1 ++ (command ++ framed []))))))
  unfolding cmd_custom new le
  cmd_custom-sent db command flags h =
      rw (size-closed command (omega arith), lt→leb half32 (length command) (omega arith))
        (ap (λ e. cmd_query junk id (some (db ++ cmd_suffix)) flags 0 1 (some (closed command)) e.0)
            (finish-open [])
          ∙ cmd_query-sent junk id (db ++ cmd_suffix) command (framed []) flags 0 1
              (omega (arith, length-append db cmd_suffix, length-framed_empty)))
