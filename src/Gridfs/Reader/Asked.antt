-- ===== src/Gridfs/Reader/Asked.antt =====
-- What a call of `mongo_sync_gridfs_stream_seek` of src/sync-gridfs-stream.c asks for.
use libmongo_client.Base.{
  ℕ, zero, suc, ◌+◌, ◌-◌, ◌%◌, ◌^◌, ◌<◌, ◌≤◌, ◌≡◌, ◌≢◌, refl, ap, ◌∙◌, Bool-cases, false, inl, inr,
  ◌⊎◌, true, ◌||◌, arith, lt→ltb, le→ltb, lt→leb, le→leb, ne→==,
}
use libmongo_client.Base.Int.{ℤ, pos, negsuc, word, half64, Fits}
use libmongo_client.Base.Errno.{erange}
use libmongo_client.Base.Run.{stops}
use libmongo_client.Gridfs.Server.{Server, GridFs}
use libmongo_client.Gridfs.Reader.{Reader, slt64}
use libmongo_client.Gridfs.Reader.Seek.{
  is_negative64, goes_to, out_of_range, target_set, target_cur, target_end, target, stream_seek,
}

-- The call asks for the position `p`, other than the one at hand: from the start, from the offset
-- `o`, or from the end of `total` bytes.
abbrev pub Asks : ℤ → ℕ → ℕ → ℕ → ℕ → Type 0
Asks (pos n) zero o total p = (n ≡ p) × (p ≢ o)
Asks (negsuc n) zero o total p = ⊥
Asks (pos n) (suc zero) o total p = (0 < n) × (o + n ≡ p)
Asks (negsuc n) (suc zero) o total p = p + suc n ≡ o
Asks (pos n) (suc (suc zero)) o total p = ⊥
Asks (negsuc n) (suc (suc zero)) o total p = p + suc n ≡ total
Asks z (suc (suc (suc w))) o total p = ⊥

inside_range :
    (p total : ℕ) → p < total → total < half64 → (is_negative64 p || slt64 total p) ≡ false
inside_range p total inside small = rw (lt→leb half64 p (omega arith)) (le→ltb _ _ (omega arith))

target_set-goes_to :
    (p : ℕ) (r : Reader)
    → p ≢ r.offset
    → p < r.file_length
    → r.file_length < half64
    → target_set p r ≡ goes_to p
unfolding target_set
target_set-goes_to p r other inside small =
    rw (ne→== p r.offset other) (rw (inside_range p r.file_length inside small) refl)

target_cur-goes_to :
    (u p : ℕ) (r : Reader)
    → u ≢ 0
    → (u + r.offset) % 2 ^ 64 ≡ p
    → p < r.file_length
    → r.file_length < half64
    → target_cur u r ≡ goes_to p
unfolding target_cur
target_cur-goes_to u p r other sum inside small =
    rw sum (rw (inside_range p r.file_length inside small) (rw (ne→== u 0 other) refl))

target_end-goes_to :
    (u p : ℕ) (r : Reader)
    → half64 ≤ u
    → u < 2 ^ 64
    → (u + r.file_length) % 2 ^ 64 ≡ p
    → p < r.file_length
    → r.file_length < half64
    → target_end u r ≡ goes_to p
unfolding target_end
target_end-goes_to u p r back few sum inside small = rw sum (
    rw (le→ltb ((0 + 2 ^ 63) % 2 ^ 64) ((u + 2 ^ 63) % 2 ^ 64) (omega arith))
      (rw (lt→leb half64 p (omega arith)) refl))

pub target-Asks :
    (z : ℤ) (w p : ℕ) (r : Reader)
    → Asks z w r.offset r.file_length p
    → p < r.file_length
    → r.offset ≤ r.file_length
    → r.file_length < half64
    → target z w r ≡ goes_to p
unfolding target word
target-Asks (pos n) zero p r h inside behind small =
    ap (λ u. target_set u r) (omega (arith, h.0)) ∙ target_set-goes_to p r h.1 inside small
target-Asks (pos n) (suc zero) p r h inside behind small =
    target_cur-goes_to _ p r (omega (arith, h)) (omega (arith, h)) inside small
target-Asks (negsuc n) (suc zero) p r h inside behind small =
    target_cur-goes_to _ p r (omega (arith, h)) (omega (arith, h)) inside small
target-Asks (negsuc n) (suc (suc zero)) p r h inside behind small =
    target_end-goes_to _ p r (omega (arith, h)) (omega (arith, h)) (omega (arith, h)) inside small
target-Asks (negsuc n) zero p r h inside behind small = absurd h
target-Asks (pos n) (suc (suc zero)) p r h inside behind small = absurd h
target-Asks (pos n) (suc (suc (suc w))) p r h inside behind small = absurd h
target-Asks (negsuc n) (suc (suc (suc w))) p r h inside behind small = absurd h

-- The call asks for a position in front of the file or behind its end; from the end, any position
-- behind it.
abbrev pub AsksOutside : ℤ → ℕ → ℕ → ℕ → Type 0
AsksOutside (pos n) zero o total = (total < n) × (n ≢ o)
AsksOutside (negsuc n) zero o total = Unit {0}
AsksOutside (pos n) (suc zero) o total = total < o + n
AsksOutside (negsuc n) (suc zero) o total = o < suc n
AsksOutside (pos n) (suc (suc zero)) o total = 0 < n
AsksOutside (negsuc n) (suc (suc zero)) o total = total < suc n
AsksOutside z (suc (suc (suc w))) o total = ⊥

outside_range :
    (p total : ℕ)
    → p < 2 ^ 64
    → total < half64
    → (total < p) ⊎ (half64 ≤ p)
    → (is_negative64 p || slt64 total p) ≡ true
outside_range p total few small out = elim (Bool-cases (is_negative64 p)) [
  | inl negative ↦ rw negative refl
  | inr positive ↦ rw positive (lt→ltb _ _ (ground arith))
]

target_set-out_of_range :
    (p : ℕ) (r : Reader)
    → p ≢ r.offset
    → (is_negative64 p || slt64 r.file_length p) ≡ true
    → target_set p r ≡ out_of_range
unfolding target_set
target_set-out_of_range p r other out = rw (ne→== p r.offset other) (rw out refl)

target_cur-out_of_range :
    (u p : ℕ) (r : Reader)
    → (u + r.offset) % 2 ^ 64 ≡ p
    → (is_negative64 p || slt64 r.file_length p) ≡ true
    → target_cur u r ≡ out_of_range
unfolding target_cur
target_cur-out_of_range u p r sum out = rw sum (rw out refl)

target_end-out_of_range :
    (u : ℕ) (r : Reader)
    → (slt64 0 u || is_negative64 ((u + r.file_length) % 2 ^ 64)) ≡ true
    → target_end u r ≡ out_of_range
unfolding target_end
target_end-out_of_range u r out = rw out refl

pub target-AsksOutside :
    (z : ℤ) (w : ℕ) (r : Reader)
    → AsksOutside z w r.offset r.file_length
    → Fits half64 z
    → r.offset ≤ r.file_length
    → r.file_length < half64
    → target z w r ≡ out_of_range
unfolding target word
target-AsksOutside (pos n) zero r h fits behind small =
    target_set-out_of_range _ r (omega (arith, h, fits))
      (outside_range _ r.file_length (omega arith) small (inl (omega (arith, h, fits))))
target-AsksOutside (negsuc n) zero r h fits behind small =
    target_set-out_of_range _ r (omega (arith, fits))
      (outside_range _ r.file_length (omega arith) small (inr (omega (arith, fits))))
target-AsksOutside (pos n) (suc zero) r h fits behind small =
    target_cur-out_of_range _ _ r refl
      (outside_range _ r.file_length (omega arith) small (inl (omega (arith, h, fits))))
target-AsksOutside (negsuc n) (suc zero) r h fits behind small =
    target_cur-out_of_range _ _ r refl
      (outside_range _ r.file_length (omega arith) small (inr (omega (arith, h, fits))))
target-AsksOutside (pos n) (suc (suc zero)) r h fits behind small = target_end-out_of_range _ r (
    rw
      (lt→ltb ((0 + 2 ^ 63) % 2 ^ 64) ((n % (half64 + half64) + 2 ^ 63) % 2 ^ 64)
        (omega (arith, h, fits)))
      refl)
target-AsksOutside (negsuc n) (suc (suc zero)) r h fits behind small = target_end-out_of_range _ r (
    rw
      (le→ltb ((0 + 2 ^ 63) % 2 ^ 64)
        ((half64 + half64 - 1 - n % (half64 + half64) + 2 ^ 63) % 2 ^ 64) (omega (arith, h, fits)))
      (le→leb half64 ((half64 + half64 - 1 - n % (half64 + half64) + r.file_length) % 2 ^ 64)
        (omega (arith, h, fits))))
target-AsksOutside z (suc (suc (suc w))) r h fits behind small = absurd h

-- A seek to a position in front of the file or behind its end, from the start, the offset or the
-- end, and other than the one at hand, fails with ERANGE: the stream stays, and the server is asked
-- nothing. The length is below 2^63, and the stream stands inside of it.
pub stream_seek_erange :
    {W : Type 0} (server : Server W) (gfs : GridFs) (z : ℤ) (w : ℕ) (r : Reader) (s : W)
    → AsksOutside z w r.offset r.file_length
    → Fits half64 z
    → r.offset ≤ r.file_length
    → r.file_length < half64
    → stream_seek server gfs z w r s ≡ stops erange (r, s)
unfolding stream_seek
stream_seek_erange server gfs z w r s outside fits behind small =
    rw (target-AsksOutside z w r outside fits behind small, stream_seek) refl
