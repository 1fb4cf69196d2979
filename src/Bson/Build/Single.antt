-- ===== src/Bson/Build/Single.antt =====
-- Single appends of src/bson.c to an open object, in terms of the elements that they add.
use libmongo_client.Base.{
  ℕ, ◌%◌, ◌<◌, ◌≡◌, refl, true, some, List, [], ◌∷◌, ◌++◌, append_assoc, arith, length, take?_from,
  take?_exact, lt→ltb, suc,
}
use libmongo_client.Base.Bytes.{IsCString}
use libmongo_client.Base.Int.{ℤ, pos, negsuc, signed, half32, half64}
use libmongo_client.Base.Result.{ok}
use libmongo_client.Bson.Append.{
  Appended, append_int64, append_int32, append_utc_datetime, append_string, append_oid,
  append_binary,
}
use libmongo_client.Bson.Element.{Value, tag, payload, encode}
use libmongo_client.Bson.Build.Appends.{open_with, append_string_element-closed}

abbrev pub with_element : List ℕ → List ℕ → Value → Appended
with_element xs k v = (some (open_with (xs ++ encode (record { key = k; value = v }))), true)

pub signed_small : (n : ℕ) → n < half32 → signed half32 n ≡ pos n
unfolding signed
signed_small n h = rw (lt→ltb n half32 h) refl

pub signed_small64 : (n : ℕ) → n < half64 → signed half64 n ≡ pos n
unfolding signed
signed_small64 n h = rw (lt→ltb n half64 h) refl

module _ (xs k : List ℕ) where
  pub append_int64-encode :
      (i : ℤ) → append_int64 (some (open_with xs)) (some k) i ≡ with_element xs k (Value.int64 i)
  unfolding append_int64 encode tag payload
  append_int64-encode i = simp append_assoc

  pub append_int32-encode :
      (i : ℤ) → append_int32 (some (open_with xs)) (some k) i ≡ with_element xs k (Value.int32 i)
  unfolding append_int32 encode tag payload
  append_int32-encode i = simp append_assoc

  pub append_utc_datetime-encode :
      (t : ℤ)
      → append_utc_datetime (some (open_with xs)) (some k) t
        ≡ with_element xs k (Value.utc_datetime t)
  unfolding append_utc_datetime encode tag payload
  append_utc_datetime-encode t = simp append_assoc

  pub append_string-encode :
      (s : List ℕ)
      → IsCString s
      → append_string (some (open_with xs)) (some k) (some (s ++ 0 ∷ [])) (negsuc 0)
        ≡ ok (with_element xs k (Value.string s))
  unfolding append_string encode tag payload
  append_string-encode s h = append_string_element-closed xs k s 2 h

  pub append_oid-encode :
      (o : List ℕ)
      → length o ≡ 12
      → append_oid (some (open_with xs)) (some k) (some o) ≡ ok (with_element xs k (Value.oid o))
  unfolding append_oid encode tag payload
  append_oid-encode o h = simp (take?_exact o 12 h, append_assoc)

  -- The bytes are copied from the start of the memory.
  pub append_binary-encode :
      (t : ℕ) (d rest : List ℕ)
      → t < 256
      → 0 < length d
      → append_binary (some (open_with xs)) (some k) t (some (d ++ rest)) (pos (length d))
        ≡ ok (with_element xs k (Value.binary t d))
  unfolding append_binary encode tag payload
  append_binary-encode t [] rest ht h = absurd (omega arith)
  append_binary-encode t (x ∷ d) rest ht h =
      let e : t % 256 ≡ t = omega arith in
      simp (take?_from (x ∷ d) rest (suc (length d)) refl, append_assoc, e)
