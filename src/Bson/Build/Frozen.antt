-- ===== src/Bson/Build/Frozen.antt =====
-- A finished object of src/bson.c does not change any more, whatever is appended to it.
use libmongo_client.Base.{
  ℕ, zero, suc, ◌≡◌, refl, Bool, true, false, Option, none, some, List, Bool-cases, Option-cases,
  inl, inr, subst,
}
use libmongo_client.Base.Bytes.{strlen}
use libmongo_client.Base.Int.{ℤ, pos, negsuc, is_negative}
use libmongo_client.Base.Result.{Result, ok, fails, fault, spins, access, ◌>>=◌}
use libmongo_client.Bson.Object.{Bson, size, contents}
use libmongo_client.Bson.Append.{
  Appended, append_element_header, append_string_element, append_document_element,
  append_int64_element, append_double, append_string, append_document, append_array, append_binary,
  append_oid, append_boolean, append_utc_datetime, append_null, append_regex, append_javascript,
  append_symbol, append_javascript_w_scope, append_int32, append_timestamp, append_int64,
}
use libmongo_client.Bson.Build.{
  Args, unsupported, double, string, document, array, binary, oid, boolean, utc_datetime, null,
  regexp, js_code, symbol, js_code_w_scope, int32, timestamp, int64, Arg, ready, add_args,
  add_single,
}
use libmongo_client.Bson.Build.Appends.{closed}

-- The object that a call leaves, if it returns, is the finished one.
abbrev Keeps : List ℕ → Result Appended → Type 0
Keeps xs (ok (b, r)) = b ≡ some (closed xs)
Keeps xs fails = Unit {0}
Keeps xs fault = Unit {0}
Keeps xs spins = Unit {0}

module _ (xs : List ℕ) where
  header-closed :
      (type : ℕ) (name : Option (List ℕ))
      → append_element_header (some (closed xs)) type name ≡ (some (closed xs), false)
  unfolding append_element_header
  header-closed type none = refl
  header-closed type (some name) = refl

  append_int64_element-closed :
      (type : ℕ) (name : Option (List ℕ)) (i : ℤ)
      → append_int64_element (some (closed xs)) type name i ≡ (some (closed xs), false)
  unfolding append_int64_element
  append_int64_element-closed type name i = rw (header-closed type name) refl

  append_document_element-closed :
      (type : ℕ) (name : Option (List ℕ)) (d : Option Bson)
      → append_document_element (some (closed xs)) type name d ≡ (some (closed xs), false)
  unfolding append_document_element
  append_document_element-closed type name d = elim (Bool-cases (is_negative (size d))) [
    | inl refused ↦ rw refused refl
    | inr good ↦ elim (Option-cases (contents d)) [
      | inl empty ↦ rw good (rw empty refl)
      | inr (bytes, e) ↦ rw good (rw e (rw (header-closed type name) refl))
    ]
  ]

  Keeps-bind :
      (m : Result ℕ) (k : ℕ → Result Appended)
      → ((n : ℕ) → Keeps xs (k n >>= λ r. ok (r.0, true)))
      → Keeps xs ((m >>= k) >>= λ r. ok (r.0, true))
  Keeps-bind (ok n) k h = h n
  Keeps-bind fails k h = tt
  Keeps-bind fault k h = tt
  Keeps-bind spins k h = tt

  append_string_element-Keeps :
      (type : ℕ) (name s : Option (List ℕ)) (l : ℤ)
      → Keeps xs (append_string_element (some (closed xs)) type name s l >>= λ r. ok (r.0, true))
  unfolding append_string_element
  append_string_element-Keeps type name none l = refl
  append_string_element-Keeps type name (some mem) (pos zero) = refl
  append_string_element-Keeps type name (some mem) (pos (suc n)) = rw (header-closed type name) refl
  append_string_element-Keeps type name (some mem) (negsuc zero) =
      rw (header-closed type name) (Keeps-bind (access (strlen mem)) _ (λ n. refl))
  append_string_element-Keeps type name (some mem) (negsuc (suc n)) = refl

  append_javascript_w_scope-Keeps :
      (name js : Option (List ℕ)) (l : ℤ) (d : Option Bson)
      → Keeps xs (append_javascript_w_scope (some (closed xs)) name js l d >>= λ r. ok (r.0, true))
  unfolding append_javascript_w_scope
  append_javascript_w_scope-Keeps name none l d = refl
  append_javascript_w_scope-Keeps name (some js) (negsuc (suc n)) d = refl
  append_javascript_w_scope-Keeps name (some js) (negsuc zero) d =
      elim (Bool-cases (is_negative (size d))) [
        | inl refused ↦ rw refused refl
        | inr good ↦ elim (Option-cases (contents d)) [
          | inl empty ↦ rw good (rw empty refl)
          | inr (bytes, e) ↦ rw good (rw e (rw (header-closed 15 name) refl))
        ]
      ]
  append_javascript_w_scope-Keeps name (some js) (pos n) d =
      elim (Bool-cases (is_negative (size d))) [
        | inl refused ↦ rw refused refl
        | inr good ↦ elim (Option-cases (contents d)) [
          | inl empty ↦ rw good (rw empty refl)
          | inr (bytes, e) ↦ rw good (rw e (rw (header-closed 15 name) refl))
        ]
      ]

  append_binary-Keeps :
      (name : Option (List ℕ)) (t : ℕ) (d : Option (List ℕ)) (l : ℤ)
      → Keeps xs (append_binary (some (closed xs)) name t d l >>= λ r. ok (r.0, true))
  unfolding append_binary
  append_binary-Keeps name t none l = refl
  append_binary-Keeps name t (some d) (pos zero) = refl
  append_binary-Keeps name t (some d) (pos (suc n)) = rw (header-closed 5 name) refl
  append_binary-Keeps name t (some d) (negsuc n) = refl

  append_oid-Keeps :
      (name o : Option (List ℕ))
      → Keeps xs (append_oid (some (closed xs)) name o >>= λ r. ok (r.0, true))
  unfolding append_oid
  append_oid-Keeps name none = refl
  append_oid-Keeps name (some o) = rw (header-closed 7 name) refl

  append_regex-closed :
      (name r o : Option (List ℕ))
      → append_regex (some (closed xs)) name r o ≡ (some (closed xs), false)
  unfolding append_regex
  append_regex-closed name none o = refl
  append_regex-closed name (some r) none = refl
  append_regex-closed name (some r) (some o) = rw (header-closed 11 name) refl

  add_args-Keeps :
      (name : Option (List ℕ)) (f : Bool) (a : Args)
      → Keeps xs (add_args (some (closed xs)) name f a)
  unfolding add_args append_double append_string append_document append_array append_boolean
      append_utc_datetime append_null append_javascript append_symbol append_int32 append_timestamp
      append_int64
  add_args-Keeps name f (unsupported t) = refl
  add_args-Keeps name f (double d) = rw (header-closed 1 name) refl
  add_args-Keeps name f (string s l) = append_string_element-Keeps 2 name s l
  add_args-Keeps name f (document d) = rw (append_document_element-closed 3 name (ready f d)) refl
  add_args-Keeps name f (array d) = rw (append_document_element-closed 4 name (ready f d)) refl
  add_args-Keeps name f (binary t d l) = append_binary-Keeps name t d l
  add_args-Keeps name f (oid o) = append_oid-Keeps name o
  add_args-Keeps name f (boolean v) = rw (header-closed 8 name) refl
  add_args-Keeps name f (utc_datetime t) = rw (append_int64_element-closed 9 name t) refl
  add_args-Keeps name f null = rw (header-closed 10 name) refl
  add_args-Keeps name f (regexp r o) = rw (append_regex-closed name r o) refl
  add_args-Keeps name f (js_code s l) = append_string_element-Keeps 13 name s l
  add_args-Keeps name f (symbol s l) = append_string_element-Keeps 14 name s l
  add_args-Keeps name f (js_code_w_scope s l d) =
      append_javascript_w_scope-Keeps name s l (ready f d)
  add_args-Keeps name f (int32 i) = rw (header-closed 16 name) refl
  add_args-Keeps name f (timestamp t) = rw (append_int64_element-closed 17 name t) refl
  add_args-Keeps name f (int64 i) = rw (append_int64_element-closed 18 name i) refl

  -- A finished object is the same after an append of any type with any arguments that returns.
  pub add_single-closed :
      (a : Arg) (b : Option Bson) (result : Bool)
      → add_single (some (closed xs)) a ≡ ok (b, result)
      → b ≡ some (closed xs)
  unfolding add_single
  add_single-closed a b result e = subst (Keeps xs) e (add_args-Keeps a.name a.free_after a.args)
