-- ===== src/Pool/Turns.antt =====
-- Clients of src/mongo-sync-pool.c that take turns: what `mongo_sync_pool_return` does with a connection
-- after any further calls of `mongo_sync_pool_pick` and `mongo_sync_pool_return`.
use libmongo_client.Base.{
  ℕ, zero, suc, ◌+◌, ◌-◌, ◌<◌, ◌≤◌, ◌≡◌, ◌≢◌, ◌⊎◌, refl, ap, sym, ◌∙◌, inl, inr, Bool, true, false,
  some, List, [], ◌∷◌, map, arith, length, if◌then◌else◌, ◌==◌, Bool-cases, Option-cases, lt→ltb,
  le→ltb, ltb, eq→==, ne→==,
}
use libmongo_client.Base.Int.{pos}
use libmongo_client.Base.Call.{returns, need, ◌>>=◌}
use libmongo_client.Pool.{Conn, Pool, pick_from, pick_master, pick, free_at, beyond, give_back}
use libmongo_client.Pool.Slots.{IsNumbered, IsPool, pick_from-free_at, beyond-slave}

-- Calls on a pool that succeed, in any order.
pub data Steps (p : Pool) : Pool → Type 0 where
  here : Steps p p
  picked :
      {q r : Pool} (c : Conn) (want_master : Bool)
      → Steps p q
      → pick (some q) want_master ≡ returns (r, c)
      → Steps p r
  returned :
      {q r : Pool} (c : Conn) → Steps p q → give_back (some q) (some c) ≡ returns r → Steps p r

-- The connection with this id marked as free, and the others as they are.
abbrev pub free_if : ℕ → Conn → Conn
free_if id c = if c.pool_id == id then record c { in_use = false } else c

abbrev pub freed : ℕ → Pool → Pool
freed id p = record p { masters = map (free_if id) p.masters; slaves = map (free_if id) p.slaves }

-- Lists with the same number of connections, numbered alike.
abbrev IsLike : ℕ → List Conn → List Conn → Type 0
IsLike n cs ds = (length ds ≡ length cs) × IsNumbered n ds

pick_from-IsLike :
    (n : ℕ) (cs ds : List Conn) (c : Conn)
    → IsNumbered n cs
    → pick_from cs ≡ some (ds, c)
    → IsLike n cs ds
unfolding pick_from
pick_from-IsLike n [] ds c h = λ e. cc
pick_from-IsLike n (x ∷ cs) ds c h = elim (Bool-cases x.in_use) [
  | inr free ↦
      rw free
        (λ e. let same : ds ≡ record x { in_use = true } ∷ cs = cc in rw same (refl, (h.0, h.1)))
  | inl busy ↦ elim (Option-cases (pick_from cs)) [
    | inl none_left ↦ rw (busy, none_left) (λ e. cc)
    | inr ((es, d), y) ↦
        rw (busy, y)
          (λ e.
            let same : ds ≡ x ∷ es = cc in
            let r = pick_from-IsLike (suc n) cs es d h.1 y in rw same (ap suc r.0, (h.0, r.1)))
  ]
]

free_at-IsLike :
    (n i : ℕ) (cs ds : List Conn) → IsNumbered n cs → free_at cs i ≡ some ds → IsLike n cs ds
unfolding free_at
free_at-IsLike n i [] ds h = λ e. cc
free_at-IsLike n zero (x ∷ cs) ds h =
    λ e. let same : ds ≡ record x { in_use = false } ∷ cs = cc in rw same (refl, (h.0, h.1))
free_at-IsLike n (suc i) (x ∷ cs) ds h = elim (Option-cases (free_at cs i)) [
  | inl out ↦ rw out (λ e. cc)
  | inr (es, y) ↦ rw y (λ e.
      let same : ds ≡ x ∷ es = cc in
      let r = free_at-IsLike (suc n) i cs es h.1 y in rw same (ap suc r.0, (h.0, r.1)))
]

-- An id that no connection of the list has.
free_if-none :
    (n k : ℕ) (cs : List Conn)
    → IsNumbered n cs
    → (k < n) ⊎ (n + length cs ≤ k)
    → map (free_if k) cs ≡ cs
free_if-none n k [] h out = refl
free_if-none n k (x ∷ cs) h out =
    let other : x.pool_id ≢ k = λ e. elim out [
      | inl low ↦ absurd (omega (arith, h.0, e))
      | inr high ↦ absurd (omega (arith, h.0, e))
    ] in
    let later : (k < suc n) ⊎ (suc n + length cs ≤ k) = elim out [
      | inl low ↦ inl (omega arith)
      | inr high ↦ inr (omega arith)
    ] in
    rw (ne→== x.pool_id k other) (ap (λ ds. x ∷ ds) (free_if-none (suc n) k cs h.1 later))

free_at-free_if :
    (n i : ℕ) (cs : List Conn)
    → IsNumbered n cs
    → i < length cs
    → free_at cs i ≡ some (map (free_if (n + i)) cs)
unfolding free_at
free_at-free_if n i [] h inside = absurd (omega arith)
free_at-free_if n zero (x ∷ cs) h inside =
    rw (eq→== x.pool_id (n + 0) (omega (arith, h.0)))
      (rw (free_if-none (suc n) (n + 0) cs h.1 (inl (omega arith))) refl)
free_at-free_if n (suc i) (x ∷ cs) h inside =
    let other : x.pool_id ≢ n + suc i = λ e. absurd (omega (arith, h.0, e)) in
    let count : suc n + i ≡ n + suc i = omega arith in
    rw (ne→== x.pool_id (n + suc i) other) (
      rw (free_at-free_if (suc n) i cs h.1 (omega arith))
        (ap (λ k. some (x ∷ map (free_if k) cs)) count))

-- A pool is well-formed, and has as many masters and slaves as another one.
abbrev pub Keeps : Pool → Pool → Type 0
Keeps p q = IsPool q × (q.nmasters ≡ p.nmasters) × (length q.slaves ≡ length p.slaves)

masters-Keeps :
    (p : Pool) (cs : List Conn)
    → IsPool p
    → IsLike 0 p.masters cs
    → Keeps p (record p { masters = cs })
masters-Keeps p cs v like = (
  record {
    master_ids = like.1;
    slave_ids = v.slave_ids;
    master_count = v.master_count ∙ sym like.0;
    slave_count = v.slave_count;
  },
  refl,
  refl,
)

slaves-Keeps :
    (p : Pool) (cs : List Conn)
    → IsPool p
    → IsLike (suc p.nmasters) p.slaves cs
    → Keeps p (record p { slaves = cs })
slaves-Keeps p cs v like = (
  record {
    master_ids = v.master_ids;
    slave_ids = like.1;
    master_count = v.master_count;
    slave_count = v.slave_count ∙ ap pos (sym like.0);
  },
  refl,
  like.0,
)

-- Where the id of a connection that was picked stands.
abbrev IsIdOf : Pool → ℕ → Type 0
IsIdOf p k = (k < p.nmasters) ⊎ ((p.nmasters < k) × (k ≤ p.nmasters + length p.slaves))

pick_master-Keeps :
    (p q : Pool) (c : Conn)
    → IsPool p
    → pick_master p ≡ returns (q, c)
    → Keeps p q × IsIdOf p c.pool_id
unfolding pick_master
pick_master-Keeps p q c v = elim (Option-cases (pick_from p.masters)) [
  | inl none_left ↦ rw (none_left, pick_master) (λ e. cc)
  | inr ((cs, d), y) ↦
      rw (y, pick_master)
        (λ e.
          let same : (q ≡ record p { masters = cs }) × (c ≡ d) = (cc, cc) in
          let k = pick_from-free_at 0 p.masters cs d v.master_ids y in
          rw same.0 (
            rw same.1 (
              masters-Keeps p cs v (pick_from-IsLike 0 p.masters cs d v.master_ids y),
              inl (omega (arith, k.1, k.2, v.master_count)),
            )))
]

pick-Keeps :
    (p q : Pool) (c : Conn) (want_master : Bool)
    → IsPool p
    → pick (some p) want_master ≡ returns (q, c)
    → Keeps p q × IsIdOf p c.pool_id
unfolding pick
pick-Keeps p q c true v = λ e. pick_master-Keeps p q c v e
pick-Keeps p q c false v = elim (Option-cases (pick_from p.slaves)) [
  | inl none_left ↦ rw (none_left, pick) (λ e. pick_master-Keeps p q c v e)
  | inr ((cs, d), y) ↦
      rw (y, pick)
        (λ e.
          let same : (q ≡ record p { slaves = cs }) × (c ≡ d) = (cc, cc) in
          let k = pick_from-free_at (suc p.nmasters) p.slaves cs d v.slave_ids y in
          rw same.0 (
            rw same.1 (
              slaves-Keeps p cs v (pick_from-IsLike (suc p.nmasters) p.slaves cs d v.slave_ids y),
              inr (omega (arith, k.1), omega (arith, k.1, k.2)),
            )))
]

freed_masters-Keeps :
    (p q : Pool) (i : ℕ)
    → IsPool p
    → (need (free_at p.masters i) >>= λ cs. returns (record p { masters = cs })) ≡ returns q
    → Keeps p q
freed_masters-Keeps p q i v = elim (Option-cases (free_at p.masters i)) [
  | inl out ↦ rw out (λ e. cc)
  | inr (cs, y) ↦ rw y (λ e.
      let same : q ≡ record p { masters = cs } = cc in
      rw same (masters-Keeps p cs v (free_at-IsLike 0 i p.masters cs v.master_ids y)))
]

freed_slaves-Keeps :
    (p q : Pool) (i : ℕ)
    → IsPool p
    → (need (free_at p.slaves i) >>= λ cs. returns (record p { slaves = cs })) ≡ returns q
    → Keeps p q
freed_slaves-Keeps p q i v = elim (Option-cases (free_at p.slaves i)) [
  | inl out ↦ rw out (λ e. cc)
  | inr (cs, y) ↦ rw y (λ e.
      let same : q ≡ record p { slaves = cs } = cc in
      rw same (slaves-Keeps p cs v (free_at-IsLike (suc p.nmasters) i p.slaves cs v.slave_ids y)))
]

give_back-Keeps :
    (p q : Pool) (c : Conn) → IsPool p → give_back (some p) (some c) ≡ returns q → Keeps p q
unfolding give_back
give_back-Keeps p q c v = elim (Bool-cases (ltb p.nmasters c.pool_id)) [
  | inr low ↦ rw low (freed_masters-Keeps p q c.pool_id v)
  | inl high ↦ elim (Bool-cases (beyond (c.pool_id - p.nmasters) p.nslaves)) [
    | inl out ↦ rw (high, out) (λ e. cc)
    | inr within ↦ rw (high, within) (freed_slaves-Keeps p q (c.pool_id - p.nmasters - 1) v)
  ]
]

Keeps-trans : (p q r : Pool) → Keeps p q → Keeps q r → Keeps p r
Keeps-trans p q r a b = (b.0, b.1 ∙ a.1, b.2 ∙ a.2)

-- The calls that succeed keep a pool well-formed, and the numbers of its connections.
Steps-Keeps : (p q : Pool) → IsPool p → Steps p q → Keeps p q
Steps-Keeps p q v here = (v, refl, refl)
Steps-Keeps p q v (picked {q = m} c want_master before e) =
    let k = Steps-Keeps p m v before in Keeps-trans p m q k (pick-Keeps m q c want_master k.0 e).0
Steps-Keeps p q v (returned {q = m} c before e) =
    let k = Steps-Keeps p m v before in Keeps-trans p m q k (give_back-Keeps m q c k.0 e)

give_back-IsIdOf :
    (p : Pool) (c : Conn)
    → IsPool p
    → IsIdOf p c.pool_id
    → give_back (some p) (some c) ≡ returns (freed c.pool_id p)
unfolding give_back
give_back-IsIdOf p c v (inl low) =
    let zero_id : 0 + c.pool_id ≡ c.pool_id = omega arith in
    rw (le→ltb p.nmasters c.pool_id (omega arith)) (
      rw (free_at-free_if 0 c.pool_id p.masters v.master_ids (omega (arith, v.master_count))) (
        ap (λ k. returns (record p { masters = map (free_if k) p.masters })) zero_id
        ∙ ap (λ cs. returns (record p { masters = map (free_if c.pool_id) p.masters; slaves = cs }))
            (sym
              (free_if-none (suc p.nmasters) c.pool_id p.slaves v.slave_ids (inl (omega arith))))))
give_back-IsIdOf p c v (inr (high, within)) =
    let i = c.pool_id - p.nmasters - 1 in
    let off : c.pool_id - p.nmasters ≡ suc i = omega arith in
    let off_one : suc i - 1 ≡ i = omega arith in
    let inside : beyond (suc i) p.nslaves ≡ false =
      ap (beyond (suc i)) v.slave_count ∙ beyond-slave i (length p.slaves) (omega arith) in
    let id : suc p.nmasters + i ≡ c.pool_id = omega arith in
    rw (lt→ltb p.nmasters c.pool_id high) (
      rw off (
        rw inside (
          rw off_one (
            rw (free_at-free_if (suc p.nmasters) i p.slaves v.slave_ids (omega arith)) (
              ap (λ k. returns (record p { slaves = map (free_if k) p.slaves })) id
              ∙ ap
                  (λ cs.
                    returns (record p { masters = cs; slaves = map (free_if c.pool_id) p.slaves }))
                  (sym (
                    free_if-none 0 c.pool_id p.masters v.master_ids
                      (inr (omega (arith, v.master_count))))))))))

-- A connection that was picked from a well-formed pool can be returned whatever calls of
-- `mongo_sync_pool_pick` and `mongo_sync_pool_return` succeeded since then: that marks the
-- connection with its id as free, leaves the others as they are at that time, and the pool stays
-- well-formed.
pub give_back-Steps :
    (p q r : Pool) (c : Conn) (want_master : Bool)
    → IsPool p
    → pick (some p) want_master ≡ returns (q, c)
    → Steps q r
    → (give_back (some r) (some c) ≡ returns (freed c.pool_id r)) × IsPool (freed c.pool_id r)
give_back-Steps p q r c want_master v e later =
    let got = pick-Keeps p q c want_master v e in
    let kept = Keeps-trans p q r got.0 (Steps-Keeps q r got.0.0 later) in
    let same_id : IsIdOf r c.pool_id = elim got.1 [
      | inl low ↦ inl (omega (arith, kept.1, low))
      | inr (high, within) ↦
          inr (omega (arith, kept.1, high), omega (arith, kept.1, kept.2, within))
    ] in
    let back = give_back-IsIdOf r c kept.0 same_id in
    (back, (give_back-Keeps r (freed c.pool_id r) c kept.0 back).0)
