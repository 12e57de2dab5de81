-- ===== src/Queue/Invariant.antt =====
-- The table invariant: ids strictly ascend and stay below the next one, and message ids are unique.
use bbjsensescada.Common.{
  ℕ, suc, ◌+◌, ◌≤◌, ◌≡◌, refl, Bool, true, false, List, [], ◌∷◌, ◌++◌, map, none, String, filter,
  contains, ◌==◌, string_eq, nat_eq, if◌then◌else◌, arith, Bool-cases, Option-cases, inl, inr,
}
use mathlib.Core.List.{foldl, map-append}
use bbjsensescada.Common.Int.{ℤ}
use bbjsensescada.Python.{Result, ok, err}
use bbjsensescada.Queue.Defs.{
  Row, Table, message_ids, enqueue_telemetry, mark_message_sent, mark_message_failed,
  delete_sent_messages, refusal, Reading, Json, new_table, update_where, as_sent, as_failed,
}

-- Ids ascend from `lo` and stay below `hi`.
abbrev pub Ascending : ℕ → ℕ → List Row → Type 0
Ascending lo hi [] = lo ≤ hi
Ascending lo hi (r ∷ rs) = (lo ≤ r.id) × Ascending (suc r.id) hi rs

abbrev pub Unique : List String → Type 0
Unique [] = Unit {0}
Unique (m ∷ ms) = (contains ms m ≡ false) × Unique ms

pub record IsValid (t : Table) : Type 0 where
  pub ascending : Ascending 1 t.next_id t.rows
  pub unique : Unique (message_ids t.rows)

Ascending-snoc :
    (lo hi : ℕ) (rs : List Row) (r : Row)
    → Ascending lo hi rs
    → r.id ≡ hi
    → Ascending lo (hi + 1) (rs ++ r ∷ [])
Ascending-snoc lo hi [] r h e = omega arith
Ascending-snoc lo hi (q ∷ rs) r (h, hs) e = (h, Ascending-snoc (suc q.id) hi rs r hs e)

contains-append :
    (ms : List String) (m k : String)
    → contains (ms ++ m ∷ []) k ≡ (if k == m then true else contains ms k)
contains-append [] m k = ground arith
contains-append (n ∷ ms) m k = ground (arith, contains-append ms m k)

Unique-snoc :
    (ms : List String) (m : String) → Unique ms → contains ms m ≡ false → Unique (ms ++ m ∷ [])
Unique-snoc [] m h e = (refl, tt)
Unique-snoc (n ∷ ms) m (h, hs) e =
    (ground (arith, contains-append ms m n), Unique-snoc ms m hs (ground arith))

Ascending-weaken :
    (lo lo' hi : ℕ) (rs : List Row) → lo' ≤ lo → Ascending lo hi rs → Ascending lo' hi rs
Ascending-weaken lo lo' hi [] h a = omega arith
Ascending-weaken lo lo' hi (r ∷ rs) h (a, as') = (omega arith, as')

pub Ascending-filter :
    (p : Row → Bool) (lo hi : ℕ) (rs : List Row)
    → Ascending lo hi rs
    → Ascending lo hi (filter p rs)
Ascending-filter p lo hi [] h = h
Ascending-filter p lo hi (r ∷ rs) (h, hs) =
    let rest = Ascending-filter p (suc r.id) hi rs hs in
    elim (Bool-cases (p r)) [
      | inl keep ↦ rw keep (h, rest)
      | inr drop ↦ rw drop (Ascending-weaken (suc r.id) lo hi (filter p rs) (omega arith) rest)
    ]

contains-filter :
    (p : Row → Bool) (m : String) (rs : List Row)
    → contains (message_ids rs) m ≡ false
    → contains (message_ids (filter p rs)) m ≡ false
contains-filter p m [] h = refl
contains-filter p m (r ∷ rs) h = ground (arith, contains-filter p m rs)

pub Unique-filter :
    (p : Row → Bool) (rs : List Row) → Unique (message_ids rs) → Unique (message_ids (filter p rs))
Unique-filter p [] h = tt
Unique-filter p (r ∷ rs) (h, hs) = elim (Bool-cases (p r)) [
  | inl keep ↦ rw keep (contains-filter p r.message_id rs h, Unique-filter p rs hs)
  | inr drop ↦ rw drop (Unique-filter p rs hs)
]

-- An update that keeps ids and message ids.
Ascending-map :
    (f : Row → Row)
    → ((r : Row) → (f r).id ≡ r.id)
    → (lo hi : ℕ) (rs : List Row) → Ascending lo hi rs
    → Ascending lo hi (map f rs)
Ascending-map f same lo hi [] h = h
Ascending-map f same lo hi (r ∷ rs) (h, hs) =
    rw (same r) (h, Ascending-map f same (suc r.id) hi rs hs)

message_ids-map :
    (f : Row → Row)
    → ((r : Row) → (f r).message_id ≡ r.message_id)
    → (rs : List Row) → message_ids (map f rs) ≡ message_ids rs
message_ids-map f same [] = refl
message_ids-map f same (r ∷ rs) = rw (same r, message_ids-map f same rs)

update_where-IsValid :
    (m : String) (f : Row → Row)
    → ((r : Row) → (f r).id ≡ r.id)
    → ((r : Row) → (f r).message_id ≡ r.message_id)
    → (t : Table) → IsValid t
    → IsValid (update_where m f t)
update_where-IsValid m f same_id same_message t v =
    let g = λ (r : Row). if r.message_id == m then f r else r in
    record {
      ascending = Ascending-map g (λ r. ground (arith, same_id r)) 1 t.next_id t.rows v.ascending;
      unique = rw (message_ids-map g (λ r. ground (arith, same_message r)) t.rows) v.unique;
    }

-- The calls that other modules and threads make, in the order in which they take the lock.
pub data Operation : Type 0 where
  enqueue : Json → String → String → Reading → Operation
  mark_sent : String → String → Operation
  mark_failed : String → String → String → Operation
  delete_sent : ℤ → Operation

-- A refused INSERT is rolled back.
abbrev committed : Table → Result (String × Table) → Table
committed t (ok (m, t')) = t'
committed t (err e) = t

unfoldable pub perform : Operation → Table → Table
perform (enqueue J m now r) t = committed t (enqueue_telemetry J m now r t)
perform (mark_sent now m) t = mark_message_sent now m t
perform (mark_failed now m e) t = mark_message_failed now m e t
perform (delete_sent k) t = (delete_sent_messages k t).1

-- A reading that is taken has a new message id.
pub new_id :
    (m : String) (r : Reading) (t : Table)
    → refusal m r t ≡ none
    → contains (message_ids t.rows) m ≡ false
unfolding refusal
new_id m r t h = ground arith

pub perform-IsValid : (o : Operation) (t : Table) → IsValid t → IsValid (perform o t)
unfolding perform mark_message_sent mark_message_failed delete_sent_messages enqueue_telemetry
perform-IsValid (enqueue J m now r) t v = elim (Option-cases (refusal m r t)) [
  | inr (e, refused) ↦ rw refused v
  | inl taken ↦ rw taken (record {
    ascending = Ascending-snoc 1 t.next_id t.rows _ v.ascending refl;
    unique = rw map-append (Unique-snoc (message_ids t.rows) m v.unique (new_id m r t taken));
  })
]
perform-IsValid (mark_sent now m) t v =
    update_where-IsValid m (as_sent now) (λ r. refl) (λ r. refl) t v
perform-IsValid (mark_failed now m e) t v =
    update_where-IsValid m (as_failed now e) (λ r. refl) (λ r. refl) t v
perform-IsValid (delete_sent k) t v = record {
  ascending = Ascending-filter _ 1 t.next_id t.rows v.ascending;
  unique = Unique-filter _ t.rows v.unique;
}

-- Whatever operations are performed on a new table, with whatever arguments, in whatever order, the
-- ids of its rows ascend strictly below the next id and no message id is stored twice.
pub foldl-perform-IsValid :
    (os : List Operation) → IsValid (foldl (λ t o. perform o t) new_table os)
foldl-perform-IsValid os = go os new_table (record { ascending = omega arith; unique = tt })
  where
    go : (os : List Operation) (t : Table) → IsValid t → IsValid (foldl (λ t o. perform o t) t os)
    go [] t v = v
    go (o ∷ os) t v = go os (perform o t) (perform-IsValid o t v)
