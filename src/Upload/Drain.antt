-- ===== src/Upload/Drain.antt =====
-- Rounds in which the cloud takes every batch.
use bbjsensescada.Common.{
  ℕ, zero, suc, ◌+◌, ◌*◌, ◌≡◌, refl, ap, ◌∙◌, true, false, List, [], ◌∷◌, String, contains, ◌==◌,
  ==_iff, ==_comm, ==_comm, string_eq, arith, Bool-cases, inl, inr, take, drop,
}
use bbjsensescada.Queue.{Table, is_pending}
use bbjsensescada.Queue.Invariant.{IsValid, Unique, Unique-filter}
use bbjsensescada.Queue.Abstract.{waiting}
use bbjsensescada.Upload.Defs.{Cloud, flush_pending_batch}
use bbjsensescada.Upload.Delivery.{all_but, all_but-nil, delivered, waiting-flush_pending_batch}

-- Rounds of the upload with nothing between them.
abbrev pub rounds : Cloud → ℕ → Table → Table
rounds C zero t = t
rounds C (suc n) t = rounds C n (flush_pending_batch C t).0

-- In each of n rounds the cloud takes all messages that `get_pending_messages` gives.
abbrev pub TakesAll : Cloud → ℕ → Table → Type 0
TakesAll C zero t = Unit {0}
TakesAll C (suc n) t =
    (delivered C t ≡ take 500 (waiting t)) × TakesAll C n (flush_pending_batch C t).0

contains-all_but :
    (gone q : List String) (m : String) → contains q m ≡ false → contains (all_but gone q) m ≡ false
contains-all_but gone [] m h = refl
contains-all_but gone (k ∷ q) m h = ground (arith, contains-all_but gone q m)

Unique-all_but : (gone q : List String) → Unique q → Unique (all_but gone q)
Unique-all_but gone [] u = tt
Unique-all_but gone (m ∷ q) (new, u) = elim (Bool-cases (contains gone m)) [
  | inl taken ↦ rw taken (Unique-all_but gone q u)
  | inr kept ↦ rw kept (contains-all_but gone q m new, Unique-all_but gone q u)
]

all_but-absent :
    (m : String) (gone q : List String)
    → contains q m ≡ false
    → all_but (m ∷ gone) q ≡ all_but gone q
all_but-absent m gone [] h = refl
all_but-absent m gone (k ∷ q) h = ground (arith, all_but-absent m gone q, ==_comm k m)

all_but-take : (k : ℕ) (q : List String) → Unique q → all_but (take k q) q ≡ drop k q
all_but-take zero q u = all_but-nil q
all_but-take (suc k) [] u = refl
all_but-take (suc k) (m ∷ q) (new, u) =
    let here : (m == m) ≡ true = (==_iff m m).1 refl in
    rw here (all_but-absent m (take k q) q new ∙ all_but-take k q u)

drop-drop : {A : Type 0} (j k n : ℕ) (q : List A) → n ≡ k + j → drop j (drop k q) ≡ drop n q
drop-drop j zero n q h = let e : j ≡ n = omega arith in ap (λ i. drop i q) e
drop-drop zero (suc k) zero q h = absurd (omega arith)
drop-drop (suc j) (suc k) zero q h = absurd (omega arith)
drop-drop zero (suc k) (suc n) [] h = refl
drop-drop (suc j) (suc k) (suc n) [] h = refl
drop-drop j (suc k) (suc n) (m ∷ q) h = drop-drop j k n q (omega arith)

rounds-drop :
    (C : Cloud) (n : ℕ) (t : Table)
    → Unique (waiting t)
    → TakesAll C n t
    → waiting (rounds C n t) ≡ drop (500 * n) (waiting t)
rounds-drop C zero t u takes = refl
rounds-drop C (suc n) t u (all, takes) =
    let t' = (flush_pending_batch C t).0 in
    let after : waiting t' ≡ all_but (take 500 (waiting t)) (waiting t) =
      waiting-flush_pending_batch C t ∙ ap (λ gone. all_but gone (waiting t)) all in
    let left = after ∙ all_but-take 500 (waiting t) u in
    let u' : Unique (waiting t') = rw after (Unique-all_but (take 500 (waiting t)) (waiting t) u) in
    rounds-drop C n t' u' takes
    ∙ ap (drop (500 * n)) left
    ∙ drop-drop (500 * n) 500 (500 * suc n) (waiting t) (omega arith)

-- From a valid table, if the cloud takes the whole batch in each of n rounds, then the first 500 * n
-- waiting messages are gone after these rounds and the others wait as before: a backlog of at most
-- 500 * n messages is drained.
pub waiting-rounds :
    (C : Cloud) (n : ℕ) (t : Table)
    → IsValid t
    → TakesAll C n t
    → waiting (rounds C n t) ≡ drop (500 * n) (waiting t)
waiting-rounds C n t v takes = rounds-drop C n t (Unique-filter is_pending t.rows v.unique) takes
