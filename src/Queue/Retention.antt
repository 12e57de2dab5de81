-- ===== src/Queue/Retention.antt =====
-- `delete_sent_messages`: what is kept.
use mathlib.Core.List.{reverse, reverse-append}
use bbjsensescada.Common.{
  ℕ, zero, suc, ◌+◌, ◌-◌, ◌<◌, ◌≤◌, ◌≡◌, refl, sym, ap, ◌∙◌, true, false, not, List, [], ◌∷◌, ◌++◌,
  filter, contains, nat_eq, if◌then◌else◌, arith, Bool-cases, inl, inr, length, take, drop,
  length-map, length-reverse, leb,
}
use bbjsensescada.Common.Int.{ℤ}
use bbjsensescada.Queue.Defs.{
  Row, Table, is_sent, pending_rows, delete_sent_messages, ids, kept_ids, is_deleted, non_negative,
  count_all_messages,
}
use bbjsensescada.Queue.Invariant.{Ascending, IsValid, Ascending-filter}
use bbjsensescada.Queue.Abstract.{pending-not_deleted}

abbrev pub sent_rows : Table → List Row
sent_rows t = filter is_sent t.rows

-- The last k elements.
abbrev pub newest : ℕ → List Row → List Row
newest k rs = drop (length rs - k) rs

-- The rows that the DELETE leaves, among the sent ones.
sent-not_deleted :
    (kept : List ℕ) (rs : List Row)
    → filter is_sent (filter (λ r. not (is_deleted kept r)) rs)
      ≡ filter (λ r. contains kept r.id) (filter is_sent rs)
sent-not_deleted kept [] = refl
sent-not_deleted kept (r ∷ rs) = ground (arith, sent-not_deleted kept rs)

count-deleted :
    (kept : List ℕ) (rs : List Row)
    → length (filter (is_deleted kept) rs) + length (filter (λ r. not (is_deleted kept r)) rs)
      ≡ length rs
count-deleted kept [] = refl
count-deleted kept (r ∷ rs) = ground (arith, count-deleted kept rs)

contains-append :
    (xs ys : List ℕ) (a : ℕ)
    → contains (xs ++ ys) a ≡ (if contains xs a then true else contains ys a)
contains-append [] ys a = refl
contains-append (x ∷ xs) ys a = ground (arith, contains-append xs ys a)

contains-reverse : (xs : List ℕ) (a : ℕ) → contains (reverse xs) a ≡ contains xs a
contains-reverse [] a = refl
contains-reverse (x ∷ xs) a =
    rw (reverse-append (x ∷ []) xs)
      (ground (arith, contains-append (reverse xs) (x ∷ []) a, contains-reverse xs a))

not_contains-take :
    (k : ℕ) (xs : List ℕ) (a : ℕ) → contains xs a ≡ false → contains (take k xs) a ≡ false
not_contains-take zero xs a h = refl
not_contains-take (suc k) [] a h = refl
not_contains-take (suc k) (x ∷ xs) a h = ground (arith, not_contains-take k xs a)

not_contains-ids :
    (lo hi a : ℕ) (rs : List Row) → Ascending lo hi rs → a < lo → contains (ids rs) a ≡ false
not_contains-ids lo hi a [] h lt = refl
not_contains-ids lo hi a (r ∷ rs) (h, hs) lt =
    ground (arith, not_contains-ids (suc r.id) hi a rs hs (omega arith))

filter-all :
    (xs : List ℕ) (rs : List Row)
    → ((a : ℕ) → contains (ids rs) a ≡ true → contains xs a ≡ true)
    → filter (λ r. contains xs r.id) rs ≡ rs
filter-all xs [] h = refl
filter-all xs (r ∷ rs) h =
    let head : contains xs r.id ≡ true = h r.id (ground arith) in
    rw head (ap (λ t. r ∷ t) (filter-all xs rs (λ a e. h a (ground arith))))

take-append_le : (k : ℕ) (xs ys : List ℕ) → k ≤ length xs → take k (xs ++ ys) ≡ take k xs
take-append_le zero xs ys h = refl
take-append_le (suc k) [] ys h = absurd (omega arith)
take-append_le (suc k) (x ∷ xs) ys h = rw (take-append_le k xs ys (omega arith))

take_all : (k : ℕ) (xs : List ℕ) → length xs ≤ k → take k xs ≡ xs
take_all zero [] h = refl
take_all zero (x ∷ xs) h = absurd (omega arith)
take_all (suc k) [] h = refl
take_all (suc k) (x ∷ xs) h = rw (take_all k xs (omega arith))

length-newest_ids : (rs : List Row) → length (reverse (ids rs)) ≡ length rs
length-newest_ids rs = length-reverse (ids rs) ∙ length-map (λ (r : Row). r.id) rs

drop-nil : (n : ℕ) → drop n (let e : List Row = [] in e) ≡ []
drop-nil zero = refl
drop-nil (suc n) = refl

filter-newest :
    (k lo hi : ℕ) (rs : List Row)
    → Ascending lo hi rs
    → filter (λ r. contains (take k (reverse (ids rs))) r.id) rs ≡ newest k rs
filter-newest k lo hi [] h = sym (drop-nil (0 - k))
filter-newest k lo hi (r ∷ rs) (h, hs) = elim (Bool-cases (leb k (length rs))) [
  | inl few ↦
      let le : k ≤ length rs = ground arith in
      let e : suc (length rs) - k ≡ suc (length rs - k) = omega arith in
      let cut : take k (reverse (r.id ∷ ids rs)) ≡ take k (reverse (ids rs)) =
        rw (reverse-append (r.id ∷ []) (ids rs))
          (take-append_le k (reverse (ids rs)) (r.id ∷ []) (omega (arith, length-newest_ids rs))) in
      let absent : contains (take k (reverse (ids rs))) r.id ≡ false =
        not_contains-take k (reverse (ids rs)) r.id (
          contains-reverse (ids rs) r.id
          ∙ not_contains-ids (suc r.id) hi r.id rs hs (omega arith)) in
      ap (λ xs. filter (λ (q : Row). contains xs q.id) (r ∷ rs)) cut
      ∙ rw (absent, e) (filter-newest k (suc r.id) hi rs hs)
  | inr many ↦
      let e : suc (length rs) - k ≡ 0 = ground arith in
      let all : take k (reverse (ids (r ∷ rs))) ≡ reverse (ids (r ∷ rs)) =
        take_all k (reverse (ids (r ∷ rs))) (ground (arith, length-newest_ids (r ∷ rs))) in
      ap (λ xs. filter (λ (q : Row). contains xs q.id) (r ∷ rs)) all
      ∙ filter-all (reverse (ids (r ∷ rs))) (r ∷ rs) (λ a m. contains-reverse (ids (r ∷ rs)) a ∙ m)
      ∙ rw e
]

-- On a valid table `delete_sent_messages` deletes no waiting message, keeps exactly the newest
-- `keep_latest` sent ones (none for a negative number, all if there are fewer), and returns the
-- number of rows that it removed.
pub delete_sent_messages-keeps :
    (keep_latest : ℤ) (t : Table)
    → IsValid t
    → let (deleted, t') = delete_sent_messages keep_latest t in
      (pending_rows t' ≡ pending_rows t)
      × (sent_rows t' ≡ newest (non_negative keep_latest) (sent_rows t))
      × (deleted + count_all_messages t' ≡ count_all_messages t)
unfolding delete_sent_messages count_all_messages
delete_sent_messages-keeps keep_latest t v =
    let k = non_negative keep_latest in
    let kept = kept_ids k t.rows in
    (
      pending-not_deleted kept t.rows,
      sent-not_deleted kept t.rows
          ∙ filter-newest k 1 t.next_id (sent_rows t)
              (Ascending-filter is_sent 1 t.next_id t.rows v.ascending),
      count-deleted kept t.rows,
    )
