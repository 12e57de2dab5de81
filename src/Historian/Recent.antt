-- ===== src/Historian/Recent.antt =====
-- `get_recent_readings` and `prune_old_history`.
use mathlib.Core.List.{Perm, perm_middle}
use mathlib.Core.List.Perm
use bbjsensescada.Common.{
  ℕ, ◌≡◌, refl, Bool, true, false, not, ◌↔◌, All, ◌++◌, List, [], ◌∷◌, String, arith, filter,
  Bool-cases, inl, inr,
}
use bbjsensescada.Common.Int.{ℤ, int_eq}
use bbjsensescada.Historian.{
  Row, History, lt_codes, lt_text, le_text, insert_by_time, sort_by_time, matches,
  get_recent_readings,
}

lt_codes_asym : (s t : List ℕ) → lt_codes s t ≡ true → lt_codes t s ≡ false
lt_codes_asym s [] h = cc
lt_codes_asym [] (b ∷ t) h = refl
lt_codes_asym (a ∷ s) (b ∷ t) h = ground (arith, lt_codes_asym s t)

-- Oldest first: no row is later than the one after it.
abbrev pub Sorted : List Row → Type 0
Sorted [] = Unit {0}
Sorted (r ∷ []) = Unit {0}
Sorted (r ∷ q ∷ rs) = (le_text r.source_timestamp q.source_timestamp ≡ true) × Sorted (q ∷ rs)

-- The head of an insertion is the row itself or the old head.
insert_by_time-Sorted : (r : Row) (rs : List Row) → Sorted rs → Sorted (insert_by_time r rs)
unfolding insert_by_time
insert_by_time-Sorted r [] h = tt
insert_by_time-Sorted r (q ∷ []) h =
    elim (Bool-cases (lt_text q.source_timestamp r.source_timestamp)) [
      | inl later ↦ rw later (rw (lt_codes_asym _ _ later) refl, tt)
      | inr earlier ↦ rw earlier (rw earlier refl, tt)
    ]
insert_by_time-Sorted r (q ∷ p ∷ rs) h =
    let ih = insert_by_time-Sorted r (p ∷ rs) h.1 in
    elim (Bool-cases (lt_text q.source_timestamp r.source_timestamp)) [
      | inr earlier ↦ rw earlier (rw earlier refl, h)
      | inl later ↦ elim (Bool-cases (lt_text p.source_timestamp r.source_timestamp)) [
        | inl later' ↦ rw (later, later') (h.0, rw later' at ih)
        | inr earlier' ↦ rw (later, earlier') (rw (lt_codes_asym _ _ later) refl, rw earlier' at ih)
      ]
    ]

sort_by_time-Sorted : (rs : List Row) → Sorted (sort_by_time rs)
unfolding sort_by_time
sort_by_time-Sorted [] = tt
sort_by_time-Sorted (r ∷ rs) = insert_by_time-Sorted r (sort_by_time rs) (sort_by_time-Sorted rs)

insert_by_time-perm : (r : Row) (rs : List Row) → Perm (insert_by_time r rs) (r ∷ rs)
unfolding insert_by_time
insert_by_time-perm r [] = Perm.refl (r ∷ [])
insert_by_time-perm r (q ∷ rs) = elim (Bool-cases (lt_text q.source_timestamp r.source_timestamp)) [
  | inl later ↦ rw later (Perm.trans (Perm.cons q (insert_by_time-perm r rs)) (Perm.swap r q rs))
  | inr earlier ↦ rw earlier (Perm.refl (r ∷ q ∷ rs))
]

sort_by_time-perm : (rs : List Row) → Perm (sort_by_time rs) rs
unfolding sort_by_time
sort_by_time-perm [] = Perm.refl []
sort_by_time-perm (r ∷ rs) =
    Perm.trans (insert_by_time-perm r (sort_by_time rs)) (Perm.cons r (sort_by_time-perm rs))

-- What is asked for: the device, the tag, and no earlier than the given instant.
abbrev pub IsAsked : ℤ → ℤ → String → Row → Type 0
IsAsked device_id tag_id since_iso r =
    (r.device_id ≡ device_id) × (r.tag_id ≡ tag_id) × (lt_text r.source_timestamp since_iso ≡ false)

not_both : (b : Bool) → not b ≡ true → ¬ (b ≡ true)
not_both b h k = cc

matches_iff :
    (device_id tag_id : ℤ) (since_iso : String) (r : Row)
    → (matches device_id tag_id since_iso r ≡ true) ↔ IsAsked device_id tag_id since_iso r
matches_iff device_id tag_id since_iso r = ground arith

filter-rest-perm :
    (p : Row → Bool) (rs : List Row) → Perm (filter p rs ++ filter (λ r. not (p r)) rs) rs
filter-rest-perm p [] = Perm.refl []
filter-rest-perm p (r ∷ rs) = elim (Bool-cases (p r)) [
  | inl kept ↦ rw kept (Perm.cons r (filter-rest-perm p rs))
  | inr dropped ↦ rw dropped (
      Perm.trans (perm_middle (filter p rs) (filter (λ q. not (p q)) rs))
        (Perm.cons r (filter-rest-perm p rs)))
]

module _ (P : Row → Type 0) where
  filter-All :
      (p : Row → Bool) (rs : List Row) → ((r : Row) → p r ≡ true → P r) → All P (filter p rs)
  filter-All p [] h = tt
  filter-All p (r ∷ rs) h = elim (Bool-cases (p r)) [
    | inl kept ↦ rw kept (h r kept, filter-All p rs h)
    | inr dropped ↦ rw dropped (filter-All p rs h)
  ]

  insert_by_time-All : (r : Row) (rs : List Row) → P r → All P rs → All P (insert_by_time r rs)
  unfolding insert_by_time
  insert_by_time-All r [] h hs = (h, tt)
  insert_by_time-All r (q ∷ rs) h (k, hs) =
      elim (Bool-cases (lt_text q.source_timestamp r.source_timestamp)) [
        | inl later ↦ rw later (k, insert_by_time-All r rs h hs)
        | inr earlier ↦ rw earlier (h, (k, hs))
      ]

  sort_by_time-All : (rs : List Row) → All P rs → All P (sort_by_time rs)
  unfolding sort_by_time
  sort_by_time-All [] h = tt
  sort_by_time-All (r ∷ rs) (h, hs) =
      insert_by_time-All r (sort_by_time rs) h (sort_by_time-All rs hs)

-- `get_recent_readings` splits the table: what it returns, oldest first, are rows of the given device
-- and tag from the given instant on, and of the rows that it does not return none is of that device and
-- tag and from that instant on; together they are the rows of the table, each as often as it is stored.
pub get_recent_readings-lem :
    (device_id tag_id : ℤ) (since_iso : String) (h : History)
    → Sorted (get_recent_readings device_id tag_id since_iso h)
      × All (IsAsked device_id tag_id since_iso) (get_recent_readings device_id tag_id since_iso h)
      × ((others : List Row) × All (λ r. ¬ IsAsked device_id tag_id since_iso r) others
          × Perm (get_recent_readings device_id tag_id since_iso h ++ others) h.rows)
unfolding get_recent_readings
get_recent_readings-lem device_id tag_id since_iso h =
    let test = matches device_id tag_id since_iso in
    let rows = filter test h.rows in
    let others = filter (λ r. not (test r)) h.rows in
    let asked = IsAsked device_id tag_id since_iso in
    (
      sort_by_time-Sorted rows,
      sort_by_time-All asked rows
          (filter-All asked test h.rows λ r. (matches_iff device_id tag_id since_iso r).0),
      (
        others,
        filter-All (λ r. ¬ asked r) (λ r. not (test r)) h.rows
            (λ r out wanted.
              not_both (test r) out ((matches_iff device_id tag_id since_iso r).1 wanted)),
        Perm.trans (Perm.append_right others (sort_by_time-perm rows))
            (filter-rest-perm test h.rows),
      ),
    )
