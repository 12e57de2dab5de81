-- ===== src/Release/Outstanding.antt =====
-- Which threads stay on the list.
use bbjsensescada.Common.{
  ℕ, ◌≡◌, refl, Bool, true, false, ◌||◌, List, [], ◌∷◌, ◌++◌, All, contains, ◌==◌, ==_iff, nat_eq,
  filter, arith, Bool-cases, inl, inr,
}
use bbjsensescada.Release.{
  Call, close, reap, call, calls, reap_pending_close_threads, close_client_with_timeout,
}

-- What a call finds of a thread.
abbrev pub finds : ℕ → Call → Bool
finds t (close is_alive close_thread is_stuck) = is_alive t
finds t (reap is_alive) = is_alive t

or_right : (a b : Bool) → b ≡ true → (a || b) ≡ true
or_right a b h = ground arith

skip :
    (f : ℕ → Bool) (x : ℕ) (xs : List ℕ) (t : ℕ)
    → contains (filter f xs) t ≡ true
    → contains (filter f (x ∷ xs)) t ≡ true
skip f x xs t h = elim (Bool-cases (f x)) [
  | inl on ↦ rw on (or_right (t == x) (contains (filter f xs) t) h)
  | inr off ↦ rw off h
]

contains-filter :
    (f : ℕ → Bool) (xs : List ℕ) (t : ℕ)
    → f t ≡ true
    → contains xs t ≡ true
    → contains (filter f xs) t ≡ true
contains-filter f [] t alive h = h
contains-filter f (x ∷ xs) t alive h = elim (Bool-cases (t == x)) [
  | inl same ↦
      let e = (==_iff t x).0 same in
      let alive' : f x ≡ true = rw e at alive in rw (alive', same) refl
  | inr other ↦ let later = contains-filter f xs t alive (rw other at h) in skip f x xs t later
]

contains-append :
    (xs ys : List ℕ) (t : ℕ) → contains (xs ++ ys) t ≡ (contains xs t || contains ys t)
contains-append [] ys t = refl
contains-append (x ∷ xs) ys t = ground (arith, contains-append xs ys t)

or_given : (a b : Bool) → a ≡ true → (a || b) ≡ true
or_given a b h = ground arith

close-keeps :
    (f : ℕ → Bool) (n t : ℕ) (stuck : Bool) (pending : List ℕ)
    → f t ≡ true
    → contains pending t ≡ true
    → contains (close_client_with_timeout f n stuck pending) t ≡ true
unfolding close_client_with_timeout reap_pending_close_threads
close-keeps f n t true pending alive h = rw contains-append (
    or_given (contains (filter f pending) t) (contains (n ∷ []) t)
      (contains-filter f pending t alive h))
close-keeps f n t false pending alive h = contains-filter f pending t alive h

call-keeps :
    (c : Call) (t : ℕ) (pending : List ℕ)
    → finds t c ≡ true
    → contains pending t ≡ true
    → contains (call c pending) t ≡ true
unfolding reap_pending_close_threads
call-keeps (close f n stuck) t pending alive h = close-keeps f n t stuck pending alive h
call-keeps (reap f) t pending alive h = contains-filter f pending t alive h

calls-keep :
    (cs : List Call) (t : ℕ) (pending : List ℕ)
    → All (λ c. finds t c ≡ true) cs
    → contains pending t ≡ true
    → contains (calls cs pending) t ≡ true
calls-keep [] t pending alive h = h
calls-keep (c ∷ cs) t pending (here, alive) h =
    calls-keep cs t (call c pending) alive (call-keeps c t pending here h)

abandoned :
    (f : ℕ → Bool) (t : ℕ) (pending : List ℕ)
    → contains (close_client_with_timeout f t true pending) t ≡ true
unfolding close_client_with_timeout reap_pending_close_threads
abandoned f t pending =
    let same : (t == t) ≡ true = (==_iff t t).1 refl in
    rw contains-append
      (or_right (contains (filter f pending) t) (contains (t ∷ []) t) (rw same refl))

outstanding_from :
    (before after : List Call) (f : ℕ → Bool) (t : ℕ) (pending : List ℕ)
    → All (λ c. finds t c ≡ true) after
    → contains (calls (before ++ close f t true ∷ after) pending) t ≡ true
outstanding_from [] after f t pending alive =
    calls-keep after t (close_client_with_timeout f t true pending) alive (abandoned f t pending)
outstanding_from (c ∷ before) after f t pending alive =
    outstanding_from before after f t (call c pending) alive

-- A thread that is abandoned because it has not closed its client in time stays on the list through
-- all later calls, as long as each of them finds it alive: no open handle is forgotten.
pub calls-outstanding :
    (before after : List Call) (f : ℕ → Bool) (t : ℕ)
    → All (λ c. finds t c ≡ true) after
    → contains (calls (before ++ close f t true ∷ after) []) t ≡ true
calls-outstanding before after f t alive = outstanding_from before after f t [] alive
