-- ===== src/Upload/Interrupted.antt =====
-- A step of an upload round and the messages that wait.
use bbjsensescada.Common.{
  ◌≡◌, refl, Bool, true, false, not, ◌||◌, List, [], ◌∷◌, String, contains, string_eq, ◌==◌, ==_iff,
  arith, Bool-cases, inl, inr, if◌then◌else◌,
}
use bbjsensescada.Queue.{Table, Message, mark_message_failed, mark_message_sent}
use bbjsensescada.Queue.Invariant.{mark_sent, mark_failed, perform}
use bbjsensescada.Queue.Abstract.{waiting, waiting-perform, without}
use bbjsensescada.Upload.Defs.{
  Cloud, Class, valid, invalid, raises, classify, Batch, is_rejected, mark_one,
}
use bbjsensescada.Upload.Steps.{
  Round, resting, collecting, marking, unsending, on_class, round_step,
}

-- The message that a step marks sent: the next of the batch that the cloud has answered, if the answer
-- does not reject its device and tag.
abbrev pub sent_in : Round → List String
sent_in (marking pairs ((m, i) ∷ vs)) = if is_rejected pairs i then [] else m ∷ []
sent_in _ = []

or_right : (a b : Bool) → b ≡ true → (a || b) ≡ true
or_right a b h = ground arith

left_false : (a b : Bool) → (a || b) ≡ false → a ≡ false
left_false a b h = ground arith

pub contains-rest :
    (b : Bool) (k : String) (q : List String) (m : String)
    → contains q m ≡ true
    → contains (if b then k ∷ q else q) m ≡ true
contains-rest true k q m h = or_right (m == k) (contains q m) h
contains-rest false k q m h = h

contains-without :
    (gone : String) (q : List String) (m : String)
    → (m == gone) ≡ false
    → contains q m ≡ true
    → contains (without gone q) m ≡ true
contains-without gone [] m free here = here
contains-without gone (k ∷ q) m free here = elim (Bool-cases (m == k)) [
  | inl same ↦
      let e = (==_iff m k).0 same in
      let kept : (k == gone) ≡ false = rw e at free in rw (kept, same) refl
  | inr other ↦
      contains-rest (not (k == gone)) k (without gone q) m
        (contains-without gone q m free (rw other at here))
]

failed-keeps :
    (now k e : String) (t : Table) (m : String)
    → contains (waiting t) m ≡ true
    → contains (waiting (mark_message_failed now k e t)) m ≡ true
unfolding perform
failed-keeps now k e t m h = rw (waiting-perform (mark_failed now k e) t) h

sent-keeps :
    (now k : String) (t : Table) (m : String)
    → contains (k ∷ []) m ≡ false
    → contains (waiting t) m ≡ true
    → contains (waiting (mark_message_sent now k t)) m ≡ true
unfolding perform
sent-keeps now k t m free h =
    rw (waiting-perform (mark_sent now k) t)
      (contains-without k (waiting t) m (left_false (m == k) false free) h)

mark_one-keeps :
    (C : Cloud) (k : String) (rejected : Bool) (t : Table) (m : String)
    → contains (if rejected then [] else k ∷ []) m ≡ false
    → contains (waiting t) m ≡ true
    → contains (waiting (mark_one C k rejected t)) m ≡ true
mark_one-keeps C k true t m free h = failed-keeps (C.clock k) k _ t m h
mark_one-keeps C k false t m free h = sent-keeps (C.clock k) k t m free h

class-keeps :
    (C : Cloud) (k : String) (ms : List Message) (vs : Batch) (t : Table) (c : Class) (m : String)
    → contains (waiting t) m ≡ true
    → contains (waiting (on_class C k ms vs t c).0) m ≡ true
class-keeps C k ms vs t (valid i) m h = h
class-keeps C k ms vs t (invalid e) m h = failed-keeps (C.clock k) k e t m h
class-keeps C k ms vs t (raises e) m h = h

-- A message that waits still waits after a step that does not mark it sent.
pub round_step-keeps :
    (C : Cloud) (t : Table) (r : Round) (m : String)
    → contains (sent_in r) m ≡ false
    → contains (waiting t) m ≡ true
    → contains (waiting (round_step C (t, r)).0) m ≡ true
unfolding round_step
round_step-keeps C t resting m free h = h
round_step-keeps C t (collecting (k ∷ ms) vs) m free h =
    class-keeps C k.row.message_id ms vs t (classify C.arithmetic C.repr k.payload) m h
round_step-keeps C t (collecting [] []) m free h = h
round_step-keeps C t (collecting [] (v ∷ vs)) m free h = h
round_step-keeps C t (marking pairs []) m free h = h
round_step-keeps C t (marking pairs ((k, i) ∷ vs)) m free h =
    mark_one-keeps C k (is_rejected pairs i) t m free h
round_step-keeps C t (unsending e []) m free h = h
round_step-keeps C t (unsending e ((k, i) ∷ vs)) m free h = failed-keeps (C.clock k) k e t m h
