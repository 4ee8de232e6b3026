-- ===== src/Worker/Distributor/RecordSet.antt =====
-- Sets of records, named by their ids: an abstract view of a listing that forgets its order and
-- its repetitions.
use mathlib.Core.Quot
use mathlib.Core.Quot.{Quot, Quot-set}
use serving_agent.Common.{
  String, Bool, ◌≡◌, refl, ◌||◌, List, [], ◌∷◌, ◌++◌, Option, none, some, contains, if◌then◌else◌,
  arith,
}
use serving_agent.Worker.Distributor.Records.{Entry, Copies, failed_entry, failed_copies}

-- Two lists name the same records.
abbrev pub SameRecords : List String → List String → Type 0
SameRecords ids ids' = (k : String) → contains ids k ≡ contains ids' k

abbrev pub RecordSet : Type 0
RecordSet = Quot SameRecords

abbrev pub no_records : RecordSet
no_records = Quot.mk []

unfoldable pub is_in : RecordSet → String → Bool
is_in s k = Quot.lift (hlevel) (λ ids. contains ids k) (λ ids ids' h. h k) s

pub contains-append :
    (ids ids' : List String) (k : String)
    → contains (ids ++ ids') k ≡ (contains ids k || contains ids' k)
unfolding contains
contains-append [] ids' k = refl
contains-append (id ∷ ids) ids' k = ground (arith, contains-append ids ids' k)

-- The set with the records of a listing as well.
unfoldable pub with_all : List String → RecordSet → RecordSet
with_all found =
    Quot.lift Quot-set (λ ids. Quot.mk (found ++ ids))
      λ ids ids' h.
        Quot.sound λ k. rw (contains-append found ids, contains-append found ids', h k) refl

pub is_in-with_all :
    (found : List String) (s : RecordSet) (k : String)
    → is_in (with_all found s) k ≡ (contains found k || is_in s k)
unfolding is_in with_all
is_in-with_all found s k =
    Quot.ind {β = λ t. is_in (with_all found t) k ≡ (contains found k || is_in t k)} (λ t. hlevel)
      (λ ids. contains-append found ids k) s

-- Sets with the same records are the same.
pub RecordSet-ext : (s t : RecordSet) → ((k : String) → is_in s k ≡ is_in t k) → s ≡ t
unfolding is_in
RecordSet-ext =
    Quot.ind (λ s. hlevel Quot-set) λ ids. Quot.ind (λ t. hlevel Quot-set) λ ids'. Quot.sound

-- The order of two listings does not matter.
pub with_all_comm :
    (ids ids' : List String) (s : RecordSet)
    → with_all ids (with_all ids' s) ≡ with_all ids' (with_all ids s)
with_all_comm ids ids' s = RecordSet-ext _ _ λ k. ground (
  arith,
  is_in-with_all ids (with_all ids' s) k,
  is_in-with_all ids' s k,
  is_in-with_all ids' (with_all ids s) k,
  is_in-with_all ids s k,
)

pub with_all-append :
    (ids ids' : List String) (s : RecordSet)
    → with_all (ids ++ ids') s ≡ with_all ids (with_all ids' s)
with_all-append ids ids' s = RecordSet-ext _ _ λ k. ground (
  arith,
  is_in-with_all (ids ++ ids') s k,
  contains-append ids ids' k,
  is_in-with_all ids (with_all ids' s) k,
  is_in-with_all ids' s k,
)

-- The records after those of the set have failed.
abbrev pub failed_in : RecordSet → (String → Copies) → String → Copies
failed_in s entries k = if is_in s k then failed_copies (entries k) else entries k

failed_entry_idem : (v : Option Entry) → failed_entry (failed_entry v) ≡ failed_entry v
failed_entry_idem none = refl
failed_entry_idem (some t) = refl

failed_copies_idem : (c : Copies) → failed_copies (failed_copies c) ≡ failed_copies c
failed_copies_idem (shown, row) = rw (failed_entry_idem shown, failed_entry_idem row) refl

-- What fails in two steps fails at once with all the records.
pub failed_in-with_all :
    (found : List String) (s : RecordSet) (entries entries' : String → Copies) (k : String)
    → entries' k ≡ (if contains found k then failed_copies (entries k) else entries k)
    → failed_in s entries' k ≡ failed_in (with_all found s) entries k
failed_in-with_all found s entries entries' k h =
    grind (arith, is_in-with_all found s k, h, failed_copies_idem (entries k))
