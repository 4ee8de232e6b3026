-- ===== src/System/Balance.antt =====
-- Balanced traces stay balanced when they are interleaved.
use serving_agent.Common.{
  ℕ, ◌+◌, ◌≤◌, Bool, true, false, ◌≡◌, refl, ◌&&◌, str_eq, List, [], ◌∷◌, arith, All, Result,
  String, eq_iff,
}
use serving_agent.System.{
  Law, run_as_running, success_from_platform, cancel_after_deletion, enqueue_after_creation,
  link_after_enqueue, needs, gives, tally, count, IsBalanced, IsWoven, none_left, from_first,
  from_second,
}
use serving_agent.Platform.{UpdateRequest}
use serving_agent.Trace.Quiet.{is_quiet, AllQuiet}
use serving_agent.Trace.{Call, update_call}

tally-add_first : (b : Bool) (n m : ℕ) → tally b (n + m) ≡ tally b n + m
tally-add_first true n m = omega arith
tally-add_first false n m = refl

tally-add_second : (b : Bool) (n m : ℕ) → tally b (n + m) ≡ n + tally b m
tally-add_second true n m = omega arith
tally-add_second false n m = refl

pub count-IsWoven :
    {xs ys zs : List Call} (p : Call → Bool)
    → IsWoven xs ys zs
    → count p zs ≡ count p xs + count p ys
count-IsWoven p none_left = refl
count-IsWoven p (from_first {c} {xs} {ys} w) =
    rw (count-IsWoven p w) (tally-add_first (p c) (count p xs) (count p ys))
count-IsWoven p (from_second {c} {xs} {ys} w) =
    rw (count-IsWoven p w) (tally-add_second (p c) (count p xs) (count p ys))

pub IsBalanced-now :
    (law : Law) (cs : List Call) → IsBalanced law cs → count (needs law) cs ≤ count (gives law) cs
IsBalanced-now law [] h = omega arith
IsBalanced-now law (c ∷ cs) h = h.0

woven-now :
    {xs ys zs : List Call} (law : Law)
    → IsWoven xs ys zs
    → IsBalanced law xs
    → IsBalanced law ys
    → count (needs law) zs ≤ count (gives law) zs
woven-now {xs} {ys} law w hx hy = omega (
  arith,
  count-IsWoven (needs law) w,
  count-IsWoven (gives law) w,
  IsBalanced-now law xs hx,
  IsBalanced-now law ys hy,
)

pub IsWoven-IsBalanced :
    {xs ys zs : List Call} (law : Law)
    → IsWoven xs ys zs
    → IsBalanced law xs
    → IsBalanced law ys
    → IsBalanced law zs
IsWoven-IsBalanced law none_left hx hy = tt
IsWoven-IsBalanced law (from_first w) hx hy =
    (woven-now law (from_first w) hx hy, IsWoven-IsBalanced law w hx.1 hy)
IsWoven-IsBalanced law (from_second w) hx hy =
    (woven-now law (from_second w) hx hy, IsWoven-IsBalanced law w hx hy.1)

-- A call that no law asks to be paid for.
abbrev pub IsFree : Call → Type 0
IsFree c = (law : Law) → needs law c ≡ false

free-count : (law : Law) (cs : List Call) → All IsFree cs → count (needs law) cs ≡ 0
free-count law [] h = refl
free-count law (c ∷ cs) h = rw (h.0 law) (free-count law cs h.1)

pub free-IsBalanced : (law : Law) (cs : List Call) → All IsFree cs → IsBalanced law cs
free-IsBalanced law [] h = tt
free-IsBalanced law (c ∷ cs) h =
    (omega (arith, free-count law (c ∷ cs) h), free-IsBalanced law cs h.1)

abbrev is_update : Call → Bool
is_update (update_call _ _) = true
is_update _ = false

both : (a b : Bool) → (a && b) ≡ true → (a ≡ true) × (b ≡ true)
both a b h = ground arith

is_first : (s a b : String) → str_eq s a ≡ true → str_eq a b ≡ false → str_eq s b ≡ false
is_first s a b same apart = rw ((eq_iff s a).0 same) apart

quiet_update :
    (u : UpdateRequest) (r : Result (Unit {0})) (law : Law)
    → str_eq u.status "failed" ≡ true
    → str_eq u.queue_id "" ≡ true
    → needs law (update_call u r) ≡ false
quiet_update u r run_as_running failed unlinked = refl
quiet_update u r success_from_platform failed unlinked =
    is_first u.status "failed" "succeeded" failed refl
quiet_update u r cancel_after_deletion failed unlinked =
    is_first u.status "failed" "canceled" failed refl
quiet_update u r (enqueue_after_creation id) failed unlinked = refl
quiet_update u r (link_after_enqueue t) failed unlinked =
    rw ((eq_iff u.queue_id "").0 unlinked) (ground (arith, eq_iff "" t, eq_iff t ""))

quiet_other : (c : Call) (law : Law) → is_update c ≡ false → is_quiet c ≡ true → needs law c ≡ false
quiet_other c run_as_running other h = ground arith
quiet_other c success_from_platform other h = ground arith
quiet_other c cancel_after_deletion other h = ground arith
quiet_other c (enqueue_after_creation id) other h = ground arith
quiet_other c (link_after_enqueue t) other h = ground arith

pub is_quiet-IsFree : (c : Call) → is_quiet c ≡ true → IsFree c
is_quiet-IsFree (update_call u r) h law =
    let (failed, unlinked) = both _ _ h in quiet_update u r law failed unlinked
is_quiet-IsFree c h law = quiet_other c law refl h

-- A trace of quiet calls is balanced.
quiet-IsFree : (cs : List Call) → AllQuiet cs → All IsFree cs
quiet-IsFree [] h = tt
quiet-IsFree (c ∷ cs) h = (is_quiet-IsFree c h.0, quiet-IsFree cs h.1)

pub quiet-IsBalanced : (law : Law) (cs : List Call) → AllQuiet cs → IsBalanced law cs
quiet-IsBalanced law cs h = free-IsBalanced law cs (quiet-IsFree cs h)
