-- ===== src/Drift/Detection/Service/Lock.antt =====
-- What RunCycle promises its callers: a lock that is tried, and never waited for.
use infrastructure_managemen.Common.{
  ℕ, ◌≡◌, refl, ap, subst, Bool, true, false, Option, none, some, List, [], ◌∷◌, arith, eqb,
}
use infrastructure_managemen.Drift.Cooldown
use infrastructure_managemen.Drift.Detection.Service.{begin_cycle, finish_cycle, persist_result}
use infrastructure_managemen.Drift.Detection.Service.Threads.{
  inside, System, Step, begin, refuse, persist, finish, Reach, here, next,
}

-- What a caller does to the lock.
pub data Action : Type 0 where
  acquired refused worked released : ℕ → Action

-- The latest action is the first of the list. A free lock is acquired; another caller is refused while it is
-- held; and only its holder works or releases it.
pub data LockRun : List Action → Option ℕ → Type 0 where
  free : LockRun [] none
  acquire : {done : List Action} (i : ℕ) → LockRun done none → LockRun (acquired i ∷ done) (some i)
  reject :
      {done : List Action} (i j : ℕ)
      → eqb j i ≡ false
      → LockRun done (some j)
      → LockRun (refused i ∷ done) (some j)
  work : {done : List Action} (i : ℕ) → LockRun done (some i) → LockRun (worked i ∷ done) (some i)
  release : {done : List Action} (i : ℕ) → LockRun done (some i) → LockRun (released i ∷ done) none

abbrev pub action : {s t : System} → Step s t → Action
action (begin i at h) = acquired i
action (refuse i at h) = refused i
action (persist i result ready store at) = worked i
action (finish i at) = released i

abbrev pub actions : {store : Cooldown.Store} {s : System} → Reach store s → List Action
actions here = []
actions (next r st) = action st ∷ actions r

abbrev pub is_held : Option ℕ → Bool
is_held none = false
is_held (some i) = true

abbrev pub is_holder : ℕ → Option ℕ → Bool
is_holder j none = false
is_holder j (some i) = eqb i j

-- The service's flag and its callers show the state of the lock.
pub record Represents (s : System) (holder : Option ℕ) : Type 0 where
  pub flag : s.service.running ≡ is_held holder
  pub callers : (j : ℕ) → inside (s.at j) ≡ is_holder j holder

abbrev IsAfter : List Action → System → Type 0
IsAfter done s = (holder : Option ℕ) × (LockRun done holder × Represents s holder)

-- A caller inside is the holder.
holder_lem :
    {s : System} (i : ℕ) (holder : Option ℕ)
    → inside (s.at i) ≡ true
    → Represents s holder
    → holder ≡ some i
holder_lem i none in_it r = absurd (let c = r.callers i in ground (arith, c, in_it))
holder_lem i (some k) in_it r = ap some (let c = r.callers i in ground (arith, c, in_it))

step-IsAfter :
    {s t : System} (done : List Action) (holder : Option ℕ) (st : Step s t)
    → LockRun done holder
    → Represents s holder
    → IsAfter (action st ∷ done) t
unfolding begin_cycle finish_cycle persist_result
step-IsAfter done none (begin i at h) run r = (
  some i,
  (
    acquire i run,
    record { flag = ground (arith, h); callers = λ j. let c = r.callers j in ground (arith, c) },
  ),
)
step-IsAfter done (some k) (begin i at h) run r = absurd (let f = r.flag in ground (arith, f, h))
step-IsAfter done none (refuse i at h) run r = absurd (let f = r.flag in ground (arith, f, h))
step-IsAfter done (some k) (refuse i at h) run r = (
  some k,
  (
    reject i k (let c = r.callers i in ground (arith, c, at)) run,
    record { flag = let f = r.flag in ground (arith, f); callers = r.callers },
  ),
)
step-IsAfter done holder (persist i result ready store at) run r =
    let e = holder_lem i holder (ap inside at) r in
    let r' = subst (Represents _) e r in
    (
      some i,
      (
        work i (subst (LockRun done) e run),
        record { flag = r'.flag; callers = λ j. let c = r'.callers j in ground (arith, c, at) },
      ),
    )
step-IsAfter done holder (finish i at) run r =
    let e = holder_lem i holder (ap inside at) r in
    let r' = subst (Represents _) e r in
    (
      none,
      (
        release i (subst (LockRun done) e run),
        record { flag = refl; callers = λ j. let c = r'.callers j in ground (arith, c, at) },
      ),
    )

-- However callers of RunCycle interleave, what they did is a run of a lock: a cycle begins only while no caller
-- holds it, another one is refused exactly while a caller holds it, and only the holder stores its result and
-- ends its cycle; and the flag and the callers inside are those of the lock's holder.
pub actions-LockRun :
    {store : Cooldown.Store} {s : System} (r : Reach store s)
    → (holder : Option ℕ) × (LockRun (actions r) holder × Represents s holder)
actions-LockRun here = (none, (free, record { flag = refl; callers = λ j. refl }))
actions-LockRun (next r st) =
    let (holder, (run, shown)) = actions-LockRun r in step-IsAfter (actions r) holder st run shown
