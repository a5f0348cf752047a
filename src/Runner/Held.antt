-- ===== src/Runner/Held.antt =====
-- The slots that are out: those that Admit gave and that were not given back to Release.
use webhook_ui.Common.{
  ℕ, ◌≤◌, ◌<◌, String, ◌≡◌, refl, sym, ap, subst, ◌∙◌, Bool, false, none, some, [], arith, length,
  Map, lookup, insert, delete, IsUnique, insert-IsUnique, delete-IsUnique, length-insert_fresh,
  length-delete_held, lookup-insert, lookup-delete, Option-cases, ℤ, nat_eq, string_eq, inl, inr,
  ==_iff, ◌==◌, Bool-cases,
}
use webhook_ui.Runner.{
  Slot, Runner, Admission, admitted, hook_busy, queue_full, new_runner, admit, set_execution,
  release, wg_done, track_handoff, Start, took, gave_up, Finish, gave_back,
}
use webhook_ui.Runner.Bounds.{
  IsBounded, new_runner-IsBounded, admit-IsBounded, release-IsBounded, Start-IsBounded,
  Finish-IsBounded, wg_done-IsBounded,
}
use webhook_ui.Runner.Admissions.{admit_cases, with_slot}

-- The slots that are out, each with the hook that it was given for.
abbrev pub Held : Type 0
Held = Map ℕ String

-- After an answer of Admit.
abbrev pub given : Admission → String → Held → Held
given (admitted s) hook held = insert s hook held
given (hook_busy _) hook held = held
given queue_full hook held = held

-- The calls on one runner, by whichever goroutines. A slot is released once, by whoever holds it.
pub data Step (r : Runner) (held : Held) : Runner → Held → Type 0 where
  admits : (hook : String) → Step r held (admit hook r).1 (given (admit hook r).0 hook held)
  records : (s id : ℕ) → Step r held (set_execution s id r) held
  tracks : Step r held (track_handoff r) held
  releases :
      {r' : Runner} (s : ℕ) {hook : String}
      → lookup s held ≡ some hook
      → release s r ≡ some r'
      → Step r held r' (delete s held)
  hands_off : {r' : Runner} → wg_done r ≡ some r' → Step r held r' held
  starts : {r' : Runner} {canceled got : Bool} → Start r canceled got r' → Step r held r' held
  finishes : {r' : Runner} → Finish r r' → Step r held r' held

pub data Run (r : Runner) (held : Held) : Runner → Held → Type 0 where
  here : Run r held r held
  next : {x y : Runner} {h h' : Held} → Run r held x h → Step x h y h' → Run r held y h'

-- No hook has two slots out, the slots that are out are within the capacity, and the
-- executions that run are within the channel, which has room for one.
pub record IsExclusive (r : Runner) (held : Held) : Type 0 where
  pub one_each :
      (s t : ℕ) (hook : String) → lookup s held ≡ some hook → lookup t held ≡ some hook → s ≡ t
  pub within : length held ≤ r.capacity
  pub running : r.slots ≤ r.max_concurrent
  pub some_slot : 0 < r.max_concurrent

-- The runner's map holds exactly the slots that are out.
record IsKept (r : Runner) (held : Held) : Type 0 where
  bounded : IsBounded r
  unique : IsUnique held
  count : length held ≡ length r.in_flight
  listed : (s : ℕ) (hook : String) → lookup s held ≡ some hook → lookup hook r.in_flight ≡ some s
  allocated_for :
      (s : ℕ) (hook : String)
      → lookup s held ≡ some hook
      → (slot : Slot) × (lookup s r.allocated ≡ some slot) × (slot.hook_id ≡ hook)
  old : (s : ℕ) (hook : String) → lookup s held ≡ some hook → s < r.next_slot

fresh_slot : (r : Runner) (held : Held) → IsKept r held → lookup r.next_slot held ≡ none
fresh_slot r held k = elim (Option-cases (lookup r.next_slot held)) [
  | inl e ↦ e
  | inr (hook, e) ↦ absurd (let lt = k.old r.next_slot hook e in omega (arith, lt))
]

-- A call that leaves the map and the allocated slots.
same-IsKept :
    {r r' : Runner} {held : Held}
    → IsKept r held
    → IsBounded r'
    → r'.in_flight ≡ r.in_flight
    → r'.allocated ≡ r.allocated
    → r'.next_slot ≡ r.next_slot
    → IsKept r' held
same-IsKept k b e a n = record {
  bounded = b;
  unique = k.unique;
  count = k.count ∙ ap length (sym e);
  listed = λ s hook h. ap (lookup hook) e ∙ k.listed s hook h;
  allocated_for = λ s hook h. rw a (k.allocated_for s hook h);
  old = λ s hook h. rw n (k.old s hook h);
}

with_slot-IsKept :
    (hook : String) (r : Runner) (held : Held)
    → IsKept r held
    → lookup hook r.in_flight ≡ none
    → IsBounded (with_slot hook r)
    → IsKept (with_slot hook r) (insert r.next_slot hook held)
with_slot-IsKept hook r held k free b =
    let fresh = fresh_slot r held k in
    record {
      bounded = b;
      unique = insert-IsUnique r.next_slot hook held k.unique;
      count = ground (
        arith,
        k.count,
        length-insert_fresh r.next_slot hook held fresh,
        length-insert_fresh hook r.next_slot r.in_flight free,
      );
      listed = λ s h e. ground (
        arith,
        e,
        free,
        k.listed s h,
        lookup-insert s r.next_slot hook held,
        lookup-insert h hook r.next_slot r.in_flight,
        ==_iff r.next_slot s,
        ==_iff hook h,
      );
      allocated_for = λ s h e. elim (Bool-cases (r.next_slot == s)) [
        | inl same ↦ (
          record { hook_id = hook; exec_id = 0 },
          ground (
            arith,
            same,
            lookup-insert s r.next_slot (record { hook_id = hook; exec_id = 0 }) r.allocated,
          ),
          ground (arith, same, e, lookup-insert s r.next_slot hook held),
        )
        | inr other ↦
            let before : lookup s held ≡ some h =
              ground (arith, other, e, lookup-insert s r.next_slot hook held) in
            let (slot, at, for) = k.allocated_for s h before in
            (
              slot,
              ground (
                arith,
                other,
                at,
                lookup-insert s r.next_slot (record { hook_id = hook; exec_id = 0 }) r.allocated,
              ),
              for,
            )
      ];
      old = λ s h e.
          ground (arith, e, k.old s h, lookup-insert s r.next_slot hook held, ==_iff r.next_slot s);
    }

admits-IsKept :
    (hook : String) (r : Runner) (held : Held)
    → IsKept r held
    → IsKept (admit hook r).1 (given (admit hook r).0 hook held)
admits-IsKept hook r held k =
    let b = admit-IsBounded hook r k.bounded in
    elim (admit_cases hook r) [
      | inl (s, e, same) ↦ rw same k
      | inr (inl (e, full, same)) ↦ rw same k
      | inr (inr (e, room, same)) ↦
          rw same (with_slot-IsKept hook r held k e (subst (λ a. IsBounded a.1) same b))
    ]

set_slot-IsKept :
    (s id : ℕ) (r : Runner) (held : Held) (slot : Slot)
    → IsKept r held
    → lookup s r.allocated ≡ some slot
    → IsKept (record r { allocated = insert s (record slot { exec_id = id }) r.allocated }) held
set_slot-IsKept s id r held slot k e = record {
  bounded = record {
    unique = k.bounded.unique;
    admissions = k.bounded.admissions;
    running = k.bounded.running;
    some_slot = k.bounded.some_slot;
    room = k.bounded.room;
  };
  unique = k.unique;
  count = k.count;
  listed = k.listed;
  allocated_for = λ t h out.
      let (mine, at, for) = k.allocated_for t h out in
      elim (Bool-cases (s == t)) [
        | inl same ↦ (
          record slot { exec_id = id },
          ground (arith, same, lookup-insert t s (record slot { exec_id = id }) r.allocated),
          ground (arith, same, ==_iff s t, at, e, for),
        )
        | inr other ↦ (
          mine,
          ground (arith, other, at, lookup-insert t s (record slot { exec_id = id }) r.allocated),
          for,
        )
      ];
  old = k.old;
}

set_execution-IsKept :
    (s id : ℕ) (r : Runner) (held : Held) → IsKept r held → IsKept (set_execution s id r) held
unfolding set_execution
set_execution-IsKept s id r held k = elim (Option-cases (lookup s r.allocated)) [
  | inl e ↦ rw (e, set_execution) k
  | inr (slot, e) ↦ rw (e, set_execution) (set_slot-IsKept s id r held slot k e)
]

-- A slot that is out is that of its hook.
release_out :
    (s : ℕ) (r : Runner) (held : Held) {hook : String} {r' : Runner}
    → IsKept r held
    → lookup s held ≡ some hook
    → release s r ≡ some r'
    → (r'.in_flight ≡ delete hook r.in_flight)
      × (r'.allocated ≡ r.allocated)
      × (r'.next_slot ≡ r.next_slot)
unfolding release wg_done
release_out s r held {hook} k out h =
    let (slot, at, for) = k.allocated_for s hook out in ground (arith, h, at, for)

releases-IsKept :
    (s : ℕ) (r : Runner) (held : Held) {hook : String} {r' : Runner}
    → IsKept r held
    → lookup s held ≡ some hook
    → release s r ≡ some r'
    → IsKept r' (delete s held)
releases-IsKept s r held {hook} {r'} k out h =
    let (flights, slots, later) = release_out s r held k out h in
    let still : (t : ℕ) (i : String) → lookup t (delete s held) ≡ some i → lookup t held ≡ some i =
      λ t i e. ground (arith, e, lookup-delete t s held) in
    let other : (t : ℕ) (i : String) → lookup t (delete s held) ≡ some i → s == t ≡ false =
      λ t i e. ground (arith, e, lookup-delete t s held) in
    record {
      bounded = release-IsBounded s r k.bounded h;
      unique = delete-IsUnique s held k.unique;
      count = ground (
        arith,
        k.count,
        flights,
        length-delete_held s hook held k.unique out,
        length-delete_held hook s r.in_flight k.bounded.unique (k.listed s hook out),
      );
      listed = λ t i e. ground (
        arith,
        flights,
        k.listed s hook out,
        k.listed t i (still t i e),
        other t i e,
        lookup-delete i hook r.in_flight,
        ==_iff hook i,
        ==_iff s t,
      );
      allocated_for = λ t i e. rw slots (k.allocated_for t i (still t i e));
      old = λ t i e. rw later (k.old t i (still t i e));
    }

wg_done_same :
    (r : Runner) {r' : Runner}
    → wg_done r ≡ some r'
    → (r'.in_flight ≡ r.in_flight) × (r'.allocated ≡ r.allocated) × (r'.next_slot ≡ r.next_slot)
unfolding wg_done
wg_done_same r h = ground (arith, h)

Step-IsKept :
    {r r' : Runner} {held held' : Held} → IsKept r held → Step r held r' held' → IsKept r' held'
Step-IsKept {r} {held = held} k (admits hook) = admits-IsKept hook r held k
Step-IsKept {r} {held = held} k (records s id) = set_execution-IsKept s id r held k
Step-IsKept {r} k tracks =
    unfold track_handoff in
    same-IsKept k
      (record {
        unique = k.bounded.unique;
        admissions = k.bounded.admissions;
        running = k.bounded.running;
        some_slot = k.bounded.some_slot;
        room = k.bounded.room;
      })
      refl refl refl
Step-IsKept {r} {held = held} k (releases s out h) = releases-IsKept s r held k out h
Step-IsKept {r} k (hands_off h) =
    let (flights, slots, later) = wg_done_same r h in
    same-IsKept k (wg_done-IsBounded r k.bounded h) flights slots later
Step-IsKept k (starts (took h)) =
    same-IsKept k (Start-IsBounded {c = false} k.bounded (took h)) refl refl refl
Step-IsKept k (starts (gave_up h)) = k
Step-IsKept k (finishes (gave_back h)) =
    same-IsKept k (Finish-IsBounded k.bounded (gave_back h)) refl refl refl

Run-IsKept :
    {r : Runner} {held : Held} {r' : Runner} {held' : Held}
    → IsKept r held
    → Run r held r' held'
    → IsKept r' held'
Run-IsKept k here = k
Run-IsKept k (next run st) = Step-IsKept (Run-IsKept k run) st

new_runner-IsKept : (c q : ℤ) → IsKept (new_runner c q) []
unfolding new_runner lookup
new_runner-IsKept c q = record {
  bounded = new_runner-IsBounded c q;
  unique = tt;
  count = refl;
  listed = λ s hook e. absurd (cc);
  allocated_for = λ s hook e. absurd (cc);
  old = λ s hook e. absurd (cc);
}

-- A runner made with any two limits, whatever calls are then made on it in whatever order, where a
-- slot that Admit gave is released at most once and no other is: no hook ever has two slots out, never
-- more slots are out than the capacity, and never more executions are running than the channel has
-- slots, of which there is at least one.
pub new_runner-Run-IsExclusive :
    (c q : ℤ) {r : Runner} {held : Held} → Run (new_runner c q) [] r held → IsExclusive r held
new_runner-Run-IsExclusive c q run =
    let k = Run-IsKept (new_runner-IsKept c q) run in
    record {
      one_each = λ s t hook e e'. ground (arith, k.listed s hook e, k.listed t hook e');
      within = omega (arith, k.count, k.bounded.admissions);
      running = k.bounded.running;
      some_slot = k.bounded.some_slot;
    }
