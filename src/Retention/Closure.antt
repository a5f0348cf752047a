-- ===== src/Retention/Closure.antt =====
-- The recursive query of CleanupOldExecutions finds exactly what is to be retained.
use webhook_ui.Common.{
  ℕ, zero, suc, ◌+◌, ◌≤◌, ◌≡◌, ◌⊎◌, inl, inr, refl, sym, ◌∙◌, ◌↔◌, true, ◌&&◌, ◌||◌, some, List, [],
  ◌∷◌, ◌++◌, length, ◌==◌, ==_iff, ==_refl, some_injective, nat_eq, Map, lookup, tally, arith,
  Bool-cases, Option-cases, IsUnique,
}
use webhook_ui.Store.{Execution}
use webhook_ui.Retention.{is_root, roots, contains_id, parent_of, close, retained_ids}
use webhook_ui.Retention.Query.{Retained, close_enough, contains_id-append, parent, root, unseen}

-- One more to stay.
Retained-cons :
    (cutoff : ℕ) (xs : List ℕ) (p x : ℕ) (rows : Map ℕ Execution)
    → Retained cutoff rows p
    → ((y : ℕ) → contains_id xs y ≡ true → Retained cutoff rows y)
    → (contains_id xs x || p == x) ≡ true
    → Retained cutoff rows x
Retained-cons cutoff xs p x rows up all i = elim (Bool-cases (contains_id xs x)) [
  | inl e ↦ all x e
  | inr e ↦ let same : p ≡ x = (==_iff p x).0 (ground (arith, i, e)) in rw (sym same) up
]

-- Nothing but what must stay is found.
close_sound :
    (cutoff fuel : ℕ) (queue seen : List ℕ) (rows : Map ℕ Execution) {out : List ℕ}
    → close fuel queue seen rows ≡ some out
    → ((x : ℕ) → contains_id queue x ≡ true → Retained cutoff rows x)
    → ((x : ℕ) → contains_id seen x ≡ true → Retained cutoff rows x)
    → (x : ℕ) → contains_id out x ≡ true
    → Retained cutoff rows x
unfolding close
close_sound cutoff fuel [] seen rows h q s = rw (sym (some_injective h)) s
close_sound cutoff zero (id ∷ queue) seen rows h q s = absurd (ground (arith, h))
close_sound cutoff (suc fuel) (id ∷ queue) seen rows h q s =
    let p : ℕ = parent_of rows id in
    let q' : (x : ℕ) → contains_id queue x ≡ true → Retained cutoff rows x =
      λ x i. q x (ground (arith, i)) in
    elim (Bool-cases (p == 0 || contains_id seen p)) [
      | inl old ↦ close_sound cutoff fuel queue seen rows (ground (arith, h, old)) q' s
      | inr new ↦
          let here : Retained cutoff rows id = q id (ground (arith, ==_iff id id)) in
          let up : Retained cutoff rows p = parent here refl (λ z. ground (arith, new, z)) in
          close_sound cutoff fuel (queue ++ p ∷ []) (p ∷ seen) rows (ground (arith, h, new))
            (λ x i.
              Retained-cons cutoff queue p x rows up q' (sym (contains_id-append queue p x) ∙ i))
            (λ x i. Retained-cons cutoff seen p x rows up s (ground (arith, i)))
    ]

-- The parent of x is found.
abbrev IsFollowed : (seen : List ℕ) → Map ℕ Execution → ℕ → Type 0
IsFollowed seen rows x = (parent_of rows x ≡ 0) ⊎ (contains_id seen (parent_of rows x) ≡ true)

-- Each one found is followed, or waits in the queue.
abbrev IsClosed : (queue seen : List ℕ) → Map ℕ Execution → Type 0
IsClosed queue seen rows =
    (x : ℕ) → contains_id seen x ≡ true → (contains_id queue x ≡ true) ⊎ IsFollowed seen rows x

IsClosed-old :
    (id x : ℕ) (queue seen : List ℕ) (rows : Map ℕ Execution)
    → (parent_of rows id == 0 || contains_id seen (parent_of rows id)) ≡ true
    → ((id == x || contains_id queue x) ≡ true) ⊎ IsFollowed seen rows x
    → (contains_id queue x ≡ true) ⊎ IsFollowed seen rows x
IsClosed-old id x queue seen rows old (inr h) = inr h
IsClosed-old id x queue seen rows old (inl h) = elim (Bool-cases (id == x)) [
  | inr e ↦ inl (ground (arith, h, e))
  | inl e ↦
      let same : id ≡ x = (==_iff id x).0 e in
      inr (rw (sym same) (ground (arith, old, ==_iff (parent_of rows id) 0)))
]

IsClosed-new :
    (id x : ℕ) (queue seen : List ℕ) (rows : Map ℕ Execution)
    → ((id == x || contains_id queue x) ≡ true) ⊎ IsFollowed seen rows x
    → (contains_id queue x ≡ true) ⊎ IsFollowed (parent_of rows id ∷ seen) rows x
IsClosed-new id x queue seen rows (inr (inl h)) = inr (inl h)
IsClosed-new id x queue seen rows (inr (inr h)) = inr (inr (ground (arith, h)))
IsClosed-new id x queue seen rows (inl h) = elim (Bool-cases (id == x)) [
  | inr e ↦ inl (ground (arith, h, e))
  | inl e ↦
      let same : id ≡ x = (==_iff id x).0 e in
      inr (inr (rw (sym same) (ground (arith, ==_refl (parent_of rows id)))))
]

close_complete :
    (fuel : ℕ) (queue seen : List ℕ) (rows : Map ℕ Execution) {out : List ℕ}
    → close fuel queue seen rows ≡ some out
    → IsClosed queue seen rows
    → IsClosed [] out rows × ((x : ℕ) → contains_id seen x ≡ true → contains_id out x ≡ true)
unfolding close
close_complete fuel [] seen rows h c =
    (rw (sym (some_injective h)) c, rw (sym (some_injective h)) (λ x i. i))
close_complete zero (id ∷ queue) seen rows h c = absurd (ground (arith, h))
close_complete (suc fuel) (id ∷ queue) seen rows h c =
    let p : ℕ = parent_of rows id in
    elim (Bool-cases (p == 0 || contains_id seen p)) [
      | inl old ↦
          close_complete fuel queue seen rows (ground (arith, h, old))
            (λ x i. IsClosed-old id x queue seen rows old (c x i))
      | inr new ↦
          let waits : IsClosed (queue ++ p ∷ []) (p ∷ seen) rows = λ x i.
            elim (Bool-cases (p == x)) [
              | inl e ↦ inl (ground (arith, e, contains_id-append queue p x))
              | inr e ↦ elim (IsClosed-new id x queue seen rows (c x (ground (arith, i, e)))) [
                | inl w ↦ inl (ground (arith, w, contains_id-append queue p x))
                | inr f ↦ inr f
              ]
            ] in
          let (closed, more) =
            close_complete fuel (queue ++ p ∷ []) (p ∷ seen) rows (ground (arith, h, new)) waits in
          (
            closed,
            λ x i.
                let later : (p == x || contains_id seen x) ≡ true = ground (arith, i) in
                more x later,
          )
    ]

length-roots-le : (cutoff : ℕ) (rows : Map ℕ Execution) → length (roots cutoff rows) ≤ length rows
unfolding roots
length-roots-le cutoff [] = omega arith
length-roots-le cutoff ((id, e) ∷ rows) = ground (arith, length-roots-le cutoff rows)

tally-unseen-le : (seen : List ℕ) (rows : Map ℕ Execution) → tally (unseen seen) rows ≤ length rows
unfolding tally
tally-unseen-le seen [] = omega arith
tally-unseen-le seen ((id, e) ∷ rows) = ground (arith, tally-unseen-le seen rows)

roots_sound :
    (cutoff : ℕ) (rows : Map ℕ Execution)
    → IsUnique rows
    → (x : ℕ) → contains_id (roots cutoff rows) x ≡ true
    → (e : Execution) × (lookup x rows ≡ some e) × (is_root cutoff e ≡ true)
unfolding roots lookup
roots_sound cutoff [] u x h = absurd (ground (arith, h))
roots_sound cutoff ((id, e) ∷ rows) u x h = elim (Bool-cases (is_root cutoff e && id == x)) [
  | inl i ↦ (e, ground (arith, i), ground (arith, i))
  | inr i ↦
      let (e', found, is) = roots_sound cutoff rows u.1 x (ground (arith, h, i)) in
      (e', ground (arith, found, u.0, ==_iff id x), is)
]

roots_complete :
    (cutoff : ℕ) (rows : Map ℕ Execution) (x : ℕ) (e : Execution)
    → lookup x rows ≡ some e
    → is_root cutoff e ≡ true
    → contains_id (roots cutoff rows) x ≡ true
unfolding roots lookup
roots_complete cutoff [] x e h r = absurd (ground (arith, h))
roots_complete cutoff ((id, e') ∷ rows) x e h r =
    ground (arith, roots_complete cutoff rows x e, some_injective {a = e'} {b = e})

found_all :
    (cutoff : ℕ) (kept : List ℕ) (rows : Map ℕ Execution)
    → IsClosed [] kept rows
    → ((x : ℕ) → contains_id (roots cutoff rows) x ≡ true → contains_id kept x ≡ true)
    → (x : ℕ) → Retained cutoff rows x
    → contains_id kept x ≡ true
found_all cutoff kept rows closed starts x (root e h r) =
    starts x (roots_complete cutoff rows x e h r)
found_all cutoff kept rows closed starts x (parent {child} {id} c h n) =
    elim (closed child (found_all cutoff kept rows closed starts child c)) [
      | inl bad ↦ absurd (ground (arith, bad))
      | inr (inl z) ↦ absurd (n (sym h ∙ z))
      | inr (inr f) ↦ rw (sym h) f
    ]

-- What the query returns: a list of the executions that must stay, and of no others.
pub retained_ids_lem :
    (cutoff : ℕ) (rows : Map ℕ Execution)
    → IsUnique rows
    → (kept : List ℕ) × (retained_ids cutoff rows ≡ some kept)
      × ((x : ℕ) → (contains_id kept x ≡ true) ↔ Retained cutoff rows x)
unfolding retained_ids
retained_ids_lem cutoff rows u =
    let first : List ℕ = roots cutoff rows in
    let fuel : ℕ = length rows + length rows in
    let enough =
      close_enough fuel first first rows
        (omega (arith, length-roots-le cutoff rows, tally-unseen-le first rows)) in
    let stays : (x : ℕ) → contains_id first x ≡ true → Retained cutoff rows x =
      λ x i. let (e, found, is) = roots_sound cutoff rows u x i in root e found is in
    elim (Option-cases (close fuel first first rows)) [
      | inl e ↦ absurd (enough e)
      | inr (kept, e) ↦
          let (closed, starts) = close_complete fuel first first rows e (λ x i. inl i) in
          (
            kept,
            e,
            λ x. (
              close_sound cutoff fuel first first rows e stays stays x,
              found_all cutoff kept rows closed starts x,
            ),
          )
    ]
