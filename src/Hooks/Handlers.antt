-- ===== src/Hooks/Handlers.antt =====
-- Create, Update and Delete keep every chain of success targets ending.
use mathlib.Core.Path.{subst}
use webhook_ui.Common.{
  ◌≡◌, sym, ◌⊎◌, inl, inr, String, Bool, true, false, not, ◌||◌, Option, none, some, List, [], ◌∷◌,
  ==_iff, ==_refl, string_eq, lookup, insert, adjust, lookup-insert, lookup-adjust, arith,
  Option-cases, Bool-cases,
}
use webhook_ui.Models.{Hook, validate_hook, apply_timeout_default}
use webhook_ui.Store.{Db}
use webhook_ui.Hooks.{
  Walk, ends, validate_success_target, HookFaults, is_end, Reply, insert_hook, update_hook, checked,
  create, update, with_defaults, check_ssh_host_exists, is_referenced, remove,
}
use webhook_ui.Hooks.Acyclic.{IsAcyclic, write-IsAcyclic, delete-IsAcyclic}

end_of : (w : Walk) → is_end w ≡ true → w ≡ ends
end_of w h = ground arith

insert_hook-IsAcyclic :
    (f : HookFaults) (hook : Hook) (db : Db)
    → is_end (validate_success_target f.walk db.hooks hook) ≡ true
    → IsAcyclic db.hooks
    → IsAcyclic (insert_hook f hook db).1.hooks
unfolding insert_hook
insert_hook-IsAcyclic f hook db ok' v = elim (Option-cases (lookup hook.id db.hooks)) [
  | inr (_, e) ↦ rw (e, insert_hook) v
  | inl e ↦ elim (Bool-cases (f.write || f.commit)) [
    | inl b ↦ rw (e, insert_hook) (rw b v)
    | inr b ↦
        rw (e, insert_hook)
          (rw b (
            write-IsAcyclic f.walk db.hooks (insert hook.id hook db.hooks) hook
              (λ j ne. ground (arith, lookup-insert j hook.id hook db.hooks, ==_iff hook.id j))
              (ground (arith, lookup-insert hook.id hook.id hook db.hooks, ==_refl hook.id))
              (end_of _ ok') v))
  ]
]

update_hook-IsAcyclic :
    (f : HookFaults) (hook : Hook) (db : Db)
    → is_end (validate_success_target f.walk db.hooks hook) ≡ true
    → IsAcyclic db.hooks
    → IsAcyclic (update_hook f hook db).1.hooks
unfolding update_hook
update_hook-IsAcyclic f hook db ok' v = elim (Bool-cases (f.write || f.commit)) [
  | inl b ↦ subst IsAcyclic (sym (unwritten b)) v
  | inr b ↦ elim (Option-cases (lookup hook.id db.hooks)) [
    | inl e ↦ subst IsAcyclic (sym (ground arith)) v
    | inr (old, e) ↦ subst IsAcyclic (sym (written old e b)) (
        write-IsAcyclic f.walk db.hooks (adjust hook.id (λ _. hook) db.hooks) hook
          (λ j ne.
            ground (arith, lookup-adjust j hook.id (λ (x : Hook). hook) db.hooks, ==_iff hook.id j))
          (ground
            (arith, lookup-adjust hook.id hook.id (λ (x : Hook). hook) db.hooks, ==_refl hook.id))
          (end_of _ ok') v)
  ]
]
  where
    unwritten : f.write || f.commit ≡ true → (update_hook f hook db).1.hooks ≡ db.hooks
    unwritten b = ground arith

    written :
        (old : Hook)
        → lookup hook.id db.hooks ≡ some old
        → f.write || f.commit ≡ false
        → (update_hook f hook db).1.hooks ≡ adjust hook.id (λ _. hook) db.hooks
    written old e b = ground arith

module _ (json_valid : String → Bool) where
  checked_cases :
      (f : HookFaults) (hook : Hook) (db : Db) (write : Reply × Db)
      → ((checked json_valid f hook db write).1 ≡ db)
        ⊎ ((is_end (validate_success_target f.walk db.hooks hook) ≡ true)
            × (checked json_valid f hook db write ≡ write))
  unfolding checked
  checked_cases f hook db write =
      elim (Bool-cases (is_end (validate_success_target f.walk db.hooks hook))) [
        | inr w ↦ inl (ground arith)
        | inl w ↦ elim (Option-cases (validate_hook json_valid hook)) [
          | inr (_, e) ↦ inl (ground arith)
          | inl e ↦
              elim (Bool-cases
                (not (check_ssh_host_exists f.select_host hook.ssh_host_id db) || f.begin)) [
                  | inl b ↦ inl (ground arith)
                  | inr b ↦ inr (w, ground arith)
                ]
        ]
      ]

  checked-IsAcyclic :
      (f : HookFaults) (hook : Hook) (db : Db) (write : Reply × Db)
      → (is_end (validate_success_target f.walk db.hooks hook) ≡ true → IsAcyclic write.1.hooks)
      → IsAcyclic db.hooks
      → IsAcyclic (checked json_valid f hook db write).1.hooks
  checked-IsAcyclic f hook db write good v = elim (checked_cases f hook db write) [
    | inl e ↦ rw e v
    | inr (w, e) ↦ rw e (good w)
  ]

  -- Whatever the request and whichever statements fail, Create keeps every chain ending.
  pub create-IsAcyclic :
      (f : HookFaults) (fresh_id : String) (body : Option Hook) (db : Db)
      → IsAcyclic db.hooks
      → IsAcyclic (create json_valid f fresh_id body db).1.hooks
  unfolding create
  create-IsAcyclic f fresh_id none db v = v
  create-IsAcyclic f fresh_id (some body) db v =
      checked-IsAcyclic f (with_defaults fresh_id body) db _
        (λ w. insert_hook-IsAcyclic f (with_defaults fresh_id body) db w v) v

  -- And so does Update.
  pub update-IsAcyclic :
      (f : HookFaults) (id : String) (body : Option Hook) (db : Db)
      → IsAcyclic db.hooks
      → IsAcyclic (update json_valid f id body db).1.hooks
  unfolding update
  update-IsAcyclic f id none db v = v
  update-IsAcyclic f id (some body) db v =
      let hook = apply_timeout_default (record body { id = id }) in
      checked-IsAcyclic f hook db _ (λ w. update_hook-IsAcyclic f hook db w v) v

-- And so does Delete, which refuses to remove the target of another hook.
pub remove-IsAcyclic :
    (f : HookFaults) (select_fails : Bool) (id : String) (db : Db)
    → IsAcyclic db.hooks
    → IsAcyclic (remove f select_fails id db).1.hooks
unfolding remove
remove-IsAcyclic f select_fails id db v = elim (Bool-cases (is_referenced id db.hooks)) [
  | inl r ↦ subst IsAcyclic (sym (ground arith)) v
  | inr r ↦ elim (Bool-cases (f.begin || select_fails || f.write || f.commit)) [
    | inl b ↦ subst IsAcyclic (sym (ground arith)) v
    | inr b ↦ elim (Option-cases (lookup id db.hooks)) [
      | inl e ↦ subst IsAcyclic (sym (ground arith)) v
      | inr (h, e) ↦ subst IsAcyclic (sym (ground arith)) (delete-IsAcyclic id db.hooks r v)
    ]
  ]
]

pub data Request : Type 0 where
  creates : HookFaults → String → Option Hook → Request
  updates : HookFaults → String → Option Hook → Request
  removes : HookFaults → Bool → String → Request

module _ (json_valid : String → Bool) where
  abbrev pub serve : Request → Db → Db
  serve (creates f fresh_id body) db = (create json_valid f fresh_id body db).1
  serve (updates f id body) db = (update json_valid f id body db).1
  serve (removes f select_fails id) db = (remove f select_fails id db).1

  unfoldable pub serve_all : List Request → Db → Db
  serve_all [] db = db
  serve_all (r ∷ rs) db = serve_all rs (serve r db)

  serve-IsAcyclic : (r : Request) (db : Db) → IsAcyclic db.hooks → IsAcyclic (serve r db).hooks
  serve-IsAcyclic (creates f i b) db v = create-IsAcyclic json_valid f i b db v
  serve-IsAcyclic (updates f i b) db v = update-IsAcyclic json_valid f i b db v
  serve-IsAcyclic (removes f b i) db v = remove-IsAcyclic f b i db v

  -- From a database whose chains all end, whatever sequence of Create, Update and Delete requests
  -- is served and whichever statements fail, the success targets of every stored hook lead over
  -- stored hooks to one that has none: no cycle, and no missing target.
  pub serve_all-IsAcyclic :
      (rs : List Request) (db : Db) → IsAcyclic db.hooks → IsAcyclic (serve_all rs db).hooks
  unfolding serve_all
  serve_all-IsAcyclic [] db v = v
  serve_all-IsAcyclic (r ∷ rs) db v = serve_all-IsAcyclic rs (serve r db) (serve-IsAcyclic r db v)
