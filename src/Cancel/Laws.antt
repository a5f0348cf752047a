-- ===== src/Cancel/Laws.antt =====
-- The registry never closes a channel twice, and reaches exactly the executions registered in it.
use mathlib.Core.Path.{subst}
use webhook_ui.Common.{
  some_snd, sym, ◌∙◌, ℕ, ◌<◌, ◌≡◌, refl, Bool, true, false, Option, none, some, List, [], ◌∷◌,
  lookup, delete, arith, lookup-insert, lookup-delete, nat_eq, Option-cases, ◌⊎◌, inl, inr,
}
use webhook_ui.Cancel.{CancelRegistry, new_cancel_registry, is_closed, register, unregister, cancel}

-- Each pending channel was made by `register`, is open, and belongs to one execution.
pub record IsLive (r : CancelRegistry) : Type 0 where
  pub made : (id ch : ℕ) → lookup id r.pending ≡ some ch → ch < r.next_channel
  pub open_ : (id ch : ℕ) → lookup id r.pending ≡ some ch → is_closed ch r ≡ false
  pub one : (i j ch : ℕ) → lookup i r.pending ≡ some ch → lookup j r.pending ≡ some ch → i ≡ j
  pub past : (ch : ℕ) → is_closed ch r ≡ true → ch < r.next_channel

pub new-IsLive : IsLive new_cancel_registry
unfolding lookup is_closed
new-IsLive = record {
  made = λ id ch h. cc;
  open_ = λ id ch h. cc;
  one = λ i j ch h k. cc;
  past = λ ch h. cc;
}

pub register-IsLive : (id : ℕ) (r : CancelRegistry) → IsLive r → IsLive (register id r).1
unfolding register is_closed
register-IsLive id r v = record {
  made = λ i ch h. ground (arith, lookup-insert i id r.next_channel r.pending, v.made i ch);
  open_ = λ i ch h.
      ground (arith, lookup-insert i id r.next_channel r.pending, v.open_ i ch, v.past ch);
  one = λ i j ch h k. ground (
    arith,
    lookup-insert i id r.next_channel r.pending,
    lookup-insert j id r.next_channel r.pending,
    v.one i j ch,
    v.made i ch,
    v.made j ch,
  );
  past = λ ch h. ground (arith, v.past ch);
}

pub unregister-IsLive : (id : ℕ) (r : CancelRegistry) → IsLive r → IsLive (unregister id r)
unfolding unregister is_closed
unregister-IsLive id r v = record {
  made = λ i ch h. ground (arith, lookup-delete i id r.pending, v.made i ch);
  open_ = λ i ch h. ground (arith, lookup-delete i id r.pending, v.open_ i ch);
  one = λ i j ch h k.
      ground (arith, lookup-delete i id r.pending, lookup-delete j id r.pending, v.one i j ch);
  past = λ ch h. ground (arith, v.past ch);
}

-- A signalled execution loses its entry, and its channel is closed.
abbrev pub signalled : ℕ → ℕ → CancelRegistry → CancelRegistry
signalled id ch r = record r { pending = delete id r.pending; closed = ch ∷ r.closed }

-- `Cancel` never panics: it reports whether the execution was registered, and closes its channel
-- exactly then.
pub cancel_total :
    (id : ℕ) (r : CancelRegistry)
    → IsLive r
    → ((lookup id r.pending ≡ none) × (cancel id r ≡ some (false, r)))
      ⊎ ((ch : ℕ) × (lookup id r.pending ≡ some ch)
          × (cancel id r ≡ some (true, signalled id ch r)))
unfolding cancel is_closed
cancel_total id r v = elim (Option-cases (lookup id r.pending)) [
  | inl e ↦ inl (e, ground arith)
  | inr (ch, e) ↦ inr (ch, e, ground (arith, v.open_ id ch))
]

signalled-IsLive :
    (id ch : ℕ) (r : CancelRegistry)
    → IsLive r
    → lookup id r.pending ≡ some ch
    → IsLive (signalled id ch r)
unfolding is_closed
signalled-IsLive id ch r v h = record {
  made = λ i c k. ground (arith, lookup-delete i id r.pending, v.made i c);
  open_ = λ i c k. ground (arith, lookup-delete i id r.pending, v.open_ i c, v.one id i ch);
  one = λ i j c k l.
      ground (arith, lookup-delete i id r.pending, lookup-delete j id r.pending, v.one i j c);
  past = λ c k. ground (arith, v.past c, v.made id ch);
}

pub cancel-IsLive :
    (id : ℕ) (r : CancelRegistry) {ok : Bool} {r' : CancelRegistry}
    → IsLive r
    → cancel id r ≡ some (ok, r')
    → IsLive r'
cancel-IsLive id r {ok} {r'} v h = elim (cancel_total id r v) [
  | inl (_, e) ↦ subst IsLive (some_snd (sym e ∙ h)) v
  | inr (ch, k, e) ↦ subst IsLive (some_snd (sym e ∙ h)) (signalled-IsLive id ch r v k)
]

pub data Call : Type 0 where
  registers unregisters cancels : ℕ → Call

-- The registry after a sequence of calls; `none` if one of them panicked.
pub after_calls : List Call → CancelRegistry → Option CancelRegistry
after_calls [] r = some r
after_calls (registers id ∷ cs) r = after_calls cs (register id r).1
after_calls (unregisters id ∷ cs) r = after_calls cs (unregister id r)
after_calls (cancels id ∷ cs) r = elim (cancel id r) [
  | none ↦ none
  | some (_, r') ↦ after_calls cs r'
]

calls_total :
    (cs : List Call) (r : CancelRegistry)
    → IsLive r
    → (r' : CancelRegistry) × (after_calls cs r ≡ some r') × IsLive r'
unfolding after_calls
calls_total [] r v = (r, refl, v)
calls_total (registers id ∷ cs) r v = calls_total cs (register id r).1 (register-IsLive id r v)
calls_total (unregisters id ∷ cs) r v = calls_total cs (unregister id r) (unregister-IsLive id r v)
calls_total (cancels id ∷ cs) r v = elim (cancel_total id r v) [
  | inl (_, e) ↦ rw (e, after_calls) (calls_total cs r v)
  | inr (ch, k, e) ↦
      rw (e, after_calls) (calls_total cs (signalled id ch r) (signalled-IsLive id ch r v k))
]

-- From an empty registry, no sequence of Register, Unregister and Cancel calls closes a channel
-- twice; and afterwards each execution still registered has an open channel that no other has.
pub cancel_never_panics :
    (cs : List Call)
    → (r : CancelRegistry) × (after_calls cs new_cancel_registry ≡ some r) × IsLive r
cancel_never_panics cs = calls_total cs new_cancel_registry new-IsLive
