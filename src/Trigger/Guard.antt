-- ===== src/Trigger/Guard.antt =====
-- Who gets past the checks of Trigger.
use webhook_ui.Common.{
  ◌≡◌, ◌≢◌, ◌⊎◌, inl, inr, refl, sym, ap, String, Bool, true, false, Option, none, some, List, [],
  ◌∷◌, ◌++◌, ◌==◌, ==_iff, ◌↔◌, arith, nat_beq, nat_beq_iff, string_eq, bytes_eq, lookup, All,
  Bytes, bytes, Bool-cases, Option-cases, if◌then◌else◌, map_option, ◌∙◌, ℕ,
}
use webhook_ui.Models.{Status, Hook}
use webhook_ui.Execution.{log_execution}
use webhook_ui.Shell.{Env}
use webhook_ui.Store.{Db, ChainError}
use webhook_ui.Executor.{Platform, ExecuteResult, execute}
use webhook_ui.Chain.{
  Result, ok, err, Service, Dispatch, nothing, start_hook_execution, finish_hook_execution,
  dispatch_success,
}
use webhook_ui.Trigger.{
  Reply, internal_error, queues, ran, run_failed, run_hook, invalid_token, invalid_signature,
  TriggerFaults, refuse, passes_token, passes_signature, proceed, answer, trigger,
}
use webhook_ui.Trigger.Input.{
  build_command_input, Packages, Request, first_value, get_header, get_hash, after_equals,
  digest_of, first_sent, validate, get_signature_header, sent_token,
}

-- The one of three texts that counts: the first that is not empty, or else the last.
pub data IsFirst (a b c : Bytes) : Bytes → Type 0 where
  is_first : a ≢ [] → IsFirst a b c a
  is_second : a ≡ [] → b ≢ [] → IsFirst a b c b
  is_third : a ≡ [] → b ≡ [] → IsFirst a b c c

-- The token of a request: that of X-Token, the query's, or that of X-Gitlab-Token.
abbrev pub IsSent : Request → Bytes → Type 0
IsSent req =
    IsFirst (get_header "X-Token" req) (first_value (lookup (bytes "token") req.query))
      (get_header "X-Gitlab-Token" req)

-- No `=` in it.
abbrev pub IsPlain : Bytes → Type 0
IsPlain = All (λ c. nat_beq c b'=' ≡ false)

-- The digest of a signature: all of it, or what follows the first `=`.
pub data IsDigest (s digest : Bytes) : Type 0 where
  whole : IsPlain s → s ≡ digest → IsDigest s digest
  labelled : (label : Bytes) → IsPlain label → s ≡ label ++ b'=' ∷ digest → IsDigest s digest

-- The digest that a payload must come with.
abbrev pub expected : Packages → Hook → Bytes → Bytes
expected k hook payload =
    k.encode_to_string
      (k.mac (get_hash (k.to_lower hook.hmac_algorithm)) (bytes hook.hmac_secret) payload)

-- The two checks, where the hook asks for them.
pub record IsAuthentic (k : Packages) (hook : Hook) (req : Request) (payload : Bytes) : Type 0 where
  pub token : (hook.trigger_token ≡ "") ⊎ IsSent req (bytes hook.trigger_token)
  pub signature :
      (hook.hmac_secret ≡ "") ⊎ IsDigest (get_signature_header req) (expected k hook payload)

IsFirst-first_sent : (a b c : Bytes) → IsFirst a b c (first_sent a b c)
IsFirst-first_sent (x ∷ a) b c = is_first (λ e. ground (arith, e))
IsFirst-first_sent [] (x ∷ b) c = is_second refl (λ e. ground (arith, e))
IsFirst-first_sent [] [] c = is_third refl refl

first_sent_unique : (a b c : Bytes) {t : Bytes} → IsFirst a b c t → first_sent a b c ≡ t
first_sent_unique (x ∷ a) b c (is_first h) = refl
first_sent_unique (x ∷ a) b c (is_second e h) = absurd (ground (arith, e))
first_sent_unique (x ∷ a) b c (is_third e h) = absurd (ground (arith, e))
first_sent_unique [] (x ∷ b) c (is_first h) = absurd (h refl)
first_sent_unique [] (x ∷ b) c (is_second e h) = refl
first_sent_unique [] (x ∷ b) c (is_third e h) = absurd (ground (arith, h))
first_sent_unique [] [] c (is_first h) = absurd (h refl)
first_sent_unique [] [] c (is_second e h) = absurd (h refl)
first_sent_unique [] [] c (is_third e h) = refl

sent_token_iff : (req : Request) (t : Bytes) → (sent_token req ≡ t) ↔ IsSent req t
unfolding sent_token
sent_token_iff req t = (
  λ e. rw (sym e) (
      IsFirst-first_sent (get_header "X-Token" req) (first_value (lookup (bytes "token") req.query))
        (get_header "X-Gitlab-Token" req)),
  λ h.
      first_sent_unique (get_header "X-Token" req) (first_value (lookup (bytes "token") req.query))
        (get_header "X-Gitlab-Token" req) h,
)

IsPlain-after_equals : (s : Bytes) → after_equals s ≡ none → IsPlain s
unfolding after_equals
IsPlain-after_equals [] h = tt
IsPlain-after_equals (c ∷ s) h = ground (arith, IsPlain-after_equals s)

after_equals_labelled :
    (s rest : Bytes)
    → after_equals s ≡ some rest
    → (label : Bytes) × IsPlain label × (s ≡ label ++ b'=' ∷ rest)
unfolding after_equals
after_equals_labelled [] rest h = absurd (ground (arith, h))
after_equals_labelled (c ∷ s) rest h = elim (Bool-cases (nat_beq c b'=')) [
  | inl e ↦ ([], tt, ground (arith, h, nat_beq_iff c b'='))
  | inr e ↦
      let (label, plain, split) = after_equals_labelled s rest (ground (arith, h)) in
      (c ∷ label, (e, plain), ap (λ l. c ∷ l) split)
]

after_equals-IsPlain : (s : Bytes) → IsPlain s → after_equals s ≡ none
unfolding after_equals
after_equals-IsPlain [] h = refl
after_equals-IsPlain (c ∷ s) h = ground (arith, after_equals-IsPlain s h.1)

after_equals-append :
    (label rest : Bytes) → IsPlain label → after_equals (label ++ b'=' ∷ rest) ≡ some rest
unfolding after_equals
after_equals-append [] rest h = refl
after_equals-append (c ∷ label) rest h = ground (arith, after_equals-append label rest h.1)

digest_of_iff : (s digest : Bytes) → (digest_of s ≡ digest) ↔ IsDigest s digest
unfolding digest_of
digest_of_iff s digest = (
  λ e. elim (Option-cases (after_equals s)) [
    | inl n ↦
        let same : digest_of s ≡ s = rw (n, digest_of) refl in
        whole (IsPlain-after_equals s n) (sym same ∙ e)
    | inr (rest, n) ↦
        let same : digest_of s ≡ rest = rw (n, digest_of) refl in
        let (label, plain, split) = after_equals_labelled s rest n in
        labelled label plain (split ∙ ap (λ d. label ++ b'=' ∷ d) (sym same ∙ e))
  ],
  λ h. elim h [
    | whole plain e ↦ rw (after_equals-IsPlain s plain, digest_of) e
    | labelled label plain e ↦
        let n : after_equals s ≡ some digest = rw e (after_equals-append label digest plain) in
        rw (n, digest_of) refl
  ],
)

passes_token_iff :
    (hook : Hook) (req : Request)
    → (passes_token hook req ≡ true)
      ↔ ((hook.trigger_token ≡ "") ⊎ IsSent req (bytes hook.trigger_token))
unfolding passes_token
passes_token_iff hook req =
    let (to, from) = sent_token_iff req (bytes hook.trigger_token) in
    let (same, back) = ==_iff (sent_token req) (bytes hook.trigger_token) in
    let (empty, back') = ==_iff hook.trigger_token "" in
    (
      λ h. elim (Bool-cases (hook.trigger_token == "")) [
        | inl e ↦ inl (empty e)
        | inr e ↦ inr (to (same (ground (arith, h, e))))
      ],
      λ h. elim h [ inl e ↦ ground (arith, back' e) | inr sent ↦ ground (arith, back (from sent)) ],
    )

passes_signature_iff :
    (k : Packages) (hook : Hook) (req : Request) (payload : Bytes)
    → (passes_signature k hook req payload ≡ true)
      ↔ ((hook.hmac_secret ≡ "") ⊎ IsDigest (get_signature_header req) (expected k hook payload))
unfolding passes_signature validate
passes_signature_iff k hook req payload =
    let (to, from) = digest_of_iff (get_signature_header req) (expected k hook payload) in
    let (same, back) = ==_iff (digest_of (get_signature_header req)) (expected k hook payload) in
    let (empty, back') = ==_iff hook.hmac_secret "" in
    (
      λ h. elim (Bool-cases (hook.hmac_secret == "")) [
        | inl e ↦ inl (empty e)
        | inr e ↦ inr (to (same (ground (arith, h, e))))
      ],
      λ h. elim h [
        | inl e ↦ ground (arith, back' e)
        | inr digest ↦ ground (arith, back (from digest))
      ],
    )

-- What a refused request leaves: a finished row, unless its statement fails, and nothing else.
abbrev pub IsRefused :
    TriggerFaults → ℕ → Hook → Request → Service → Option (Reply × Dispatch × Service) → Type 0
IsRefused f now hook req s answer =
    (reply : Reply) × (message : Bytes) × ((reply ≡ invalid_token) ⊎ (reply ≡ invalid_signature))
    × (answer
        ≡ some (
          reply,
          nothing,
          record s {
            db = log_execution f.log now hook.id req.client_ip Status.failed [] message s.db;
          },
        ))

-- How a run ends: its status and the answer.
pub data IsEnd (result : ExecuteResult) : Status → Reply → Type 0 where
  well : result.success ≡ true → IsEnd result Status.success (ran result)
  badly : result.success ≡ false → IsEnd result Status.failed (run_failed result)

-- What an authentic request leads to. A synchronous hook is recorded as running, run, recorded as
-- finished with the result, whose successor is then dispatched.
module _ (k : Packages) (p : Platform) (allowed_commands : List Bytes)
    (meanwhile : Service → Service) (f : TriggerFaults) (now : ℕ) (hook : Hook) (req : Request)
    (payload : Bytes) (s : Service) where
  abbrev pub passed : Env × List Bytes
  passed = build_command_input k hook req payload

  abbrev pub started : Result ℕ × Db
  started = start_hook_execution f.start now hook req.client_ip Status.running 0 (hook.id ∷ []) s.db

  pub data IsServed (answer : Option (Reply × Dispatch × Service)) : Type 0 where
    handed_over :
        hook.async ≡ true
        → answer ≡ some (queues hook (passed.0) (passed.1), nothing, s)
        → IsServed answer
    not_recorded :
        {e : ChainError}
        → hook.async ≡ false
        → started.0 ≡ err e
        → answer ≡ some (internal_error, nothing, record s { db = started.1 })
        → IsServed answer
    completed :
        {exec : ℕ} (result : ExecuteResult) (db' : Db) (after : Service) {status : Status}
        {reply : Reply}
        → hook.async ≡ false
        → started.0 ≡ ok exec
        → execute p allowed_commands f.run hook (passed.0) (passed.1) started.1 ≡ (result, db')
        → after ≡ meanwhile (record s { db = db' })
        → IsEnd result status reply
        → answer
          ≡ map_option {B = Reply × Dispatch × Service}
              (λ d. (reply, d.0, d.1))
              (dispatch_success f.dispatch f.save now exec (record after {
                db =
                    finish_hook_execution f.finish now exec status result.output result.error
                      after.db;
              }))
        → IsServed answer

  IsEnd-success :
      (result : ExecuteResult)
      → IsEnd result
          (if result.success then Status.success else Status.failed)
          (if result.success then ran result else run_failed result)
  IsEnd-success result = by_success result.success refl
    where
      by_success :
          (b : Bool)
          → result.success ≡ b
          → IsEnd result
              (if b then Status.success else Status.failed)
              (if b then ran result else run_failed result)
      by_success true e = well e
      by_success false e = badly e

  answer_of :
      (reply : Reply) (o : Option (Dispatch × Service))
      → (elim o as (λ x. Option (Reply × Dispatch × Service)) [
        | none ↦ none
        | some (d, s'') ↦ some (reply, d, s'')
      ])
        ≡ map_option {B = Reply × Dispatch × Service} (λ d. (reply, d.0, d.1)) o
  answer_of reply none = refl
  answer_of reply (some d) = refl

  run_hook-IsServed :
      (st : Result ℕ)
      → hook.async ≡ false
      → started.0 ≡ st
      → IsServed (run_hook p allowed_commands meanwhile f now hook req (passed.0) (passed.1) s)
  unfolding run_hook
  run_hook-IsServed (err e) sync same = not_recorded sync same (rw (same, run_hook) refl)
  run_hook-IsServed (ok exec) sync same =
      let done = execute p allowed_commands f.run hook (passed.0) (passed.1) started.1 in
      completed done.0 done.1 (meanwhile (record s { db = done.1 })) sync same refl refl
        (IsEnd-success done.0) (rw (same, run_hook) (answer_of _ _))

  proceed-IsServed : IsServed (proceed k p allowed_commands meanwhile f now hook req payload s)
  unfolding proceed
  proceed-IsServed = by_kind hook.async refl
    where
      by_kind :
          (b : Bool)
          → hook.async ≡ b
          → IsServed (
              if b
              then some (queues hook (passed.0) (passed.1), nothing, s)
              else run_hook p allowed_commands meanwhile f now hook req (passed.0) (passed.1) s)
      by_kind true e = handed_over e refl
      by_kind false e = run_hook-IsServed (started.0) e refl

-- A request with a body, for a hook that is found. Where it is authentic, an asynchronous hook is
-- queued with the variables and arguments that the request passes to it; a synchronous one is
-- recorded as running, run with these, recorded as finished with its result, its successor is
-- dispatched, and the answer is the result; only where the execution cannot be recorded, the
-- answer is 500 and nothing runs. Where the request is not authentic, the answer is 401, no part of
-- the hook runs, and nothing changes but for one row of a failed execution. A request is authentic
-- if it has the hook's token, where the hook has one, in the first of the three places that is
-- not empty, and, where the hook has a secret, its signature is the payload's digest, bare or
-- behind a label that ends at the first `=`.
pub trigger_guarded :
    (k : Packages) (p : Platform) (allowed_commands : List Bytes) (meanwhile : Service → Service)
    (f : TriggerFaults) (now : ℕ) (id : String) (req : Request) (s : Service) (hook : Hook)
    (payload : Bytes)
    → f.select_hook ≡ false
    → lookup id s.db.hooks ≡ some hook
    → req.body ≡ some payload
    → let reached = trigger k p allowed_commands meanwhile f now id req s in
      (IsAuthentic k hook req payload
        × IsServed k p allowed_commands meanwhile f now hook req payload s reached)
      ⊎ (¬ IsAuthentic k hook req payload × IsRefused f now hook req s reached)
unfolding trigger answer refuse
trigger_guarded k p allowed_commands meanwhile f now id req s hook payload select found body =
    let (to, from) = passes_token_iff hook req in
    let (to', from') = passes_signature_iff k hook req payload in
    let step : trigger k p allowed_commands meanwhile f now id req s
        ≡ answer k p allowed_commands meanwhile f now hook req payload s =
      rw (select, trigger) (rw (found, trigger) (rw (body, trigger) refl)) in
    rw step (elim (Bool-cases (passes_token hook req)) [
      | inr e ↦
          rw (e, answer)
            (inr (
              λ a. ground (arith, from a.token, e),
              (invalid_token, bytes "invalid trigger token", inl refl, refl),
            ))
      | inl e ↦ elim (Bool-cases (passes_signature k hook req payload)) [
        | inr e' ↦
            rw (e, answer)
              (rw (e', answer)
                (inr (
                  λ a. ground (arith, from' a.signature, e'),
                  (invalid_signature, bytes "invalid HMAC signature", inr refl, refl),
                )))
        | inl e' ↦
            rw (e, answer)
              (rw (e', answer)
                (inl (
                  record { token = to e; signature = to' e' },
                  proceed-IsServed k p allowed_commands meanwhile f now hook req payload s,
                )))
      ]
    ])
