-- ===== src/Agent/Stopping.antt =====
-- What /stop counts and cancels, in exoclaw/agent/loop.go.
use exoclaw_go.Prelude.{
  ℕ, ◌+◌, ◌≡◌, refl, ap, ◌∙◌, sym, String, false, List, [], ◌∷◌, ◌++◌, if◌then◌else◌, str_eq,
  eq_iff, eq_refl, length, arith, Bool-cases, inl, inr,
}
use exoclaw_go.Bus.Queue.{InboundMessage, session_key}
use exoclaw_go.Agent.Message.{reply}
use exoclaw_go.Agent.Tasks.{
  Tasks, new_tasks, tasks_at, put_tasks, delete_tasks, keep_entry, remove_own, start_task, end_task,
  stop_text, is_stop, handle_stop, take_message, Event, taken, ended, Steps, here, takes, ends,
}

tasks_at-put_tasks :
    (k : String) (ids : List ℕ) (a : List (String × List ℕ)) → tasks_at k (put_tasks k ids a) ≡ ids
unfolding tasks_at put_tasks
tasks_at-put_tasks k ids [] = ground (arith, eq_refl k)
tasks_at-put_tasks k ids (e ∷ es) = ground (arith, eq_refl k, tasks_at-put_tasks k ids es)

tasks_at-put_tasks_ne :
    (k other : String) (ids : List ℕ) (a : List (String × List ℕ))
    → str_eq k other ≡ false
    → tasks_at other (put_tasks k ids a) ≡ tasks_at other a
unfolding tasks_at put_tasks
tasks_at-put_tasks_ne k other ids [] h = ground (arith, h)
tasks_at-put_tasks_ne k other ids (e ∷ es) h = ground (
  arith,
  h,
  eq_iff e.0 k,
  eq_iff e.0 other,
  eq_iff k other,
  tasks_at-put_tasks_ne k other ids es h,
)

tasks_at-delete_tasks :
    (k other : String) (a : List (String × List ℕ))
    → tasks_at other (delete_tasks k a) ≡ (if str_eq k other then [] else tasks_at other a)
unfolding tasks_at delete_tasks
tasks_at-delete_tasks k other [] = ground arith
tasks_at-delete_tasks k other (e ∷ es) =
    ground (arith, eq_iff e.0 k, eq_iff e.0 other, eq_iff k other, tasks_at-delete_tasks k other es)

remove_own-same : (ids : List ℕ) → remove_own ids ≡ ids
unfolding remove_own
remove_own-same [] = refl
remove_own-same (c ∷ cs) = ap (◌∷◌ c) (remove_own-same cs)

-- The tasks of a session that were started behind its last /stop, `old` being those before the events.
abbrev pub started_since_stop : String → List ℕ → List Event → List ℕ
started_since_stop sk old [] = old
started_since_stop sk old (taken id msg ∷ es) =
    started_since_stop sk
      (if str_eq (session_key msg) sk then (if is_stop msg then [] else old ++ id ∷ []) else old) es
started_since_stop sk old (ended id k ∷ es) = started_since_stop sk old es

tasks_at-keep_entry :
    (k other : String) (ids : List ℕ) (a : List (String × List ℕ))
    → tasks_at k a ≡ ids
    → tasks_at other (keep_entry k ids a) ≡ tasks_at other a
tasks_at-keep_entry k other [] a h = refl
tasks_at-keep_entry k other (c ∷ cs) a h = elim (Bool-cases (str_eq k other)) [
  | inl e ↦
      let same : k ≡ other = (eq_iff k other).0 e in
      ap (λ o. tasks_at o (put_tasks k (remove_own (c ∷ cs)) a)) (sym same)
      ∙ tasks_at-put_tasks k (remove_own (c ∷ cs)) a
      ∙ remove_own-same (c ∷ cs)
      ∙ sym h
      ∙ ap (λ o. tasks_at o a) same
  | inr ne ↦ tasks_at-put_tasks_ne k other (remove_own (c ∷ cs)) a ne
]

tasks_at-start_task :
    (id : ℕ) (k other : String) (t : Tasks)
    → tasks_at other (start_task id k t).active
      ≡ (if str_eq k other then tasks_at other t.active ++ id ∷ [] else tasks_at other t.active)
unfolding start_task
tasks_at-start_task id k other t = elim (Bool-cases (str_eq k other)) [
  | inl e ↦
      let same : k ≡ other = (eq_iff k other).0 e in
      let ids = tasks_at k t.active ++ id ∷ [] in
      rw e (
        ap (λ o. tasks_at o (put_tasks k ids t.active)) (sym same)
        ∙ tasks_at-put_tasks k ids t.active
        ∙ ap (λ o. tasks_at o t.active ++ id ∷ []) same)
  | inr ne ↦ rw ne (tasks_at-put_tasks_ne k other (tasks_at k t.active ++ id ∷ []) t.active ne)
]

module _ (cancel_by_session : String → ℕ) where
  tasks_at-take_message :
      (id : ℕ) (msg : InboundMessage) (sk : String) (t : Tasks)
      → tasks_at sk (take_message cancel_by_session id msg t).1.active ≡ (
          if str_eq (session_key msg) sk
          then (if is_stop msg then [] else tasks_at sk t.active ++ id ∷ [])
          else tasks_at sk t.active)
  unfolding take_message handle_stop
  tasks_at-take_message id msg sk t = elim (Bool-cases (is_stop msg)) [
    | inl e ↦ rw e (tasks_at-delete_tasks (session_key msg) sk t.active)
    | inr ne ↦ rw ne (tasks_at-start_task id (session_key msg) sk t)
  ]

  tasks_at-Steps :
      {t u : Tasks} {es : List Event} (sk : String)
      → Steps cancel_by_session t es u
      → tasks_at sk u.active ≡ started_since_stop sk (tasks_at sk t.active) es
  unfolding end_task
  tasks_at-Steps sk here = refl
  tasks_at-Steps {t} {u} sk (takes {es} id msg rest) =
      tasks_at-Steps sk rest
      ∙ ap (λ old. started_since_stop sk old es) (tasks_at-take_message id msg sk t)
  tasks_at-Steps {t} {u} sk (ends {es} id k before after running rest) =
      tasks_at-Steps sk rest
      ∙ ap (λ old. started_since_stop sk old es)
          (tasks_at-keep_entry k sk (tasks_at k t.active) t.active refl)

  -- Whatever the order of messages and of the ends of tasks since the start: /stop answers with the
  -- number of all tasks that its session has started since the last /stop, and cancels just these,
  -- whether they have ended or not, and behind it the session has none.
  pub handle_stop-Steps :
      (t : Tasks) (es : List Event) (msg : InboundMessage)
      → Steps cancel_by_session new_tasks es t
      → let sk = session_key msg in
        let started = started_since_stop sk [] es in
        ((handle_stop cancel_by_session msg t).0.content
          ≡ stop_text (length started + cancel_by_session sk))
        × ((handle_stop cancel_by_session msg t).1.cancelled ≡ t.cancelled ++ started)
        × (tasks_at sk (handle_stop cancel_by_session msg t).1.active ≡ [])
  unfolding handle_stop reply tasks_at
  handle_stop-Steps t es msg steps =
      let sk = session_key msg in
      let found : tasks_at sk t.active ≡ started_since_stop sk [] es = tasks_at-Steps sk steps in
      (
        ap (λ ids. stop_text (length ids + cancel_by_session sk)) found,
        ap (λ ids. t.cancelled ++ ids) found,
        tasks_at-delete_tasks sk sk t.active ∙ rw (eq_refl sk) refl,
      )
