-- ===== src/Ipc/Delivery.antt =====
-- src/arch/x86_64/syscall/ipc.c: every step keeps what a woken receiver needs.
use native.Mathlib.Decide.{ℕ_discrete}
use clay_figure_kernel.Base.{
  >>=-eq-done, ℕ, ◌≡◌, ◌≢◌, ◌⊎◌, inl, inr, refl, ◌∙◌, ap, arith, true, false, not, ◌&&◌, ◌||◌, List,
  [], ◌∷◌, ◌++◌, ◌==◌, if◌then◌else◌, Run, done, ==_iff, Bool-cases,
}
use clay_figure_kernel.Base.Update.{update, update_self, update_ne}
use clay_figure_kernel.Klist.Walk.{member}
use clay_figure_kernel.Ipc.{
  recv_from_any, recv_from_int, pid_no_task, Message, Tasks, blocks, task_exist, is_service_id,
  service_id_to_pid, inform_intr, wait_receviced, msg_send, msg_recv, is_empty,
  received_from_any_task, received_from_intr, received_any_message, received_from, pop_sender,
  remove_sender, take_message, inform_received, msg_recv_woken, may_receive, task_ipc_check,
}
use clay_figure_kernel.Ipc.Steps.{
  outside, sends, receives, received, Sys, Step, send, send_refused, receive, receive_refused,
  interrupt, wake_receiver, wake_sender, take, Reach, here, next,
}
use clay_figure_kernel.Ipc.Safe.{
  can_take, IsSource, IsSafeAt, IsSafe, Grows, IsSafeAt-Grows, idle-IsSafeAt, of_others, same-Grows,
  queued-Grows,
}

msg_send-Grows :
    (s : Tasks) (t dst : ℕ) (msg : Message) (u : ℕ) → Grows s (msg_send s t dst msg).2 u
unfolding msg_send wait_receviced received_from_intr
msg_send-Grows s t dst msg u =
    let s1 : Tasks = record s { send_to = update s.send_to t pid_no_task } in
    elim (Bool-cases (task_exist s1 dst)) [
      | inl e ↦ rw e (
          queued-Grows s _ t dst u
            (ap (λ (d : ℕ). update s.sender_list d (s.sender_list d ++ t ∷ []))
              (update_self s1.send_to t dst))
            refl refl refl)
      | inr e ↦
          rw e (record { intr = λ h. h; full = λ h. h; list = λ x h. h; flag = refl; from = refl })
    ]

msg_recv-Grows : (s : Tasks) (t src u : ℕ) → t ≢ u → Grows s (msg_recv s t src).1 u
unfolding msg_recv received_from_intr
msg_recv-Grows s t src u ne =
    let s1 : Tasks = record s { recv_from = update s.recv_from t pid_no_task } in
    let from = update_ne s.recv_from t pid_no_task u ne in
    elim (Bool-cases
      (not (src == recv_from_any) && not (src == recv_from_int) && not (task_exist s1 src))) [
        | inl e ↦
            rw e
              (record { intr = λ h. h; full = λ h. h; list = λ x h. h; flag = refl; from = from })
        | inr e ↦ rw e (record {
          intr = λ h. h;
          full = λ h. h;
          list = λ x h. h;
          flag = update_ne s.recv_flag t 1 u ne;
          from = update_ne s1.recv_from t src u ne ∙ from;
        })
      ]

IsSource-of :
    (s : Tasks) (src : ℕ)
    → (not (src == recv_from_any) && not (src == recv_from_int) && not (task_exist s src)) ≡ false
    → IsSource src
unfolding task_exist
IsSource-of s src h = ground arith

msg_recv-IsSafeAt :
    (s : Tasks) (t src : ℕ) (status : _)
    → (msg_recv s t src).0 ≡ blocks status
    → IsSafeAt (msg_recv s t src).1 t (receives src)
unfolding msg_recv
msg_recv-IsSafeAt s t src status blocked =
    let s1 : Tasks = record s { recv_from = update s.recv_from t pid_no_task } in
    elim (Bool-cases
      (not (src == recv_from_any) && not (src == recv_from_int) && not (task_exist s1 src))) [
        | inl e ↦ absurd (let h = rw e at blocked in cc)
        | inr e ↦ rw e (record {
          blocked = λ src' e'.
              let same : src ≡ src' = cc in
              (
                update_self s1.recv_flag t 1,
                update_self s1.recv_from t src ∙ same,
                rw same at (IsSource-of s1 src e),
              );
          woken = λ src' e'. cc;
        })
      ]

inform_intr-Grows : (s : Tasks) (dst u : ℕ) → Grows s (inform_intr s dst) u
unfolding inform_intr received_from_intr
inform_intr-Grows s dst u =
    let pid = if is_service_id dst then service_id_to_pid s dst else dst in
    elim (Bool-cases (task_exist s pid)) [
      | inr e ↦ rw e (same-Grows s u)
      | inl e ↦ rw e (record {
        intr = elim (ℕ_discrete pid u) [
          | yes same ↦ λ h. rw (← same, update_self s.has_intr_msg pid 1) refl
          | no ne ↦ λ h. rw (update_ne s.has_intr_msg pid 1 u ne) h
        ];
        full = λ h. h;
        list = λ x h. h;
        flag = refl;
        from = refl;
      })
    ]

check-Grows : (s : Tasks) (t u : ℕ) → t ≢ u → Grows s (task_ipc_check s t).1 u
unfolding task_ipc_check received_from_intr
check-Grows s t u ne = elim (Bool-cases (s.recv_flag t == 1)) [
  | inr e ↦ rw e (same-Grows s u)
  | inl e ↦ elim (Bool-cases (may_receive s t)) [
    | inr e' ↦ rw (e, e') (same-Grows s u)
    | inl e' ↦
        rw (e, e')
          (record {
            intr = λ h. h;
            full = λ h. h;
            list = λ x h. h;
            flag = update_ne s.recv_flag t 0 u ne;
            from = refl;
          })
  ]
]

may_receive-can_take :
    (s : Tasks) (t src : ℕ)
    → s.recv_from t ≡ src
    → IsSource src
    → may_receive s t ≡ true
    → can_take s t src ≡ true
unfolding may_receive can_take received_any_message received_from_any_task
may_receive-can_take s t src from source h = ground arith

check-IsSafeAt :
    (s : Tasks) (t src : ℕ)
    → IsSafeAt s t (receives src)
    → (task_ipc_check s t).0 ≡ true
    → IsSafeAt (task_ipc_check s t).1 t (received src)
unfolding task_ipc_check can_take received_any_message received_from_any_task received_from_intr
    received_from
check-IsSafeAt s t src safe runs =
    let (flag, from, source) = safe.blocked src refl in
    elim (Bool-cases (may_receive s t)) [
      | inr e ↦ absurd (let h = rw (flag, e) at runs in cc)
      | inl e ↦
          rw (flag, e)
            (record {
              blocked = λ src' e'. cc;
              woken = λ src' e'.
                  let same : src ≡ src' = cc in
                  rw same at (may_receive-can_take s t src from source e);
            })
    ]

take_message-Grows :
    (s : Tasks) (t sender : ℕ) (rest : List ℕ) (u : ℕ)
    → t ≢ u
    → Grows s (take_message s t sender rest).1 u
unfolding take_message inform_received received_from_intr
take_message-Grows s t sender rest u ne =
    let own = update_ne s.sender_list t rest u ne in
    record {
      intr = λ h. h;
      full = λ h. rw own h;
      list = λ x h. rw own h;
      flag = refl;
      from = update_ne s.recv_from t pid_no_task u ne;
    }

woken-Grows :
    (s : Tasks) (t src : ℕ) (msg msg' : Message) (s' : Tasks) (u : ℕ)
    → t ≢ u
    → msg_recv_woken s t src msg ≡ done (msg', s')
    → Grows s s' u
unfolding msg_recv_woken received_from_intr
woken-Grows s t src msg msg' s' u ne e =
    elim (Bool-cases (src == recv_from_any || src == recv_from_int)) [
      | inr other ↦
          let (rest, _, last) =
            >>=-eq-done (remove_sender src (s.sender_list t)) _ (rw other at e) in
          let same : (take_message s t src rest).1 ≡ s' = cc in
          rw (← same) (take_message-Grows s t src rest u ne)
      | inl any ↦ elim (Bool-cases (not (s.has_intr_msg t == 0))) [
        | inl intr ↦
            let same : record s {
              recv_from = update s.recv_from t pid_no_task;
              has_intr_msg = update s.has_intr_msg t 0;
            }
                ≡ s' =
              (let h = rw (any, intr) at e in cc) in
            rw (← same) (record {
              intr = λ h. rw (update_ne s.has_intr_msg t 0 u ne) h;
              full = λ h. h;
              list = λ x h. h;
              flag = refl;
              from = update_ne s.recv_from t pid_no_task u ne;
            })
        | inr quiet ↦
            let ((sender, rest), _, last) =
              >>=-eq-done (pop_sender (s.sender_list t)) _ (rw (any, quiet) at e) in
            let same : (take_message s t sender rest).1 ≡ s' = cc in
            rw (← same) (take_message-Grows s t sender rest u ne)
      ]
    ]

Step-IsSafe : {s s' : Sys} → Step s s' → IsSafe s → IsSafe s'
Step-IsSafe (send s t dst msg status e blocked) safe =
    of_others s _ t sends safe (λ u _. msg_send-Grows s.tasks t dst msg u)
      (idle-IsSafeAt _ t sends (inr refl))
Step-IsSafe (send_refused s t dst msg status e refused) safe =
    of_others s _ t outside safe (λ u _. msg_send-Grows s.tasks t dst msg u)
      (idle-IsSafeAt _ t outside (inl refl))
Step-IsSafe (receive s t src status e blocked) safe =
    of_others s _ t (receives src) safe (msg_recv-Grows s.tasks t src)
      (msg_recv-IsSafeAt s.tasks t src status blocked)
Step-IsSafe (receive_refused s t src status e refused) safe =
    of_others s _ t outside safe (msg_recv-Grows s.tasks t src)
      (idle-IsSafeAt _ t outside (inl refl))
Step-IsSafe (interrupt s dst) safe = λ u.
    IsSafeAt-Grows s.tasks (inform_intr s.tasks dst) u (s.phase u) (inform_intr-Grows s.tasks dst u)
      (safe u)
Step-IsSafe (wake_receiver s t src e runs) safe =
    of_others s _ t (received src) safe (check-Grows s.tasks t)
      (check-IsSafeAt s.tasks t src (rw e at (safe t)) runs)
Step-IsSafe (wake_sender s t e runs) safe =
    of_others s _ t outside safe (check-Grows s.tasks t) (idle-IsSafeAt _ t outside (inl refl))
Step-IsSafe (take s t src msg msg' s' e returned) safe =
    of_others s s' t outside safe (λ u ne. woken-Grows s.tasks t src msg msg' s' u ne returned)
      (idle-IsSafeAt s' t outside (inl refl))

pub Reach-IsSafe : {s s' : Sys} → IsSafe s → Reach s s' → IsSafe s'
Reach-IsSafe safe here = safe
Reach-IsSafe safe (next r st) = Step-IsSafe st (Reach-IsSafe safe r)

remove_sender-member :
    (x : ℕ) (xs : List ℕ) → member x xs ≡ true → (ys : List ℕ) × (remove_sender x xs ≡ done ys)
unfolding member remove_sender
remove_sender-member x [] h = absurd (cc)
remove_sender-member x (y ∷ xs) h = elim (Bool-cases (y == x)) [
  | inl same ↦ (xs, rw same refl)
  | inr other ↦
      let (ys, e) = remove_sender-member x xs (rw other at h) in (y ∷ ys, rw (other, e) refl)
]

pop_sender-full :
    (xs : List ℕ)
    → is_empty xs ≡ false
    → (x : ℕ) × (ys : List ℕ) × (pop_sender xs ≡ done (x, ys)) × (member x xs ≡ true)
unfolding pop_sender member
pop_sender-full [] h = absurd (cc)
pop_sender-full (x ∷ xs) h = (x, xs, refl, rw ((==_iff x x).1 refl) refl)

-- How `msg_recv` ends: it returns with a message from an interrupt, or with that of a task in the list.
abbrev pub Delivers : Tasks → ℕ → ℕ → Message → Run (Message × Tasks) → Type 0
Delivers s t src msg r =
    (m : Message) × (s' : Tasks) × (r ≡ done (m, s'))
    × ((m.src ≡ recv_from_int)
        ⊎ ((x : ℕ) × (member x (s.sender_list t) ≡ true)
            × (m ≡ s.msg x)
            × ((src ≡ recv_from_any) ⊎ (src ≡ x))))

can_take-Delivers :
    (s : Tasks) (t src : ℕ) (msg : Message)
    → can_take s t src ≡ true
    → Delivers s t src msg (msg_recv_woken s t src msg)
unfolding can_take msg_recv_woken received_from received_any_message received_from_any_task
    take_message
can_take-Delivers s t src msg h = elim (Bool-cases (received_from_intr s t)) [
  | inl intr ↦ elim (Bool-cases (src == recv_from_any || src == recv_from_int)) [
    | inl any ↦ rw (any, intr) (_, _, refl, inl refl)
    | inr other ↦
        let listed : member src (s.sender_list t) ≡ true = ground arith in
        let (ys, e) = remove_sender-member src (s.sender_list t) listed in
        rw (other, e) (_, _, refl, inr (src, listed, refl, inr refl))
  ]
  | inr quiet ↦ elim (Bool-cases (src == recv_from_any)) [
    | inl any ↦
        let full : is_empty (s.sender_list t) ≡ false = ground arith in
        let (x, ys, e, m) = pop_sender-full (s.sender_list t) full in
        let named : src ≡ recv_from_any = ground arith in
        rw (any, quiet, e) (_, _, refl, inr (x, m, refl, inl named))
    | inr other ↦
        let off : (src == recv_from_int) ≡ false = ground arith in
        let listed : member src (s.sender_list t) ≡ true = ground arith in
        let (ys, e) = remove_sender-member src (s.sender_list t) listed in
        rw (other, off, e) (_, _, refl, inr (src, listed, refl, inr refl))
  ]
]

-- From a state in which no task is in a call, whatever the tasks send and receive and whenever
-- interrupts come: a task that `task_ipc_check` made ready in `msg_recv` finds its message. The call
-- does not go through NULL, and returns with a message from an interrupt, or with that of a task in the
-- list of senders, which is the source if the call names one.
pub Reach-Delivers :
    (s₀ s : Sys) (t src : ℕ) (msg : Message)
    → ((u : ℕ) → s₀.phase u ≡ outside)
    → Reach s₀ s
    → s.phase t ≡ received src
    → Delivers s.tasks t src msg (msg_recv_woken s.tasks t src msg)
Reach-Delivers s₀ s t src msg start reach woken = can_take-Delivers s.tasks t src msg (
    (Reach-IsSafe (λ u. rw (start u) (idle-IsSafeAt s₀.tasks u outside (inl refl))) reach t).woken
      src woken)
