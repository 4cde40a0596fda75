-- ===== src/Ipc/Rendezvous.antt =====
-- src/arch/x86_64/syscall/ipc.c: one message from its sender to its receiver.
use clay_figure_kernel.Base.{
  ℕ, ◌^◌, ◌≤◌, ◌≡◌, ◌≢◌, refl, sym, ◌∙◌, ap, arith, Bool, true, false, not, ◌&&◌, List, [], ◌∷◌,
  ◌++◌, leb, ltb, ◌==◌, if◌then◌else◌, done, ==_iff, Bool-cases, inl, inr, add64, sub64, le→leb,
}
use clay_figure_kernel.Base.Update.{update, update_self, update_ne}
use clay_figure_kernel.Atomic.{atomic_inc, atomic_dec}
use clay_figure_kernel.Klist.Walk.{member}
use clay_figure_kernel.Schedule.{sending, receiving}
use clay_figure_kernel.Ipc.{
  recv_from_any, recv_from_int, max_pid, pid_no_task, Message, Tasks, Call, blocks, task_exist,
  wait_receviced, msg_send, msg_recv, is_empty, received_from_any_task, received_from_intr,
  received_any_message, received_from, remove_sender, take_message, inform_received, msg_recv_woken,
  may_receive, task_ipc_check,
}

-- The states in turn: after the send, after the call of the receiver, and after its check.
abbrev pub sent : Tasks → ℕ → ℕ → Message → Tasks
sent s sender receiver msg = (msg_send s sender receiver msg).2

abbrev pub asked : Tasks → ℕ → ℕ → Message → Tasks
asked s sender receiver msg = (msg_recv (sent s sender receiver msg) receiver sender).1

abbrev pub checked : Tasks → ℕ → ℕ → Message → Tasks
checked s sender receiver msg = (task_ipc_check (asked s sender receiver msg) receiver).1

pub record Rendezvous (s : Tasks) (sender receiver : ℕ) (msg buffer : Message) : Type 0 where
  pub sender_blocks : (msg_send s sender receiver msg).0 ≡ blocks sending
  pub sender_waits : (task_ipc_check (sent s sender receiver msg) sender).0 ≡ false
  pub receiver_blocks : (msg_recv (sent s sender receiver msg) receiver sender).0 ≡ blocks receiving
  pub receiver_runs : (task_ipc_check (asked s sender receiver msg) receiver).0 ≡ true
  pub last : Tasks
  pub arrives :
      msg_recv_woken (checked s sender receiver msg) receiver sender buffer
      ≡ done (record msg { src = s.pid sender }, last)
  pub sender_runs : (task_ipc_check last sender).0 ≡ true
  pub list : last.sender_list receiver ≡ s.sender_list receiver
  pub send_to : last.send_to sender ≡ pid_no_task
  pub recv_from : last.recv_from receiver ≡ pid_no_task

remove_sender-last :
    (x : ℕ) (xs : List ℕ) → member x xs ≡ false → remove_sender x (xs ++ x ∷ []) ≡ done xs
unfolding member remove_sender
remove_sender-last x [] h = rw ((==_iff x x).1 refl) refl
remove_sender-last x (y ∷ xs) h =
    let other : (y == x) ≡ false = ground arith in
    rw (other, remove_sender-last x xs (rw other at h)) refl

member-last : (x : ℕ) (xs : List ℕ) → member x (xs ++ x ∷ []) ≡ true
unfolding member
member-last x [] = rw ((==_iff x x).1 refl) refl
member-last x (y ∷ xs) = ground (arith, member-last x xs)

full-last : (x : ℕ) (xs : List ℕ) → is_empty (xs ++ x ∷ []) ≡ false
full-last x [] = refl
full-last x (y ∷ xs) = refl

-- The sender's message, waiting at the end of the receiver's list.
abbrev queued : Tasks → ℕ → ℕ → Message → Tasks
queued s sender receiver msg = record s {
  send_to = update (update s.send_to sender pid_no_task) sender receiver;
  msg = update s.msg sender (record msg { src = s.pid sender });
  sender_list = update s.sender_list receiver (s.sender_list receiver ++ sender ∷ []);
  send_flag = update s.send_flag sender (atomic_inc (s.send_flag sender));
  status = update s.status sender sending;
}

send_lem :
    (s : Tasks) (sender receiver : ℕ) (msg : Message)
    → task_exist s receiver ≡ true
    → msg_send s sender receiver msg
      ≡ (blocks sending, record msg { src = s.pid sender }, queued s sender receiver msg)
unfolding msg_send wait_receviced task_exist
send_lem s sender receiver msg exist =
    rw (exist, update_self (update s.send_to sender pid_no_task) sender receiver) refl

-- The receiver blocked on the sender, in any state.
abbrev asking : Tasks → ℕ → ℕ → Tasks
asking s receiver sender = record s {
  recv_from = update (update s.recv_from receiver pid_no_task) receiver sender;
  recv_flag = update s.recv_flag receiver 1;
  status = update s.status receiver receiving;
}

recv_lem :
    (s : Tasks) (sender receiver : ℕ)
    → task_exist s sender ≡ true
    → msg_recv s receiver sender ≡ (blocks receiving, asking s receiver sender)
unfolding msg_recv task_exist
recv_lem s sender receiver exist =
    elim (Bool-cases (not (sender == recv_from_any) && not (sender == recv_from_int))) [
      | inl e ↦ rw (exist, e) refl
      | inr e ↦ rw (exist, e) refl
    ]

-- Where the sender waits in the list.
check_lem :
    (s : Tasks) (sender receiver : ℕ) (xs : List ℕ)
    → s.sender_list receiver ≡ xs ++ sender ∷ []
    → sender ≤ max_pid
    → task_ipc_check (asking s receiver sender) receiver ≡ (
      true,
      record (asking s receiver sender) {
        recv_flag = update (update s.recv_flag receiver 1) receiver 0;
      },
    )
unfolding task_ipc_check may_receive received_any_message received_from_any_task received_from
check_lem s sender receiver xs list small =
    let from = update_self (update s.recv_from receiver pid_no_task) receiver sender in
    let not_int : (sender == recv_from_int) ≡ false = ground arith in
    rw
      (
        update_self s.recv_flag receiver 1,
        from,
        list,
        full-last sender xs,
        le→leb sender max_pid small,
        not_int,
        member-last sender xs,
      )
      (elim (Bool-cases (received_from_intr (asking s receiver sender) receiver)) [
        | inl e ↦ rw e refl
        | inr e ↦ rw e refl
      ])

woken_lem :
    (s : Tasks) (sender receiver : ℕ) (xs : List ℕ) (buffer : Message)
    → s.sender_list receiver ≡ xs ++ sender ∷ []
    → member sender xs ≡ false
    → sender ≤ max_pid
    → msg_recv_woken s receiver sender buffer ≡ done (take_message s receiver sender xs)
unfolding msg_recv_woken
woken_lem s sender receiver xs buffer list new small =
    let not_any : (sender == recv_from_any) ≡ false = ground arith in
    let not_int : (sender == recv_from_int) ≡ false = ground arith in
    rw (not_any, not_int, list, remove_sender-last sender xs new) refl

small_of : (s : Tasks) (pid : ℕ) → task_exist s pid ≡ true → pid ≤ max_pid
unfolding task_exist
small_of s pid h = ground arith

-- A sent message may not be passed on before it was received: the check of its sender.
sender_check :
    (s : Tasks) (sender : ℕ) (flag : ℕ)
    → s.recv_flag sender ≡ 0
    → s.send_flag sender ≡ flag
    → task_ipc_check s sender ≡ ((if leb 1 flag && ltb flag (2 ^ 63) then false else true), s)
unfolding task_ipc_check
sender_check s sender flag recv send = rw (recv, send) refl

exist_queued :
    (s : Tasks) (sender receiver : ℕ) (msg : Message)
    → task_exist s sender ≡ true
    → task_exist (queued s sender receiver msg) sender ≡ true
unfolding task_exist
exist_queued s sender receiver msg h = h

-- A message between two tasks that exist, where the sender neither waits for the receiver yet nor for
-- a message. The sender is blocked and may not run on; the receiver, asking for a message of the sender,
-- is made ready at once and gets the message, with the sender's pid as its source; then the sender may
-- run again, and the receiver's list is as before.
pub send-recv-Rendezvous :
    (s : Tasks) (sender receiver : ℕ) (msg buffer : Message)
    → task_exist s sender ≡ true
    → task_exist s receiver ≡ true
    → sender ≢ receiver
    → member sender (s.sender_list receiver) ≡ false
    → s.send_flag sender ≡ 0
    → s.recv_flag sender ≡ 0
    → Rendezvous s sender receiver msg buffer
unfolding take_message inform_received atomic_inc atomic_dec add64 sub64
send-recv-Rendezvous s sender receiver msg buffer exists exists' ne new quiet idle =
    let q = queued s sender receiver msg in
    let xs = s.sender_list receiver in
    let send = send_lem s sender receiver msg exists' in
    let exists_q : task_exist q sender ≡ true = exist_queued s sender receiver msg exists in
    let recv = recv_lem q sender receiver exists_q in
    let list = update_self s.sender_list receiver (xs ++ sender ∷ []) in
    let small = small_of s sender exists in
    let check = check_lem q sender receiver xs list small in
    let flag =
      update_self s.send_flag sender (atomic_inc (s.send_flag sender)) ∙ ap atomic_inc quiet in
    let c : Tasks = record (asking q receiver sender) {
      recv_flag = update (update q.recv_flag receiver 1) receiver 0;
    } in
    let arrives = woken_lem c sender receiver xs buffer list new small in
    let last : Tasks = (take_message c receiver sender xs).1 in
    let message = update_self s.msg sender (record msg { src = s.pid sender }) in
    let recv_flag =
      update_ne (update s.recv_flag receiver 1) receiver 0 sender (λ e. ne (sym e))
      ∙ update_ne s.recv_flag receiver 1 sender (λ e. ne (sym e))
      ∙ idle in
    let flag_last =
      update_self q.send_flag sender (atomic_dec (q.send_flag sender)) ∙ ap atomic_dec flag in
    let e_sent : sent s sender receiver msg ≡ q = ap (λ (r : Call × Message × Tasks). r.2) send in
    let e_asked : asked s sender receiver msg ≡ asking q receiver sender =
      ap (λ (t : Tasks). (msg_recv t receiver sender).1) e_sent
      ∙ ap (λ (r : Call × Tasks). r.1) recv in
    let e_checked : checked s sender receiver msg ≡ c =
      ap (λ (t : Tasks). (task_ipc_check t receiver).1) e_asked
      ∙ ap (λ (r : Bool × Tasks). r.1) check in
    record {
      sender_blocks = ap (λ (r : Call × Message × Tasks). r.0) send;
      sender_waits =
          ap (λ (t : Tasks). (task_ipc_check t sender).0) e_sent
          ∙ ap (λ (r : Bool × Tasks). r.0) (sender_check q sender 1 idle flag);
      receiver_blocks =
          ap (λ (t : Tasks). (msg_recv t receiver sender).0) e_sent
          ∙ ap (λ (r : Call × Tasks). r.0) recv;
      receiver_runs =
          ap (λ (t : Tasks). (task_ipc_check t receiver).0) e_asked
          ∙ ap (λ (r : Bool × Tasks). r.0) check;
      last = last;
      arrives =
          ap (λ (t : Tasks). msg_recv_woken t receiver sender buffer) e_checked
          ∙ (arrives ∙ ap (λ (m : Message). done (m, last)) message);
      sender_runs = ap (λ (r : Bool × Tasks). r.0) (sender_check last sender 0 recv_flag flag_last);
      list = update_self q.sender_list receiver xs;
      send_to = update_self q.send_to sender pid_no_task;
      recv_from = update_self (asking q receiver sender).recv_from receiver pid_no_task;
    }
