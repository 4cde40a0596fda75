-- ===== src/Ipc.antt =====
-- src/arch/x86_64/syscall/ipc.c and the dispatch of src/arch/x86_64/syscall/syscall.c: messages between
-- tasks. A task is named by its pid, a number of 32 bits, and each field of `task_struct_t` is a function
-- of it. A `sender_list` is the sequence of the pids whose `send_tag` it holds, as the operations of
-- Klist leave it: taking from an empty list, or a task that is not in it, goes through NULL. The
-- section under `send_lock` is one step. A call that blocks is cut there: what follows `task_block` is a
-- function of its own, run once the task runs again.
pub mod Steps
pub mod Rendezvous
pub mod Safe
pub mod Delivery
mod Tests
use clay_figure_kernel.Base.{
  ℕ, zero, suc, ◌+◌, ◌-◌, ◌^◌, Bool, true, false, not, ◌&&◌, ◌||◌, List, [], ◌∷◌, ◌++◌, ltb, leb,
  ◌==◌, if◌then◌else◌, Run, done, panic, ◌>>=◌, bit_and, Option, some, none, get_or,
}
use clay_figure_kernel.Base.Update.{update}
use clay_figure_kernel.Atomic.{Atomic, atomic_read, atomic_inc, atomic_dec}
use clay_figure_kernel.Klist.Walk.{member}
use clay_figure_kernel.Schedule.{TaskStatus, ready, sending, receiving, waiting}

abbrev pub max_pid : ℕ
max_pid = 4095

abbrev pub pid_no_task : ℕ
pid_no_task = 4096

-- -1, -2 and -3 as a `pid_t`.
abbrev pub send_to_kernel : ℕ
send_to_kernel = 0xffffffff

abbrev pub recv_from_int : ℕ
recv_from_int = 0xfffffffe

abbrev pub recv_from_any : ℕ
recv_from_any = 0xfffffffd

abbrev pub service_id_base : ℕ
service_id_base = 0x80000000

abbrev pub services : ℕ
services = 5

pub data SyscallStatus : Type 0 where
  syscall_success : SyscallStatus
  syscall_error : SyscallStatus
  no_syscall : SyscallStatus
  dest_not_exist : SyscallStatus
  src_not_exist : SyscallStatus

pub record Message : Type 0 where
  pub src : ℕ
  pub type : ℕ
  pub m : List ℕ

-- The fields of the `task_struct_t` that the messages use, and the table of the services' pids.
pub record Tasks : Type 0 where
  pub pid : ℕ → ℕ
  pub status : ℕ → TaskStatus
  pub msg : ℕ → Message
  pub send_to : ℕ → ℕ
  pub recv_from : ℕ → ℕ
  pub send_flag : ℕ → Atomic
  pub recv_flag : ℕ → Atomic
  pub has_intr_msg : ℕ → ℕ
  pub sender_list : ℕ → List ℕ
  pub exited_child_list : ℕ → List ℕ
  pub service_pid_table : List ℕ

-- How a system call goes on: it returns, or its task is blocked with a status.
pub data Call : Type 0 where
  returns : SyscallStatus → Call
  blocks : TaskStatus → Call

pub task_exist : Tasks → ℕ → Bool
task_exist s pid = if leb pid max_pid then not (s.pid pid == pid_no_task) else false

abbrev pub is_service_id : ℕ → Bool
is_service_id sid = leb service_id_base sid && ltb sid (service_id_base + services)

pub service_id_to_pid : Tasks → ℕ → ℕ
service_id_to_pid s sid =
    if is_service_id sid
    then get_or s.service_pid_table (sid - service_id_base) pid_no_task
    else pid_no_task

pub inform_intr : Tasks → ℕ → Tasks
inform_intr s dst =
    let dst = if is_service_id dst then service_id_to_pid s dst else dst in
    if task_exist s dst then record s { has_intr_msg = update s.has_intr_msg dst 1 } else s

-- What `task_block` does to the task itself.
abbrev pub block : Tasks → ℕ → TaskStatus → Call × Tasks
block s task status = (blocks status, record s { status = update s.status task status })

pub wait_receviced : Tasks → ℕ → Call × Tasks
wait_receviced s sender =
    let receiver = s.send_to sender in
    block
      (record s {
        sender_list = update s.sender_list receiver (s.sender_list receiver ++ sender ∷ []);
        send_flag = update s.send_flag sender (atomic_inc (s.send_flag sender));
      })
      sender sending

-- The message is the caller's, with `src` set, where the destination exists.
pub msg_send : Tasks → ℕ → ℕ → Message → Call × Message × Tasks
msg_send s sender dst msg =
    let s1 = record s { send_to = update s.send_to sender pid_no_task } in
    if not (task_exist s1 dst)
    then (returns dest_not_exist, msg, s1)
    else (let msg' = record msg { src = s1.pid sender } in
        let (call, s2) =
          wait_receviced
            (record s1 { send_to = update s1.send_to sender dst; msg = update s1.msg sender msg' })
            sender in
        (call, msg', s2))

pub inform_received : Tasks → ℕ → Tasks
inform_received s sender = record s {
  send_to = update s.send_to sender pid_no_task;
  send_flag = update s.send_flag sender (atomic_dec (s.send_flag sender));
}

abbrev pub is_empty : List ℕ → Bool
is_empty [] = true
is_empty (x ∷ xs) = false

pub received_from_any_task : Tasks → ℕ → Bool
received_from_any_task s pid = not (is_empty (s.sender_list pid))

pub received_from_intr : Tasks → ℕ → Bool
received_from_intr s pid = not (s.has_intr_msg pid == 0)

pub received_any_message : Tasks → ℕ → Bool
received_any_message s pid = received_from_intr s pid || received_from_any_task s pid

pub received_from : Tasks → ℕ → ℕ → Bool
received_from s pid src = member src (s.sender_list pid)

-- `msg_recv` up to `task_block`.
pub msg_recv : Tasks → ℕ → ℕ → Call × Tasks
msg_recv s receiver src =
    let s1 = record s { recv_from = update s.recv_from receiver pid_no_task } in
    if not (src == recv_from_any) && not (src == recv_from_int) && not (task_exist s1 src)
    then (returns src_not_exist, s1)
    else block
        (record s1 {
          recv_from = update s1.recv_from receiver src;
          recv_flag = update s1.recv_flag receiver 1;
        })
        receiver receiving

-- `list_pop` and `list_remove` on the sequence.
pub pop_sender : List ℕ → Run (ℕ × List ℕ)
pop_sender [] = panic
pop_sender (x ∷ xs) = done (x, xs)

pub remove_sender : ℕ → List ℕ → Run (List ℕ)
remove_sender node [] = panic
remove_sender node (x ∷ xs) =
    let rest = remove_sender node xs in
    if x == node then done xs else (rest >>= λ ys. done (x ∷ ys))

-- The end of `msg_recv`, with the sender that was taken out of the list.
pub take_message : Tasks → ℕ → ℕ → List ℕ → Message × Tasks
take_message s receiver sender rest = (
  s.msg sender,
  inform_received
      (record s {
        sender_list = update s.sender_list receiver rest;
        recv_from = update s.recv_from receiver pid_no_task;
      })
      sender,
)

-- `msg_recv` behind `task_block`: what is stored through `msg`.
pub msg_recv_woken : Tasks → ℕ → ℕ → Message → Run (Message × Tasks)
msg_recv_woken s receiver src msg =
    if src == recv_from_any || src == recv_from_int
    then (if received_from_intr s receiver
        then done (
          record msg { src = recv_from_int; type = recv_from_int },
          record s {
            recv_from = update s.recv_from receiver pid_no_task;
            has_intr_msg = update s.has_intr_msg receiver 0;
          },
        )
        else pop_sender (s.sender_list receiver)
          >>= (λ (sender, rest). done (take_message s receiver sender rest)))
    else remove_sender src (s.sender_list receiver)
      >>= (λ rest. done (take_message s receiver src rest))

-- Whether a receiver with `recv_flag` 1 has what it waits for.
pub may_receive : Tasks → ℕ → Bool
may_receive s task =
    let recv_from = s.recv_from task in
    if not (received_any_message s task)
    then false
    else if recv_from == recv_from_int && not (received_from_intr s task)
    then false
    else if leb recv_from max_pid
    then received_from s task recv_from
    else true

pub task_ipc_check : Tasks → ℕ → Bool × Tasks
task_ipc_check s task =
    if atomic_read (s.recv_flag task) == 1
    then (if may_receive s task
        then (true, record s { recv_flag = update s.recv_flag task 0 })
        else (false, s))
    else (let flag = atomic_read (s.send_flag task) in
        ((if leb 1 flag && ltb flag (2 ^ 63) then false else true), s))

pub task_has_exited_child : Tasks → ℕ → Bool
task_has_exited_child s pid = not (is_empty (s.exited_child_list pid))

abbrev pub is_messaging : TaskStatus → Bool
is_messaging sending = true
is_messaging receiving = true
is_messaging _ = false

abbrev pub is_waiting : TaskStatus → Bool
is_waiting waiting = true
is_waiting _ = false

-- The body of the loop of `check_waiting_list`: whether the task may run, and the tasks after it.
pub check_waiting : Tasks → ℕ → Bool × Tasks
check_waiting s task =
    let (ipc_check, s') = task_ipc_check s task in
    let has_exited_child = task_has_exited_child s' task in
    if is_messaging (s.status task) && not ipc_check
    then (false, s')
    else if is_waiting (s'.status task) && not has_exited_child
    then (false, s')
    else (true, record s' { status = update s'.status task ready })

-- `sys_send_recv` up to the first call that blocks: the function's bits choose between sending and
-- receiving, and a blocked call that sends has still to receive if the second part is `true`.
-- `kernel_services` is a parameter.
pub sys_send_recv :
    (Tasks → Message → SyscallStatus × Message × Tasks)
    → Tasks
    → ℕ
    → ℕ
    → ℕ
    → Message
    → Call × Bool × Message × Tasks
sys_send_recv kernel_services s task function src_dst msg =
    let src_dst = if is_service_id src_dst then service_id_to_pid s src_dst else src_dst in
    let func_send = not (bit_and function 1 == 0) in
    let func_recv = not (bit_and function 2 == 0) in
    if not (bit_and function 0x7ffffffc == 0)
    then (returns no_syscall, false, msg, s)
    else if func_send
    then (if src_dst == send_to_kernel
        then (let (ret, msg', s') = kernel_services s msg in
            elim ret [
              | syscall_success ↦
                  if func_recv
                  then (let (call, s2) = msg_recv s' task src_dst in (call, false, msg', s2))
                  else (returns syscall_success, false, msg', s')
              | failure ↦ (returns failure, false, msg', s')
            ])
        else (let (call, msg', s') = msg_send s task src_dst msg in
            elim call [
              | returns ret ↦ (returns ret, false, msg', s')
              | blocks status ↦ (blocks status, func_recv, msg', s')
            ]))
    else if func_recv
    then (let (call, s') = msg_recv s task src_dst in (call, false, msg, s'))
    else (returns syscall_success, false, msg, s)
