-- ===== src/Ipc/Tests.antt =====
-- src/arch/x86_64/syscall/ipc.c: tasks 1 and 2, and a task that waits for nobody.
use clay_figure_kernel.Base.{◌≡◌, refl, true, false, [], ◌∷◌}
use clay_figure_kernel.Base.Update.{update}
use clay_figure_kernel.Klist.Walk.{member}
use clay_figure_kernel.Klist.Samples.{ne}
use clay_figure_kernel.Schedule.{ready}
use clay_figure_kernel.Ipc.{
  pid_no_task, recv_from_any, send_to_kernel, Message, Tasks, SyscallStatus, syscall_success,
  src_not_exist, returns, task_exist, msg_recv, msg_recv_woken, task_ipc_check, inform_intr,
  may_receive, received_any_message, received_from_intr, sys_send_recv,
}
use clay_figure_kernel.Ipc.Steps.{
  Sys, outside, received, receives, Reach, here, next, interrupt, receive, wake_receiver,
}
use clay_figure_kernel.Ipc.Delivery.{Delivers, Reach-Delivers}
use clay_figure_kernel.Ipc.Rendezvous.{Rendezvous, send-recv-Rendezvous}

abbrev letter : Message
letter = record { src = 0; type = 7; m = 1 ∷ 2 ∷ [] }

abbrev two_tasks : Tasks
two_tasks = record {
  pid = update (update (λ _. pid_no_task) 1 1) 2 2;
  status = λ _. ready;
  msg = λ _. letter;
  send_to = λ _. pid_no_task;
  recv_from = λ _. pid_no_task;
  send_flag = λ _. 0;
  recv_flag = λ _. 0;
  has_intr_msg = λ _. 0;
  sender_list = λ _. [];
  exited_child_list = λ _. [];
  service_pid_table = [];
}

one_exists : task_exist two_tasks 1 ≡ true
unfolding task_exist update
one_exists = refl

two_exists : task_exist two_tasks 2 ≡ true
unfolding task_exist update
two_exists = refl

nobody : member 1 [] ≡ false
unfolding member
nobody = refl

send-recv_example : Rendezvous two_tasks 1 2 letter letter
send-recv_example =
    send-recv-Rendezvous two_tasks 1 2 letter letter one_exists two_exists (ne 1 2 refl) nobody refl
      refl

abbrev start : Sys
start = record { tasks = two_tasks; phase = λ _. outside }

-- Task 2 asks for any message, an interrupt comes in, and it is made ready.
abbrev asked : Tasks
asked = (msg_recv two_tasks 2 recv_from_any).1

abbrev informed : Tasks
informed = inform_intr asked 2

abbrev woken : Sys
woken = record {
  tasks = (task_ipc_check informed 2).1;
  phase = update (update (λ _. outside) 2 (receives recv_from_any)) 2 (received recv_from_any);
}

reach : Reach start woken
unfolding msg_recv task_ipc_check inform_intr task_exist update may_receive received_any_message
    received_from_intr
reach =
    next
      (next (next here (receive start 2 recv_from_any _ refl refl)) (
        interrupt
          (record { tasks = asked; phase = update (λ _. outside) 2 (receives recv_from_any) }) 2))
      (wake_receiver
        (record { tasks = informed; phase = update (λ _. outside) 2 (receives recv_from_any) }) 2
        recv_from_any refl refl)

woken_phase : woken.phase 2 ≡ received recv_from_any
unfolding update
woken_phase = refl

recv_example :
    Delivers woken.tasks 2 recv_from_any letter (msg_recv_woken woken.tasks 2 recv_from_any letter)
recv_example = Reach-Delivers start woken 2 recv_from_any letter (λ u. refl) reach woken_phase

abbrev serve : Tasks → Message → SyscallStatus × Message × Tasks
serve s msg = (syscall_success, msg, s)

-- Both sending and receiving, to the kernel: its service succeeds, and the call returns
-- SYSCALL_SRC_NOT_EXIST.
both_kernel : (sys_send_recv serve two_tasks 1 3 send_to_kernel letter).0 ≡ returns src_not_exist
unfolding sys_send_recv msg_recv task_exist update
both_kernel = refl
