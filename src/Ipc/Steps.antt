-- ===== src/Ipc/Steps.antt =====
-- src/arch/x86_64/syscall/ipc.c: the tasks' calls in any order, with interrupts between them.
use clay_figure_kernel.Base.{ℕ, ◌≡◌, true, done}
use clay_figure_kernel.Base.Update.{update}
use clay_figure_kernel.Schedule.{TaskStatus}
use clay_figure_kernel.Ipc.{
  SyscallStatus, Message, Tasks, returns, blocks, inform_intr, msg_send, msg_recv, msg_recv_woken,
  task_ipc_check,
}

-- Where a task stands: in no call of these, blocked in `msg_send`, blocked in `msg_recv` from a
-- source, or made ready in it.
pub data Phase : Type 0 where
  outside : Phase
  sends : Phase
  receives : ℕ → Phase
  received : ℕ → Phase

pub record Sys : Type 0 where
  pub tasks : Tasks
  pub phase : ℕ → Phase

-- A check that fails changes nothing, and is no step.
pub data Step : Sys → Sys → Type 0 where
  send :
      (s : Sys) (t dst : ℕ) (msg : Message) (status : TaskStatus)
      → s.phase t ≡ outside
      → (msg_send s.tasks t dst msg).0 ≡ blocks status
      → Step s (record { tasks = (msg_send s.tasks t dst msg).2; phase = update s.phase t sends })
  send_refused :
      (s : Sys) (t dst : ℕ) (msg : Message) (status : SyscallStatus)
      → s.phase t ≡ outside
      → (msg_send s.tasks t dst msg).0 ≡ returns status
      → Step s (record { tasks = (msg_send s.tasks t dst msg).2; phase = update s.phase t outside })
  receive :
      (s : Sys) (t src : ℕ) (status : TaskStatus)
      → s.phase t ≡ outside
      → (msg_recv s.tasks t src).0 ≡ blocks status
      → Step s
          (record { tasks = (msg_recv s.tasks t src).1; phase = update s.phase t (receives src) })
  receive_refused :
      (s : Sys) (t src : ℕ) (status : SyscallStatus)
      → s.phase t ≡ outside
      → (msg_recv s.tasks t src).0 ≡ returns status
      → Step s (record { tasks = (msg_recv s.tasks t src).1; phase = update s.phase t outside })
  interrupt : (s : Sys) (dst : ℕ) → Step s (record s { tasks = inform_intr s.tasks dst })
  wake_receiver :
      (s : Sys) (t src : ℕ)
      → s.phase t ≡ receives src
      → (task_ipc_check s.tasks t).0 ≡ true
      → Step s
          (record { tasks = (task_ipc_check s.tasks t).1; phase = update s.phase t (received src) })
  wake_sender :
      (s : Sys) (t : ℕ)
      → s.phase t ≡ sends
      → (task_ipc_check s.tasks t).0 ≡ true
      → Step s (record { tasks = (task_ipc_check s.tasks t).1; phase = update s.phase t outside })
  take :
      (s : Sys) (t src : ℕ) (msg msg' : Message) (tasks' : Tasks)
      → s.phase t ≡ received src
      → msg_recv_woken s.tasks t src msg ≡ done (msg', tasks')
      → Step s (record { tasks = tasks'; phase = update s.phase t outside })

pub data Reach (s : Sys) : Sys → Type 0 where
  here : Reach s s
  next : {t u : Sys} → Reach s t → Step t u → Reach s u
