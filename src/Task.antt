-- ===== src/Task.antt =====
-- task/task_mgr.h and task/task_mgr.cpp: `SubTaskMgr`, the queue between the event loop and the
-- workers. A task is a value of any type; a null pointer is `none`.
pub mod Queue
pub mod Interleaving
pub mod Fifo
pub mod Wakeup
mod Tests
use sunet.Base.{
  ℕ, Bool, true, false, List, [], ◌∷◌, ◌++◌, Option, none, some, Bytes, find, put, bytes_order,
}

module _ {ℓ} (Task : Type ℓ) (Proc : Type ℓ) where
  -- The members that hold data; the mutexes and the condition are in `Interleaving`.
  pub record TaskMgr : Type ℓ where
    pub task_queue : List Task
    pub call_back_procs : List (Bytes × Proc)

-- `while (! _task_queue.empty())`: the tasks that are deleted, in order, and the queue left.
unfoldable pub clear_loop {ℓ} : {Task : Type ℓ} → List Task → List Task → List Task × List Task
clear_loop [] deleted = (deleted, [])
clear_loop (task ∷ queue) deleted = clear_loop queue (deleted ++ task ∷ [])

module _ {ℓ} {Task : Type ℓ} {Proc : Type ℓ} where
  unfoldable pub new_task_mgr : TaskMgr Task Proc
  new_task_mgr = record { task_queue = []; call_back_procs = [] }

  unfoldable pub set_call_back_proc : Bytes → Proc → TaskMgr Task Proc → TaskMgr Task Proc
  set_call_back_proc name proc mgr = record mgr {
    call_back_procs = put name proc mgr.call_back_procs;
  }

  -- `none` is the null pointer of a name that is not in the map.
  unfoldable pub get_call_back_proc : Bytes → TaskMgr Task Proc → Option Proc
  get_call_back_proc name mgr = find name mgr.call_back_procs

  unfoldable pub add_task : Option Task → TaskMgr Task Proc → TaskMgr Task Proc
  add_task none mgr = mgr
  add_task (some task) mgr = record mgr { task_queue = mgr.task_queue ++ task ∷ [] }

  unfoldable pub pop_task : List Task → TaskMgr Task Proc → Option (Task × TaskMgr Task Proc)
  pop_task [] mgr = none
  pop_task (task ∷ queue) mgr = some (task, record mgr { task_queue = queue })

  -- `none` is a caller that waits: with an empty queue the call does not return.
  unfoldable pub get_task : TaskMgr Task Proc → Option (Task × TaskMgr Task Proc)
  get_task mgr = pop_task mgr.task_queue mgr

  unfoldable pub clear_task_queue : TaskMgr Task Proc → List Task × TaskMgr Task Proc
  clear_task_queue mgr =
      let (deleted, left) = clear_loop mgr.task_queue [] in
      (deleted, record mgr { task_queue = left })
