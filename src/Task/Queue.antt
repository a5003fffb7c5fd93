-- ===== src/Task/Queue.antt =====
-- The operations of `SubTaskMgr`, one call after another.
use sunet.Base.{
  ap, sym, ◌∙◌, ◌≡◌, refl, List, [], ◌∷◌, ◌++◌, Option, none, some, Bytes, bytes_order,
  append_assoc, append-nil, find-put, same, if◌then◌else◌,
}
use sunet.Task.{
  TaskMgr, set_call_back_proc, get_call_back_proc, add_task, get_task, pop_task, clear_loop,
  clear_task_queue,
}

clear_loop_lem {ℓ} :
    {Task : Type ℓ} (queue deleted : List Task) → clear_loop queue deleted ≡ (deleted ++ queue, [])
unfolding clear_loop
clear_loop_lem [] deleted = rw append-nil
clear_loop_lem (task ∷ queue) deleted = rw (clear_loop_lem queue, append_assoc)

module _ {ℓ} {Task : Type ℓ} {Proc : Type ℓ} where
  unfoldable pub add_tasks : List Task → TaskMgr Task Proc → TaskMgr Task Proc
  add_tasks [] mgr = mgr
  add_tasks (task ∷ tasks) mgr = add_tasks tasks (add_task (some task) mgr)

  -- As many calls of `get_task` as tasks are asked for, each of which returns.
  unfoldable pub get_tasks : List Task → TaskMgr Task Proc → Option (List Task × TaskMgr Task Proc)
  get_tasks [] mgr = some ([], mgr)
  get_tasks (_ ∷ tasks) mgr = elim (get_task mgr) [
    | none ↦ none
    | some (task, mgr') ↦ elim (get_tasks tasks mgr') [
      | none ↦ none
      | some (got, mgr'') ↦ some (task ∷ got, mgr'')
    ]
  ]

  add_tasks_queue :
      (tasks : List Task) (mgr : TaskMgr Task Proc)
      → add_tasks tasks mgr ≡ record mgr { task_queue = mgr.task_queue ++ tasks }
  unfolding add_tasks add_task
  add_tasks_queue [] mgr = rw append-nil
  add_tasks_queue (task ∷ tasks) mgr = rw (add_tasks_queue tasks, append_assoc)

  get_tasks_queue :
      (tasks rest : List Task) (mgr : TaskMgr Task Proc)
      → get_tasks tasks (record mgr { task_queue = tasks ++ rest })
        ≡ some (tasks, record mgr { task_queue = rest })
  unfolding get_tasks get_task pop_task
  get_tasks_queue [] rest mgr = refl
  get_tasks_queue (task ∷ tasks) rest mgr = rw (get_tasks_queue tasks rest mgr)

  -- Tasks come out in the order in which they were added, behind those that waited before.
  pub get_tasks-add_tasks :
      (tasks : List Task) (mgr : TaskMgr Task Proc)
      → get_tasks (mgr.task_queue ++ tasks) (add_tasks tasks mgr)
        ≡ some (mgr.task_queue ++ tasks, record mgr { task_queue = [] })
  get_tasks-add_tasks tasks mgr =
      let all = mgr.task_queue ++ tasks in
      ap (get_tasks all) (
        add_tasks_queue tasks mgr
        ∙ ap (λ (q : List Task). record mgr { task_queue = q }) (sym (append-nil all)))
      ∙ get_tasks_queue all [] mgr

  -- Clearing deletes every waiting task once, in order, and a later call of `get_task` waits.
  pub clear_task_queue_lem :
      (mgr : TaskMgr Task Proc)
      → ((clear_task_queue mgr).0 ≡ mgr.task_queue) × (get_task (clear_task_queue mgr).1 ≡ none)
  unfolding clear_task_queue get_task pop_task
  clear_task_queue_lem mgr = rw (clear_loop_lem mgr.task_queue []) (refl, refl)

  -- The last registration of a name is the one that is found, and a null task changes nothing.
  pub get-set_call_back_proc :
      (name other : Bytes) (proc : Proc) (mgr : TaskMgr Task Proc)
      → get_call_back_proc other (set_call_back_proc name proc (add_task none mgr))
        ≡ (if same other name then some proc else get_call_back_proc other mgr)
  unfolding get_call_back_proc set_call_back_proc add_task
  get-set_call_back_proc name other proc mgr = find-put other name proc mgr.call_back_procs
