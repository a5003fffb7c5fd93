-- ===== src/Io/ReqTask.antt =====
-- task/task.h, task/req_task.h and task/req_task.cpp, with the end of `_on_http_read` of
-- io/server.cpp and one round of a worker: a request from its socket to the reply.
pub mod Serve
mod Tests
use sunet.Base.{ℕ, Bool, true, false, List, [], ◌∷◌, Option, none, some, Bytes, codes}
use sunet.Base.Int.{ℤ, pos, negsuc}
use sunet.Http.{Request, ok, fault, new_request}
use sunet.Http.Headers.{parse}
use sunet.Config.{Status}
use sunet.Plugin.{Strategy, UriMap, run_uri}
use sunet.Task.{TaskMgr, add_task, get_task, get_call_back_proc}
use sunet.Io.{◌>>=◌, RecvData, RecvEnd, ReadResult, read_fail, read_ok, on_http_read}
use sunet.Io.Epoll.{Os, Epoll, reply}
use sunet.Io.Select.{Select, select_event_add, evt_write}

-- A pointer member: not set, null, or to a value.
pub data Pointer {ℓ} (A : Type ℓ) : Type ℓ where
  unset null : Pointer A
  to : A → Pointer A

-- `REQ_TASK_DATA`; its `_evt` is the epoll object.
pub record ReqTaskData : Type 0 where
  pub fd : ℤ
  pub received : RecvData

-- `ReqTask`, with the members of `SubTask`.
pub record ReqTask : Type 0 where
  pub task_name : Bytes
  pub task_ret : Pointer Bytes
  pub task_data : Pointer ReqTaskData

-- The constructor does not set `_task_data`.
unfoldable pub new_req_task : Bytes → ReqTask
new_req_task name = record { task_name = name; task_ret = null; task_data = unset }

unfoldable pub set_task_data : Pointer ReqTaskData → ReqTask → ReqTask
set_task_data d task = record task { task_data = d }

unfoldable pub call_back : ReqTask → Option ℤ
call_back task = elim task.task_ret [
  | unset ↦ none
  | null ↦ some (negsuc 0)
  | to ret ↦ some (pos 0)
]

-- `_on_http_read` whole: what it returns, and the queue.
unfoldable pub http_read :
    {Proc : Type 0}
    → (ℕ → Bytes)
    → ℤ
    → List Bytes
    → RecvEnd
    → TaskMgr ReqTask Proc
    → Option (ℤ × TaskMgr ReqTask Proc)
http_read fresh clt_fd received last mgr = do
  r ← on_http_read fresh received last
  some (elim r [
    | read_fail ↦ (pos 0, mgr)
    | read_ok none ↦ (pos 1, mgr)
    | read_ok (some recv_data) ↦
        let d : ReqTaskData = record { fd = clt_fd; received = recv_data } in
        (pos 1, add_task (some (set_task_data (to d) (new_req_task (codes "req_task")))) mgr)
  ])

-- `_run`: the result, `none` if it is the `ret` that is never set, and the event object, to which `hand` gives
-- the socket and the body of the response. `none` is a member or a text that cannot be read.
unfoldable pub run_task {ℓ κ} :
    {E : Type ℓ}
    → {Json : Type κ} → {Proc : Type 0} → (Strategy → Request → ℤ → Json → Status × Json)
    → Json
    → (Json → Bytes)
    → (ℤ → Bytes → E → E)
    → UriMap
    → TaskMgr ReqTask Proc
    → ReqTask
    → E
    → Option (Option ℤ × E)
run_task process empty to_styled_string hand uris mgr task evt =
    elim (get_call_back_proc task.task_name mgr) [
      | none ↦ some (some (pos 0), evt)
      | some call_back_proc ↦ elim task.task_data [
        | unset ↦ none
        | null ↦ some (some (pos 0), evt)
        | to d ↦ elim (parse d.received.buf new_request) [
          | fault e ↦ none
          | ok request ↦
              let root = (run_uri process request.url request uris empty).1 in
              some (none, hand d.fd (to_styled_string root) evt)
        ]
      ]
    ]

module _ {ℓ κ} {W : Type ℓ} {Json : Type κ} {Proc : Type 0} (os : Os W)
    (process : Strategy → Request → ℤ → Json → Status × Json) (empty : Json)
    (to_styled_string : Json → Bytes) where
  -- `_evt->_type` is `EPOLL`: the environment is put at the address `a`.
  unfoldable pub req_run :
      UriMap → ℕ → TaskMgr ReqTask Proc → ReqTask → Epoll W → Option (Option ℤ × Epoll W)
  req_run uris a mgr task p =
      run_task process empty to_styled_string (λ fd http_body q. reply os fd a http_body q) uris mgr
        task p

  -- One round of `_thread_proc_handler`: `_get_task`, `_run`, `_call_back`. With an empty queue the
  -- worker waits.
  unfoldable pub worker_round :
      UriMap → ℕ → TaskMgr ReqTask Proc × Epoll W → Option (TaskMgr ReqTask Proc × Epoll W)
  worker_round uris a (mgr, p) = elim (get_task mgr) [
    | none ↦ some (mgr, p)
    | some (task, mgr') ↦ do
      r ← req_run uris a mgr' task p
      called ← call_back task
      some (mgr', r.1)
  ]

-- `_evt->_type` is `SELECT`: the socket waits to be written, and the response is dropped.
unfoldable pub req_run_select {ℓ κ} :
    {W : Type ℓ}
    → {Json : Type κ} → {Proc : Type 0} → (Strategy → Request → ℤ → Json → Status × Json)
    → Json
    → (Json → Bytes)
    → UriMap
    → TaskMgr ReqTask Proc
    → ReqTask
    → Select W
    → Option (Option ℤ × Select W)
req_run_select process empty to_styled_string uris mgr task s =
    run_task process empty to_styled_string (λ fd http_body q. select_event_add fd evt_write q) uris
      mgr task s
