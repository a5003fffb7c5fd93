-- ===== src/Io/ReqTask/Serve.antt =====
-- A request from the bytes of its socket to the response that is sent.
use sunet.Base.{
  ℕ, ◌≤◌, ◌≡◌, ◌≢◌, refl, sym, ap, ◌∙◌, List, [], ◌∷◌, ◌++◌, none, some, Bytes, codes, length, take,
  put_all, bytes_order, nat_order, Lacks, All,
}
use sunet.Base.Int.{ℤ, pos}
use sunet.Util.Fields.{take_all}
use sunet.Util.Words.{concat}
use sunet.Http.{Request, ok, new_request}
use sunet.Http.Headers.{parse}
use sunet.Http.HeaderLines.{IsHeader, header_lines, blank}
use sunet.Http.RequestLine.{line_text, IsLineByte, IsUpper}
use sunet.Http.Version.{IsUrlByte}
use sunet.Http.Whole.{parse-line_text}
use sunet.Config.{Status}
use sunet.Plugin.{Strategy, UriMap, run_uri}
use sunet.Task.{TaskMgr, add_task, get_task, pop_task, get_call_back_proc}
use sunet.Io.{RecvData, recv_error, out_env}
use sunet.Io.Receive.{on_http_read_lem}
use sunet.Io.Epoll.{
  Os, Epoll, EpollEvent, of_fd, of_ptr, data_fd, in_edge, out_level, reply, handle,
}
use sunet.Io.Epoll.Laws.{EpollLaws, accepted}
use sunet.Io.Epoll.Cycle.{handle-reply}
use sunet.Io.ReqTask.{
  ReqTask, to, new_req_task, set_task_data, call_back, http_read, run_task, req_run, worker_round,
}

abbrev pub request_text : Bytes → Bytes → Bytes → List (Bytes × Bytes) → Bytes → Bytes
request_text m u v hs t = line_text m u v (b'\n' ∷ (header_lines hs ++ blank t))

request_text_ne :
    (m u v : Bytes) (hs : List (Bytes × Bytes)) (t : Bytes) → request_text m u v hs t ≢ []
request_text_ne [] u v hs t q = cc q
request_text_ne (c ∷ m) u v hs t q = cc q

-- The task of a request.
abbrev pub task_of : ℤ → RecvData → ReqTask
task_of fd d =
    set_task_data (to (record { fd = fd; received = d })) (new_req_task (codes "req_task"))

-- What the parser makes of a request.
abbrev pub parsed_request : Bytes → Bytes → Bytes → List (Bytes × Bytes) → Request
parsed_request m u v hs = record new_request {
  method = m;
  url = u;
  version = v;
  headers = put_all hs new_request.headers;
}

module _ {κ} {Json : Type κ} (process : Strategy → Request → ℤ → Json → Status × Json)
    (empty : Json) (to_styled_string : Json → Bytes) where
  -- The body of the response.
  abbrev pub answer : Request → UriMap → Bytes
  answer req uris = to_styled_string (run_uri process req.url req uris empty).1

  -- The reply to a request, and the text that is sent.
  abbrev pub body : Bytes → Bytes → Bytes → List (Bytes × Bytes) → UriMap → Bytes
  body m u v hs uris = answer (parsed_request m u v hs) uris

  abbrev pub response : Bytes → Bytes → Bytes → List (Bytes × Bytes) → UriMap → Bytes
  response m u v hs uris = out_env (body m u v hs uris)

module _ {ℓ κ} {W : Type ℓ} {Json : Type κ} {Proc : Type 0} (os : Os W) (laws : EpollLaws os)
    (process : Strategy → Request → ℤ → Json → Status × Json) (empty : Json)
    (to_styled_string : Json → Bytes) (fresh : ℕ → Bytes)
    (sized : (n : ℕ) → length (fresh n) ≡ n) where
  -- A task with the bytes of a request replies on its socket.
  req_run_request :
      (m u v t mem : Bytes) (hs : List (Bytes × Bytes)) (uris : UriMap) (a : ℕ) (fd : ℤ)
      (d : RecvData) (mgr : TaskMgr ReqTask Proc) (proc : Proc) (p : Epoll W)
      → All IsUpper m
      → All IsUrlByte u
      → All IsLineByte v
      → Lacks 0 t
      → v ≢ []
      → All IsHeader hs
      → u ≢ []
      → get_call_back_proc (codes "req_task") mgr ≡ some proc
      → d.buf ≡ request_text m u v hs t ++ 0 ∷ mem
      → req_run os process empty to_styled_string uris a mgr (task_of fd d) p
        ≡ some (
          none,
          reply os fd a (answer process empty to_styled_string (parsed_request m u v hs) uris) p,
        )
  unfolding req_run run_task set_task_data new_req_task
  req_run_request m u v t mem hs uris a fd d mgr proc p hm hu hv ht full hh some_url known held =
      let parsed : parse d.buf new_request ≡ ok (parsed_request m u v hs) =
        ap (λ buf. parse buf new_request) held
        ∙ parse-line_text m u v t mem hs hm hu hv ht full hh new_request some_url in
      rw (req_run, run_task, known, parsed) refl

  -- A request without a query, well-formed as for `parse-line_text`, comes on a watched socket in pieces of at
  -- most 1024 bytes, the task queue is empty, the callback of `req_task` is known and the address of the new
  -- environment is no number of the server's socket in its low 32 bits. The call of `send` behind the reply takes
  -- all that it is given. Then `_on_http_read` returns READ_OK, one round of a worker empties the queue and
  -- makes the socket wait to be written, and behind the event that is then delivered the kernel
  -- has taken for the socket one response more, whose body is the reply of the strategies of the
  -- url, and the socket is watched for EPOLLIN again.
  pub worker_round-http_read :
      (m u v t : Bytes) (hs : List (Bytes × Bytes)) (uris : UriMap) (a : ℕ) (fd : ℤ)
      (chunks : List Bytes) (mgr : TaskMgr ReqTask Proc) (proc : Proc) (x : EpollEvent)
      (p : Epoll W) (accept_proc read_proc : ℤ → Epoll W → ℤ × Epoll W)
      → All IsUpper m
      → All IsUrlByte u
      → All IsLineByte v
      → Lacks 0 t
      → v ≢ []
      → All IsHeader hs
      → u ≢ []
      → concat chunks ≡ request_text m u v hs t
      → All (λ c. length c ≤ 1024) chunks
      → mgr.task_queue ≡ []
      → get_call_back_proc (codes "req_task") mgr ≡ some proc
      → laws.interest p.epl_fd p.world fd ≡ some x
      → data_fd (of_ptr a) ≢ p.svr_fd
      → (os.send fd
          (response process empty to_styled_string m u v hs uris)
          (reply os fd a (body process empty to_styled_string m u v hs uris) p).world).0
        ≡ some (length (response process empty to_styled_string m u v hs uris))
      → (mgr₁ : TaskMgr ReqTask Proc) × (p₁ p₂ : Epoll W) × (http_read fresh fd chunks recv_error
            mgr
          ≡ some (pos 1, mgr₁))
        × (worker_round os process empty to_styled_string uris a (mgr₁, p)
            ≡ some (record mgr { task_queue = [] }, p₁))
        × (handle os accept_proc read_proc (record { events = out_level; evt_data = of_ptr a }) p₁
            ≡ some p₂)
        × (laws.taken fd p₂.world
            ≡ laws.taken fd p.world ++ response process empty to_styled_string m u v hs uris)
        × (laws.interest p₂.epl_fd p₂.world fd
            ≡ some (record { events = in_edge; evt_data = of_fd fd }))
  unfolding http_read worker_round add_task get_task pop_task call_back set_task_data new_req_task
      get_call_back_proc
  worker_round-http_read m u v t hs uris a fd chunks mgr proc x p accept_proc read_proc hm hu hv ht
        full hh some_url whole small idle known watched ne takes =
      let text = body process empty to_styled_string m u v hs uris in
      let ((d, mem, got, held, len), closed) =
        on_http_read_lem fresh sized chunks small
          (λ q. request_text_ne m u v hs t (sym whole ∙ q)) in
      let (armed, (p₂, done, sent, took, again, freed, others)) =
        handle-reply os laws accept_proc read_proc fd a text x p watched ne in
      let ran =
        req_run_request m u v t mem hs uris a fd d (record mgr { task_queue = [] }) proc p hm hu hv
          ht full hh some_url known (held ∙ ap (λ s. s ++ 0 ∷ mem) whole) in
      (
        record mgr { task_queue = task_of fd d ∷ [] },
        reply os fd a text p,
        p₂,
        rw (http_read, got, idle) refl,
        rw (worker_round, ran) refl,
        done,
        took
            ∙ ap
                (λ n.
                  laws.taken fd p.world
                  ++ take (accepted n) (response process empty to_styled_string m u v hs uris))
                takes
            ∙ ap (λ s. laws.taken fd p.world ++ s)
                (take_all (response process empty to_styled_string m u v hs uris)),
        again,
      )
