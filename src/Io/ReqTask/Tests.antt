-- ===== src/Io/ReqTask/Tests.antt =====
-- A request and its response on a small kernel.
use sunet.Base.{
  ℕ, zero, suc, ◌≡◌, refl, ap, List, [], ◌∷◌, ◌++◌, some, Bytes, codes, length, replicate, All,
  find, bytes_order, arith,
}
use sunet.Base.Int.{ℤ, pos}
use sunet.Util.Words.{concat}
use sunet.Http.{Request}
use sunet.Http.Desc.{is_upper}
use sunet.Http.HeaderLines.{header_lines}
use sunet.Http.RequestLine.{IsUpper}
use sunet.Config.{Status, sub_ok}
use sunet.Plugin.{Strategy}
use sunet.Task.{TaskMgr, get_call_back_proc}
use sunet.Io.{recv_error, out_env}
use sunet.Io.Epoll.{Epoll, handle, out_level, of_ptr}
use sunet.Io.Epoll.Small.{
  Kernel, small_os, small_laws, do_nothing, read_event, with_client, address_ne,
}
use sunet.Io.ReqTask.{ReqTask, http_read, worker_round}
use sunet.Io.ReqTask.Serve.{parsed_request, answer, worker_round-http_read}

abbrev zeros : ℕ → Bytes
zeros n = replicate n 0

length-zeros : (n : ℕ) → length (zeros n) ≡ n
length-zeros zero = refl
length-zeros (suc n) = ap suc (length-zeros n)

-- A strategy that replies with the url.
abbrev echo : Strategy → Request → ℤ → Bytes → Status × Bytes
echo s req level root = (sub_ok, req.url)

abbrev same_text : Bytes → Bytes
same_text s = s

abbrev pieces : List Bytes
pieces = codes "GET /s H" ∷ codes "1\r\n\r\n" ∷ []

-- A number stands for the callback.
abbrev idle_mgr : TaskMgr ReqTask ℕ
idle_mgr = record { task_queue = []; call_back_procs = (codes "req_task", 1) ∷ [] }

get-IsUpper : All IsUpper (codes "GET")
unfolding is_upper
get-IsUpper = (refl, (refl, (refl, tt)))

worker_round-http_read_example :
    (mgr₁ : TaskMgr ReqTask ℕ) × (p₁ p₂ : Epoll Kernel) × (http_read zeros
        (pos 5)
        pieces
        recv_error
        idle_mgr
      ≡ some (pos 1, mgr₁))
    × (worker_round small_os echo [] same_text [] 4096 (mgr₁, with_client) ≡ some (idle_mgr, p₁))
    × (handle small_os do_nothing do_nothing
          (record { events = out_level; evt_data = of_ptr 4096 })
          p₁
        ≡ some p₂)
    × (small_laws.taken (pos 5) p₂.world
        ≡ small_laws.taken (pos 5) with_client.world
          ++ out_env (
              answer echo [] same_text
                (parsed_request (codes "GET") (codes "/s") (codes "H1") [])
                []))
    × (p₂.world.watches (pos 5) ≡ some (read_event (pos 5)))
unfolding concat header_lines get_call_back_proc find
worker_round-http_read_example =
    worker_round-http_read small_os small_laws echo [] same_text zeros length-zeros (codes "GET")
      (codes "/s") (codes "H1") [] [] [] 4096 (pos 5) pieces idle_mgr 1 (read_event (pos 5))
      with_client do_nothing do_nothing get-IsUpper (ground arith) (ground arith) tt (λ p. cc p) tt
      (λ p. cc p) refl (ground arith) refl refl refl address_ne refl
