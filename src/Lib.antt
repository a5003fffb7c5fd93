-- ===== src/Lib.antt =====
-- SUNET: a network service framework in C++. An event loop receives requests, a task manager
-- queues them, a pool of threads takes them out, parses them as HTTP and runs the strategies that
-- the configuration names for the uri; the strategies look words up in dictionaries and tries.
--
-- The files, and the code that they model:
--   Base      lists, text as bytes, `std::map` as an association list in the order of its keys,
--             integers over the native naturals, decimal print and `atoi`.
--   Util      util/utils.h: `StringUtil::split`, `split_ch_words`, `num_to_str`.
--   Http      http/http_parse.h and http/http_parse.cpp: `Request`; `Http/Codec` is the percent
--             codec, `Http/Desc` is `_parse_desc`, `Http/Headers` is `_parse_headers` and `_parse`.
--   Task      task/task_mgr.h and task/task_mgr.cpp: `SubTaskMgr`. `Task/Interleaving` is
--             `_add_task` and `_get_task` between any number of threads.
--   Thread    thread/thread.h, thread/thread.cpp, thread/thread_pool.h and thread/thread_pool.cpp.
--   Config    config/config.cpp and config/strategy_conf.cpp.
--   Trie      alias/dat/trie.h, and `cn_string` of alias/dat/dat.h.
--   Dict      plugin/dict_mgr.h; `Dict/Index` is index/build_index.cpp, with the segmentation as a
--             parameter.
--   Plugin    plugin/strategy_mgr.h and plugin/strategy_mgr.cpp, with what a strategy does to the
--             JSON reply as a parameter; `Plugin/Search` is plugin/search_strategy.cpp, with the
--             arithmetic on `float` and the sorting as parameters; `Plugin/Suggest` is
--             plugin/suggest_strategy.cpp, and `Plugin/Text` is plugin/text_strategy.cpp and
--             plugin/rewrite_strategy.cpp.
--   Io        io/event.h, io/server.cpp and task/req_task.cpp: from the bytes of a socket to the
--             bytes of the response. What a new allocation holds is a parameter. `Io/Epoll` is
--             io/epoll.cpp with its states and its kernel interface, `Io/Select` is io/select.cpp,
--             `Io/EventQueue` is `SubEventQueue` of io/event.h, `Io/Sock` is `_init_sock` and
--             `_set_nonblocking` of io/server.cpp, `Io/Server` is its `_on_accept` and `_run`, with `_on_http_read` as
--             the read callback and the replies of the workers between the events, and
--             `Io/ReqTask` is task/req_task.cpp, the end of `_on_http_read` and one round of
--             task/task_handler.h.
--   WordSeg   alias/wordseg/wordseg.cpp: `_init_tagger` and `segment`, with the CRF tagger as a
--             parameter.
--   Log       log/sub_log.h and log/sub_log.cpp, with the clock and the file system as arguments;
--             `Log/FileName` is `_init_logger` and `_update_log_file_name`.
--   Dat       alias/dat/dat.h: the codes of words, the loaders and `_search`; `Dat/Build` is the
--             construction of the arrays: `resize`, `_fetch_siblings`, `_insert` and `_build`.
--   Client    client/client.cpp, with the text of its request as an argument.
-- The children of each hold the proofs, named for what they prove, and its `Tests` the runs.
--
-- State and faults. A `std::string` is the list of its bytes. A `char*` buffer is the list of the
-- bytes of its allocation: a read behind it is a fault of the model, and so is a read past the end
-- of a text or a vector (`none`, `overrun`, `out_of_range`). An operation that changes an object is
-- a function from the old object to the new one. The mutex and the condition variable are states of
-- a step relation, with every interleaving and with spurious wake-ups.
--
-- Bounds and fuel. A loop over an index runs on fuel, one more than the bytes of its text: each
-- round passes at least one byte. That this is enough is proved where the results say that the
-- function agrees with its description. `atoi` wraps to 32 bits behind the clamp to `long`.
-- `_insert` runs on the depth of its recursion, one more than the words of the longest key, and on the
-- rounds of its search for a place, as many as the arrays have slots. The loop of `select` has a result for when it
-- ends, and one for when no fuel is enough.
--
-- The kernel. The system calls of the event loops are an interface: a record of functions on a
-- world, with records of laws that epoll_ctl(2), send(2), recv(2), close(2), and for the server's
-- socket bind(2), listen(2), fcntl(2) and sigaction(2) state. A call of `send` takes as many bytes as
-- it returns, and adding a descriptor to an epoll object may fail. `errno` decides only what is
-- logged. The workers run at any point between two events.
--
-- Not modelled: the overflow of `int` in the pages of plugin/search_strategy.cpp, which needs a page below
-- -107374181; the tests, and the copies of CRF++, Google Test and JsonCpp.
pub mod Base
pub mod Util
pub mod Http
pub mod Task
pub mod Thread
pub mod Config
pub mod Trie
pub mod Dict
pub mod Plugin
pub mod Io
pub mod WordSeg
pub mod Log
pub mod Dat
pub mod Client
