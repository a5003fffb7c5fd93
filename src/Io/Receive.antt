-- ===== src/Io/Receive.antt =====
-- The receive loop never writes outside its buffer, and loses no byte.
use sunet.Base.{
  ℕ, zero, suc, ◌+◌, ◌*◌, ◌-◌, ◌≤◌, ◌<◌, ◌≡◌, ◌≢◌, refl, sym, ap, ◌∙◌, true, List, [], ◌∷◌, ◌++◌,
  none, some, Bytes, length, drop, leb, ltb, All, length-append, take-append, append_assoc,
  append-nil, arith, inl, inr, Bool-cases,
}
use sunet.Util.Words.{concat}
use sunet.Io.{
  RecvData, RecvEnd, ReadResult, write_at, new_recv_data, resize, recv_step, recv_loop, read_end,
  on_http_read, recv_error, recv_closed, read_fail, read_ok,
}

length-drop {ℓ} : {A : Type ℓ} (n : ℕ) (xs : List A) → length (drop n xs) ≡ length xs - n
length-drop zero xs = omega arith
length-drop (suc n) [] = omega arith
length-drop (suc n) (x ∷ xs) = omega (arith, length-drop n xs)

drop-past : (a : ℕ) (front back : Bytes) → drop (length front + a) (front ++ back) ≡ drop a back
drop-past a [] back = ap (λ (n : ℕ). drop n back) (omega arith)
drop-past a (c ∷ front) back =
    let q : suc (length front) + a ≡ suc (length front + a) = omega arith in
    ap (λ (n : ℕ). drop n (c ∷ (front ++ back))) q ∙ drop-past a front back

-- A write behind a text of `i` bytes.
write_at-behind :
    (text bytes mem : Bytes) (i : ℕ)
    → i ≡ length text
    → length bytes ≤ length mem
    → write_at i bytes (text ++ mem) ≡ some (text ++ (bytes ++ drop (length bytes) mem))
unfolding write_at
write_at-behind text bytes mem i e h =
    let fits : leb (i + length bytes) (length (text ++ mem)) ≡ true =
      ground (arith, length-append text mem, e, h) in
    rw (write_at, fits, e, take-append text mem, drop-past (length bytes) text mem) refl

-- The buffer holds the text, and room for another round and the zero behind it.
pub record Holds (text : Bytes) (d : RecvData) : Type 0 where
  pub mem : Bytes
  pub held : d.buf ≡ text ++ mem
  pub len : d.buf_len ≡ length text
  pub whole : d.buf_cap ≡ length text + length mem
  pub room : length text + 1024 < d.buf_cap

-- The two writes of a round, in a buffer that holds a text.
two_writes :
    (text bytes mem : Bytes)
    → length bytes + 1 ≤ length mem
    → (m : Bytes) × (length m + length bytes ≡ length mem)
      × (write_at (length text) bytes (text ++ mem) ≡ some ((text ++ bytes) ++ m))
      × (write_at (length text + length bytes) (0 ∷ []) ((text ++ bytes) ++ m)
          ≡ some ((text ++ bytes) ++ (0 ∷ drop 1 m)))
two_writes text bytes mem h =
    let m = drop (length bytes) mem in
    let size : length m + length bytes ≡ length mem =
      omega (arith, length-drop (length bytes) mem, h) in
    (
      m,
      size,
      write_at-behind text bytes mem (length text) refl (omega (arith, h))
          ∙ ap some (sym (append_assoc text bytes m)),
      write_at-behind (text ++ bytes) (0 ∷ []) m (length text + length bytes)
          (sym (length-append text bytes)) (omega (arith, size, h)),
    )

same_recv :
    (d : RecvData) (buf : Bytes) (len : ℕ)
    → d.buf ≡ buf
    → d.buf_len ≡ len
    → d ≡ record { buf = buf; buf_len = len; buf_cap = d.buf_cap }
same_recv d buf len h k = rw (← h, ← k) refl

zero_size : (m : Bytes) → 1 ≤ length m → length (0 ∷ drop 1 m) ≡ length m
zero_size [] h = omega (arith, h)
zero_size (c ∷ m) h = refl

length-pos : (v : Bytes) → v ≢ [] → 1 ≤ length v
length-pos [] h = absurd (h refl)
length-pos (c ∷ v) h = omega arith

module _ (fresh : ℕ → Bytes) (sized : (n : ℕ) → length (fresh n) ≡ n) where
  resize_lem :
      (text mem : Bytes) (room_cap : ℕ)
      → room_cap ≡ length text + length mem
      → 1024 < room_cap
      → (d : RecvData) × (resize fresh
            (record { buf = text ++ mem; buf_len = length text; buf_cap = room_cap })
          ≡ some d)
        × Holds text d
  unfolding resize
  resize_lem text mem room_cap e h =
      let fits : length text ≤ length (fresh (room_cap * 2)) =
        omega (arith, sized (room_cap * 2), e) in
      let left = drop (length text) (fresh (room_cap * 2)) in
      (
        record { buf = text ++ left; buf_len = length text; buf_cap = room_cap * 2 },
        rw (take-append text mem, write_at-behind [] text (fresh (room_cap * 2)) 0 refl fits) refl,
        record {
          mem = left;
          held = refl;
          len = refl;
          whole =
              omega
                (arith, length-drop (length text) (fresh (room_cap * 2)), sized (room_cap * 2), e);
          room = omega (arith, e, h);
        },
      )

  step_lem :
      (text bytes mem : Bytes) (room_cap : ℕ)
      → room_cap ≡ length text + length mem
      → length text + 1024 < room_cap
      → length bytes ≤ 1024
      → (d : RecvData) × (recv_step fresh bytes
            (record { buf = text ++ mem; buf_len = length text; buf_cap = room_cap })
          ≡ some d)
        × Holds (text ++ bytes) d
  unfolding recv_step
  step_lem text bytes mem room_cap e h k =
      let (m, size, first, second) = two_writes text bytes mem (omega (arith, e, h, k)) in
      let total : length text + length bytes ≡ length (text ++ bytes) =
        sym (length-append text bytes) in
      let kept : room_cap ≡ length (text ++ bytes) + length (0 ∷ drop 1 m) =
        omega (arith, total, zero_size m (omega (arith, size, e, h, k)), size, e) in
      elim (Bool-cases (leb room_cap (length text + length bytes + 1024))) [
        | inl q ↦
            let (d, run, v) =
              resize_lem (text ++ bytes) (0 ∷ drop 1 m) room_cap kept (omega (arith, h)) in
            (d, rw (recv_step, first, second, q, total) run, v)
        | inr q ↦ (
          record {
            buf = (text ++ bytes) ++ (0 ∷ drop 1 m);
            buf_len = length text + length bytes;
            buf_cap = room_cap;
          },
          rw (recv_step, first, second, q) refl,
          record {
            mem = 0 ∷ drop 1 m;
            held = refl;
            len = total;
            whole = kept;
            room = ground (arith, q, total);
          },
        )
      ]

  recv_step-Holds :
      (text bytes : Bytes) (d : RecvData)
      → Holds text d
      → length bytes ≤ 1024
      → (d' : RecvData) × (recv_step fresh bytes d ≡ some d') × Holds (text ++ bytes) d'
  recv_step-Holds text bytes d v k =
      let (d', run, v') = step_lem text bytes v.mem d.buf_cap v.whole v.room k in
      (
        d',
        ap (recv_step fresh bytes) (same_recv d (text ++ v.mem) (length text) v.held v.len) ∙ run,
        v',
      )

  recv_loop-Holds :
      (chunks : List Bytes) (text : Bytes) (d : RecvData)
      → Holds text d
      → All (λ c. length c ≤ 1024) chunks
      → (d' : RecvData) × (recv_loop fresh chunks d ≡ some d') × Holds (text ++ concat chunks) d'
  unfolding recv_loop concat
  recv_loop-Holds [] text d v h = (d, refl, rw append-nil v)
  recv_loop-Holds (c ∷ chunks) text d v h =
      let (d', run, v') = recv_step-Holds text c d v h.0 in
      let (d'', run', v'') = recv_loop-Holds chunks (text ++ c) d' v' h.1 in
      (d'', rw (run, recv_loop) run', rw (← append_assoc text c (concat chunks)) v'')

  new_recv_data-Holds : (d : RecvData) × (new_recv_data fresh ≡ some d) × Holds [] d
  unfolding new_recv_data
  new_recv_data-Holds =
      let zeros : Bytes = 0 ∷ 0 ∷ 0 ∷ 0 ∷ 0 ∷ 0 ∷ 0 ∷ 0 ∷ [] in
      let left = drop 8 (fresh 4096) in
      let size : length left + 8 ≡ 4096 = omega (arith, length-drop 8 (fresh 4096), sized 4096) in
      (
        record { buf = zeros ++ left; buf_len = 0; buf_cap = 4096 },
        rw (write_at-behind [] zeros (fresh 4096) 0 refl (omega (arith, sized 4096))) refl,
        record {
          mem = zeros ++ left;
          held = refl;
          len = refl;
          whole = omega (arith, size);
          room = omega arith;
        },
      )

  -- What is handed to the task: the text, and a zero behind it.
  read_end-Holds :
      (text : Bytes) (d : RecvData)
      → Holds text d
      → text ≢ []
      → (d' : RecvData) × (mem : Bytes) × (read_end fresh recv_error d ≡ some (read_ok (some d')))
        × (d'.buf ≡ text ++ 0 ∷ mem)
        × (d'.buf_len ≡ length text)
  unfolding read_end
  read_end-Holds text d v h =
      let some_text : ltb 0 (length text) ≡ true = ground (arith, length-pos text h) in
      let fits : 1 ≤ length v.mem = omega (arith, v.whole, v.room) in
      (
        record { buf = text ++ (0 ∷ drop 1 v.mem); buf_len = length text; buf_cap = d.buf_cap },
        drop 1 v.mem,
        ap (read_end fresh recv_error) (same_recv d (text ++ v.mem) (length text) v.held v.len)
            ∙ rw (read_end, some_text, write_at-behind text (0 ∷ []) v.mem (length text) refl fits)
                refl,
        refl,
        refl,
      )

  -- Every call of `recv` with data, at most 1024 bytes each, finds room in the buffer: no write
  -- leaves it. When the loop ends with -1 behind at least one byte, the task gets all bytes in
  -- order with a zero behind them, and when the client closes the socket no task is added.
  pub on_http_read_lem :
      (chunks : List Bytes)
      → All (λ c. length c ≤ 1024) chunks
      → concat chunks ≢ []
      → ((d : RecvData) × (mem : Bytes) × (on_http_read fresh chunks recv_error
            ≡ some (read_ok (some d)))
          × (d.buf ≡ concat chunks ++ 0 ∷ mem)
          × (d.buf_len ≡ length (concat chunks)))
        × (on_http_read fresh chunks recv_closed ≡ some read_fail)
  unfolding on_http_read read_end
  on_http_read_lem chunks h k =
      let (d, new, v) = new_recv_data-Holds in
      let (d', run, v') = recv_loop-Holds chunks [] d v h in
      let (e, mem, stop, held, len) = read_end-Holds (concat chunks) d' v' k in
      ((e, mem, rw (new, run) stop, held, len), rw (new, run, read_end) refl)

  read_end_ends :
      (text : Bytes) (last : RecvEnd) (d : RecvData)
      → Holds text d
      → (r : ReadResult) × (read_end fresh last d ≡ some r)
  unfolding read_end
  read_end_ends text recv_closed d v = (read_fail, refl)
  read_end_ends [] recv_error d v = (read_ok none, rw (read_end, v.len) refl)
  read_end_ends (c ∷ text) recv_error d v =
      let (d', mem, stop, held, len) = read_end-Holds (c ∷ text) d v (λ q. cc q) in
      (read_ok (some d'), stop)

  -- Whatever `recv` gives, with at most 1024 bytes from each call, `_on_http_read` returns.
  pub on_http_read_ends :
      (chunks : List Bytes) (last : RecvEnd)
      → All (λ c. length c ≤ 1024) chunks
      → (r : ReadResult) × (on_http_read fresh chunks last ≡ some r)
  unfolding on_http_read
  on_http_read_ends chunks last h =
      let (d, new, v) = new_recv_data-Holds in
      let (d', run, v') = recv_loop-Holds chunks [] d v h in
      let (r, stop) = read_end_ends (concat chunks) last d' v' in (r, rw (new, run) stop)
