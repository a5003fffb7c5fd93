-- ===== src/Io/EventQueue/Refines.antt =====
-- The queue against a list for each descriptor.
use sunet.Base.{
  ℕ, ◌≡◌, ◌≢◌, refl, ap, ◌∙◌, List, [], ◌∷◌, ◌++◌, none, find, put, erase, same, same-cases,
  same_refl, same_ne, find-put_self, find-put_ne, find-erase_self, find-erase_ne, append-nil,
  append_assoc, Option-cases, inl, inr, if◌then◌else◌,
}
use sunet.Base.Int.{ℤ, int_order}
use sunet.Io.EventQueue.{EventQueue, buffers, set_evt_data, get_evt_data, delete_loop, release}

pub data QueueOp : Type 0 where
  set_op : ℤ → ℕ → QueueOp
  release_op : ℤ → QueueOp

-- The queue behind the operations, in order.
unfoldable pub run : List QueueOp → EventQueue → EventQueue
run [] q = q
run (set_op fd b ∷ ops) q = run ops (set_evt_data fd b q)
run (release_op fd ∷ ops) q = run ops (release fd q).1

-- One descriptor's list: a buffer joins its end, and a release empties it.
unfoldable pub replay : ℤ → List QueueOp → List ℕ → List ℕ
replay fd [] bufs = bufs
replay fd (set_op j b ∷ ops) bufs = replay fd ops (if same fd j then bufs ++ b ∷ [] else bufs)
replay fd (release_op j ∷ ops) bufs = replay fd ops (if same fd j then [] else bufs)

buffers-put_self : (fd : ℤ) (v : List ℕ) (q : EventQueue) → buffers fd (put fd v q) ≡ v
unfolding buffers
buffers-put_self fd v q = rw (buffers, find-put_self fd v q) refl

buffers-put_ne :
    (fd j : ℤ) (v : List ℕ) (q : EventQueue) → fd ≢ j → buffers fd (put j v q) ≡ buffers fd q
unfolding buffers
buffers-put_ne fd j v q ne = rw (buffers, find-put_ne fd j v q ne) refl

buffers-erase_ne : (fd j : ℤ) (q : EventQueue) → fd ≢ j → buffers fd (erase j q) ≡ buffers fd q
unfolding buffers
buffers-erase_ne fd j q ne = rw (buffers, find-erase_ne fd j q ne) refl

buffers-none : (fd : ℤ) (q : EventQueue) → find fd q ≡ none → buffers fd q ≡ []
unfolding buffers
buffers-none fd q n = rw (buffers, n) refl

buffers-set_evt_data :
    (fd j : ℤ) (b : ℕ) (q : EventQueue)
    → buffers fd (set_evt_data j b q) ≡ (if same fd j then buffers fd q ++ b ∷ [] else buffers fd q)
unfolding set_evt_data
buffers-set_evt_data fd j b q = elim (same-cases fd j) [
  | inl e ↦ elim (Option-cases (find j q)) [
    | inl n ↦
        rw
          (
            e,
            same_refl j,
            set_evt_data,
            n,
            buffers-put_self j _ (put j [] q),
            buffers-put_self j [] q,
            buffers-none j q n,
          )
          refl
    | inr (v, n) ↦ rw (e, same_refl j, set_evt_data, n) (buffers-put_self j _ q)
  ]
  | inr ne ↦ elim (Option-cases (find j q)) [
    | inl n ↦
        rw (same_ne fd j ne, set_evt_data, n, buffers-put_ne fd j _ (put j [] q) ne)
          (buffers-put_ne fd j [] q ne)
    | inr (v, n) ↦ rw (same_ne fd j ne, set_evt_data, n) (buffers-put_ne fd j _ q ne)
  ]
]

buffers-release :
    (fd j : ℤ) (q : EventQueue)
    → buffers fd (release j q).1 ≡ (if same fd j then [] else buffers fd q)
unfolding release
buffers-release fd j q = elim (same-cases fd j) [
  | inl e ↦ elim (Option-cases (find j q)) [
    | inl n ↦ rw (e, same_refl j, release, n) (buffers-none j q n)
    | inr (v, n) ↦
        rw (e, same_refl j, release, n) (buffers-none j (erase j q) (find-erase_self j q))
  ]
  | inr ne ↦ elim (Option-cases (find j q)) [
    | inl n ↦ rw (same_ne fd j ne, release, n) refl
    | inr (v, n) ↦ rw (same_ne fd j ne, release, n) (buffers-erase_ne fd j q ne)
  ]
]

-- Behind any sequence of `_set_evt_data` and `_release`, the entry of a descriptor is what the
-- same operations make of one list on its own: a buffer that is set for it joins the end, its
-- release empties it, and the operations on other descriptors do nothing.
pub buffers-run :
    (fd : ℤ) (ops : List QueueOp) (q : EventQueue)
    → buffers fd (run ops q) ≡ replay fd ops (buffers fd q)
unfolding run replay
buffers-run fd [] q = refl
buffers-run fd (set_op j b ∷ ops) q =
    buffers-run fd ops (set_evt_data j b q) ∙ ap (replay fd ops) (buffers-set_evt_data fd j b q)
buffers-run fd (release_op j ∷ ops) q =
    buffers-run fd ops (release j q).1 ∙ ap (replay fd ops) (buffers-release fd j q)

delete_loop_lem : (bufs freed : List ℕ) → delete_loop bufs freed ≡ freed ++ bufs
unfolding delete_loop
delete_loop_lem [] freed = rw (append-nil freed) refl
delete_loop_lem (b ∷ bufs) freed =
    delete_loop_lem bufs (freed ++ b ∷ []) ∙ append_assoc freed (b ∷ []) bufs

-- `_get_evt_data` gives the entry of the descriptor, and leaves `ret` as it is where the entry is
-- missing or empty; `_release` frees each buffer of the entry once, in order.
pub get_evt_data-release :
    (fd : ℤ) (ret : List ℕ) (q : EventQueue)
    → (get_evt_data fd ret q ≡ elim (buffers fd q) [ [] ↦ ret | b ∷ bufs ↦ b ∷ bufs ])
      × ((release fd q).0 ≡ buffers fd q)
      × (get_evt_data fd ret (release fd q).1 ≡ ret)
unfolding get_evt_data release buffers delete_loop
get_evt_data-release fd ret q = elim (Option-cases (find fd q)) [
  | inl n ↦ rw (get_evt_data, release, buffers, n) (refl, refl, rw n refl)
  | inr ([], n) ↦
      rw (get_evt_data, release, buffers, n) (refl, refl, rw (find-erase_self fd q) refl)
  | inr (b ∷ bufs, n) ↦
      rw (get_evt_data, release, buffers, n)
        (refl, delete_loop_lem (b ∷ bufs) [], rw (find-erase_self fd q) refl)
]
