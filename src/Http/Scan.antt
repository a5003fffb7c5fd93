-- ===== src/Http/Scan.antt =====
-- The loop of `_parse_desc` over a word of the request line.
use sunet.Base.{
  ℕ, suc, ◌+◌, ◌≡◌, ◌≢◌, refl, true, [], ◌∷◌, ◌++◌, Bytes, length, All, arith, ap, ◌∙◌,
}
use native.Mathlib.Nat.{add-zero}
use sunet.Http.{ok, Request}
use sunet.Http.Desc.{
  Part, in_method, in_url, in_version, Cursor, ended, desc_loop, desc_step, at_byte, at_space,
  is_upper,
}

-- The bytes that the loop only counts while it reads a part.
abbrev pub IsWord : Part → ℕ → Type 0
IsWord in_method c = is_upper c ≡ true
IsWord _ c = (c ≢ b' ') × (c ≢ b'\r')

abbrev pub cursor : ℕ → Part → ℕ → Request → Cursor
cursor i part len r = record { at = i; part = part; parse_len = len; request = r }

loop_byte :
    (buf : Bytes) (c : ℕ) (rest : Bytes) (i : ℕ) (part : Part) (len : ℕ) (r : Request)
    → IsWord part c
    → desc_loop buf (c ∷ rest) (cursor i part len r)
      ≡ desc_loop buf rest (cursor (i + 1) part (len + 1) r)
unfolding desc_loop desc_step at_byte is_upper
loop_byte buf c rest i in_method len r h = ground arith
loop_byte buf c rest i in_url len r h = ground arith
loop_byte buf c rest i in_version len r h = ground arith

pub loop_word :
    (buf w rest : Bytes) (i : ℕ) (part : Part) (len : ℕ) (r : Request)
    → All (IsWord part) w
    → desc_loop buf (w ++ rest) (cursor i part len r)
      ≡ desc_loop buf rest (cursor (i + length w) part (len + length w) r)
loop_word buf [] rest i part len r h = rw (add-zero, add-zero)
loop_word buf (c ∷ w) rest i part len r h =
    rw
      (
        loop_byte buf c (w ++ rest) i part len r h.0,
        loop_word buf w rest (i + 1) part (len + 1) r h.1,
      )
      (ap (λ (n : ℕ). desc_loop buf rest (cursor n part (len + 1 + length w) r)) (omega arith)
        ∙ ap (λ (n : ℕ). desc_loop buf rest (cursor (i + suc (length w)) part n r)) (omega arith))

pub loop_space :
    (buf rest : Bytes) (i : ℕ) (part : Part) (len : ℕ) (r : Request) (cur : Cursor)
    → at_space buf (cursor i part len r) part ≡ ok (ended cur)
    → desc_loop buf (b' ' ∷ rest) (cursor i part len r) ≡ desc_loop buf rest cur
unfolding desc_loop desc_step
loop_space buf rest i part len r cur h = rw h

pub loop_end : (buf rest : Bytes) (cur : Cursor) → desc_loop buf (b'\r' ∷ rest) cur ≡ ok (ended cur)
unfolding desc_loop
loop_end buf rest cur = refl
