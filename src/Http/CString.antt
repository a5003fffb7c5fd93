-- ===== src/Http/CString.antt =====
-- `assign` on a buffer that holds a zero-terminated text.
use sunet.Base.{
  ℕ, ◌≤◌, ◌≡◌, refl, [], ◌∷◌, ◌++◌, Bytes, length, take, drop, Lacks, arith, length-append,
  take-append, drop-append, ◌∙◌, ap,
}
use sunet.Http.{ok, c_str, assign}

pub c_str_text : (text mem : Bytes) → Lacks 0 text → c_str (text ++ 0 ∷ mem) ≡ ok text
unfolding c_str
c_str_text [] mem h = refl
c_str_text (c ∷ text) mem h = ground (arith, c_str_text text mem h.1)

pub assign_text :
    (text mem : Bytes) (at n : ℕ)
    → Lacks 0 text
    → at ≤ length text
    → assign (text ++ 0 ∷ mem) at n ≡ ok (take n (drop at text))
unfolding assign
assign_text text mem at n h k = rw (c_str_text text mem h) (ground arith)

-- The middle part of a text, at the place where it stands.
pub assign_part :
    (before part after mem : Bytes) (at n : ℕ)
    → Lacks 0 (before ++ (part ++ after))
    → at ≡ length before
    → n ≡ length part
    → assign ((before ++ (part ++ after)) ++ 0 ∷ mem) at n ≡ ok part
assign_part before part after mem at n h p q =
    rw (p, q)
      (assign_text (before ++ (part ++ after)) mem (length before) (length part) h
          (omega (arith, length-append before (part ++ after)))
        ∙ ap (λ (s : Bytes). ok (take (length part) s)) (drop-append before (part ++ after))
        ∙ ap ok (take-append part after))
