-- ===== src/Dat/Tests.antt =====
-- Runs of alias/dat/dat.h.
use sunet.Base.{◌≡◌, refl, [], ◌∷◌, some, codes}
use sunet.Dat.{get_cn_code}

code_ascii : get_cn_code (codes "a") ≡ some 97
unfolding get_cn_code
code_ascii = refl

-- The word of the comment above `get_cn_code` has the code that Unicode gives it.
code_han : get_cn_code (230 ∷ 177 ∷ 137 ∷ []) ≡ some 0x6c49
unfolding get_cn_code
code_han = refl

-- Two words of two bytes have one code.
code_two_bytes : get_cn_code (195 ∷ 169 ∷ []) ≡ get_cn_code (195 ∷ 168 ∷ [])
unfolding get_cn_code
code_two_bytes = refl
