-- ===== src/Http/Query.antt =====
-- The parameters of a query that a client has written with `encode`.
use sunet.Base.{
  put_all, ℕ, ◌≡◌, ◌≢◌, refl, List, [], ◌∷◌, ◌++◌, Bytes, codes, Lacks, AreBytes, All, All-append,
  All-weaken, arith, put, map, bytes_order, sym,
}
use sunet.Util.{split, last_byte}
use sunet.Util.Join.{join, split_pair, split-join, join-All, join-ne-nil, append-ne-nil}
use sunet.Http.{ok, Request}
use sunet.Http.Codec.{encode, decode-encode, encode-IsSafe, IsSafe, is_plain}
use sunet.Http.Desc.{set_param, set_params}

-- What a client may write in a key: no byte that the parser cuts at.
abbrev pub IsKeyByte : ℕ → Type 0
IsKeyByte c =
    (c ≢ b'=') × (c ≢ b'&') × (c ≢ b'\t') × (c ≢ b'?') × (c ≢ b' ') × (c ≢ b'\r') × (c ≢ 0)

abbrev pub IsParam : Bytes × Bytes → Type 0
IsParam p = All IsKeyByte p.0 × AreBytes p.1

unfoldable pub write_param : Bytes × Bytes → Bytes
write_param p = p.0 ++ b'=' ∷ encode p.1

unfoldable pub write_query : List (Bytes × Bytes) → Bytes
write_query ps = join b'&' (map write_param ps)

safe_ne : (c : ℕ) → IsSafe c → IsKeyByte c
unfolding is_plain
safe_ne c h = ground arith

-- The last byte of a text is not a byte that the text lacks.
pub last-ne : (d : ℕ) (s : Bytes) → d ≢ 0 → Lacks d s → last_byte s ≢ d
unfolding last_byte
last-ne d [] z h = λ e. z (sym e)
last-ne d (c ∷ []) z h = h.0
last-ne d (c ∷ b ∷ s) z h = last-ne d (b ∷ s) z h.1

module _ (P : ℕ → Type 0) (key : (c : ℕ) → IsKeyByte c → P c) where
  value-All : (v : Bytes) → AreBytes v → All P (encode v)
  value-All v h = All-weaken IsSafe P (λ c s. key c (safe_ne c s)) (encode v) (encode-IsSafe v h)

  key-All : (k : Bytes) → All IsKeyByte k → All P k
  key-All = All-weaken IsKeyByte P key

  param-All : P b'=' → (p : Bytes × Bytes) → IsParam p → All P (write_param p)
  unfolding write_param
  param-All eq p h = All-append P p.0 (b'=' ∷ encode p.1) (key-All p.0 h.0) (eq, value-All p.1 h.1)

  params-All :
      P b'=' → (ps : List (Bytes × Bytes)) → All IsParam ps → All (All P) (map write_param ps)
  params-All eq [] h = tt
  params-All eq (p ∷ ps) h = (param-All eq p h.0, params-All eq ps h.1)

  -- What no byte of a key and no delimiter breaks holds of the whole query.
  pub write_query-All :
      P b'=' → P b'&' → (ps : List (Bytes × Bytes)) → All IsParam ps → All P (write_query ps)
  unfolding write_query
  write_query-All eq amp ps h = join-All b'&' P (map write_param ps) amp (params-All eq ps h)

abbrev no_eq : (c : ℕ) → IsKeyByte c → c ≢ b'='
no_eq c k = k.0

abbrev no_amp : (c : ℕ) → IsKeyByte c → c ≢ b'&'
no_amp c k = k.1

abbrev no_tab : (c : ℕ) → IsKeyByte c → c ≢ b'\t'
no_tab c k = k.2

pub write_query-Lacks_tab :
    (ps : List (Bytes × Bytes)) → All IsParam ps → Lacks b'\t' (write_query ps)
write_query-Lacks_tab = write_query-All (λ c. c ≢ b'\t') no_tab (omega arith) (omega arith)

module _ (p : Bytes × Bytes) (h : IsParam p) where
  param-split : split (write_param p) (codes "=") ≡ p.0 ∷ encode p.1 ∷ []
  unfolding write_param
  param-split =
      split_pair b'=' p.0 (encode p.1) (key-All _ no_eq p.0 h.0) (value-All _ no_eq p.1 h.1)
        (last-ne b'\t' (write_param p) (omega arith) (param-All _ no_tab (omega arith) p h))

  pub set_param_lem :
      (r : Request) → set_param (write_param p) r ≡ ok (record r { params = put p.0 p.1 r.params })
  unfolding set_param
  set_param_lem r = rw (param-split, set_param, decode-encode p.1 h.1)

set_params_lem :
    (ps : List (Bytes × Bytes)) (r : Request)
    → All IsParam ps
    → set_params (map write_param ps) r ≡ ok (record r { params = put_all ps r.params })
unfolding set_params put_all
set_params_lem [] r h = refl
set_params_lem (p ∷ ps) r h =
    rw (set_param_lem p h.0 r) (set_params_lem ps (record r { params = put p.0 p.1 r.params }) h.1)

write_param-ne-nil : (p : Bytes × Bytes) → write_param p ≢ []
unfolding write_param
write_param-ne-nil p = append-ne-nil p.0 b'=' (encode p.1)

split-write_query :
    (ps : List (Bytes × Bytes))
    → All IsParam ps
    → split (write_query ps) (codes "&") ≡ map write_param ps
unfolding write_query
split-write_query [] h = unfold split join in refl
split-write_query (p ∷ ps) h =
    split-join b'&' (write_param p) (map write_param ps)
      (params-All _ no_amp (omega arith) (p ∷ ps) h)
      (join-ne-nil b'&' (write_param p) (map write_param ps) (write_param-ne-nil p))
      (last-ne b'\t' _ (omega arith) (
        join-All b'&' _ (map write_param (p ∷ ps)) (omega arith)
          (params-All _ no_tab (omega arith) (p ∷ ps) h)))

-- Parsing a query that was written from well-formed parameters stores every one, in order, with
-- its value decoded.
pub set_params-write_query :
    (ps : List (Bytes × Bytes)) (r : Request)
    → All IsParam ps
    → set_params (split (write_query ps) (codes "&")) r
      ≡ ok (record r { params = put_all ps r.params })
set_params-write_query ps r h = rw (split-write_query ps h) (set_params_lem ps r h)
