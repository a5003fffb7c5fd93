-- ===== src/Http.antt =====
-- http/http_parse.h and http/http_parse.cpp: `Request` and `HttpParser`.
-- A buffer is the bytes of its allocation, the terminating zero included. A read past its end is
-- `overrun`, and the exception of `std::string::assign` past the end of its text `out_of_range`.
pub mod Codec
pub mod Desc
pub mod Headers
pub mod CString
pub mod Scan
pub mod Query
pub mod RequestLine
pub mod Version
pub mod HeaderLines
pub mod HeaderLoop
pub mod Partial
pub mod Whole
mod Tests
use sunet.Base.{
  ℕ, zero, suc, ◌+◌, ◌-◌, ◌*◌, ◌/◌, ◌%◌, Bool, true, false, not, ◌&&◌, ◌||◌, List, [], ◌∷◌, ◌++◌,
  Option, none, some, ltb, leb, ◌==◌, if◌then◌else◌, Bytes, codes, length, get_elem?, take, drop,
  find, put, bytes_order,
}
use sunet.Base.Int.{ℤ, pos, negsuc}
use sunet.Base.Number.{atoi}
use sunet.Util.{split}

pub data Fault : Type 0 where
  overrun out_of_range : Fault

pub data Result {ℓ} (A : Type ℓ) : Type ℓ where
  ok : A → Result A
  fault : Fault → Result A

infixl 5 ◌>>=◌
abbrev pub ◌>>=◌ {ℓ κ} : {A : Type ℓ} {B : Type κ} → Result A → (A → Result B) → Result B
ok a >>= f = f a
fault e >>= f = fault e

abbrev pub Params : Type 0
Params = List (Bytes × Bytes)

pub record Request : Type 0 where
  pub url : Bytes
  pub method : Bytes
  pub version : Bytes
  pub headers : Params
  pub params : Params

-- The constructor: `params["q"] = ""; params["p"] = "1";`
unfoldable pub new_request : Request
new_request = record {
  url = [];
  method = [];
  version = [];
  headers = [];
  params = put (codes "p") (codes "1") (put (codes "q") [] []);
}

-- `none` is the dereference of `params.end()`.
unfoldable pub get_query : Request → Option Bytes
get_query r = find (codes "q") r.params

unfoldable pub get_page : Request → ℤ
get_page r = elim (find (codes "p") r.params) [ none ↦ pos 1 | some v ↦ atoi v ]

unfoldable pub to_str : Request → Bytes
to_str r =
    codes "url: "
    ++ (r.url
        ++ (codes ".\n"
            ++ (codes "method: "
                ++ (r.method
                    ++ (codes ".\n" ++ (codes "version: " ++ (r.version ++ codes ".\n")))))))

-- `std::string::assign(recv_buf, pos, n)`: the C string becomes a `std::string`, then its part.
unfoldable pub c_str : Bytes → Result Bytes
c_str [] = fault overrun
c_str (c ∷ s) = elim (c == 0) [ true ↦ ok [] | false ↦ (do t ← c_str s; ok (c ∷ t)) ]

unfoldable pub assign : Bytes → ℕ → ℕ → Result Bytes
assign buf at n = do
  s ← c_str buf
  if ltb (length s) at then fault out_of_range else ok (take n (drop at s))
