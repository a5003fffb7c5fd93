-- ===== src/Http/Tests.antt =====
-- Runs of http/http_parse.cpp.
use sunet.Base.{
  ◌≡◌, refl, List, [], ◌∷◌, ◌++◌, Bytes, codes, arith, put_all, All, bytes_order, take,
}
use sunet.Http.{Request, ok, fault, overrun}
use sunet.Http.Codec.{encode, decode, decode-encode}
use sunet.Http.Desc.{is_upper}
use sunet.Http.Headers.{parse}
use sunet.Http.Query.{IsParam, write_query}
use sunet.Http.RequestLine.{line_text, IsLineByte, IsUpper}
use sunet.Http.Version.{IsUrlByte}
use sunet.Http.HeaderLines.{IsHeader, header_lines, blank}
use sunet.Http.Partial.{parse_cut_url, parse_cut_headers}
use sunet.Http.Whole.{parse-line_text, parse-query}

abbrev blank_request : Request
blank_request = record { url = []; method = []; version = []; headers = []; params = [] }

abbrev headers : List (Bytes × Bytes)
headers = (codes "h", codes "v") ∷ []

abbrev query : List (Bytes × Bytes)
query = (codes "q", codes "a b") ∷ []

headers-IsHeader : All IsHeader headers
headers-IsHeader = ground arith

query-IsParam : All IsParam query
query-IsParam = ground arith

get-IsUpper : All IsUpper (codes "GET")
unfolding is_upper
get-IsUpper = (refl, (refl, (refl, tt)))

url-IsUrlByte : All IsUrlByte (codes "/s")
url-IsUrlByte = ground arith

version-IsLineByte : All IsLineByte (codes "H1")
version-IsLineByte = ground arith

decode-encode_example : decode (encode (codes "a b")) ≡ ok (codes "a b")
decode-encode_example = decode-encode (codes "a b") (omega arith, (omega arith, (omega arith, tt)))

parse-line_text_example :
    parse
      (line_text
          (codes "GET")
          (codes "/s")
          (codes "H1")
          (b'\n' ∷ (header_lines headers ++ blank []))
        ++ 0 ∷ [])
      blank_request
    ≡ ok (record {
      method = codes "GET";
      url = codes "/s";
      version = codes "H1";
      headers = put_all headers [];
      params = [];
    })
parse-line_text_example =
    parse-line_text (codes "GET") (codes "/s") (codes "H1") [] [] headers get-IsUpper url-IsUrlByte
      version-IsLineByte tt (λ p. cc p) headers-IsHeader blank_request (λ p. cc p)

parse-query_example :
    parse
      (line_text
          (codes "GET")
          (codes "/s" ++ b'?' ∷ write_query query)
          (codes "H1")
          (b'\n' ∷ (header_lines headers ++ blank []))
        ++ 0 ∷ [])
      blank_request
    ≡ ok (record {
      method = codes "GET";
      url = codes "/s";
      version = take 2 (
          write_query query
          ++ b' ' ∷ (codes "H1" ++ b'\r' ∷ b'\n' ∷ (header_lines headers ++ blank [])));
      headers = put_all headers [];
      params = put_all query [];
    })
parse-query_example =
    parse-query (codes "GET") (codes "/s") (codes "H1") [] [] headers get-IsUpper url-IsUrlByte
      version-IsLineByte tt (λ p. cc p) headers-IsHeader blank_request query query-IsParam

cut_url-IsLineByte : All IsLineByte (codes "/search")
cut_url-IsLineByte = ground arith

-- "GET /search", and four bytes of a buffer that was cleared.
parse_cut_url_example :
    parse ((codes "GET" ++ b' ' ∷ codes "/search") ++ 0 ∷ 0 ∷ 0 ∷ 0 ∷ []) blank_request
    ≡ fault overrun
parse_cut_url_example =
    parse_cut_url (codes "GET") (codes "/search") (0 ∷ 0 ∷ 0 ∷ []) blank_request get-IsUpper
      cut_url-IsLineByte (ground arith)

-- One header, and the start of a second.
parse_cut_headers_example :
    parse
      (line_text
          (codes "GET")
          (codes "/s")
          (codes "H1")
          (b'\n' ∷ (header_lines headers ++ codes "Ho"))
        ++ 0 ∷ 0 ∷ [])
      blank_request
    ≡ fault overrun
parse_cut_headers_example =
    parse_cut_headers (codes "GET") (codes "/s") (codes "H1") (codes "Ho") (0 ∷ []) headers
      blank_request get-IsUpper url-IsUrlByte version-IsLineByte (λ p. cc p) (λ p. cc p)
      headers-IsHeader (ground arith) (omega arith, tt)
