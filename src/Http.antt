-- ===== src/Http.antt =====
-- include/neustack/app/http_types.hpp, src/app/http_types.cpp and
-- include/neustack/common/string_utils.hpp: HTTP requests and responses as values, and the helpers
-- on strings. A string is the list of its bytes. An unordered_map is an association list; `order`
-- gives the order in which it is iterated.
pub mod Text
pub mod Parser
pub mod Server
use neu_stack.Common.{
  ℕ, ◌+◌, ◌-◌, ◌%◌, ◌^◌, Bool, true, false, ◌&&◌, ◌||◌, Option, none, some, List, [], ◌∷◌, ◌++◌,
  leb, ◌==◌, if◌then◌else◌,
}
use neu_stack.Common.Maps.{find_key, put_key}
use Text.{Bytes, codes, bytes_eq, print_nat}

-- enum class HttpMethod
pub data HttpMethod : Type 0 where
  get post put delete head options unknown : HttpMethod

abbrev pub Headers : Type 0
Headers = List (Bytes × List Bytes)

-- struct HttpRequest
pub record HttpRequest : Type 0 where
  pub method : HttpMethod
  pub path : Bytes
  pub version : Bytes
  pub raw_query : Bytes
  pub query_params : List (Bytes × Bytes)
  pub headers : Headers
  pub body : Bytes

-- struct HttpResponse; the status is its number.
pub record HttpResponse : Type 0 where
  pub status : ℕ
  pub headers : Headers
  pub body : Bytes

abbrev pub empty_request : HttpRequest
empty_request = record {
  method = unknown;
  path = [];
  version = [];
  raw_query = [];
  query_params = [];
  headers = [];
  body = [];
}

abbrev pub empty_response : HttpResponse
empty_response = record { status = 200; headers = []; body = [] }

unfoldable pub http_method_name : HttpMethod → Bytes
http_method_name get = codes "GET"
http_method_name post = codes "POST"
http_method_name put = codes "PUT"
http_method_name delete = codes "DELETE"
http_method_name head = codes "HEAD"
http_method_name options = codes "OPTIONS"
http_method_name unknown = codes "UNKNOWN"

unfoldable pub parse_http_method : Bytes → HttpMethod
parse_http_method method =
    if bytes_eq method (codes "GET")
    then get
    else if bytes_eq method (codes "POST")
    then post
    else if bytes_eq method (codes "PUT")
    then put
    else if bytes_eq method (codes "DELETE")
    then delete
    else if bytes_eq method (codes "HEAD")
    then head
    else if bytes_eq method (codes "OPTIONS")
    then options
    else unknown

unfoldable pub http_status_text : ℕ → Bytes
http_status_text status =
    if status == 200
    then codes "OK"
    else if status == 201
    then codes "Created"
    else if status == 204
    then codes "No Content"
    else if status == 301
    then codes "Moved Permanently"
    else if status == 302
    then codes "Found"
    else if status == 400
    then codes "Bad Request"
    else if status == 401
    then codes "Unauthorized"
    else if status == 403
    then codes "Forbidden"
    else if status == 404
    then codes "Not Found"
    else if status == 405
    then codes "Method Not Allowed"
    else if status == 500
    then codes "Internal Server Error"
    else if status == 501
    then codes "Not Implemented"
    else if status == 503
    then codes "Service Unavailable"
    else codes "Unknown"

-- `headers[key].push_back(value)`: add_header
unfoldable pub add_header : Bytes → Bytes → Headers → Headers
add_header key value headers = elim (find_key bytes_eq key headers) [
  | none ↦ put_key bytes_eq key (value ∷ []) headers
  | some values ↦ put_key bytes_eq key (values ++ (value ∷ [])) headers
]

-- HttpResponse::set_header
unfoldable pub set_header : Bytes → Bytes → HttpResponse → HttpResponse
set_header key value r = record r { headers = put_key bytes_eq key (value ∷ []) r.headers }

unfoldable pub content_type : Bytes → HttpResponse → HttpResponse
content_type type r = set_header (codes "Content-Type") type r

unfoldable pub set_body : Bytes → HttpResponse → HttpResponse
set_body content r =
    set_header (codes "Content-Length") (print_nat (Text.size content))
      (record r { body = content })

-- HttpRequest::get_header
unfoldable pub get_header : Bytes → HttpRequest → Bytes
get_header key r = elim (find_key bytes_eq key r.headers) [
  | none ↦ []
  | some [] ↦ []
  | some (v ∷ rest) ↦ v
]

unfoldable pub get_headers : Bytes → HttpRequest → List Bytes
get_headers key r = elim (find_key bytes_eq key r.headers) [ none ↦ [] | some values ↦ values ]

unfoldable pub has_header : Bytes → HttpRequest → Bool
has_header key r = elim (find_key bytes_eq key r.headers) [ none ↦ false | some values ↦ true ]

unfoldable pub query_param : Bytes → HttpRequest → Bytes
query_param key r = elim (find_key bytes_eq key r.query_params) [ none ↦ [] | some v ↦ v ]

abbrev pub crlf : Bytes
crlf = 13 ∷ 10 ∷ []

-- A line for each of the values under a key.
abbrev pub value_lines : Bytes → List Bytes → Bytes
value_lines key [] = []
value_lines key (value ∷ rest) = key ++ (codes ": " ++ (value ++ (crlf ++ value_lines key rest)))

abbrev pub header_lines : Headers → Bytes
header_lines [] = []
header_lines ((key, values) ∷ rest) = value_lines key values ++ header_lines rest

module _ (order : Headers → Headers) where
  -- HttpRequest::serialize
  unfoldable pub serialize_request : HttpRequest → Bytes
  serialize_request r =
      http_method_name r.method
      ++ (codes " "
          ++ (r.path
              ++ (codes " "
                  ++ ((if bytes_eq r.version [] then codes "HTTP/1.1" else r.version)
                      ++ (crlf ++ (header_lines (order r.headers) ++ (crlf ++ r.body)))))))

  -- HttpResponse::serialize
  unfoldable pub serialize_response : HttpResponse → Bytes
  serialize_response r =
      codes "HTTP/1.1 "
      ++ (print_nat r.status
          ++ (codes " "
              ++ (http_status_text r.status
                  ++ (crlf ++ (header_lines (order r.headers) ++ (crlf ++ r.body))))))
