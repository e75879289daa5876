-- ===== src/Dns.antt =====
-- include/neustack/app/dns_client.hpp and src/app/dns_client.cpp: the messages of the DNS client.
-- A name is the list of its bytes. A read behind the end of the data gives `outside`.
pub mod Walk
pub mod Inside
pub mod Names
pub mod Client
use neu_stack.Common.{
  ℕ, zero, suc, ◌+◌, ◌-◌, ◌*◌, ◌/◌, ◌%◌, ◌^◌, Bool, true, false, ◌&&◌, ◌||◌, Option, none, some,
  List, [], ◌∷◌, ◌++◌, length, get_or, take, drop, ltb, leb, ◌==◌, if◌then◌else◌,
}
use neu_stack.Segment.{be16}
use neu_stack.Http.Text.{Bytes, find_byte}

-- enum class DNSType: the values that the code tests.
abbrev pub dns_a : ℕ
dns_a = 1

abbrev pub dns_ns : ℕ
dns_ns = 2

abbrev pub dns_cname : ℕ
dns_cname = 5

-- The variant `data` of DNSRecord.
pub data RecordData : Type 0 where
  ipv4 : ℕ → RecordData
  domain : Bytes → RecordData
  raw : Bytes → RecordData

-- struct DNSRecord
pub record DnsRecord : Type 0 where
  pub name : Bytes
  pub type : ℕ
  pub cls : ℕ
  pub ttl : ℕ
  pub value : RecordData

-- DNSRecord::as_ipv4
abbrev pub as_ipv4 : RecordData → Option ℕ
as_ipv4 (ipv4 ip) = some ip
as_ipv4 (domain name) = none
as_ipv4 (raw bytes) = none

-- DNSRecord::as_name
abbrev pub as_name : RecordData → Option Bytes
as_name (ipv4 ip) = none
as_name (domain name) = some name
as_name (raw bytes) = none

-- struct DNSResponse; the two lists that parse_response never fills are left out.
pub record DnsResponse : Type 0 where
  pub id : ℕ
  pub rcode : ℕ
  pub answers : List DnsRecord

-- DNSResponse::get_ip, on the answers.
unfoldable pub get_ip : List DnsRecord → Option ℕ
get_ip [] = none
get_ip (ans ∷ rest) = if ans.type == dns_a then as_ipv4 ans.value else get_ip rest

-- A label behind its length.
abbrev pub encode_label : Bytes → Bytes
encode_label label = (if ltb 63 (length label) then 63 else length label) ∷ label

-- The loop of encode_name, on what is left of the name: each round takes a byte at least.
unfoldable pub encode_labels : ℕ → Bytes → Bytes
encode_labels zero rest = []
encode_labels (suc fuel) [] = []
encode_labels (suc fuel) (c ∷ cs) = elim (find_byte 46 (c ∷ cs)) [
  | none ↦ encode_label (c ∷ cs)
  | some end ↦ encode_label (take end (c ∷ cs)) ++ encode_labels fuel (drop (end + 1) (c ∷ cs))
]

-- DNSClient::encode_name
unfoldable pub encode_name : Bytes → Bytes
encode_name name = encode_labels (length name) name ++ (0 ∷ [])

-- The header of a query.
abbrev pub query_header : ℕ → Bytes
query_header id = be16 id ++ (be16 0x0100 ++ (be16 1 ++ (be16 0 ++ (be16 0 ++ be16 0))))

-- DNSClient::build_query
unfoldable pub build_query : ℕ → Bytes → ℕ → Bytes
build_query id hostname type = query_header id ++ (encode_name hostname ++ (be16 type ++ be16 1))

-- The variables of the loop in decode_name.
pub record NameState : Type 0 where
  pub offset : ℕ
  pub result : Bytes
  pub first : Bool
  pub jumps : ℕ
  pub original_offset : ℕ
  pub jumped : Bool

-- A round of the loop: it is left, or it goes on.
pub data NameRound : Type 0 where
  stop : NameState → NameRound
  again : NameState → NameRound

abbrev pub name_start : ℕ → NameState
name_start offset = record {
  offset = offset;
  result = [];
  first = true;
  jumps = 0;
  original_offset = offset;
  jumped = false;
}

module _ (outside : ℕ) (data' : Bytes) where
  -- `data[i]`
  abbrev pub at : ℕ → ℕ
  at i = get_or data' i outside

  abbrev pub at16 : ℕ → ℕ
  at16 i = at i * 256 + at (i + 1)

  abbrev pub at32 : ℕ → ℕ
  at32 i = at16 i * 2 ^ 16 + at16 (i + 2)

  -- A copy of some bytes from an offset on; each of them is read.
  unfoldable pub copied : ℕ → ℕ → Bytes
  copied i zero = []
  copied i (suc n) = at i ∷ copied (i + 1) n

  -- A pointer: `((label_len & 0x3F) << 8) | data[offset + 1]`.
  unfoldable pub follow : NameState → NameRound
  follow s =
      let s' = record s {
        original_offset = (if s.jumped then s.original_offset else s.offset + 2);
        jumped = true;
        offset = at s.offset % 64 * 256 + at (s.offset + 1);
        jumps = s.jumps + 1;
      } in
      if leb (length data') (s.offset + 1)
      then stop s
      else if ltb 10 s'.jumps
      then stop s'
      else again s'

  -- A label of some bytes, behind its length.
  unfoldable pub read_label : ℕ → NameState → NameRound
  read_label size s =
      let begun = record s { offset = s.offset + 1 } in
      if ltb (length data') (s.offset + 1 + size)
      then stop begun
      else again (record s {
        result =
            (if s.first then s.result else s.result ++ (46 ∷ [])) ++ copied (s.offset + 1) size;
        first = false;
        offset = s.offset + 1 + size;
      })

  -- The body of the loop; `(label_len & 0xC0) == 0xC0` says that a byte is at least 0xC0.
  unfoldable pub name_round : NameState → NameRound
  unfolding follow read_label
  name_round s =
      if leb 0xC0 (at s.offset)
      then follow s
      else if at s.offset == 0
      then stop (record s { offset = s.offset + 1 })
      else read_label (at s.offset) s

  -- The loop; `none` says that the rounds did not suffice.
  unfoldable pub name_loop : ℕ → NameState → Option NameState
  name_loop zero s = none
  name_loop (suc fuel) s = elim (leb (length data') s.offset) [
    | true ↦ some s
    | false ↦ elim (name_round s) [ stop t ↦ some t | again t ↦ name_loop fuel t ]
  ]

  -- Between two of the jumps, eleven at most, the offset grows.
  abbrev pub name_rounds : ℕ
  name_rounds = 12 * (length data' + 1)

  -- DNSClient::decode_name: the name, and the offset behind it.
  unfoldable pub decode_name : ℕ → Bytes × ℕ
  decode_name offset = elim (name_loop name_rounds (name_start offset)) [
    | none ↦ ([], offset)
    | some s ↦ (s.result, if s.jumped then s.original_offset else s.offset)
  ]

  -- The loop over the questions: the offset behind them.
  unfoldable pub skip_questions : ℕ → ℕ → ℕ
  skip_questions zero offset = offset
  skip_questions (suc count) offset = elim (ltb offset (length data')) [
    | true ↦ skip_questions count ((decode_name offset).1 + 4)
    | false ↦ offset
  ]

  -- The data of a record.
  unfoldable pub record_data : ℕ → ℕ → ℕ → RecordData
  record_data type rdlength offset =
      if type == dns_a && rdlength == 4
      then ipv4 (at32 offset)
      else if type == dns_cname || type == dns_ns
      then domain (decode_name offset).0
      else raw (copied offset rdlength)

  -- The rest of an answer behind its type, class, time to live and length.
  unfoldable pub answer_fields : Bytes → ℕ → ℕ → ℕ → Option (DnsRecord × ℕ)
  answer_fields name offset type rdlength =
      if ltb (length data') (offset + 10 + rdlength)
      then none
      else some (
        record {
          name = name;
          type = type;
          cls = at16 (offset + 2);
          ttl = at32 (offset + 4);
          value = record_data type rdlength (offset + 10);
        },
        offset + 10 + rdlength,
      )

  -- An answer behind its name.
  unfoldable pub answer_from : Bytes → ℕ → Option (DnsRecord × ℕ)
  answer_from name offset =
      if ltb (length data') (offset + 10)
      then none
      else answer_fields name offset (at16 offset) (at16 (offset + 8))

  -- An answer and the offset behind it; `none` leaves the loop.
  unfoldable pub read_answer : ℕ → Option (DnsRecord × ℕ)
  unfolding answer_from answer_fields record_data
  read_answer start = let named = decode_name start in answer_from named.0 named.1

  -- The loop over the answers.
  unfoldable pub read_answers : ℕ → ℕ → List DnsRecord
  read_answers zero offset = []
  read_answers (suc count) offset = elim (ltb offset (length data')) [
    | true ↦ elim (read_answer offset) [
      | none ↦ []
      | some (answer, next) ↦ answer ∷ read_answers count next
    ]
    | false ↦ []
  ]

  -- DNSClient::parse_response; the bit 0x8000 of the flags says that it is a response.
  unfoldable pub parse_response : Option DnsResponse
  parse_response =
      if ltb (length data') 12
      then none
      else if ltb (at16 2) 0x8000
      then none
      else some record {
        id = at16 0;
        rcode = at16 2 % 16;
        answers = read_answers (at16 6) (skip_questions (at16 4) 12);
      }
