-- ===== src/Dns.antt =====
-- proxy/dns_resolve.py: an A query to one DNS server, and the reading of its response. The socket
-- and the test for a dotted address are parameters.
pub mod Answers
use Prim.Native.Nat.{bit_and}
use oig_proxy.Common.{
  ℕ, zero, suc, ◌+◌, ◌*◌, ◌/◌, ◌%◌, Bool, not, ◌&&◌, Option, none, some, List, [], ◌∷◌, ◌++◌,
  nat_beq, leb, ltb, length, take, drop, any, Text, if◌then◌else◌,
}
use oig_proxy.Common.Decimal.{show_nat}
use oig_proxy.Frame.Crc.{Bytes}

unfoldable pub byte_at : ℕ → Bytes → Option ℕ
byte_at o [] = none
byte_at zero (b ∷ bs) = some b
byte_at (suc o) (b ∷ bs) = byte_at o bs

-- `_skip_dns_name`: the `while` on fuel, of which the length of the data is enough.
unfoldable pub skip_dns_name : ℕ → ℕ → Bytes → ℕ
unfolding byte_at
skip_dns_name zero offset response = offset
skip_dns_name (suc fuel) offset response = elim (byte_at offset response) [
  | none ↦ offset
  | some n ↦
      let rest = skip_dns_name fuel (offset + (n + 1)) response in
      if nat_beq n 0 then offset + 1 else if nat_beq (bit_and n 0xc0) 0xc0 then offset + 2 else rest
]

-- `struct.unpack(">H", …)`; it is asked only where there are two bytes.
unfoldable pub word : Bytes → ℕ
word [] = 0
word (a ∷ []) = 0
word (a ∷ b ∷ r) = a * 256 + b

unfoldable pub skip_questions : ℕ → ℕ → Bytes → ℕ
unfolding skip_dns_name
skip_questions zero offset response = offset
skip_questions (suc n) offset response =
    skip_questions n (skip_dns_name (length response) offset response + 4) response

-- The record whose fixed part stands at `offset` is an A record with its address within the
-- response.
unfoldable pub is_address_record : ℕ → Bytes → Bool
unfolding word
is_address_record offset response =
    nat_beq (word (drop offset response)) 1
    && nat_beq (word (drop (offset + 8) response)) 4
    && leb (offset + 14) (length response)

-- The address of the first A record among the answers.
unfoldable pub find_answer : ℕ → ℕ → Bytes → Option Bytes
unfolding skip_dns_name is_address_record word
find_answer zero offset response = none
find_answer (suc n) offset response =
    let o = skip_dns_name (length response) offset response in
    let rest = find_answer n (o + (10 + word (drop (o + 8) response))) response in
    if ltb (length response) (o + 10)
    then none
    else if is_address_record o response
    then some (take 4 (drop (o + 10) response))
    else rest

-- The part of `resolve_a_record` behind the socket.
unfoldable pub read_response : ℕ → Bytes → Option Bytes
unfolding word find_answer skip_questions
read_response query_id response =
    let ancount = word (drop 6 response) in
    if ltb (length response) 12
    then none
    else if not (nat_beq (word response) query_id)
    then none
    else if nat_beq ancount 0
    then none
    else find_answer ancount (skip_questions (word (drop 4 response)) 12 response) response

-- `inet_ntoa`
unfoldable pub dotted : Bytes → Text
unfolding show_nat
dotted [] = []
dotted (b ∷ []) = show_nat b
dotted (b ∷ c ∷ r) = show_nat b ++ b'.' ∷ dotted (c ∷ r)

-- `rstrip(".")`
unfoldable pub strip_dots : Text → Text
strip_dots [] = []
strip_dots (c ∷ s) =
    let rest = strip_dots s in
    elim rest [ [] ↦ if nat_beq c b'.' then [] else c ∷ [] | d ∷ r ↦ c ∷ d ∷ r ]

-- `split(".")`: the first label, and the others
unfoldable pub split_dots : Text → Text × List Text
split_dots [] = ([], [])
split_dots (c ∷ s) =
    let (label, others) = split_dots s in
    if nat_beq c b'.' then ([], label ∷ others) else (c ∷ label, others)

-- None stands for the error that a label raises that is not of ASCII or is too long for its
-- length to be a byte.
unfoldable pub encode_labels : List Text → Option Bytes
encode_labels [] = some []
encode_labels (l ∷ ls) =
    let rest = encode_labels ls in
    if any (λ c. leb 128 c) l
    then none
    else if ltb 255 (length l)
    then none
    else elim rest [ none ↦ none | some bs ↦ some (length l ∷ l ++ bs) ]

unfoldable pub query_packet : ℕ → Text → Option Bytes
unfolding strip_dots split_dots encode_labels
query_packet query_id hostname =
    let (label, others) = split_dots (strip_dots hostname) in
    elim (encode_labels (label ∷ others)) [
      | none ↦ none
      | some question ↦ some (
          query_id / 256 ∷ query_id % 256 ∷ 1 ∷ 0 ∷ 0 ∷ 1 ∷ 0 ∷ 0 ∷ 0 ∷ 0 ∷ 0 ∷ 0 ∷ question
          ++ 0 ∷ 0 ∷ 1 ∷ 0 ∷ 1 ∷ [])
    ]

-- What a call returns; `raises` is the error of a label.
pub data Resolved : Type 0 where
  address : Text → Resolved
  nothing raises : Resolved

-- `is_address` is the success of `inet_aton`; `ask` sends the packet and is none on an OSError.
unfoldable pub resolve_a_record :
    (is_address : Text → Bool) (ask : Bytes → Option Bytes) (query_id : ℕ) → Text → Resolved
unfolding query_packet read_response dotted
resolve_a_record is_address ask query_id hostname =
    if is_address hostname then address hostname else elim (query_packet query_id hostname) [
      | none ↦ raises
      | some packet ↦ elim (ask packet) [
        | none ↦ nothing
        | some response ↦ elim (read_response query_id response) [
          | none ↦ nothing
          | some ip ↦ address (dotted ip)
        ]
      ]
    ]
