-- ===== src/Dns/Answers.antt =====
-- The reading of a response ends, and an address is taken from an A record of it only.
use oig_proxy.Common.{
  ℕ, zero, suc, ◌+◌, ◌≤◌, ◌<◌, ◌≡◌, refl, inl, inr, true, none, some, [], ◌∷◌, arith, nat_beq_iff,
  ltb, length, take, drop, Option-cases, Bool-cases,
}
use oig_proxy.Frame.Crc.{Bytes}
use oig_proxy.Dns.{
  byte_at, skip_dns_name, word, skip_questions, is_address_record, find_answer, read_response,
}

byte_at-lt : (o : ℕ) (bs : Bytes) (b : ℕ) → byte_at o bs ≡ some b → o < length bs
unfolding byte_at
byte_at-lt o [] b h = absurd (ground arith)
byte_at-lt zero (c ∷ bs) b h = omega arith
byte_at-lt (suc o) (c ∷ bs) b h = omega (arith, byte_at-lt o bs b h)

byte_at-none : (o : ℕ) (bs : Bytes) → length bs ≤ o → byte_at o bs ≡ none
unfolding byte_at
byte_at-none o [] h = refl
byte_at-none zero (c ∷ bs) h = absurd (omega (arith, h))
byte_at-none (suc o) (c ∷ bs) h = byte_at-none o bs (omega (arith, h))

-- Fuel for the bytes that are left is enough to skip a name: more changes nothing. The skipping
-- never goes back.
pub skip_dns_name_lem :
    (fuel fuel' offset : ℕ) (response : Bytes)
    → length response ≤ fuel + offset
    → fuel ≤ fuel'
    → (skip_dns_name fuel' offset response ≡ skip_dns_name fuel offset response)
      × (offset ≤ skip_dns_name fuel offset response)
unfolding skip_dns_name
skip_dns_name_lem zero zero offset response h le = (refl, omega arith)
skip_dns_name_lem zero (suc fuel') offset response h le =
    ground (arith, byte_at-none offset response (omega (arith, h)))
skip_dns_name_lem (suc fuel) zero offset response h le = absurd (omega (arith, le))
skip_dns_name_lem (suc fuel) (suc fuel') offset response h le =
    elim (Option-cases (byte_at offset response)) [
      | inl e ↦ ground (arith, e)
      | inr (n, e) ↦
          ground
            (arith, e, skip_dns_name_lem fuel fuel' (offset + (n + 1)) response (omega (arith, h)))
    ]

-- An A record of the response: its fixed part at `o`, and its address of four bytes.
abbrev pub FromRecord : Bytes → Bytes → Type 0
FromRecord ip response =
    (o : ℕ) × (o + 14 ≤ length response)
    × (word (drop o response) ≡ 1)
    × (word (drop (o + 8) response) ≡ 4)
    × (ip ≡ take 4 (drop (o + 10) response))

is_address_record-parts :
    (o : ℕ) (response : Bytes)
    → is_address_record o response ≡ true
    → (o + 14 ≤ length response) × (word (drop o response) ≡ 1) × (word (drop (o + 8) response) ≡ 4)
unfolding is_address_record
is_address_record-parts o response h =
    ground
      (arith, nat_beq_iff (word (drop o response)) 1, nat_beq_iff (word (drop (o + 8) response)) 4)

find_answer-FromRecord :
    (n offset : ℕ) (response ip : Bytes)
    → find_answer n offset response ≡ some ip
    → FromRecord ip response
unfolding find_answer
find_answer-FromRecord zero offset response ip h = absurd (ground arith)
find_answer-FromRecord (suc n) offset response ip h =
    let o = skip_dns_name (length response) offset response in
    elim (Bool-cases (ltb (length response) (o + 10))) [
      | inl e ↦ absurd (ground (arith, e))
      | inr e ↦ elim (Bool-cases (is_address_record o response)) [
        | inl r ↦
            let (inside, rtype, rdlen) = is_address_record-parts o response r in
            (o, inside, rtype, rdlen, ground (arith, e, r))
        | inr r ↦
            find_answer-FromRecord n (o + (10 + word (drop (o + 8) response))) response ip
              (ground (arith, e, r))
      ]
    ]

-- An address that is read is that of an A record that lies wholly within a response of at least
-- twelve bytes that carries the id of the query and announces an answer.
pub read_response-FromRecord :
    (query_id : ℕ) (response ip : Bytes)
    → read_response query_id response ≡ some ip
    → (12 ≤ length response)
      × (word response ≡ query_id)
      × (1 ≤ word (drop 6 response))
      × FromRecord ip response
unfolding read_response
read_response-FromRecord query_id response ip h = ground (
  arith,
  nat_beq_iff (word response) query_id,
  find_answer-FromRecord (word (drop 6 response))
      (skip_questions (word (drop 4 response)) 12 response) response ip,
)
