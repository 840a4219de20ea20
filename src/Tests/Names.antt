-- ===== src/Tests/Names.antt =====
-- A concrete DNS response.
use oig_proxy.Common.{◌≡◌, ◌≤◌, refl, some, [], ◌∷◌, arith, length, drop}
use oig_proxy.Frame.Crc.{Bytes}
use oig_proxy.Dns.{skip_dns_name, word, read_response}
use oig_proxy.Dns.Answers.{FromRecord, skip_dns_name_lem, read_response-FromRecord}

abbrev response : Bytes
response =
    0x12 ∷ 0x34 ∷ 0x81 ∷ 0x80 ∷ 0 ∷ 1 ∷ 0 ∷ 1 ∷ 0 ∷ 0 ∷ 0 ∷ 0 ∷ 1 ∷ 97 ∷ 0 ∷ 0 ∷ 1 ∷ 0 ∷ 1 ∷ 0xc0
    ∷ 0x0c ∷ 0 ∷ 1 ∷ 0 ∷ 1 ∷ 0 ∷ 0 ∷ 0 ∷ 60 ∷ 0 ∷ 4 ∷ 185 ∷ 1 ∷ 2 ∷ 3 ∷ []

response-read : read_response 0x1234 response ≡ some (185 ∷ 1 ∷ 2 ∷ 3 ∷ [])
unfolding read_response
response-read = refl

skip_dns_name_example :
    (skip_dns_name 90 12 response ≡ skip_dns_name 40 12 response)
    × (12 ≤ skip_dns_name 40 12 response)
skip_dns_name_example = skip_dns_name_lem 40 90 12 response (omega arith) (omega arith)

read_response-FromRecord_example :
    (12 ≤ length response)
    × (word response ≡ 0x1234)
    × (1 ≤ word (drop 6 response))
    × FromRecord (185 ∷ 1 ∷ 2 ∷ 3 ∷ []) response
read_response-FromRecord_example =
    read_response-FromRecord 0x1234 response (185 ∷ 1 ∷ 2 ∷ 3 ∷ []) response-read
