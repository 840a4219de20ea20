-- ===== src/Frame/Match.antt =====
-- The searches in a byte string that the regular expressions and `find` of the source make.
use oig_proxy.Common.{
  ℕ, Bool, not, Option, none, some, [], ◌∷◌, ◌++◌, nat_beq, is_digit, if◌then◌else◌,
}
use oig_proxy.Frame.Crc.{Bytes}

-- What follows `p`, if the bytes begin with it.
unfoldable pub after : Bytes → Bytes → Option Bytes
after [] s = some s
after (c ∷ cs) [] = none
after (c ∷ cs) (d ∷ s) = let rest = after cs s in if nat_beq c d then rest else none

-- The longest run of bytes that pass the test, and what follows it.
unfoldable pub span : (ℕ → Bool) → Bytes → Bytes × Bytes
span p [] = ([], [])
span p (c ∷ s) = let (run, rest) = span p s in if p c then (c ∷ run, rest) else ([], c ∷ s)

-- `open([test]+)close` at the start of the bytes: the group and what follows. The test is false of
-- the first byte of `close`, so the longest run is the only one that can be followed by `close`.
unfoldable pub match_field : Bytes → (ℕ → Bool) → Bytes → Bytes → Option (Bytes × Bytes)
unfolding after span
match_field start p close s = elim (after start s) [
  | none ↦ none
  | some rest ↦
      let (run, tail) = span p rest in
      elim run [
        | [] ↦ none
        | c ∷ cs ↦ elim (after close tail) [ none ↦ none | some r ↦ some (c ∷ cs, r) ]
      ]
]

-- `re.search` of such a field: the group of the first match
unfoldable pub search_field : Bytes → (ℕ → Bool) → Bytes → Bytes → Option Bytes
unfolding match_field
search_field start p close [] = none
search_field start p close (c ∷ s) =
    let rest = search_field start p close s in
    elim (match_field start p close (c ∷ s)) [ none ↦ rest | some (g, r) ↦ some g ]

-- `[^<]`
unfoldable pub not_open : ℕ → Bool
not_open c = not (nat_beq c b'<')

-- `<name>([^<]+)</name>`
unfoldable pub search_tag : Bytes → Bytes → Option Bytes
unfolding search_field not_open
search_tag name s =
    search_field (b'<' ∷ name ++ b'>' ∷ []) not_open (b'<' ∷ b'/' ∷ name ++ b'>' ∷ []) s

-- `<name>(\d+)</name>` over bytes
unfoldable pub search_digits : Bytes → Bytes → Option Bytes
unfolding search_field
search_digits name s =
    search_field (b'<' ∷ name ++ b'>' ∷ []) is_digit (b'<' ∷ b'/' ∷ name ++ b'>' ∷ []) s

-- `s.find(p)`: the bytes before the first occurrence, and those behind it
unfoldable pub find : Bytes → Bytes → Option (Bytes × Bytes)
unfolding after
find p [] = elim (after p []) [ none ↦ none | some r ↦ some ([], r) ]
find p (c ∷ s) =
    let rest = find p s in
    elim (after p (c ∷ s)) [
      | some r ↦ some ([], r)
      | none ↦ elim rest [ none ↦ none | some (before, r) ↦ some (c ∷ before, r) ]
    ]
