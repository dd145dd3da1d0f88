-- ===== src/Pricing/Globs.antt =====
-- `path.Match` of Go's standard library, by its algorithm, on texts that are valid UTF-8, character by
-- character but for stars, which skip bytes: a pattern is cut at its stars into chunks
-- that match a fixed number of characters, and the chunk after a star takes the first place where
-- it matches, without going back.
use kovern.Prelude.{
  ℕ, Bool, true, false, not, ◌&&◌, ◌||◌, Option, none, some, List, [], ◌∷◌, ◌++◌, if◌then◌else◌,
  leb, ltb, ◌==◌, zero, suc,
}
use kovern.Prelude.Text.{Text, is_empty}

-- A pattern's parts. A class has its ranges and whether it is negated.
pub data Token : Type 0 where
  star any_one : Token
  literal : ℕ → Token
  class : Bool → List (ℕ × ℕ) → Token

-- What the parser is in: a class is read range by range, `lo` or `lo-hi`.
pub data Mode : Type 0 where
  outside escaped opened : Mode
  in_class lo_escaped : Bool → List (ℕ × ℕ) → Mode
  after_lo hi_due hi_escaped : Bool → List (ℕ × ℕ) → ℕ → Mode

abbrev is_none_yet : List (ℕ × ℕ) → Bool
is_none_yet [] = true
is_none_yet (_ ∷ _) = false

-- The next character inside a class, after its ranges so far.
abbrev read_class : Bool → List (ℕ × ℕ) → ℕ → Option (Mode × List Token)
read_class negated ranges c =
    if c == b']' && not (is_none_yet ranges)
    then some (outside, class negated ranges ∷ [])
    else if c == b']' || c == b'-'
    then none
    else if c == b'\\'
    then some (lo_escaped negated ranges, [])
    else some (after_lo negated ranges c, [])

-- One character of the pattern; `none` is `ErrBadPattern`.
abbrev read : Mode → ℕ → Option (Mode × List Token)
read outside c =
    if c == b'*'
    then some (outside, star ∷ [])
    else if c == b'?'
    then some (outside, any_one ∷ [])
    else if c == b'['
    then some (opened, [])
    else if c == b'\\'
    then some (escaped, [])
    else some (outside, literal c ∷ [])
read escaped c = some (outside, literal c ∷ [])
read opened c = if c == b'^' then some (in_class true [], []) else read_class false [] c
read (in_class negated ranges) c = read_class negated ranges c
read (lo_escaped negated ranges) c = some (after_lo negated ranges c, [])
read (after_lo negated ranges lo) c =
    if c == b'-'
    then some (hi_due negated ranges lo, [])
    else read_class negated ((lo, lo) ∷ ranges) c
read (hi_due negated ranges lo) c =
    if c == b']' || c == b'-'
    then none
    else if c == b'\\'
    then some (hi_escaped negated ranges lo, [])
    else some (in_class negated ((lo, c) ∷ ranges), [])
read (hi_escaped negated ranges lo) c = some (in_class negated ((lo, c) ∷ ranges), [])

abbrev at_end : Mode → Option (List Token)
at_end outside = some []
at_end _ = none

unfoldable tokens_from : Mode → Text → Option (List Token)
tokens_from mode [] = at_end mode
tokens_from mode (c ∷ pattern) = elim (read mode c) [
  | none ↦ none
  | some (mode', ts) ↦ elim (tokens_from mode' pattern) [
    | none ↦ none
    | some rest ↦ some (ts ++ rest)
  ]
]

unfoldable pub tokens : Text → Option (List Token)
unfolding tokens_from
tokens pattern = tokens_from outside pattern

-- The chunk before the first star, and the chunks after each run of stars.
abbrev pub after_star : List Token × List (List Token) → List Token × List (List Token)
after_star ([], c ∷ cs) = ([], c ∷ cs)
after_star (chunk, cs) = ([], chunk ∷ cs)

unfoldable pub chunks : List Token → List Token × List (List Token)
chunks [] = ([], [])
chunks (star ∷ ts) = after_star (chunks ts)
chunks (t ∷ ts) = let (chunk, cs) = chunks ts in (t ∷ chunk, cs)

-- A byte inside a character, where a star stopped there: no literal is equal to it, and a class reads
-- it as the replacement character.
abbrev stray : ℕ
stray = 0x110000

abbrev stray_bytes : ℕ → Text
stray_bytes zero = []
stray_bytes (suc n) = stray ∷ stray_bytes n

abbrev as_rune : ℕ → ℕ
as_rune c = if c == stray then 0xFFFD else c

abbrev in_ranges : ℕ → List (ℕ × ℕ) → Bool
in_ranges c [] = false
in_ranges c ((lo, hi) ∷ ranges) = (leb lo c && leb c hi) || in_ranges c ranges

abbrev pub takes : Token → ℕ → Bool
takes star c = false
takes any_one c = not (c == b'/')
takes (literal d) c = c == d
takes (class negated ranges) c =
    let found = in_ranges (as_rune c) ranges in if negated then not found else found

-- `matchChunk`: what is left of the name after the chunk.
unfoldable pub match_chunk : List Token → Text → Option Text
match_chunk [] name = some name
match_chunk (t ∷ ts) [] = none
match_chunk (t ∷ ts) (c ∷ name) = let rest = match_chunk ts name in if takes t c then rest else none

-- A match of the last chunk has to reach the end of the name.
abbrev pub accept : Bool → Option Text → Option Text
accept last none = none
accept last (some rest) = if last && not (is_empty rest) then none else some rest

-- The bytes of a character in UTF-8 after its first one.
abbrev inner_bytes : ℕ → ℕ
inner_bytes c =
    if ltb c 0x80 || c == stray
    then 0
    else if ltb c 0x800
    then 1
    else if ltb c 0x10000
    then 2
    else 3

-- The places between the bytes of a character, and then the rest of the name: the bytes that are
-- left of the character are read as stray ones.
unfoldable seek_inside : List Token → Bool → ℕ → Text → Option Text → Option Text
unfolding match_chunk
seek_inside chunk last zero name later = later
seek_inside chunk last (suc n) name later =
    let further = seek_inside chunk last n name later in
    elim (accept last (match_chunk chunk (stray_bytes (suc n) ++ name))) [
      | some rest ↦ some rest
      | none ↦ further
    ]

-- The first place of the chunk, before which the star skips bytes other than slashes.
unfoldable pub seek : List Token → Bool → Text → Option Text
unfolding match_chunk seek_inside
seek chunk last [] = accept last (match_chunk chunk [])
seek chunk last (c ∷ name) =
    let later = seek chunk last name in
    elim (accept last (match_chunk chunk (c ∷ name))) [
      | some rest ↦ some rest
      | none ↦ if c == b'/' then none else seek_inside chunk last (inner_bytes c) name later
    ]

abbrev pub no_slash : Text → Bool
no_slash [] = true
no_slash (c ∷ s) = not (c == b'/') && no_slash s

abbrev pub is_last : List (List Token) → Bool
is_last [] = true
is_last (_ ∷ _) = false

abbrev pub is_blank : List Token → Bool
is_blank [] = true
is_blank (_ ∷ _) = false

-- The loop over the chunks that follow stars.
unfoldable pub match_starred : List (List Token) → Text → Bool
unfolding seek
match_starred [] name = is_empty name
match_starred (chunk ∷ cs) name =
    if is_blank chunk
    then no_slash name
    else elim (seek chunk (is_last cs) name) [ none ↦ false | some rest ↦ match_starred cs rest ]

unfoldable pub match_chunks : List Token × List (List Token) → Text → Bool
unfolding match_chunk match_starred
match_chunks (chunk, cs) name = elim (accept (is_last cs) (match_chunk chunk name)) [
  | none ↦ false
  | some rest ↦ match_starred cs rest
]

-- `path.Match(pattern, name)` returns true and no error.
unfoldable pub matches : Text → Text → Bool
unfolding tokens chunks match_chunks
matches pattern name = elim (tokens pattern) [
  | none ↦ false
  | some ts ↦ match_chunks (chunks ts) name
]
