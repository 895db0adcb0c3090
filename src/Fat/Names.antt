-- ===== src/Fat/Names.antt =====
-- File names in fs/fat.c: the eleven bytes of a directory entry, and back.
use efes_os.Base.{
  ℕ, zero, suc, ◌+◌, ◌-◌, Bool, true, false, not, ◌&&◌, ◌||◌, Option, none, some, ◌==◌, ltb, leb,
  if◌then◌else◌,
}
use efes_os.Base.Arrays.{update}

-- The `n` rounds of the search for the end that are left at `length`.
unfoldable pub length_from : (ℕ → ℕ) → ℕ → ℕ → ℕ
length_from value length zero = length
length_from value length (suc n) =
    let rest = length_from value (length + 1) n in if not (value length == 0) then rest else length

-- The only dot of a name of `length` bytes, or `length` where it has none. `none`: there is another
-- one, or it is the first byte or the last one.
unfoldable pub find_dot : (ℕ → ℕ) → ℕ → ℕ → ℕ → ℕ → Option ℕ
find_dot text length dot index zero = some dot
find_dot text length dot index (suc n) =
    let rest = find_dot text length (if text index == 46 then index else dot) (index + 1) n in
    if (text index == 46) && (not (dot == length) || (index == 0) || (index + 1 == length))
    then none
    else rest

-- '!', '/', '\', ':', '"', '*', '?', '<', '>' and '|'
unfoldable pub is_refused : ℕ → Bool
is_refused c =
    ltb c 33
    || (c == 47)
    || (c == 92)
    || (c == 58)
    || (c == 34)
    || (c == 42)
    || (c == 63)
    || (c == 60)
    || (c == 62)
    || (c == 124)

unfoldable pub upper : ℕ → ℕ
upper c = if leb 97 c && leb c 122 then c - 32 else c

-- The `n` rounds of the loop that are left at `index`, with the count of the bytes that are written.
unfoldable pub fill_name : (ℕ → ℕ) → ℕ → ℕ → ℕ → (ℕ → ℕ) → Option (ℕ × (ℕ → ℕ))
fill_name text index zero output short_name = some (output, short_name)
fill_name text index (suc n) output short_name =
    let dotted = fill_name text (index + 1) n 8 short_name in
    let written =
      fill_name text (index + 1) n (output + 1) (update short_name output (upper (text index))) in
    if text index == 46
    then dotted
    else if is_refused (text index) || leb 11 output
    then none
    else written

unfoldable pub short_name_from_text : Option (ℕ → ℕ) → Option (ℕ → ℕ)
short_name_from_text none = none
short_name_from_text (some text) =
    let length = length_from text 0 13 in
    if (length == 0) || leb 13 length then none else elim (find_dot text length length 0 length) [
      | none ↦ none
      | some dot ↦
          if ltb 8 dot || not (dot == length) && ltb 3 (length - dot - 1)
          then none
          else elim (fill_name text 0 length 0 (λ index. 32)) [
            | none ↦ none
            | some (output, short_name) ↦ if output == 0 then none else some short_name
          ]
    ]

unfoldable pub matches_from : (ℕ → ℕ) → (ℕ → ℕ) → ℕ → ℕ → Bool
matches_from entry short_name index zero = true
matches_from entry short_name index (suc n) =
    let rest = matches_from entry short_name (index + 1) n in
    if not (entry index == short_name index) then false else rest

unfoldable pub name_matches : (ℕ → ℕ) → (ℕ → ℕ) → Bool
name_matches entry short_name = matches_from entry short_name 0 11

-- The `n` rounds of a loop that copies bytes up to a blank, where there is room for them.
unfoldable pub copy_part : (ℕ → ℕ) → ℕ → ℕ → ℕ → ℕ → (ℕ → ℕ) → ℕ × (ℕ → ℕ)
copy_part entry capacity index zero output name = (output, name)
copy_part entry capacity index (suc n) output name =
    let (output', name') =
      if ltb (output + 1) capacity
      then (output + 1, update name output (entry index))
      else (output, name) in
    let rest = copy_part entry capacity (index + 1) n output' name' in
    if entry index == 32 then (output, name) else rest

unfoldable pub entry_to_text : (ℕ → ℕ) → ℕ → (ℕ → ℕ) → ℕ → ℕ
entry_to_text entry capacity name =
    let (output, base) = copy_part entry capacity 0 8 0 name in
    let (output', full) =
      if not (entry 8 == 32) && ltb (output + 1) capacity
      then copy_part entry capacity 8 3 (output + 1) (update base output 46)
      else (output, base) in
    if capacity == 0 then name else update full output' 0
