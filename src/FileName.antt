-- ===== src/FileName.antt =====
-- fslib/Directory.cpp, `parseFilename`, `rtrim` and the name that `getEnt` prints: file names as
-- texts and as three Rad50 words.
pub mod Laws
use rt11fs.Base.{
  ℕ, zero, suc, ◌+◌, Option, none, some, [], ◌∷◌, ◌++◌, ◌||◌, length, get_or, take, drop, replicate,
  ltb, ◌==◌, if◌then◌else◌,
}
use rt11fs.Base.Text.{Text, find}
use rt11fs.Rad50.{from_rad50, to_rad50}
use rt11fs.DirConst.{Rad50Name}

abbrev pub space : ℕ
space = b' '

abbrev pub dot : ℕ
dot = b'.'

-- `base` and `ext`, before and after the first dot.
unfoldable pub split_name : Text → Text × Text
unfolding find
split_name name = elim (find name dot) [
  | some n ↦ (take n name, drop (n + 1) name)
  | none ↦ (name, [])
]

-- `(s + spaces).substr(0, width)`
unfoldable pub pad : ℕ → Text → Text
pad width s = take width (s ++ replicate width space)

abbrev pub all_three : Option ℕ → Option ℕ → Option ℕ → Option Rad50Name
all_three (some a) (some b) (some c) = some (record { first = a; second = b; extension = c })
all_three a b c = none

-- `none` is the result false, after which the callers do not read the words.
unfoldable pub parse_filename : Text → Option Rad50Name
unfolding split_name pad
parse_filename name =
    let (base, ext) = split_name name in
    if ltb 6 (length base) || ltb 3 (length ext)
    then none
    else all_three (to_rad50 (take 3 (pad 6 base))) (to_rad50 (take 3 (drop 3 (pad 6 base))))
        (to_rad50 (pad 3 ext))

-- The loop of `rtrim`: the number of characters up to the last that is not a space.
unfoldable pub trimmed_length : Text → ℕ → ℕ
trimmed_length str zero = 0
trimmed_length str (suc i) =
    let shorter = trimmed_length str i in if get_or str i 0 == space then shorter else suc i

unfoldable pub rtrim : Text → Text
unfolding trimmed_length
rtrim str = take (trimmed_length str (length str)) str

abbrev pub joined : Option Text → Option Text → Option Text → Option Text
unfolding rtrim
joined (some a) (some b) (some c) = some (rtrim ((rtrim (a ++ b) ++ dot ∷ []) ++ c))
joined a b c = none

-- The name of a `DirEnt`; `none` is an exception of `fromRad50`.
unfoldable pub print_name : Rad50Name → Option Text
print_name name =
    joined (from_rad50 name.first) (from_rad50 name.second) (from_rad50 name.extension)
