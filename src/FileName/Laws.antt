-- ===== src/FileName/Laws.antt =====
-- File names: what is printed for a name that was parsed.
use rt11fs.Base.{
  ℕ, zero, suc, ◌+◌, ◌-◌, ◌≤◌, ◌≡◌, refl, sym, ap, ap₂, ◌∙◌, inl, inr, [], ◌∷◌, ◌++◌, length, take,
  drop, replicate, ltb, ◌==◌, arith, Option, none, some, Bool-cases, if◌then◌else◌, length-append,
  length-drop, length-replicate, ◌||◌, ◌&&◌,
}
use rt11fs.Base.Memory.{take_all}
use rt11fs.Base.Text.{Text}
use rt11fs.Rad50.{from_rad50}
use rt11fs.Rad50.Laws.{from_rad50-to_rad50}
use rt11fs.DirConst.{Rad50Name}
use rt11fs.FileName.{
  space, dot, split_name, pad, all_three, parse_filename, trimmed_length, rtrim, joined, print_name,
}

-- `rtrim` from the front.
abbrev trim : Text → Text
trim [] = []
trim (c ∷ s) = let rest = trim s in if (length rest == 0) && (c == space) then [] else c ∷ rest

trimmed_length-suc :
    (c : ℕ) (s : Text) (i : ℕ)
    → trimmed_length (c ∷ s) (suc i)
      ≡ (if (trimmed_length s i == 0) && (c == space) then 0 else suc (trimmed_length s i))
unfolding trimmed_length
trimmed_length-suc c s zero = ground arith
trimmed_length-suc c s (suc i) = ground (arith, trimmed_length-suc c s i)

length-trim : (s : Text) → trimmed_length s (length s) ≡ length (trim s)
length-trim [] = unfold trimmed_length in refl
length-trim (c ∷ s) = ground (arith, trimmed_length-suc c s (length s), length-trim s)

take-trim : (s : Text) → take (length (trim s)) s ≡ trim s
take-trim [] = refl
take-trim (c ∷ s) = elim (Bool-cases ((length (trim s) == 0) && (c == space))) [
  | inl t ↦ rw t refl
  | inr f ↦ rw f (ap (◌∷◌ c) (take-trim s))
]

rtrim_lem : (s : Text) → rtrim s ≡ trim s
unfolding rtrim
rtrim_lem s = rw (length-trim s) (take-trim s)

trim-spaces : (n : ℕ) → trim (replicate n space) ≡ []
trim-spaces zero = refl
trim-spaces (suc n) = rw (trim-spaces n) refl

-- Spaces at the end are trimmed away.
trim-append_spaces : (s : Text) (n : ℕ) → trim (s ++ replicate n space) ≡ trim s
trim-append_spaces [] n = trim-spaces n
trim-append_spaces (c ∷ s) n =
    ap (λ (t : Text). if (length t == 0) && (c == space) then [] else c ∷ t)
      (trim-append_spaces s n)

-- A dot stays.
trim-append_dot : (s t : Text) → trim ((s ++ dot ∷ []) ++ t) ≡ (s ++ dot ∷ []) ++ trim t
trim-append_dot [] t = ground arith
trim-append_dot (c ∷ s) t =
    ground (
      arith,
      trim-append_dot s t,
      length-append (s ++ dot ∷ []) (trim t),
      length-append s (dot ∷ []),
    )

take-spaces : (n k : ℕ) → n ≤ k → take n (replicate k space) ≡ replicate n space
take-spaces zero k h = refl
take-spaces (suc n) zero h = absurd (omega arith)
take-spaces (suc n) (suc k) h = ap (◌∷◌ space) (take-spaces n k (omega arith))

take-padded :
    (s : Text) (width k : ℕ)
    → length s ≤ width
    → width ≤ length s + k
    → take width (s ++ replicate k space) ≡ s ++ replicate (width - length s) space
take-padded [] width k h h' =
    take-spaces width k (omega arith) ∙ ap (λ n. replicate n space) (omega arith)
take-padded (c ∷ s) zero k h h' = absurd (omega arith)
take-padded (c ∷ s) (suc width) k h h' = ap (◌∷◌ c) (
    take-padded s width k (omega arith) (omega arith)
    ∙ ap (λ n. s ++ replicate n space) (omega arith))

-- A text that is no longer than the width is filled up with spaces.
pad_short :
    (width : ℕ) (s : Text)
    → length s ≤ width
    → pad width s ≡ s ++ replicate (width - length s) space
unfolding pad
pad_short width s h = take-padded s width width h (omega arith)

trim-pad : (width : ℕ) (s : Text) → length s ≤ width → trim (pad width s) ≡ trim s
trim-pad width s h = ap trim (pad_short width s h) ∙ trim-append_spaces s (width - length s)

length-pad : (width : ℕ) (s : Text) → length s ≤ width → length (pad width s) ≡ width
length-pad width s h =
    ap length (pad_short width s h)
    ∙ omega (
      arith,
      length-append s (replicate (width - length s) space),
      length-replicate {A = ℕ} (width - length s) space,
    )

all_three-some :
    (x y z : Option ℕ) (r : Rad50Name)
    → all_three x y z ≡ some r
    → (x ≡ some r.first) × (y ≡ some r.second) × (z ≡ some r.extension)
all_three-some none y z r h = cc
all_three-some (some a) none z r h = cc
all_three-some (some a) (some b) none r h = cc
all_three-some (some a) (some b) (some c) r h = ground arith

take-drop : (n : ℕ) (s : Text) → take n s ++ drop n s ≡ s
take-drop zero s = refl
take-drop (suc n) [] = refl
take-drop (suc n) (c ∷ s) = ap (◌∷◌ c) (take-drop n s)

-- The three parts of a base of six characters and an extension, printed.
joined_lem :
    (base ext : Text)
    → length base ≤ 6
    → length ext ≤ 3
    → joined (some (take 3 (pad 6 base))) (some (take 3 (drop 3 (pad 6 base)))) (some (pad 3 ext))
      ≡ some ((rtrim base ++ dot ∷ []) ++ rtrim ext)
unfolding joined
joined_lem base ext hb he =
    let six : length (drop 3 (pad 6 base)) ≡ 3 =
      omega (arith, length-drop 3 (pad 6 base), length-pad 6 base hb) in
    let whole : take 3 (pad 6 base) ++ take 3 (drop 3 (pad 6 base)) ≡ pad 6 base =
      ap (λ t. take 3 (pad 6 base) ++ t) (take_all (drop 3 (pad 6 base)) 3 (omega arith))
      ∙ take-drop 3 (pad 6 base) in
    let start : rtrim (take 3 (pad 6 base) ++ take 3 (drop 3 (pad 6 base))) ≡ rtrim base =
      ap rtrim whole ∙ rtrim_lem (pad 6 base) ∙ trim-pad 6 base hb ∙ sym (rtrim_lem base) in
    ap some (
      ap (λ t. rtrim ((t ++ dot ∷ []) ++ pad 3 ext)) start
      ∙ rtrim_lem ((rtrim base ++ dot ∷ []) ++ pad 3 ext)
      ∙ trim-append_dot (rtrim base) (pad 3 ext)
      ∙ ap (λ t. (rtrim base ++ dot ∷ []) ++ t) (trim-pad 3 ext he ∙ sym (rtrim_lem ext)))

none_is_not_some : {r : Rad50Name} → none ≡ some r → ⊥
none_is_not_some h = cc

-- What is printed for a name that could be parsed: its base without the spaces at the end, a dot, and
-- its extension without the spaces at the end.
pub print_name-parse_filename :
    (name : Text) (rad50 : Rad50Name)
    → parse_filename name ≡ some rad50
    → print_name rad50 ≡ some ((rtrim (split_name name).0 ++ dot ∷ []) ++ rtrim (split_name name).1)
unfolding print_name parse_filename
print_name-parse_filename name rad50 h =
    let base = (split_name name).0 in
    let ext = (split_name name).1 in
    elim (Bool-cases (ltb 6 (length base) || ltb 3 (length ext))) [
      | inl long ↦ absurd (none_is_not_some (rw long at h))
      | inr fits ↦
          let (x, y, z) = all_three-some _ _ _ rad50 (rw fits at h) in
          ap₂ (λ a b. joined a b (from_rad50 rad50.extension)) (from_rad50-to_rad50 _ _ x).1
            (from_rad50-to_rad50 _ _ y).1
          ∙ ap (joined _ _) (from_rad50-to_rad50 _ _ z).1
          ∙ joined_lem base ext (ground arith) (ground arith)
    ]
