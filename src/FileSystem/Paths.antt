-- ===== src/FileSystem/Paths.antt =====
-- The paths that FUSE hands in.
use rt11fs.Base.{
  ◌≡◌, sym, ap, ap₂, ◌≢◌, ◌↔◌, inl, inr, none, [], ◌∷◌, ◌==◌, ==_iff, Bool-cases, arith,
}
use rt11fs.Base.{ok}
use rt11fs.Base.Text.{Text, find}
use rt11fs.FileSystem.{slash, after_slash, validate_path}

after_slash_ok :
    (s q : Text) → (after_slash s ≡ ok q) ↔ ((s ≡ q) × (q ≢ []) × (find q slash ≡ none))
after_slash_ok [] q = (λ h. cc, λ h. absurd (h.1 (sym h.0)))
after_slash_ok (c ∷ s) q =
    (λ h. ground arith, λ h. ground (arith, ap (λ (t : Text). find t slash) h.0))

-- A path is accepted exactly if it is a slash and a name that is not empty and has no slash, and
-- the name is what the operations go by.
pub validate_path_ok :
    (path q : Text)
    → (validate_path path ≡ ok q) ↔ ((path ≡ slash ∷ q) × (q ≢ []) × (find q slash ≡ none))
unfolding validate_path
validate_path_ok [] q = (λ h. cc, λ h. cc)
validate_path_ok (c ∷ s) q = elim (Bool-cases (c == slash)) [
  | inl e ↦ rw e (
    λ h. let k = (after_slash_ok s q).0 h in (ap₂ ◌∷◌ ((==_iff c slash).0 e) k.0, k.1, k.2),
    λ h. (after_slash_ok s q).1 (cc, h.1, h.2),
  )
  | inr e ↦ (λ h. ground arith, λ h. ground arith)
]
