-- ===== src/Pathmux/Add/Patterns.antt =====
-- The pattern that a path of pathmux/tree.go stands for, read from its text alone, and the parts of
-- a path that addPath takes at a time.
use skipper.Prelude.{
  ℕ, zero, suc, ◌≤◌, ◌≡◌, refl, ◌∙◌, ap, sym, Bool, true, false, List, [], ◌∷◌, ◌++◌, some, ◌==◌,
  take, drop, length, if◌then◌else◌, Bool-cases, Option-cases, inl, inr, arith,
}
use skipper.Pathmux.Search.{Node, node, slash, this_token, next_token, after_prefix, path_of}
use skipper.Pathmux.Search.Entries.{Segment, literal, wildcard, free_wildcard, prefixed}
use skipper.Pathmux.Add.{token_of, has_wildcard, common_prefix_len, split_common_prefix}

-- The flag tells that the name of a wildcard is read, up to the next slash.
unfoldable pub pattern_from : Bool → List ℕ → List Segment
pattern_from in_name [] = []
pattern_from true (b ∷ bs) =
    if b == slash then literal b ∷ pattern_from false bs else pattern_from true bs
pattern_from false (b ∷ bs) =
    if b == 42
    then free_wildcard ∷ []
    else if b == 58
    then wildcard ∷ pattern_from true bs
    else literal b ∷ pattern_from false bs

abbrev pub pattern_of : List ℕ → List Segment
pattern_of path = pattern_from false path

pub pattern_from-next_token : (bs : List ℕ) → pattern_from true bs ≡ pattern_of (next_token bs)
unfolding pattern_from next_token
pattern_from-next_token [] = refl
pattern_from-next_token (b ∷ bs) = elim (Bool-cases (b == slash)) [
  | inl ends ↦
      let no_free : (b == 42) ≡ false = ground arith in
      let no_name : (b == 58) ≡ false = ground arith in rw (ends, no_free, no_name) refl
  | inr goes ↦ rw goes (pattern_from-next_token bs)
]

-- A text without the bytes of wildcards stands for itself.
pub pattern_of-append :
    (p rest : List ℕ)
    → has_wildcard p ≡ false
    → pattern_of (p ++ rest) ≡ prefixed p (pattern_of rest)
unfolding pattern_from
pattern_of-append [] rest h = refl
pattern_of-append (b ∷ p) rest h =
    let no_free : (b == 42) ≡ false = ground arith in
    let no_name : (b == 58) ≡ false = ground arith in
    rw (no_free, no_name, pattern_of-append p rest (ground arith)) refl

has_wildcard-take : (i : ℕ) (t : List ℕ) → has_wildcard t ≡ false → has_wildcard (take i t) ≡ false
has_wildcard-take zero t h = refl
has_wildcard-take (suc i) [] h = refl
has_wildcard-take (suc i) (b ∷ t) h = ground (arith, has_wildcard-take i t)

take-drop : (i : ℕ) (t r : List ℕ) → i ≤ length t → take i t ++ drop i (t ++ r) ≡ t ++ r
take-drop zero t r h = refl
take-drop (suc i) [] r h = absurd (omega arith)
take-drop (suc i) (b ∷ t) r h = ap (λ z. b ∷ z) (take-drop i t r (omega (arith, h)))

this_token-next_token : (bs : List ℕ) → this_token bs ++ next_token bs ≡ bs
unfolding this_token next_token
this_token-next_token [] = refl
this_token-next_token (b ∷ bs) = elim (Bool-cases (b == slash)) [
  | inl ends ↦ rw ends refl
  | inr goes ↦ rw goes (ap (λ z. b ∷ z) (this_token-next_token bs))
]

token_of-rest : (b : ℕ) (bs : List ℕ) → (rest : List ℕ) × (token_of (b ∷ bs) ++ rest ≡ b ∷ bs)
token_of-rest b bs = elim (Bool-cases (b == slash)) [
  | inl ends ↦ rw ends (bs, refl)
  | inr goes ↦ rw goes (next_token bs, ap (λ z. b ∷ z) (this_token-next_token bs))
]

-- A node for the first i bytes of the path, none of which is that of a wildcard.
abbrev pub Takes : Node → ℕ → List ℕ → Type 0
Takes n i path = (path_of n ++ drop i path ≡ path) × (has_wildcard (path_of n) ≡ false)

pub token-Takes :
    (n : Node) (i b : ℕ) (bs : List ℕ)
    → path_of n ≡ take i (token_of (b ∷ bs))
    → i ≤ length (token_of (b ∷ bs))
    → has_wildcard (token_of (b ∷ bs)) ≡ false
    → Takes n i (b ∷ bs)
token-Takes n i b bs e le h =
    let (rest, whole) = token_of-rest b bs in
    let first = take-drop i (token_of (b ∷ bs)) rest le in
    (
      rw e (ap (λ z. take i (token_of (b ∷ bs)) ++ drop i z) (sym whole) ∙ first ∙ whole),
      rw e (has_wildcard-take i (token_of (b ∷ bs)) h),
    )

pub take-length : (t : List ℕ) → take (length t) t ≡ t
take-length [] = refl
take-length (b ∷ t) = ap (λ z. b ∷ z) (take-length t)

after_prefix-take :
    (p t r : List ℕ) → after_prefix p t ≡ some r → (p ≡ take (length p) t) × (length p ≤ length t)
unfolding after_prefix
after_prefix-take [] t r h = (refl, omega arith)
after_prefix-take (x ∷ p) [] r h = absurd (ground arith)
after_prefix-take (x ∷ p) (y ∷ t) r h = elim (Bool-cases (x == y)) [
  | inl same ↦
      let (e, le) = after_prefix-take p t r (rw same at h) in
      let eq : x ≡ y = ground arith in (ap (λ z. z ∷ p) eq ∙ ap (λ z. y ∷ z) e, omega (arith, le))
  | inr other ↦ absurd (ground arith)
]

common_prefix_len-le : (p t : List ℕ) → common_prefix_len p t ≤ length t
unfolding common_prefix_len
common_prefix_len-le [] t = omega arith
common_prefix_len-le (x ∷ p) [] = omega arith
common_prefix_len-le (x ∷ p) (y ∷ t) = ground (arith, common_prefix_len-le p t)

pub split_common_prefix-take :
    (n : Node) (t : List ℕ)
    → (path_of (split_common_prefix n t).0 ≡ take (split_common_prefix n t).1 t)
      × ((split_common_prefix n t).1 ≤ length t)
unfolding split_common_prefix
split_common_prefix-take (node p pr cs w c ca leaf) t = elim (Option-cases (after_prefix p t)) [
  | inl h ↦ rw (h, split_common_prefix) (refl, common_prefix_len-le p t)
  | inr (r, h) ↦ rw (h, split_common_prefix) (after_prefix-take p t r h)
]
