-- ===== src/Predicates/ContentLength.antt =====
-- predicates/content/content_length_between.go: ContentLengthBetween.
mod Tests
use skipper.Prelude.{Bool, List, [], ◌∷◌, ◌&&◌, ◌||◌, not, Option, none, some, if◌then◌else◌}
use skipper.Prelude.Int.{ℤ, pos, ltb_ℤ, leb_ℤ}

-- An argument: a number, of which int64 takes the whole part, or anything else.
pub data Argument : Type 0 where
  number : ℤ → Argument
  anything : Argument

pub record ContentLengthBetween : Type 0 where
  pub min_length : ℤ
  pub max_length : ℤ

unfoldable pub create : List Argument → Option ContentLengthBetween
create (number lo ∷ number hi ∷ []) =
    if ltb_ℤ lo (pos 0) || (ltb_ℤ hi (pos 0) || leb_ℤ hi lo)
    then none
    else some (record { min_length = lo; max_length = hi })
create _ = none

-- Match on the content length of the request, which is -1 where it is not known.
unfoldable pub matches : ContentLengthBetween → ℤ → Bool
matches p n = leb_ℤ p.min_length n && ltb_ℤ n p.max_length
