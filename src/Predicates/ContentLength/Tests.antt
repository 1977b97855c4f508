-- ===== src/Predicates/ContentLength/Tests.antt =====
-- Tests and instances for ContentLengthBetween.
use skipper.Prelude.{◌≡◌, refl, false, List, [], ◌∷◌, some}
use skipper.Prelude.Int.{pos}
use skipper.Predicates.ContentLength.{Argument, number, ContentLengthBetween, create, matches}

abbrev range : ContentLengthBetween
range = record { min_length = pos 0; max_length = pos 50 }

abbrev arguments : List Argument
arguments = number (pos 0) ∷ number (pos 50) ∷ []

creates : create arguments ≡ some range
unfolding create
creates = refl

excludes_end : matches range (pos 50) ≡ false
unfolding matches
excludes_end = refl
