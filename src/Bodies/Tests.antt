-- ===== src/Bodies/Tests.antt =====
-- The bodies at concrete times.
use hyperdir.Base.{◌≡◌, refl, true, [], ◌∷◌, err, invalid_data}
use hyperdir.Base.Int.{pos}
use hyperdir.Bodies.{parse_predelete_body, parse_tombstone_body}

-- A body of fewer than nine bytes has no deadline.
short_marker : parse_predelete_body (1 ∷ 9 ∷ []) ≡ (true, pos 0)
unfolding parse_predelete_body
short_marker = refl

-- A body of fewer than sixteen bytes is no tombstone.
short_tombstone : parse_tombstone_body (1 ∷ 9 ∷ []) ≡ err invalid_data
unfolding parse_tombstone_body
short_tombstone = refl
