-- ===== src/Docker/Container/Leftovers.antt =====
-- What a failed `Start` leaves behind.
use yurt.Prelude.{Bool, true, false, List, [], ◌∷◌}
use yurt.Docker.Container.{Event, create, remove, watch}

-- The container with this ID exists: it was created last, or not removed since.
abbrev pub left : List Event → Bool
left [] = false
left (create o m ∷ h) = true
left (remove id ∷ h) = false
left (_ ∷ h) = left h

abbrev pub watched : List Event → Bool
watched [] = false
watched (watch id ∷ h) = true
watched (_ ∷ h) = watched h
