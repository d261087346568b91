-- ===== src/File/Overlap.antt =====
-- Where `File::addPermission` leaves a vector out of order: the loop that looks for the end of the
-- run keeps `s` for `e` when the run reaches the end of the vector.
use pfs.Base.{ℕ, zero, suc, ◌<◌, ◌≡◌, subst, true, false, [], ◌∷◌, arith}
use pfs.Permission.{permission}
use pfs.File.{add_permission}
use pfs.File.Spare.{IsOrdered}

pair-IsOrdered : (a b c : ℕ) → IsOrdered (permission a b true ∷ permission b c true ∷ [])
pair-IsOrdered a b c i zero lt inside = absurd (omega arith)
pair-IsOrdered a b c zero (suc zero) lt inside = omega arith
pair-IsOrdered a b c (suc i) (suc zero) lt inside = absurd (omega arith)
pair-IsOrdered a b c i (suc (suc j)) lt inside = absurd (omega arith)

-- A range for writing that goes beyond two adjoining write tokens is merged with the first alone: the
-- vector was in order, the two tokens overlap afterwards, and it is in order no more.
pub add_permission_overlap :
    (a b c d : ℕ)
    → a < b
    → b < c
    → c < d
    → IsOrdered (permission a b true ∷ permission b c true ∷ [])
      × (add_permission b d true false (permission a b true ∷ permission b c true ∷ [])
          ≡ permission a d true ∷ permission b c true ∷ [])
      × ¬ IsOrdered (add_permission b d true false (permission a b true ∷ permission b c true ∷ []))
unfolding add_permission
add_permission_overlap a b c d p q r =
    let merged : add_permission b d true false (permission a b true ∷ permission b c true ∷ [])
        ≡ permission a d true ∷ permission b c true ∷ [] =
      ground arith in
    (
      pair-IsOrdered a b c,
      merged,
      λ ordered.
          let after = subst IsOrdered merged ordered 0 1 (omega arith) (omega arith) in omega arith,
    )
