-- ===== src/Tests/Tokens.antt =====
-- The vectors of permissions of common/file.cpp on concrete tokens.
use pfs.Base.{zero, suc, ◌≡◌, refl, inl, true, false, not, ◌&&◌, ◌||◌, List, [], ◌∷◌, arith}
use pfs.Permission.{Permission, permission}
use pfs.File.{has_permission, add_permission, revoke_permission}
use pfs.File.Cover.{grants}
use pfs.File.Has.{has_permission-grants}
use pfs.File.Revoke.{within, revoke_permission-Kept}
use pfs.File.Overlap.{add_permission_overlap}
use pfs.File.Spare.{IsOrdered, revoke_permission-spares}
use pfs.File.Granted.{add_permission-grants}
use pfs.File.Excess.{add_permission-excess}

abbrev tokens : List Permission
tokens = permission 0 10 true ∷ permission 10 20 false ∷ permission 30 40 true ∷ []

has_permission-grants_example : grants false tokens 12 ≡ true
unfolding has_permission grants
has_permission-grants_example =
    has_permission-grants 5 18 false tokens 12 refl (omega arith) (omega arith)

-- The middle of the first token and the start of the second are given up.
revoke_permission-Kept_example : (grants true tokens 3 ≡ true) × (within 5 15 3 ≡ false)
unfolding revoke_permission grants
revoke_permission-Kept_example = revoke_permission-Kept true 5 15 tokens 3 refl

add_permission-grants_example : grants true (add_permission 15 25 true false tokens) 22 ≡ true
add_permission-grants_example =
    add_permission-grants 15 25 true false tokens 22 (inl refl) (omega arith) (omega arith)

add_permission-excess_example :
    (grants true tokens 22 || (within 15 25 22 && (not true || true))) ≡ true
unfolding add_permission grants
add_permission-excess_example = add_permission-excess true 15 25 true false tokens 22 refl

tokens-IsOrdered : IsOrdered tokens
tokens-IsOrdered i zero lt inside = absurd (omega arith)
tokens-IsOrdered zero (suc zero) lt inside = omega arith
tokens-IsOrdered (suc i) (suc zero) lt inside = absurd (omega arith)
tokens-IsOrdered zero (suc (suc zero)) lt inside = omega arith
tokens-IsOrdered (suc zero) (suc (suc zero)) lt inside = omega arith
tokens-IsOrdered (suc (suc i)) (suc (suc zero)) lt inside = absurd (omega arith)
tokens-IsOrdered i (suc (suc (suc j))) lt inside = absurd (omega arith)

revoke_permission-spares_example : grants true (revoke_permission 5 35 tokens) 37 ≡ true
unfolding grants
revoke_permission-spares_example =
    revoke_permission-spares true 5 35 tokens 37 tokens-IsOrdered refl refl

add_permission_overlap_example :
    IsOrdered (permission 0 10 true ∷ permission 10 20 true ∷ [])
    × (add_permission 10 30 true false (permission 0 10 true ∷ permission 10 20 true ∷ [])
        ≡ permission 0 30 true ∷ permission 10 20 true ∷ [])
    × ¬ IsOrdered
        (add_permission 10 30 true false (permission 0 10 true ∷ permission 10 20 true ∷ []))
add_permission_overlap_example =
    add_permission_overlap 0 10 20 30 (omega arith) (omega arith) (omega arith)
