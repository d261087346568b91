-- ===== src/MmFile/Mirror/Kept.antt =====
-- Each step keeps each client's vector in line with what the metadata manager has for it.
use pfs.Base.{
  ℕ, ◌≡◌, refl, sym, ap, subst, ◌∙◌, inl, inr, Bool, true, false, none, some, [], ◌∷◌, String,
  str_eq, str_eq-true, lookup, insert, Bool-cases, Option-cases,
}
use pfs.Permission.{is_shared}
use pfs.File.{add_permission, revoke_permission}
use pfs.File.Bare.{bare, bare_all}
use pfs.File.Bare.Adds.{add_permission-bare_all}
use pfs.File.Bare.Revokes.{revoke_permission-bare_all}
use pfs.Client.{unlock_permission}
use pfs.MmFile.{
  MmFile, Permits, ClientPermissions, Answer, open_by, close_by, wait_and_get_permission_for,
  conflicts,
}
use pfs.MmFile.Others.{
  permits_of, permits_of-insert, permits_of-erase, revoke_others-permits, revoke_if,
}
use pfs.MmFile.Answers.{low, high, others, answer_map, answer_requests, others-own}
use pfs.MmFile.Exclusive.{str_eq_symm}
use pfs.MmFile.Mirror.{Vectors, change_of, deliver, enter}
use pfs.MmFile.Mirror.Requests.{
  IsMap, insert-IsMap, erase-IsMap, revoke_others-IsMap, is_asked, revoked_if,
  deliver-revoke_others,
}

-- The vectors after the revocations of a request and the entry of its reply.
abbrev pub entered : String → Bool → Answer → Vectors → Vectors
entered peer iswrite a held = enter peer iswrite a.permit (deliver a.revocations held)

-- The same tokens, whatever the locks.
abbrev pub IsMirrored : MmFile → Vectors → Type 0
IsMirrored f held =
    IsMap f.client_permissions
    × ((q : String) → bare_all (held q) ≡ bare_all (permits_of q f.client_permissions))

pub unlock_permission-bare_all :
    (start end : ℕ) (ps : Permits) → bare_all (unlock_permission start end ps).0 ≡ bare_all ps
unfolding unlock_permission
unlock_permission-bare_all start end [] = refl
unlock_permission-bare_all start end (p ∷ ps) =
    let rest = unlock_permission-bare_all start end ps in
    elim (Bool-cases (is_shared start end p)) [
      | inl t ↦ rw (unlock_permission, t) (ap (λ qs. bare p ∷ qs) rest)
      | inr t ↦ rw (unlock_permission, t) (ap (λ qs. bare p ∷ qs) rest)
    ]

-- A change of one client's vector that leaves its tokens.
pub kept_lem :
    (peer : String) (f : Permits → Permits) (held : Vectors)
    → ((ps : Permits) → bare_all (f ps) ≡ bare_all ps)
    → (q : String) → bare_all (change_of peer f held q) ≡ bare_all (held q)
kept_lem peer f held same q = elim (Bool-cases (str_eq peer q)) [
  | inl eq ↦ rw eq (same (held q))
  | inr ne ↦ rw ne refl
]

permits_of-none : (q : String) (m : ClientPermissions) → lookup q m ≡ none → permits_of q m ≡ []
unfolding permits_of
permits_of-none q m e = rw (permits_of, e) refl

none_here :
    (peer q : String) (m : ClientPermissions)
    → lookup peer m ≡ none
    → str_eq peer q ≡ true
    → permits_of q m ≡ []
none_here peer q m e eq =
    permits_of-none q m (subst (λ n. lookup n m ≡ none) (str_eq-true peer q eq) e)

pub open_by-IsMirrored :
    (peer : String) (f : MmFile) (held : Vectors)
    → IsMirrored f held
    → IsMirrored (open_by peer f).0 held
unfolding open_by
open_by-IsMirrored peer f held (map, same) =
    let m : ClientPermissions = f.client_permissions in
    elim (Option-cases (lookup peer m)) [
      | inr (ps, e) ↦ rw (open_by, e) (map, same)
      | inl e ↦
          rw (open_by, e)
            (
              insert-IsMap peer [] m map,
              λ q. elim (Bool-cases (str_eq peer q)) [
                | inl eq ↦
                    let now : permits_of q (insert peer [] m) ≡ [] =
                      permits_of-insert peer q [] m ∙ (rw eq refl) in
                    same q ∙ ap bare_all (none_here peer q m e eq ∙ sym now)
                | inr ne ↦
                    let now : permits_of q (insert peer [] m) ≡ permits_of q m =
                      permits_of-insert peer q [] m ∙ (rw ne refl) in
                    same q ∙ ap bare_all (sym now)
              ],
            )
    ]

pub close_by-IsMirrored :
    (peer : String) (f : MmFile) (held : Vectors)
    → IsMirrored f held
    → IsMirrored (close_by peer f).0 (change_of peer (λ ps. []) held)
unfolding close_by
close_by-IsMirrored peer f held (map, same) =
    let m : ClientPermissions = f.client_permissions in
    elim (Option-cases (lookup peer m)) [
      | inl e ↦
          rw (close_by, e)
            (
              map,
              λ q. elim (Bool-cases (str_eq peer q)) [
                | inl eq ↦ rw (eq, none_here peer q m e eq) refl
                | inr ne ↦ rw ne (same q)
              ],
            )
      | inr (ps, e) ↦
          rw (close_by, e)
            (
              erase-IsMap peer m map,
              λ q. elim (Bool-cases (str_eq peer q)) [
                | inl eq ↦ rw (permits_of-erase peer q m, eq) refl
                | inr ne ↦ rw (permits_of-erase peer q m, ne) (same q)
              ],
            )
    ]

-- The client that is granted a range.
granted_same :
    (start end : ℕ) (iswrite : Bool) (mine theirs : Permits)
    → bare_all mine ≡ bare_all theirs
    → bare_all (add_permission start end iswrite true mine)
      ≡ bare_all (add_permission start end iswrite false theirs)
granted_same start end iswrite mine theirs same =
    add_permission-bare_all start end iswrite true mine
    ∙ ap (add_permission start end iswrite false) same
    ∙ sym (add_permission-bare_all start end iswrite false theirs)

-- Another client, asked or not.
revoked_same :
    (peer q : String) (start end : ℕ) (iswrite : Bool) (m : ClientPermissions) (mine : Permits)
    → str_eq q peer ≡ false
    → bare_all mine ≡ bare_all (permits_of q m)
    → bare_all (revoked_if peer start end iswrite (is_asked peer start end iswrite q m) mine)
      ≡ bare_all (revoke_if start end iswrite (permits_of q m))
unfolding is_asked revoke_if
revoked_same peer q start end iswrite m mine ne same =
    elim (Bool-cases (conflicts start end iswrite (permits_of q m))) [
      | inr calm ↦ rw (is_asked, revoke_if, ne, calm) same
      | inl c ↦
          rw (is_asked, revoke_if, ne, c)
            (revoke_permission-bare_all start end mine
              ∙ ap (revoke_permission start end) same
              ∙ sym (revoke_permission-bare_all start end (permits_of q m)))
    ]

module _ (peer : String) (start end : ℕ) (iswrite : Bool) (f : MmFile) (a : Answer) (held : Vectors)
    (answer : wait_and_get_permission_for peer start end iswrite f ≡ some a)
    (mirrored : IsMirrored f held) where
  delivered :
      (q : String)
      → deliver a.revocations held q
        ≡ revoked_if peer start end iswrite
            (is_asked peer start end iswrite q f.client_permissions)
            (held q)
  delivered q =
      let (_, _, sent) = answer_requests peer start end iswrite f a answer in
      rw sent
        (deliver-revoke_others peer start end iswrite f q f.client_permissions held mirrored.0)

  own_untouched : (q : String) → str_eq q peer ≡ true → deliver a.revocations held q ≡ held q
  unfolding is_asked
  own_untouched q own =
      let calm : is_asked peer start end iswrite q f.client_permissions ≡ false =
        rw (is_asked, own) refl in
      delivered q ∙ (rw calm refl)

  answer-IsMap : IsMap a.file.client_permissions
  unfolding others
  answer-IsMap =
      let (ps, found, result) = answer_map peer start end iswrite f a answer in
      rw result (
        insert-IsMap peer _ (others peer start end iswrite f.client_permissions)
          (revoke_others-IsMap peer start end iswrite f.client_permissions mirrored.0))

  entered_same :
      (q : String)
      → str_eq peer q ≡ true
      → bare_all (entered peer iswrite a held q) ≡ bare_all (permits_of q a.file.client_permissions)
  entered_same q eq =
      let m : ClientPermissions = f.client_permissions in
      let (ps, found, result) = answer_map peer start end iswrite f a answer in
      let (lo, hi, _) = answer_requests peer start end iswrite f a answer in
      let own : ps ≡ permits_of q m =
        others-own peer start end iswrite m ps found
        ∙ ap (λ n. permits_of n m) (str_eq-true peer q eq) in
      let mine = own_untouched q (str_eq_symm peer q true eq) in
      let now : permits_of q a.file.client_permissions
          ≡ add_permission (low peer start end iswrite m) (high peer start end iswrite m) iswrite
              false ps =
        rw (result, permits_of-insert peer q _ (others peer start end iswrite m), eq) refl in
      rw (eq, mine, lo, hi, now)
        (granted_same (low peer start end iswrite m) (high peer start end iswrite m) iswrite
          (held q) ps (mirrored.1 q ∙ ap bare_all (sym own)))

  others_same :
      (q : String)
      → str_eq peer q ≡ false
      → bare_all (entered peer iswrite a held q) ≡ bare_all (permits_of q a.file.client_permissions)
  unfolding others
  others_same q ne =
      let m : ClientPermissions = f.client_permissions in
      let foreign : str_eq q peer ≡ false = str_eq_symm peer q false ne in
      let (ps, found, result) = answer_map peer start end iswrite f a answer in
      let now : permits_of q a.file.client_permissions
          ≡ revoke_if start end iswrite (permits_of q m) =
        ap (permits_of q) result
        ∙ permits_of-insert peer q _ (others peer start end iswrite m)
        ∙ (rw ne (revoke_others-permits peer start end iswrite q m foreign)) in
      rw (ne, delivered q, now)
        (revoked_same peer q start end iswrite m (held q) foreign (mirrored.1 q))

  pub answer-IsMirrored : IsMirrored a.file (entered peer iswrite a held)
  answer-IsMirrored = (
    answer-IsMap,
    λ q. elim (Bool-cases (str_eq peer q)) [
      | inl eq ↦ entered_same q eq
      | inr ne ↦ others_same q ne
    ],
  )
