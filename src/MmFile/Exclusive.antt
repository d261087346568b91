-- ===== src/MmFile/Exclusive.antt =====
-- No byte that one client may write is granted to another client.
use text.Mathlib.TextEquality.{eq_iff}
use pfs.Base.{
  ℕ, ◌≡◌, ◌≢◌, refl, sym, subst, ◌∙◌, inl, inr, Bool, true, false, ◌||◌, some, [], String, arith,
  str_eq, str_eq-true, str_eq-false, lookup, insert, erase, Bool-cases, Option-cases,
}
use pfs.File.{add_permission}
use pfs.File.Cover.{grants}
use pfs.File.Revoke.{within}
use pfs.File.Excess.{add_permission-excess}
use pfs.MmFile.Others.{
  nothing-grants, permits_of, IsExclusive, permits_of-insert, permits_of-erase, revoke_if-grants,
  revoke_others-permits, granted-clear,
}
use pfs.MmFile.{
  MmFile, Permits, ClientPermissions, Answer, open_by, close_by, wait_and_get_permission_for,
}
use pfs.MmFile.Answers.{low, high, others, others-own, answer_map}

pub str_eq_symm : (a b : String) (v : Bool) → str_eq a b ≡ v → str_eq b a ≡ v
str_eq_symm a b v h = ground (arith, eq_iff a b, eq_iff b a)

str_eq-ne : (a b : String) → str_eq a b ≡ false → a ≢ b
str_eq-ne a b h = ground (arith, eq_iff a b)

-- What the insertion of a client's new vector has to keep clear of.
module _ (k : String) (new : Permits) (m : ClientPermissions) where
  pub insert_self : (p : String) → str_eq k p ≡ true → permits_of p (insert k new m) ≡ new
  insert_self p h = ground (arith, permits_of-insert k p new m)

  insert-other : (q : String) → str_eq k q ≡ false → permits_of q (insert k new m) ≡ permits_of q m
  insert-other q h = ground (arith, permits_of-insert k q new m)

  insert-IsExclusive :
      ((p q : String)
        → str_eq p k ≡ false
        → str_eq q k ≡ false
        → p ≢ q
        → (x : ℕ) → grants true (permits_of p m) x ≡ true
        → grants false (permits_of q m) x ≡ false)
      → ((q : String)
          → str_eq q k ≡ false
          → (x : ℕ) → grants true new x ≡ true
          → grants false (permits_of q m) x ≡ false)
      → ((p : String)
          → str_eq p k ≡ false
          → (x : ℕ) → grants true (permits_of p m) x ≡ true
          → grants false new x ≡ false)
      → IsExclusive (insert k new m)
  insert-IsExclusive ex writes reads p q ne x = elim (Bool-cases (str_eq k p)) [
    | inl kp ↦
        let nq : str_eq k q ≡ false = str_eq-false k q (λ e. ne (sym (str_eq-true k p kp) ∙ e)) in
        rw (insert_self p kp, insert-other q nq) (writes q (str_eq_symm k q false nq) x)
    | inr np ↦ elim (Bool-cases (str_eq k q)) [
      | inl kq ↦ rw (insert-other p np, insert_self q kq) (reads p (str_eq_symm k p false np) x)
      | inr nq ↦
          rw (insert-other p np, insert-other q nq)
            (ex p q (str_eq_symm k p false np) (str_eq_symm k q false nq) ne x)
    ]
  ]

-- A `true` that would follow is refuted.
false_of : (b : Bool) → (b ≡ true → ⊥) → b ≡ false
false_of true h = absurd (h refl)
false_of false h = refl

module _ (peer : String) (start end : ℕ) (iswrite : Bool) (m : ClientPermissions) where
  abbrev from : ℕ
  from = low peer start end iswrite m

  abbrev to : ℕ
  to = high peer start end iswrite m

  abbrev left : ClientPermissions
  left = others peer start end iswrite m

  others-grants :
      (w : Bool) (q : String) (x : ℕ)
      → str_eq q peer ≡ false
      → grants w (permits_of q left) x ≡ true
      → grants w (permits_of q m) x ≡ true
  unfolding others
  others-grants w q x ne g =
      revoke_if-grants w start end iswrite (permits_of q m) x
        (subst (λ ps. grants w ps x ≡ true) (revoke_others-permits peer start end iswrite q m ne) g)

  -- No other client holds a byte of the range against the right that is granted.
  others-clear :
      (w : Bool) (q : String) (x : ℕ)
      → str_eq q peer ≡ false
      → (w || iswrite) ≡ true
      → grants w (permits_of q left) x ≡ true
      → within from to x ≡ false
  unfolding others low high
  others-clear w q x ne r g = granted-clear peer start end iswrite w q m x ne r g

  module _ (permits : Permits) (own : permits ≡ permits_of peer m) (ex : IsExclusive m) where
    new : Permits
    new = add_permission from to iswrite false permits

    new-writes :
        (q : String)
        → str_eq q peer ≡ false
        → (x : ℕ) → grants true new x ≡ true
        → grants false (permits_of q left) x ≡ false
    unfolding new
    new-writes q ne x g = false_of _ λ h.
        let before = others-grants false q x ne h in
        let clear = λ (r : iswrite ≡ true). others-clear false q x ne r h in
        let excess = add_permission-excess true from to iswrite false permits x g in
        let apart = ex peer q (λ e. str_eq-ne q peer ne (sym e)) x in
        elim (Bool-cases (grants true permits x)) [
          | inl held ↦ let now = apart (subst (λ ps. grants true ps x ≡ true) own held) in cc
          | inr not_held ↦
              let asked : iswrite ≡ true = ground arith in let out = clear asked in ground arith
        ]

    new-reads :
        (p : String)
        → str_eq p peer ≡ false
        → (x : ℕ) → grants true (permits_of p left) x ≡ true
        → grants false new x ≡ false
    unfolding new
    new-reads p ne x g = false_of _ λ h.
        let before = others-grants true p x ne g in
        let clear = others-clear true p x ne refl g in
        let excess = add_permission-excess false from to iswrite false permits x h in
        let apart = ex p peer (str_eq-ne p peer ne) x before in
        let own_apart : grants false permits x ≡ false =
          subst (λ ps. grants false ps x ≡ false) (sym own) apart in
        ground arith

    new-IsExclusive : IsExclusive (insert peer new left)
    new-IsExclusive =
        insert-IsExclusive peer new left
          (λ p q np nq ne x g. false_of _ λ h.
            let apart = ex p q ne x (others-grants true p x np g) in
            let held = others-grants false q x nq h in cc)
          new-writes new-reads

-- A grant keeps the clients apart: if no byte that one client may write is granted to another
-- before `waitAndGetPermissionFor`, then none is after it.
pub wait_and_get-IsExclusive :
    (peer : String) (start end : ℕ) (iswrite : Bool) (f : MmFile) (a : Answer)
    → IsExclusive f.client_permissions
    → wait_and_get_permission_for peer start end iswrite f ≡ some a
    → IsExclusive a.file.client_permissions
unfolding new
wait_and_get-IsExclusive peer start end iswrite f a ex h =
    let (permits, e, result) = answer_map peer start end iswrite f a h in
    let m : ClientPermissions = f.client_permissions in
    subst IsExclusive (sym result) (
      new-IsExclusive peer start end iswrite m permits
        (others-own peer start end iswrite m permits e) ex)

insert_none-IsExclusive :
    (peer : String) (m : ClientPermissions) → IsExclusive m → IsExclusive (insert peer [] m)
insert_none-IsExclusive peer m ex =
    insert-IsExclusive peer [] m (λ p q np nq. ex p q)
      (λ q ne x g. absurd (nothing-grants true x g))
      (λ p ne x g. false_of _ (nothing-grants false x))

pub open_by-IsExclusive :
    (peer : String) (f : MmFile)
    → IsExclusive f.client_permissions
    → IsExclusive (open_by peer f).0.client_permissions
unfolding open_by
open_by-IsExclusive peer f ex = elim (Option-cases (lookup peer f.client_permissions)) [
  | inl e ↦ rw (e, open_by) (insert_none-IsExclusive peer f.client_permissions ex)
  | inr (permits, e) ↦ rw (e, open_by) ex
]

erase-IsExclusive :
    (peer : String) (m : ClientPermissions) → IsExclusive m → IsExclusive (erase peer m)
erase-IsExclusive peer m ex p q ne x g = elim (Bool-cases (str_eq peer p)) [
  | inl mine ↦
      let gone : permits_of p (erase peer m) ≡ [] = ground (arith, permits_of-erase peer p m) in
      absurd (nothing-grants true x (subst (λ ps. grants true ps x ≡ true) gone g))
  | inr other ↦
      let same : permits_of p (erase peer m) ≡ permits_of p m =
        ground (arith, permits_of-erase peer p m) in
      let apart = ex p q ne x (subst (λ ps. grants true ps x ≡ true) same g) in
      elim (Bool-cases (str_eq peer q)) [
        | inl mine ↦
            let gone : permits_of q (erase peer m) ≡ [] =
              ground (arith, permits_of-erase peer q m) in
            rw gone (false_of _ (nothing-grants false x))
        | inr left ↦
            let same_q : permits_of q (erase peer m) ≡ permits_of q m =
              ground (arith, permits_of-erase peer q m) in
            rw same_q apart
      ]
]

pub close_by-IsExclusive :
    (peer : String) (f : MmFile)
    → IsExclusive f.client_permissions
    → IsExclusive (close_by peer f).0.client_permissions
unfolding close_by
close_by-IsExclusive peer f ex = elim (Option-cases (lookup peer f.client_permissions)) [
  | inl e ↦ rw (e, close_by) ex
  | inr (permits, e) ↦ rw (e, close_by) (erase-IsExclusive peer f.client_permissions ex)
]
