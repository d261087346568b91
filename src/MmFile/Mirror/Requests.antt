-- ===== src/MmFile/Mirror/Requests.antt =====
-- The revocations that a request sends change each client's vector as the metadata manager changed it.
use text.Mathlib.TextEquality.{eq_iff}
use pfs.Base.{
  ℕ, ◌≡◌, refl, sym, ap, subst, ◌∙◌, inl, inr, Bool, true, false, not, ◌&&◌, none, [], ◌∷◌, String,
  arith, str_eq, str_eq-true, if◌then◌else◌, lookup, insert, erase, lookup-insert, lookup-erase,
  Bool-cases,
}
use pfs.File.{revoke_permission}
use pfs.MmFile.{
  MmFile, Permits, ClientPermissions, conflicts, revoke_others, revocation, map_requests,
}
use pfs.MmFile.Others.{permits_of}
use pfs.MmFile.Mirror.{Vectors, change_of, deliver}

-- A map has one entry for a client.
abbrev pub IsMap : ClientPermissions → Type 0
IsMap [] = Unit {0}
IsMap ((k, ps) ∷ m) = (lookup k m ≡ none) × IsMap m

pub insert-IsMap :
    (k : String) (new : Permits) (m : ClientPermissions) → IsMap m → IsMap (insert k new m)
unfolding insert lookup
insert-IsMap k new [] h = (refl, tt)
insert-IsMap k new ((j, ps) ∷ m) (alone, rest) = elim (Bool-cases (str_eq j k)) [
  | inl eq ↦
      let alone' : lookup k m ≡ none = subst (λ n. lookup n m ≡ none) (str_eq-true j k eq) alone in
      rw eq (alone', rest)
  | inr ne ↦
      let alone' : lookup j (insert k new m) ≡ none =
        lookup-insert k j new m ∙ (ground (arith, eq_iff j k, eq_iff k j)) in
      rw ne (alone', insert-IsMap k new m rest)
]

pub erase-IsMap : (k : String) (m : ClientPermissions) → IsMap m → IsMap (erase k m)
unfolding erase
erase-IsMap k [] h = tt
erase-IsMap k ((j, ps) ∷ m) (alone, rest) = elim (Bool-cases (str_eq j k)) [
  | inl eq ↦ rw eq (erase-IsMap k m rest)
  | inr ne ↦
      let alone' : lookup j (erase k m) ≡ none = lookup-erase k j m ∙ (ground arith) in
      rw ne (alone', erase-IsMap k m rest)
]

module _ (peer : String) (start end : ℕ) (iswrite : Bool) where
  lookup-revoke_others :
      (k : String) (m : ClientPermissions)
      → lookup k m ≡ none
      → lookup k (revoke_others peer start end iswrite m).0 ≡ none
  unfolding lookup revoke_others
  lookup-revoke_others k [] h = refl
  lookup-revoke_others k ((j, ps) ∷ m) h = ground (arith, lookup-revoke_others k m)

  pub revoke_others-IsMap :
      (m : ClientPermissions) → IsMap m → IsMap (revoke_others peer start end iswrite m).0
  unfolding revoke_others
  revoke_others-IsMap [] h = tt
  revoke_others-IsMap ((j, ps) ∷ m) (alone, rest) =
      let rest' = revoke_others-IsMap m rest in
      let alone' = lookup-revoke_others j m alone in
      elim (Bool-cases (str_eq j peer)) [
        | inl own ↦ rw own (alone', rest')
        | inr other ↦ elim (Bool-cases (conflicts start end iswrite ps)) [
          | inl c ↦ rw (other, c) (alone', rest')
          | inr n ↦ rw (other, n) (alone', rest')
        ]
      ]

  -- Whether a client is asked.
  unfoldable pub is_asked : String → ClientPermissions → Bool
  is_asked q m = not (str_eq q peer) && conflicts start end iswrite (permits_of q m)

  is_asked_other :
      (other q : String) (ps : Permits) (m : ClientPermissions)
      → str_eq other q ≡ false
      → is_asked q ((other, ps) ∷ m) ≡ is_asked q m
  unfolding is_asked permits_of lookup
  is_asked_other other q ps m ne = rw (is_asked, permits_of, lookup, ne) refl

  is_asked_here :
      (other q : String) (ps : Permits) (m : ClientPermissions)
      → str_eq other q ≡ true
      → is_asked q ((other, ps) ∷ m) ≡ (not (str_eq q peer) && conflicts start end iswrite ps)
  unfolding is_asked permits_of lookup
  is_asked_here other q ps m eq = rw (is_asked, permits_of, lookup, eq) refl

  is_asked_absent : (q : String) (m : ClientPermissions) → lookup q m ≡ none → is_asked q m ≡ false
  unfolding is_asked permits_of conflicts
  is_asked_absent q m gone = rw (is_asked, permits_of, gone, conflicts) (ground arith)

  absent :
      (other q : String) (m : ClientPermissions)
      → str_eq other q ≡ true
      → lookup other m ≡ none
      → is_asked q m ≡ false
  absent other q m eq alone =
      is_asked_absent q m (subst (λ n. lookup n m ≡ none) (str_eq-true other q eq) alone)

  -- What a client's vector is after the requests.
  abbrev pub revoked_if : Bool → Permits → Permits
  revoked_if asked ps = if asked then revoke_permission start end ps else ps

  own_asked :
      (other q : String) (ps : Permits) (m : ClientPermissions)
      → str_eq other peer ≡ true
      → lookup other m ≡ none
      → is_asked q m ≡ is_asked q ((other, ps) ∷ m)
  own_asked other q ps m own alone = elim (Bool-cases (str_eq other q)) [
    | inr ne ↦ sym (is_asked_other other q ps m ne)
    | inl eq ↦
        let self : str_eq q peer ≡ true =
          subst (λ n. str_eq n peer ≡ true) (str_eq-true other q eq) own in
        absent other q m eq alone ∙ sym (is_asked_here other q ps m eq ∙ (rw self refl))
  ]

  calm_asked :
      (other q : String) (ps : Permits) (m : ClientPermissions)
      → conflicts start end iswrite ps ≡ false
      → lookup other m ≡ none
      → is_asked q m ≡ is_asked q ((other, ps) ∷ m)
  calm_asked other q ps m calm alone = elim (Bool-cases (str_eq other q)) [
    | inr ne ↦ sym (is_asked_other other q ps m ne)
    | inl eq ↦
        absent other q m eq alone ∙ sym (is_asked_here other q ps m eq ∙ (rw calm (ground arith)))
  ]

  asked_once :
      (other q : String) (ps : Permits) (m : ClientPermissions) (own : Permits)
      → str_eq other peer ≡ false
      → conflicts start end iswrite ps ≡ true
      → lookup other m ≡ none
      → revoked_if (is_asked q m) (if str_eq other q then revoke_permission start end own else own)
        ≡ revoked_if (is_asked q ((other, ps) ∷ m)) own
  asked_once other q ps m own foreign asked alone = elim (Bool-cases (str_eq other q)) [
    | inr ne ↦ rw (is_asked_other other q ps m ne, ne) refl
    | inl eq ↦
        let apart : str_eq q peer ≡ false =
          subst (λ n. str_eq n peer ≡ false) (str_eq-true other q eq) foreign in
        rw (is_asked_here other q ps m eq, eq, absent other q m eq alone, apart, asked) refl
  ]

  nothing_found : (q : String) → lookup {V = Permits} q [] ≡ none
  unfolding lookup
  nothing_found q = refl

  pub deliver-revoke_others :
      (f : MmFile) (q : String) (m : ClientPermissions) (held : Vectors)
      → IsMap m
      → deliver
          (map_requests (revocation f start end iswrite) (revoke_others peer start end iswrite m).1)
          held
          q
        ≡ revoked_if (is_asked q m) (held q)
  unfolding deliver revoke_others map_requests revocation
  deliver-revoke_others f q [] held h =
      let calm : is_asked q [] ≡ false = is_asked_absent q [] (nothing_found q) in rw calm refl
  deliver-revoke_others f q ((other, ps) ∷ m) held (alone, rest) =
      let r = revoke_others peer start end iswrite m in
      elim (Bool-cases (str_eq other peer)) [
        | inl own ↦
            let later = deliver-revoke_others f q m held rest in
            rw own (later ∙ ap (λ t. revoked_if t (held q)) (own_asked other q ps m own alone))
        | inr foreign ↦ elim (Bool-cases (conflicts start end iswrite ps)) [
          | inr calm ↦
              let later = deliver-revoke_others f q m held rest in
              rw (foreign, calm)
                (later ∙ ap (λ t. revoked_if t (held q)) (calm_asked other q ps m calm alone))
          | inl asked ↦
              let held' : Vectors = change_of other (revoke_permission start end) held in
              let later = deliver-revoke_others f q m held' rest in
              rw (foreign, asked) (later ∙ asked_once other q ps m (held q) foreign asked alone)
        ]
      ]
