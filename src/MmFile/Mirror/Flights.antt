-- ===== src/MmFile/Mirror/Flights.antt =====
-- The clients' vectors with the replies that are on their way: what they come to once all have arrived.
use pfs.Base.{
  ◌≡◌, refl, sym, ap, ◌∙◌, inl, inr, Bool, true, false, List, [], ◌∷◌, String, arith, str_eq,
  str_eq-true, Bool-cases,
}
use pfs.Permission.{Permission}
use pfs.File.{add_permission}
use pfs.File.Bare.{bare_all}
use pfs.File.Bare.Adds.{add_permission-bare_all}
use pfs.MmFile.{MmFile, Permits, RevokeRequest, Answer}
use pfs.MmFile.Mirror.{
  Vectors, Flight, Flights, idle, granting, closing, is_idle, set_flight, all_idle, change_of,
  deliver, enter,
}
use pfs.MmFile.Mirror.Kept.{IsMirrored, entered, kept_lem}

-- A vector once what is on its way has arrived.
unfoldable pub settle : Flight → Permits → Permits
settle idle ps = ps
settle (granting iswrite permit) ps = add_permission permit.start permit.end iswrite true ps
settle closing ps = []

abbrev pub settled : Flights → Vectors → Vectors
settled flights held q = settle (flights q) (held q)

pub settle-idle : (flight : Flight) (ps : Permits) → is_idle flight ≡ true → settle flight ps ≡ ps
unfolding settle
settle-idle idle ps h = refl
settle-idle (granting iswrite permit) ps h = ground arith
settle-idle closing ps h = ground arith

settle-bare_all :
    (flight : Flight) (ps qs : Permits)
    → bare_all ps ≡ bare_all qs
    → bare_all (settle flight ps) ≡ bare_all (settle flight qs)
unfolding settle
settle-bare_all idle ps qs same = same
settle-bare_all (granting iswrite permit) ps qs same =
    add_permission-bare_all permit.start permit.end iswrite true ps
    ∙ ap (add_permission permit.start permit.end iswrite false) same
    ∙ sym (add_permission-bare_all permit.start permit.end iswrite true qs)
settle-bare_all closing ps qs same = refl

-- What a client is left with depends on its own vector alone.
deliver_local :
    (rs : List RevokeRequest) (held held' : Vectors) (q : String)
    → held q ≡ held' q
    → deliver rs held q ≡ deliver rs held' q
unfolding deliver
deliver_local [] held held' q same = same
deliver_local (r ∷ rs) held held' q same =
    deliver_local rs _ _ q
      (elim (Bool-cases (str_eq r.peer q)) [ inl eq ↦ rw (eq, same) refl | inr ne ↦ rw ne same ])

-- A client with something on its way is sent no revocation.
deliver_busy :
    (rs : List RevokeRequest) (held : Vectors) (flights : Flights) (q : String)
    → all_idle rs flights ≡ true
    → is_idle (flights q) ≡ false
    → deliver rs held q ≡ held q
unfolding deliver
deliver_busy [] held flights q spared busy = refl
deliver_busy (r ∷ rs) held flights q spared busy =
    deliver_busy rs _ flights q (ground arith) busy ∙ (elim (Bool-cases (str_eq r.peer q)) [
      | inl eq ↦
          let free : is_idle (flights r.peer) ≡ true = ground arith in
          let same : flights r.peer ≡ flights q = ap flights (str_eq-true r.peer q eq) in
          absurd (cc (ap is_idle same, free, busy))
      | inr ne ↦ rw ne refl
    ])

pub same-IsMirrored :
    (f : MmFile) (held held' : Vectors)
    → ((q : String) → held' q ≡ held q)
    → IsMirrored f held
    → IsMirrored f held'
same-IsMirrored f held held' same (map, tokens) = (map, λ q. ap bare_all (same q) ∙ tokens q)

module _ (peer : String) (held : Vectors) (flights : Flights) where
  here : (q : String) → str_eq peer q ≡ true → flights q ≡ flights peer
  here q eq = ap flights (sym (str_eq-true peer q eq))

  pub asks-settled :
      (iswrite : Bool) (a : Answer)
      → is_idle (flights peer) ≡ true
      → all_idle a.revocations flights ≡ true
      → (q : String)
      → settled (set_flight peer (granting iswrite a.permit) flights) (deliver a.revocations held) q
        ≡ entered peer iswrite a (settled flights held) q
  unfolding settle
  asks-settled iswrite a free spared q =
      let rs : List RevokeRequest = a.revocations in
      let local = deliver_local rs held (settled flights held) q in
      elim (Bool-cases (str_eq peer q)) [
        | inl eq ↦
            let idle_here : is_idle (flights q) ≡ true = ap is_idle (here q eq) ∙ free in
            let same = local (sym (settle-idle (flights q) (held q) idle_here)) in
            rw (eq, settle) (ap (add_permission a.permit.start a.permit.end iswrite true) same)
        | inr ne ↦ elim (Bool-cases (is_idle (flights q))) [
          | inl calm ↦ rw ne (
              settle-idle (flights q) (deliver rs held q) calm
              ∙ local (sym (settle-idle (flights q) (held q) calm)))
          | inr busy ↦ rw ne (
              ap (settle (flights q)) (deliver_busy rs held flights q spared busy)
              ∙ sym (deliver_busy rs (settled flights held) flights q spared busy))
        ]
      ]

  pub enters-settled :
      (iswrite : Bool) (permit : Permission)
      → flights peer ≡ granting iswrite permit
      → (q : String)
      → settled (set_flight peer idle flights) (enter peer iswrite permit held) q
        ≡ settled flights held q
  unfolding settle
  enters-settled iswrite permit due q = elim (Bool-cases (str_eq peer q)) [
    | inl eq ↦ rw (eq, here q eq, due, settle) refl
    | inr ne ↦ rw ne refl
  ]

  pub closes-settled :
      (q : String)
      → settled (set_flight peer closing flights) held q
        ≡ change_of peer (λ ps. []) (settled flights held) q
  unfolding settle
  closes-settled q = elim (Bool-cases (str_eq peer q)) [
    | inl eq ↦ rw (eq, settle) refl
    | inr ne ↦ rw ne refl
  ]

  pub drops-settled :
      flights peer ≡ closing
      → (q : String)
      → settled (set_flight peer idle flights) (change_of peer (λ ps. []) held) q
        ≡ settled flights held q
  unfolding settle
  drops-settled due q = elim (Bool-cases (str_eq peer q)) [
    | inl eq ↦ rw (eq, here q eq, due, settle) refl
    | inr ne ↦ rw ne refl
  ]

  -- A change of one client's vector that leaves its tokens.
  pub settled-kept :
      (f : Permits → Permits)
      → ((ps : Permits) → bare_all (f ps) ≡ bare_all ps)
      → (q : String)
      → bare_all (settled flights (change_of peer f held) q) ≡ bare_all (settled flights held q)
  settled-kept f same q =
      settle-bare_all (flights q) (change_of peer f held q) (held q) (kept_lem peer f held same q)
