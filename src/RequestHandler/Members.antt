-- ===== src/RequestHandler/Members.antt =====
-- Which names `RenderMap` of TransportSystem/request_handler.cpp collects.
use transport_system.Prelude.{
  ℕ, zero, suc, ◌≡◌, refl, sym, subst, ◌∙◌, ◌⊎◌, Bool-cases, some, List, [], ◌∷◌, inl, inr, Str,
  str_eq, str_eq→eq, str_lt, get_elem?, ok, ok_same, after,
}
use transport_system.Domain.{Stop, Bus, deref, deref_all}
use transport_system.Catalogue.{TransportCatalogue, lookup}
use transport_system.Catalogue.Indexed.{AreKeyed}
use transport_system.Catalogue.Steps.{ok-get_elem?}
use transport_system.RequestHandler.{
  insert_unique, Passed, none_passed, collect_stops, collect_buses,
}
use transport_system.RequestHandler.Collecting.{All, All-insert_unique, AreFound, AreKeyed→AreFound}

abbrev pub IsMember : Str → List Str → Type 0
IsMember x [] = ⊥
IsMember x (y ∷ ys) = (x ≡ y) ⊎ IsMember x ys

IsMember-insert_unique :
    (y x : Str) (xs : List Str) → IsMember y xs → IsMember y (insert_unique x xs)
unfolding insert_unique
IsMember-insert_unique y x [] h = absurd h
IsMember-insert_unique y x (z ∷ zs) h = elim (Bool-cases (str_eq x z)) [
  | inl same ↦ rw same h
  | inr other ↦ elim (Bool-cases (str_lt x z)) [
    | inl less ↦ rw (other, less) (inr h)
    | inr more ↦
        rw (other, more)
          (elim h [ inl here ↦ inl here | inr there ↦ inr (IsMember-insert_unique y x zs there) ])
  ]
]

IsMember-insert_unique_self : (x : Str) (xs : List Str) → IsMember x (insert_unique x xs)
unfolding insert_unique
IsMember-insert_unique_self x [] = inl refl
IsMember-insert_unique_self x (z ∷ zs) = elim (Bool-cases (str_eq x z)) [
  | inl same ↦ rw same (inl (str_eq→eq x z same))
  | inr other ↦ elim (Bool-cases (str_lt x z)) [
    | inl less ↦ rw (other, less) (inl refl)
    | inr more ↦ rw (other, more) (inr (IsMember-insert_unique_self x zs))
  ]
]

All-IsMember : (P : Str → Type 0) (x : Str) (xs : List Str) → All P xs → IsMember x xs → P x
All-IsMember P x [] h m = absurd m
All-IsMember P x (y ∷ ys) h (inl same) = subst P (sym same) h.0
All-IsMember P x (y ∷ ys) h (inr there) = All-IsMember P x ys h.1 there

module _ {A : Type 0} where
  -- What stands at the places of a list.
  deref_all-at :
      (all : List A) (ps : List ℕ) (found : List A) (i : ℕ) (a : A)
      → deref_all all ps ≡ ok found
      → get_elem? found i ≡ some a
      → (q : ℕ) × (get_elem? ps i ≡ some q) × (get_elem? all q ≡ some a)
  unfolding deref_all
  deref_all-at all [] found i a e at =
      let empty : [] ≡ found = ok_same {r = ok []} refl e in absurd (cc (empty, at))
  deref_all-at all (p ∷ ps) found zero a e at = after (deref all p) e λ first at_p e1.
      after (deref_all all ps) e1 λ rest _ e2.
        let same : (first ∷ rest) ≡ found = ok_same {r = ok (first ∷ rest)} refl e2 in
        let read : get_elem? (first ∷ rest) 0 ≡ some a =
          subst (λ x. get_elem? x 0 ≡ some a) (sym same) at in
        (p, refl, ok-get_elem? all p at_p ∙ read)
  deref_all-at all (p ∷ ps) found (suc i) a e at = after (deref all p) e λ first at_p e1.
      after (deref_all all ps) e1 λ rest others e2.
        let same : (first ∷ rest) ≡ found = ok_same {r = ok (first ∷ rest)} refl e2 in
        deref_all-at all ps rest i a others
          (subst (λ x. get_elem? x (suc i) ≡ some a) (sym same) at)

  at-deref_all :
      (all : List A) (ps : List ℕ) (found : List A) (i q : ℕ) (a : A)
      → deref_all all ps ≡ ok found
      → get_elem? ps i ≡ some q
      → get_elem? all q ≡ some a
      → get_elem? found i ≡ some a
  unfolding deref_all
  at-deref_all all [] found i q a e at_i at_q = absurd (cc at_i)
  at-deref_all all (p ∷ ps) found zero q a e at_i at_q = after (deref all p) e λ first at_p e1.
      after (deref_all all ps) e1 λ rest _ e2.
        let same : (first ∷ rest) ≡ found = ok_same {r = ok (first ∷ rest)} refl e2 in
        let place : p ≡ q = cc at_i in
        subst (λ x. get_elem? x 0 ≡ some a) same
          (sym (ok-get_elem? all p at_p) ∙ subst (λ x. get_elem? all x ≡ some a) (sym place) at_q)
  at-deref_all all (p ∷ ps) found (suc i) q a e at_i at_q = after (deref all p) e λ first at_p e1.
      after (deref_all all ps) e1 λ rest others e2.
        let same : (first ∷ rest) ≡ found = ok_same {r = ok (first ∷ rest)} refl e2 in
        subst (λ x. get_elem? x (suc i) ≡ some a) same
          (at-deref_all all ps rest i q a others at_i at_q)

module _ {D : Type 0} where
  -- What holds of the name of the bus and of the names of the stops.
  collect_stops-All :
      (P Q : Str → Type 0) (name : Str) (stops : List (Stop D)) (passed : Passed D)
      → ((i : ℕ) (s : Stop D) → get_elem? stops i ≡ some s → P name × Q s.name)
      → All P passed.set_name_bus × All Q passed.set_name_stop
      → All P (collect_stops name stops passed).set_name_bus
        × All Q (collect_stops name stops passed).set_name_stop
  unfolding collect_stops
  collect_stops-All P Q name [] passed each h = h
  collect_stops-All P Q name (stop ∷ stops) passed each (hp, hq) =
      let (p, q) = each 0 stop refl in
      collect_stops-All P Q name stops _ (λ i. each (suc i))
        (
          All-insert_unique P name passed.set_name_bus p hp,
          All-insert_unique Q stop.name passed.set_name_stop q hq,
        )

  collect_stops-keeps :
      (n m name : Str) (stops : List (Stop D)) (passed : Passed D)
      → (IsMember n passed.set_name_bus → IsMember n (collect_stops name stops passed).set_name_bus)
        × (IsMember m passed.set_name_stop
            → IsMember m (collect_stops name stops passed).set_name_stop)
  unfolding collect_stops
  collect_stops-keeps n m name [] passed = (λ h. h, λ h. h)
  collect_stops-keeps n m name (stop ∷ stops) passed =
      let (bus, other) = collect_stops-keeps n m name stops _ in
      (
        λ h. bus (IsMember-insert_unique n name passed.set_name_bus h),
        λ h. other (IsMember-insert_unique m stop.name passed.set_name_stop h),
      )

  collect_stops-IsMember :
      (name : Str) (stops : List (Stop D)) (passed : Passed D) (i : ℕ) (s : Stop D)
      → get_elem? stops i ≡ some s
      → IsMember name (collect_stops name stops passed).set_name_bus
        × IsMember s.name (collect_stops name stops passed).set_name_stop
  unfolding collect_stops
  collect_stops-IsMember name [] passed i s at = absurd (cc at)
  collect_stops-IsMember name (stop ∷ stops) passed zero s at =
      let (bus, other) = collect_stops-keeps name stop.name name stops _ in
      let same : stop ≡ s = cc at in
      (
        bus (IsMember-insert_unique_self name passed.set_name_bus),
        subst (λ x. IsMember x.name (collect_stops name (stop ∷ stops) passed).set_name_stop) same
            (other (IsMember-insert_unique_self stop.name passed.set_name_stop)),
      )
  collect_stops-IsMember name (stop ∷ stops) passed (suc i) s at =
      collect_stops-IsMember name stops _ i s at

module _ {D : Type 0} (db : TransportCatalogue D) where
  -- The name of a bus leads to one that passes a stop of this name.
  abbrev pub IsPassedBy : Str → Str → Type 0
  IsPassedBy n m =
      (p : ℕ) × (bus : Bus) × (i q : ℕ) × (s : Stop D) × (lookup m db.buses ≡ some p)
      × (get_elem? db.all_buses p ≡ some bus)
      × (get_elem? bus.stops i ≡ some q)
      × (get_elem? db.all_stops q ≡ some s)
      × (s.name ≡ n)

  abbrev pub IsBusWithStop : Str → Type 0
  IsBusWithStop m = (n : Str) × IsPassedBy n m

  abbrev pub IsPassedStop : Str → Type 0
  IsPassedStop n = (m : Str) × IsPassedBy n m

  collect_buses-All :
      (buses : List (Str × ℕ)) (passed d : Passed D)
      → AreFound db.buses buses
      → collect_buses db buses passed ≡ ok d
      → All IsBusWithStop passed.set_name_bus × All IsPassedStop passed.set_name_stop
      → All IsBusWithStop d.set_name_bus × All IsPassedStop d.set_name_stop
  unfolding collect_buses
  collect_buses-All [] passed d found e h =
      subst (λ x. All IsBusWithStop x.set_name_bus × All IsPassedStop x.set_name_stop)
        (ok_same {r = ok passed} refl e) h
  collect_buses-All ((name, p) ∷ buses) passed d (found, others) e h =
      after (deref db.all_buses p) e λ bus at_p e1.
        after (deref_all db.all_stops bus.stops) e1 λ stops read rest.
          collect_buses-All buses (collect_stops name stops passed) d others rest (
            collect_stops-All IsBusWithStop IsPassedStop name stops passed
              (λ i s at.
                let (q, at_i, at_q) = deref_all-at db.all_stops bus.stops stops i s read at in
                let passes : IsPassedBy s.name name =
                  (p, bus, i, q, s, found, ok-get_elem? db.all_buses p at_p, at_i, at_q, refl) in
                ((s.name, passes), (name, passes)))
              h)

  collect_buses-keeps :
      (n m : Str) (buses : List (Str × ℕ)) (passed d : Passed D)
      → collect_buses db buses passed ≡ ok d
      → IsMember m passed.set_name_bus
      → IsMember n passed.set_name_stop
      → IsMember m d.set_name_bus × IsMember n d.set_name_stop
  unfolding collect_buses
  collect_buses-keeps n m [] passed d e hm hn =
      subst (λ x. IsMember m x.set_name_bus × IsMember n x.set_name_stop)
        (ok_same {r = ok passed} refl e) (hm, hn)
  collect_buses-keeps n m ((name, p) ∷ buses) passed d e hm hn =
      after (deref db.all_buses p) e λ bus at_p e1.
        after (deref_all db.all_stops bus.stops) e1 λ stops read rest.
          let (bus_kept, stop_kept) = collect_stops-keeps m n name stops passed in
          collect_buses-keeps n m buses (collect_stops name stops passed) d rest (bus_kept hm)
            (stop_kept hn)

  collect_buses-IsMember :
      (n m : Str) (p : ℕ) (bus : Bus) (i q : ℕ) (s : Stop D) (buses : List (Str × ℕ))
      (passed d : Passed D)
      → lookup m buses ≡ some p
      → get_elem? db.all_buses p ≡ some bus
      → get_elem? bus.stops i ≡ some q
      → get_elem? db.all_stops q ≡ some s
      → s.name ≡ n
      → collect_buses db buses passed ≡ ok d
      → IsMember m d.set_name_bus × IsMember n d.set_name_stop
  unfolding collect_buses lookup
  collect_buses-IsMember n m p bus i q s [] passed d found at_p at_i at_q named e =
      absurd (cc found)
  collect_buses-IsMember n m p bus i q s ((name, r) ∷ buses) passed d found at_p at_i at_q named e =
      after (deref db.all_buses r) e λ first at_r e1.
        after (deref_all db.all_stops first.stops) e1 λ stops read rest.
          elim (Bool-cases (str_eq m name)) [
            | inl same ↦
                let place : r ≡ p = cc (rw same at found) in
                let is_bus : first ≡ bus = cc (ok-get_elem? db.all_buses r at_r, place, at_p) in
                let at : get_elem? stops i ≡ some s =
                  at-deref_all db.all_stops first.stops stops i q s read (rw is_bus at_i) at_q in
                let (hm, hn) = collect_stops-IsMember name stops passed i s at in
                collect_buses-keeps n m buses (collect_stops name stops passed) d rest
                  (subst (λ x. IsMember x (collect_stops name stops passed).set_name_bus)
                    (sym (str_eq→eq m name same)) hm)
                  (subst (λ x. IsMember x (collect_stops name stops passed).set_name_stop) named hn)
            | inr other ↦
                collect_buses-IsMember n m p bus i q s buses (collect_stops name stops passed) d
                  (rw other at found) at_p at_i at_q named rest
          ]

  -- The sets are exactly the buses that pass a stop and the stops that a bus passes.
  abbrev pub AreNames : Passed D → Type 0
  AreNames d =
      (n m : Str)
      → (IsMember m d.set_name_bus → IsBusWithStop m)
        × (IsMember n d.set_name_stop → IsPassedStop n)
        × (IsPassedBy n m → IsMember m d.set_name_bus × IsMember n d.set_name_stop)

  pub collect_buses-AreNames :
      (d : Passed D) → AreKeyed db.buses → collect_buses db db.buses none_passed ≡ ok d → AreNames d
  collect_buses-AreNames d keyed e n m =
      let (buses, stops) =
        collect_buses-All db.buses none_passed d (AreKeyed→AreFound db.buses keyed) e (tt, tt) in
      (
        All-IsMember IsBusWithStop m d.set_name_bus buses,
        All-IsMember IsPassedStop n d.set_name_stop stops,
        λ (p, bus, i, q, s, found, at_p, at_i, at_q, named).
            collect_buses-IsMember n m p bus i q s db.buses none_passed d found at_p at_i at_q named
              e,
      )
