-- ===== src/Serial/Container/MapTrip.antt =====
-- The round trip of a map whose keys are distinct.
use ip2unix.Base.{
  All, Bool, List, [], ap, append-nil, append_assoc, arith, false, length, length-append, refl, suc,
  zero, ℕ, ◌++◌, ◌+◌, ◌<◌, ◌∙◌, ◌∷◌, ◌≡◌, ◌≤◌,
}
use ip2unix.Base.Text.{Bytes}
use ip2unix.Serial.Stream.{Reader, RoundTrips, ok}
use ip2unix.Serial.Container.{
  assign, deserialise_item, deserialise_map, deserialise_map_onto, serialise_map,
}
use ip2unix.Serial.Container.RoundTrip.{item-RoundTrips}

module _ {A B : Type 0} (eq : A → A → Bool) where
  abbrev pub Fresh : List (A × B) → A → Type 0
  Fresh out key = All (λ (item : A × B). eq item.0 key ≡ false) out

  -- No key stands in `out` or twice in the list.
  abbrev pub DistinctKeys : List (A × B) → List (A × B) → Type 0
  DistinctKeys out [] = Unit
  DistinctKeys out ((key, val) ∷ rest) = Fresh out key × DistinctKeys (out ++ (key, val) ∷ []) rest

  assign-Fresh :
      (out : List (A × B)) (key : A) (val : B)
      → Fresh out key
      → assign eq key val out ≡ out ++ (key, val) ∷ []
  unfolding assign
  assign-Fresh [] key val h = refl
  assign-Fresh ((k, v) ∷ out) key val h = rw (h.0, assign-Fresh out key val h.1) refl

  module _ {P : A → Type 0} {Q : B → Type 0} (write_key : A → Bytes) (write_value : B → Bytes)
      (read_key : Reader A) (read_value : Reader B) (key_trip : RoundTrips P write_key read_key)
      (value_trip : RoundTrips Q write_value read_value) where
    -- One record of the text, and what follows it.
    abbrev written : A → B → Bytes → Bytes
    written k v rest = write_key k ++ (b'=' ∷ (write_value v ++ (b';' ∷ rest)))

    shorter : (k : A) (v : B) (rest : Bytes) → length rest + 1 < length (written k v rest)
    shorter k v rest = omega (
      arith,
      length-append (write_key k) (b'=' ∷ (write_value v ++ (b';' ∷ rest))),
      length-append (write_value v) (b';' ∷ rest),
    )

    map_step :
        (fuel : ℕ) (out : List (A × B)) (s rest : Bytes) (key : A) (val : B)
        → 0 < length s
        → deserialise_item read_key read_value s ≡ ok (key, val) rest
        → deserialise_map_onto eq read_key read_value (suc fuel) out s
          ≡ deserialise_map_onto eq read_key read_value fuel (assign eq key val out) rest
    unfolding deserialise_map_onto
    map_step fuel out [] rest key val l e = absurd (omega arith)
    map_step fuel out (c ∷ s) rest key val l e = rw e refl

    map_onto-RoundTrips :
        (val : List (A × B)) (fuel : ℕ) (out : List (A × B))
        → All (λ (item : A × B). P item.0 × Q item.1) val
        → DistinctKeys out val
        → length (serialise_map write_key write_value val) ≤ fuel
        → deserialise_map_onto eq read_key read_value fuel out
            (serialise_map write_key write_value val)
          ≡ ok (out ++ val) []
    unfolding serialise_map
    map_onto-RoundTrips [] zero out p d h = rw append-nil (unfold deserialise_map_onto in refl)
    map_onto-RoundTrips [] (suc fuel) out p d h =
        rw append-nil (unfold deserialise_map_onto in refl)
    map_onto-RoundTrips ((k, v) ∷ val) zero out p d h =
        absurd (omega (arith, shorter k v (serialise_map write_key write_value val)))
    map_onto-RoundTrips ((k, v) ∷ val) (suc fuel) out p d h =
        let rest = serialise_map write_key write_value val in
        let less = shorter k v rest in
        map_step fuel out (written k v rest) rest k v (omega arith) (
          item-RoundTrips write_key write_value read_key read_value key_trip value_trip k v rest
            p.0.0 p.0.1)
        ∙ ap (λ o. deserialise_map_onto eq read_key read_value fuel o rest)
            (assign-Fresh out k v d.0)
        ∙ map_onto-RoundTrips val fuel (out ++ (k, v) ∷ []) p.1 d.1 (omega arith)
        ∙ ap (λ l. ok l []) (append_assoc out ((k, v) ∷ []) val)

    -- A map with distinct keys is read back from its text.
    pub map-RoundTrips :
        (val : List (A × B))
        → All (λ (item : A × B). P item.0 × Q item.1) val
        → DistinctKeys [] val
        → deserialise_map eq read_key read_value [] (serialise_map write_key write_value val)
          ≡ ok val []
    unfolding deserialise_map
    map-RoundTrips val p d = map_onto-RoundTrips val _ [] p d (omega arith)
