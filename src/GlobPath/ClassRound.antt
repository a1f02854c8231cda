-- ===== src/GlobPath/ClassRound.antt =====
-- What the loop over the characters of a class returns, by what the rest of its text means.
use mathlib.Core.Path.{subst}
use ip2unix.Base.{
  Bool, Bool-cases, List, Option, [], arith, false, if_cases, if◌then◌else◌, inl, inr, leb, length,
  ltb, none, not, refl, some, suc, sym, true, zero, ℕ, ◌&&◌, ◌+◌, ◌==◌, ◌||◌, ◌∷◌, ◌≡◌, ◌≢◌, ◌⊎◌,
}
use ip2unix.Base.Text.{Bytes}
use ip2unix.GlobPath.Class.{
  ClassState, MatchResult, after_round, at, backslash, bad_class, char_le, class_found, class_loop,
  class_member, class_round, end_of_input, got_recursive, got_slash, matched, not_matched,
}
use ip2unix.GlobPath.Progress.{at_inside}
use ip2unix.GlobPath.ClassText.{
  Char, ClassText, Item, NoChar, Open, at_backslash, at_end, at_slash, broken, closed, contains,
  dash_last, from_to, half_span, is_in, one, plain, quoted, single, span, with_item,
}

module _ (pattern : Bytes) (c : ℕ) (negate : Bool) where
  -- The text from `n` on, behind the start of a span or not.
  abbrev pub Rest : Bool → ℕ → Option ℕ → Option (List Item × ℕ) → Type 0
  Rest first n none o = ClassText pattern first n o
  Rest first n (some a) o =
      (NoChar pattern n × (o ≡ none))
      ⊎ ((b k : ℕ) × (o' : Option (List Item × ℕ)) × Char pattern n b k
          × ClassText pattern false k o'
          × (o ≡ with_item (span a b) o'))

  -- A match, after `found` of what came before.
  abbrev pub Holds : Bool → List Item → Type 0
  Holds found items =
      (if negate then not (found || contains items c) else (found || contains items c)) ≡ true

  abbrev pub Sound : Bool → ℕ → Option ℕ → Bool → Option (MatchResult × ℕ) → Type 0
  Sound first n rstart found none = Unit
  Sound first n rstart found (some (bad_class, m)) = Rest first n rstart none
  Sound first n rstart found (some (matched, m)) =
      (items : List Item) × Rest first n rstart (some (items, m)) × Holds found items
  Sound first n rstart found (some (not_matched, m)) = Unit
  Sound first n rstart found (some (_, m)) = ⊥

  -- One more item in front.
  item-Sound :
      (first : Bool) (n k : ℕ) (rstart : Option ℕ) (found : Bool) (item : Item)
      (r : Option (MatchResult × ℕ))
      → ((o : Option (List Item × ℕ))
          → ClassText pattern false k o
          → Rest first n rstart (with_item item o))
      → Sound false k none (found || is_in item c) r
      → Sound first n rstart found r
  unfolding contains
  item-Sound first n k rstart found item none f h = tt
  item-Sound first n k rstart found item (some (bad_class, m)) f h = f none h
  item-Sound first n k rstart found item (some (matched, m)) f (items, t, v) =
      (item ∷ items, f (some (items, m)) t, ground (arith, v))
  item-Sound first n k rstart found item (some (not_matched, m)) f h = tt
  item-Sound first n k rstart found item (some (end_of_input, m)) f h = h
  item-Sound first n k rstart found item (some (got_slash, m)) f h = h
  item-Sound first n k rstart found item (some (got_recursive, m)) f h = h

  -- Behind the start of a span.
  module _ (first : Bool) (n a m l : ℕ) (found : Bool) (o : Open pattern first n)
      (t : Char pattern n a m) (d : at pattern m ≡ b'-') (next : l ≡ m + 1)
      (e : at pattern l ≢ b']') where
    span-Sound :
        (r : Option (MatchResult × ℕ)) → Sound false l (some a) found r → Sound first n none found r
    span-Sound none h = tt
    span-Sound (some (bad_class, x)) (inl h) = half_span first n a m l o t d next e h.0
    span-Sound (some (bad_class, x)) (inr (b, k, none, s, u, same)) =
        from_to first n a m l b k none o t d next e s u
    span-Sound (some (bad_class, x)) (inr (b, k, some y, s, u, same)) = cc
    span-Sound (some (matched, x)) (items, inl h, v) = cc
    span-Sound (some (matched, x)) (items, inr (b, k, o', s, u, same), v) = (
      items,
      subst (ClassText pattern first n) (sym same) (from_to first n a m l b k o' o t d next e s u),
      v,
    )
    span-Sound (some (not_matched, x)) h = tt
    span-Sound (some (end_of_input, x)) h = h
    span-Sound (some (got_slash, x)) h = h
    span-Sound (some (got_recursive, x)) h = h

  -- The next rounds of the loop.
  abbrev pub Again : (ClassState → Option (MatchResult × ℕ)) → Type 0
  Again again =
      (first : Bool) (n : ℕ) (rstart : Option ℕ) (found : Bool)
      → Open pattern first n
      → Sound first n rstart found (again (record { nextpat = n; found = found; rstart = rstart }))

  module _ (first : Bool) (n m : ℕ) (found : Bool) (again : ClassState → Option (MatchResult × ℕ))
      (o : Open pattern first n) (t : Char pattern n (at pattern m) (m + 1))
      (ih : Again again) where
    -- What a round does that leaves the state `u`.
    abbrev Round : Option ℕ → ClassState → Type 0
    Round rstart u = Sound first n rstart found (after_round pattern c negate (some u) again)

    closes :
        (rstart : Option ℕ) (items : List Item) (l : ℕ) (r : Bool)
        → Rest first n rstart (some (items, l))
        → (r ≡ true → Holds found items)
        → Sound first n rstart found (some (if r then matched else not_matched, l))
    closes rstart items l r rest v =
        if_cases (λ (x : MatchResult). Sound first n rstart found (some (x, l))) r _ _
          (λ e. (items, rest, v e)) (λ _. tt)

    single-Round :
        at pattern (m + 1) ≢ b'-'
        → Round none (record { nextpat = m + 1; found = found || at pattern m == c; rstart = none })
    unfolding after_round class_found contains is_in
    single-Round d =
        if_cases (Sound first n none found) (at pattern (m + 1) == b']') _ _
          (λ e.
            closes none (single (at pattern m) ∷ []) (m + 1) _
              (one first n (at pattern m) (m + 1) (some ([], m + 1)) o t d
                (closed (m + 1) (ground arith)))
              (λ v. ground arith))
          (λ e.
            item-Sound first n (m + 1) none found (single (at pattern m)) _
              (λ x u. one first n (at pattern m) (m + 1) x o t d u)
              (ih false (m + 1) none (found || at pattern m == c) (inr (ground arith))))

    dash-Round :
        at pattern (m + 1) ≡ b'-'
        → Round none (record { nextpat = m + 2; found = found; rstart = some (at pattern m) })
    unfolding after_round class_found contains is_in
    dash-Round d =
        let next : m + 2 ≡ m + 1 + 1 = omega arith in
        if_cases (Sound first n none found) (at pattern (m + 2) == b']') _ _
          (λ e.
            closes none (single (at pattern m) ∷ single b'-' ∷ []) (m + 2) _
              (dash_last first n (at pattern m) (m + 1) (m + 2) o t d next (ground arith))
              (λ v. ground arith))
          (λ e.
            span-Sound first n (at pattern m) (m + 1) (m + 2) found o t d next (ground arith) _
              (ih false (m + 2) (some (at pattern m)) found (inr (ground arith))))

    span-Round :
        (a : ℕ)
        → Round (some a) (record {
          nextpat = m + 1;
          found = found || (char_le a c && char_le c (at pattern m));
          rstart = none;
        })
    unfolding after_round class_found contains is_in char_le
    span-Round a =
        if_cases (Sound first n (some a) found) (at pattern (m + 1) == b']') _ _
          (λ e.
            closes (some a) (span a (at pattern m) ∷ []) (m + 1) _
              (inr (at pattern m, m + 1, some ([], m + 1), t, closed (m + 1) (ground arith), refl))
              (λ v. ground arith))
          (λ e.
            item-Sound first n (m + 1) (some a) found (span a (at pattern m)) _
              (λ x u. inr (at pattern m, m + 1, x, t, u, refl))
              (ih false (m + 1) none _ (inr (ground arith))))

    member-Round : (rstart : Option ℕ) → Round rstart (class_member pattern c m found rstart)
    unfolding class_member
    member-Round none =
        if_cases (Round none) (ltb (m + 1) (length pattern) && at pattern (m + 1) == b'-') _ _
          (λ d. dash-Round (ground arith)) (λ d. single-Round (no_dash d))
      where
        no_dash :
            ltb (m + 1) (length pattern) && at pattern (m + 1) == b'-' ≡ false
            → at pattern (m + 1) ≢ b'-'
        no_dash d e = ground (arith, at_inside pattern pattern (m + 1) (ground arith))
    member-Round (some a) = span-Round a

  NoChar-Rest :
      (first : Bool) (n : ℕ) (rstart : Option ℕ)
      → Open pattern first n
      → NoChar pattern n
      → Rest first n rstart none
  NoChar-Rest first n none o h = broken first n o h
  NoChar-Rest first n (some a) o h = inl (h, refl)

  slash_or_end : (n : ℕ) → leb (length pattern) n || at pattern n == b'/' ≡ true → NoChar pattern n
  slash_or_end n e = elim (Bool-cases (leb (length pattern) n)) [
    | inl end ↦ at_end (ground arith)
    | inr more ↦ at_slash (ground arith)
  ]

  after_round-Sound :
      (first : Bool) (n : ℕ) (rstart : Option ℕ) (found : Bool)
      (again : ClassState → Option (MatchResult × ℕ))
      → Open pattern first n
      → Again again
      → Sound first n rstart found (
          after_round pattern c negate
            (class_round pattern c (record { nextpat = n; found = found; rstart = rstart }))
            again)
  unfolding class_round after_round
  after_round-Sound first n rstart found again o ih =
      let Goal = λ (x : Option ClassState).
        Sound first n rstart found (after_round pattern c negate x again) in
      if_cases Goal (leb (length pattern) n || at pattern n == b'/') _ _
        (λ e. NoChar-Rest first n rstart o (slash_or_end n e))
        λ e.
          if_cases Goal (at pattern n == backslash) _ _
            (λ b.
              if_cases Goal (leb (length pattern) (n + 1)) _ _
                (λ l. NoChar-Rest first n rstart o (at_backslash (ground arith) (ground arith)))
                (λ l.
                  member-Round first n (n + 1) found again o
                    (quoted (ground arith) (ground arith) refl (omega arith)) ih rstart))
            (λ b.
              member-Round first n n found again o
                (plain (ground arith) (ground arith) (ground arith) refl refl) ih rstart)

  pub class_loop-Sound : (fuel : ℕ) → Again (class_loop fuel pattern c negate)
  unfolding class_loop
  class_loop-Sound zero first n rstart found o = tt
  class_loop-Sound (suc fuel) first n rstart found o =
      after_round-Sound first n rstart found (class_loop fuel pattern c negate) o
        (class_loop-Sound fuel)
