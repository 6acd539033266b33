-- ===== src/Server/Process/Port.antt =====
-- The port of a server, from the name in its configuration.
use scalable_key_value_store.Prelude.{
  ℕ, ◌^◌, ◌<◌, ◌≡◌, ◌≢◌, refl, ap, ◌∙◌, ℤ, some, List, [], ◌∷◌, ◌++◌, ◌==◌, true, false, All, map,
  arith,
}
use scalable_key_value_store.Server.Java.{returns, pure, non_null, ◌>>=◌}
use scalable_key_value_store.Server.Sql.{Text}
use scalable_key_value_store.Server.Config.{split, pieces, prepend, trim, keep_piece}
use scalable_key_value_store.Server.Integers.Places.{
  place_value, character, IsDigits, parse_int-digits,
}
use scalable_key_value_store.Server.Process.{Platform, colon, port_of, second, result}

abbrev pub IsFree : ℕ → Text → Type 0
IsFree sep = All (λ c. c ≢ sep)

no_separator : (c sep : ℕ) → c ≢ sep → (c == sep) ≡ false
no_separator c sep h = ground arith

pieces-IsFree : (sep : ℕ) (s : Text) → IsFree sep s → pieces sep s ≡ s ∷ []
unfolding pieces prepend
pieces-IsFree sep [] h = refl
pieces-IsFree sep (c ∷ s) (other, rest) =
    rw (no_separator c sep other, pieces-IsFree sep s rest) refl

same : (c : ℕ) → (c == c) ≡ true
same c = ground arith

pieces-append : (sep : ℕ) (s t : Text) → IsFree sep s → pieces sep (s ++ sep ∷ t) ≡ s ∷ pieces sep t
unfolding pieces prepend
pieces-append sep [] t h = rw (same sep) refl
pieces-append sep (c ∷ s) t (other, rest) =
    rw (no_separator c sep other, pieces-append sep s t rest) refl

trim_two : (s t : Text) (c : ℕ) → trim (s ∷ (c ∷ t) ∷ []) ≡ s ∷ (c ∷ t) ∷ []
unfolding trim keep_piece
trim_two [] t c = refl
trim_two (d ∷ s) t c = refl

split_two :
    (sep : ℕ) (s t : Text) (c : ℕ)
    → IsFree sep s
    → IsFree sep (c ∷ t)
    → split sep (s ++ sep ∷ c ∷ t) ≡ s ∷ (c ∷ t) ∷ []
unfolding split
split_two sep [] t c free rest =
    ap trim (pieces-append sep [] (c ∷ t) free ∙ ap (◌∷◌ []) (pieces-IsFree sep (c ∷ t) rest))
    ∙ trim_two [] t c
split_two sep (d ∷ s) t c free rest =
    ap trim
      (pieces-append sep (d ∷ s) (c ∷ t) free ∙ ap (◌∷◌ (d ∷ s)) (pieces-IsFree sep (c ∷ t) rest))
    ∙ trim_two (d ∷ s) t c

digits-IsFree : (ds : List ℕ) → IsDigits ds → IsFree colon (map character ds)
digits-IsFree [] h = tt
digits-IsFree (d ∷ ds) (small, rest) = (omega arith, digits-IsFree ds rest)

module _ {W D H : Type 0} (platform : Platform W D H) where
  -- A node id of a text without a colon, a colon and decimal digits that fit into 31 bits gives the
  -- port that the digits write.
  pub port_of-digits :
      (host : Text) (d : ℕ) (ds : List ℕ) (w : W)
      → IsFree colon host
      → IsDigits (d ∷ ds)
      → place_value (d ∷ ds) < 2 ^ 31
      → port_of platform (some (host ++ colon ∷ map character (d ∷ ds))) w
        ≡ (returns (ℤ.pos (place_value (d ∷ ds))), w)
  unfolding port_of ◌>>=◌ non_null second result pure
  port_of-digits host d ds w free digits small =
      rw
        (
          split_two colon host (map character ds) (character d) free
              (digits-IsFree (d ∷ ds) digits),
          parse_int-digits platform.other_digit d ds digits small,
        )
        refl
