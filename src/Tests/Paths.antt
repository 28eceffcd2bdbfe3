-- ===== src/Tests/Paths.antt =====
-- A path matcher for literal patterns and patterns that end in one parameter.
use red_monkey.Common.{
  Text, codes, ◌≡◌, ◌≢◌, refl, Option, none, some, true, false, [], ◌∷◌, ◌++◌, ◌==◌, ==_refl, eqb,
  if◌then◌else◌, arith, inl, inr, Bool-cases,
}
use red_monkey.FaultConfigServer.Server.{Matcher, without, is_segment}

-- A pattern up to its parameter, and a path behind a prefix.
until_brace : Text → Text
until_brace [] = []
until_brace (c ∷ s) = if eqb c b'{' then [] else c ∷ until_brace s

strip : Text → Text → Option Text
strip [] path = some path
strip (c ∷ p) [] = none
strip (c ∷ p) (b ∷ path) = if eqb c b then strip p path else none

abbrev segment : Option Text → Option (Text → Option Text)
segment none = none
segment (some name) = if is_segment name then some (λ _. some name) else none

unfoldable pub match_path : Text → Text → Option (Text → Option Text)
unfolding until_brace strip
match_path p path =
    if without b'{' p
    then (if p == path then some (λ _. none) else none)
    else segment (strip (until_brace p) path)

without_brace : (p : Text) → without b'{' (p ++ codes "{fault_name}") ≡ false
without_brace [] = refl
without_brace (c ∷ p) = ground (arith, without_brace p)

until_brace-append :
    (p : Text) → without b'{' p ≡ true → until_brace (p ++ codes "{fault_name}") ≡ p
unfolding until_brace
until_brace-append [] h = refl
until_brace-append (c ∷ p) h = ground (arith, until_brace-append p)

strip-append : (p name : Text) → strip p (p ++ name) ≡ some name
unfolding strip
strip-append [] name = refl
strip-append (c ∷ p) name = ground (arith, strip-append p name)

strip-some : (p path name : Text) → strip p path ≡ some name → p ++ name ≡ path
unfolding strip
strip-some [] path name h = cc
strip-some (c ∷ p) [] name h = cc
strip-some (c ∷ p) (b ∷ path) name h = ground (arith, strip-some p path name)

pub segment_match :
    (p name : Text)
    → without b'{' p ≡ true
    → is_segment name ≡ true
    → (info : Text → Option Text) × (match_path (p ++ codes "{fault_name}") (p ++ name) ≡ some info)
      × (info (codes "fault_name") ≡ some name)
unfolding match_path
segment_match p name h s =
    ((λ _. some name), rw (without_brace p, until_brace-append p h, strip-append p name, s), refl)

pub segment_other :
    (p path : Text)
    → without b'{' p ≡ true
    → ((name : Text) → is_segment name ≡ true → p ++ name ≢ path)
    → match_path (p ++ codes "{fault_name}") path ≡ none
unfolding match_path
segment_other p path h no_segment =
    rw (without_brace p, until_brace-append p h) (unmatched (strip p path) (strip-some p path))
  where
    unmatched :
        (o : Option Text) → ((name : Text) → o ≡ some name → p ++ name ≡ path) → segment o ≡ none
    unmatched none k = refl
    unmatched (some name) k = elim (Bool-cases (is_segment name)) [
      | inl s ↦ absurd (no_segment name s (k name refl))
      | inr n ↦ rw n
    ]

pub literal_self :
    (p : Text) → without b'{' p ≡ true → (info : Text → Option Text) × (match_path p p ≡ some info)
unfolding match_path
literal_self p h = ((λ _. none), rw (h, ==_refl p))

pub literal_other : (p path : Text) → without b'{' p ≡ true → p ≢ path → match_path p path ≡ none
unfolding match_path
literal_other p path h ne = ground arith

abbrev pub matcher : Matcher
matcher = record {
  match_path = match_path;
  literal_self = literal_self;
  literal_other = literal_other;
  segment_match = segment_match;
  segment_other = segment_other;
}
