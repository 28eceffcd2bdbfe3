-- ===== src/Utf8/Laws.antt =====
-- The UTF-8 functions that `execute_error_fault` of proxy/faulter.rs relies on, on valid texts.
use red_monkey.Common.{
  Bytes, ◌≡◌, ap, sym, ◌∙◌, true, Option-cases, inl, inr, [], ◌∷◌, ◌++◌, append_assoc, append-nil,
  arith,
}
use red_monkey.Utf8.{Expect, start, tail, next, is_utf8_from, is_utf8, lossy_from, from_utf8_lossy}

is_utf8_from-append :
    (e : Expect) (s t : Bytes)
    → is_utf8_from e s ≡ true
    → is_utf8_from start t ≡ true
    → is_utf8_from e (s ++ t) ≡ true
unfolding is_utf8_from
is_utf8_from-append start [] t hs ht = ht
is_utf8_from-append (tail lo hi rest) [] t hs ht = cc
is_utf8_from-append e (b ∷ s) t hs ht = elim (Option-cases (next e b)) [
  | inl n ↦ ground arith
  | inr (e', n) ↦ rw (n, is_utf8_from) (is_utf8_from-append e' s t (ground arith) ht)
]

pub is_utf8-append : (s t : Bytes) → is_utf8 s ≡ true → is_utf8 t ≡ true → is_utf8 (s ++ t) ≡ true
is_utf8-append s t hs ht = unfold is_utf8 in is_utf8_from-append start s t hs ht

lossy_from-id :
    (e : Expect) (pending s : Bytes)
    → is_utf8_from e s ≡ true
    → lossy_from e pending s ≡ pending ++ s
unfolding is_utf8_from lossy_from
lossy_from-id start pending [] h = sym (append-nil pending)
lossy_from-id (tail lo hi rest) pending [] h = cc
lossy_from-id e pending (b ∷ s) h = elim (Option-cases (next e b)) [
  | inl n ↦ ground arith
  | inr (start, n) ↦
      rw (n, lossy_from)
        (ap (λ (t : Bytes). pending ++ b ∷ t) (lossy_from-id start [] s (ground arith)))
  | inr (tail lo hi rest, n) ↦
      rw (n, lossy_from)
        (lossy_from-id (tail lo hi rest) (pending ++ b ∷ []) s (ground arith)
          ∙ append_assoc pending (b ∷ []) s)
]

-- The lossy conversion changes nothing in a valid text.
pub from_utf8_lossy-id : (s : Bytes) → is_utf8 s ≡ true → from_utf8_lossy s ≡ s
unfolding is_utf8 from_utf8_lossy
from_utf8_lossy-id s h = lossy_from-id start [] s h
