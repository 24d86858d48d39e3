-- ===== src/Applications/Name.antt =====
-- internal/applications/application.go: the pattern of an application's name.
use deploy_os.Base.{
  ◌∙◌, sym, ℕ, zero, suc, ◌≤◌, ◌≡◌, refl, ◌↔◌, Bool, true, false, ◌&&◌, ◌||◌, List, [], ◌∷◌, arith,
  leb, nat_eq, length, All,
}
use mathlib.Core.Bool.{or-false}
use deploy_os.Go.Regexp.{Regex, class, seq, opt, upto, repeat, match_string, matcher, at_end}

-- [a-z0-9]
abbrev pub alnum : ℕ → Bool
alnum c = (leb b'a' c && leb c b'z') || (leb b'0' c && leb c b'9')

-- [a-z0-9-]
abbrev pub slug_char : ℕ → Bool
slug_char c = alnum c || nat_eq c b'-'

-- ^[a-z0-9]([a-z0-9-]{0,61}[a-z0-9])?$
abbrev pub name_re : Regex
name_re = seq (class alnum) (opt (seq (upto 61 (class slug_char)) (class alnum)))

-- A list ends in a character of [a-z0-9].
abbrev pub EndsAlnum : List ℕ → Type 0
EndsAlnum [] = ⊥
EndsAlnum (c ∷ []) = alnum c ≡ true
EndsAlnum (c ∷ d ∷ s) = EndsAlnum (d ∷ s)

abbrev pub StartsAlnum : List ℕ → Type 0
StartsAlnum [] = ⊥
StartsAlnum (c ∷ s) = alnum c ≡ true

-- A DNS label: one to 63 lowercase letters, digits and hyphens, with no hyphen at an end.
pub record IsSlug (s : List ℕ) : Type 0 where
  pub short : length s ≤ 63
  pub chars : All (λ c. slug_char c ≡ true) s
  pub first : StartsAlnum s
  pub last : EndsAlnum s

-- What remains of a slug behind its first character, if anything does.
tail_ok : ℕ → List ℕ → Bool
tail_ok n [] = false
tail_ok n (c ∷ []) = alnum c
tail_ok zero (c ∷ d ∷ s) = false
tail_ok (suc n) (c ∷ d ∷ s) = slug_char c && tail_ok n (d ∷ s)

repeat-tail_ok :
    (n : ℕ) (s : List ℕ)
    → repeat n (matcher (class slug_char)) (matcher (class alnum) at_end) s ≡ tail_ok n s
unfolding repeat matcher tail_ok
repeat-tail_ok zero [] = refl
repeat-tail_ok zero (c ∷ []) = ground arith
repeat-tail_ok zero (c ∷ d ∷ s) = ground arith
repeat-tail_ok (suc n) [] = refl
repeat-tail_ok (suc n) (c ∷ []) = ground (arith, repeat-tail_ok n [])
repeat-tail_ok (suc n) (c ∷ d ∷ s) = ground (arith, repeat-tail_ok n (d ∷ s))

Tail : ℕ → List ℕ → Type 0
Tail n s = (length s ≤ suc n) × All (λ c. slug_char c ≡ true) s × EndsAlnum s

tail_ok-Tail : (n : ℕ) (s : List ℕ) → tail_ok n s ≡ true → Tail n s
unfolding tail_ok Tail
tail_ok-Tail n [] h = cc
tail_ok-Tail n (c ∷ []) h = ground arith
tail_ok-Tail zero (c ∷ d ∷ s) h = cc
tail_ok-Tail (suc n) (c ∷ d ∷ s) h = ground (arith, tail_ok-Tail n (d ∷ s))

Tail-tail_ok : (n : ℕ) (s : List ℕ) → Tail n s → tail_ok n s ≡ true
unfolding tail_ok Tail
Tail-tail_ok n [] h = elim h.2 [ ]
Tail-tail_ok n (c ∷ []) h = h.2
Tail-tail_ok zero (c ∷ d ∷ s) h = absurd (omega arith)
Tail-tail_ok (suc n) (c ∷ d ∷ s) h = rw h.1.0 (Tail-tail_ok n (d ∷ s) (omega arith, h.1.1, h.2))

-- Over a variable bound, so that the rounds are not computed out.
bounded_re : ℕ → Regex
bounded_re n = seq (class alnum) (opt (seq (upto n (class slug_char)) (class alnum)))

match_bounded :
    (n : ℕ) (c d : ℕ) (s : List ℕ)
    → match_string (bounded_re n) (c ∷ d ∷ s) ≡ (alnum c && tail_ok n (d ∷ s))
unfolding match_string bounded_re
match_bounded n c d s = rw (repeat-tail_ok n (d ∷ s)) (rw or-false)

match_two :
    (c d : ℕ) (s : List ℕ) → match_string name_re (c ∷ d ∷ s) ≡ (alnum c && tail_ok 61 (d ∷ s))
match_two c d s = unfold bounded_re in match_bounded 61 c d s

both : (a b : Bool) → (a && b) ≡ true → (a ≡ true) × (b ≡ true)
both true b h = (refl, h)
both false b h = cc

slug_of_alnum : (c : ℕ) → alnum c ≡ true → slug_char c ≡ true
slug_of_alnum c h = rw h

join : (c d : ℕ) (s : List ℕ) → alnum c ≡ true → Tail 61 (d ∷ s) → IsSlug (c ∷ d ∷ s)
unfolding Tail
join c d s h (short, chars, last) = record {
  short = omega arith;
  chars = (slug_of_alnum c h, chars);
  first = h;
  last = last;
}

matches-IsSlug : (s : List ℕ) → match_string name_re s ≡ true → IsSlug s
unfolding match_string
matches-IsSlug [] h = cc
matches-IsSlug (c ∷ []) h =
    let a : alnum c ≡ true = ground arith in
    record { short = omega arith; chars = (slug_of_alnum c a, tt); first = a; last = a }
matches-IsSlug (c ∷ d ∷ s) h =
    let (a, t) = both _ _ (sym (match_two c d s) ∙ h) in join c d s a (tail_ok-Tail 61 (d ∷ s) t)

IsSlug-matches : (s : List ℕ) → IsSlug s → match_string name_re s ≡ true
unfolding match_string Tail
IsSlug-matches [] h = elim h.first [ ]
IsSlug-matches (c ∷ []) h = ground arith
IsSlug-matches (c ∷ d ∷ s) h =
    ground
      (arith, repeat-tail_ok 61 (d ∷ s), Tail-tail_ok 61 (d ∷ s) (omega arith, h.chars.1, h.last))

-- The pattern of names accepts a text exactly when it is a DNS label: at most 63 characters,
-- each a lowercase letter, a digit or a hyphen, with a letter or a digit at both ends.
pub match_string-IsSlug : (s : List ℕ) → (match_string name_re s ≡ true) ↔ IsSlug s
match_string-IsSlug s = (matches-IsSlug s, IsSlug-matches s)
