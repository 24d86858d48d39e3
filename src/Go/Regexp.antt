-- ===== src/Go/Regexp.antt =====
-- Go's package regexp, as far as a pattern between ^ and $ with classes, {0,n} and ? needs.
use deploy_os.Base.{ℕ, zero, suc, Bool, true, false, ◌&&◌, ◌||◌, List, [], ◌∷◌}

pub data Regex : Type 0 where
  -- [a-z0-9]: one character of a class
  class : (ℕ → Bool) → Regex
  seq : Regex → Regex → Regex
  -- (r)?
  opt : Regex → Regex
  -- r{0,n}
  upto : ℕ → Regex → Regex

-- Up to n rounds of a matcher, then `k`.
unfoldable pub repeat : ℕ → ((List ℕ → Bool) → List ℕ → Bool) → (List ℕ → Bool) → List ℕ → Bool
repeat zero f k s = k s
repeat (suc n) f k s = f (repeat n f k) s || k s

-- A prefix of `s` matches and `k` takes the rest. The choice of the prefix backtracks.
unfoldable pub matcher : Regex → (List ℕ → Bool) → List ℕ → Bool
unfolding repeat
matcher (class p) k [] = false
matcher (class p) k (c ∷ s) = p c && k s
matcher (seq a b) k s = matcher a (matcher b k) s
matcher (opt a) k s = matcher a k s || k s
matcher (upto n a) k s = repeat n (matcher a) k s

-- $, the end of the text
abbrev pub at_end : List ℕ → Bool
at_end [] = true
at_end (c ∷ s) = false

-- regexp.MustCompile("^r$").MatchString(s)
unfoldable pub match_string : Regex → List ℕ → Bool
unfolding matcher
match_string r s = matcher r at_end s
