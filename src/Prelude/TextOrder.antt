-- ===== src/Prelude/TextOrder.antt =====
-- The order of texts by code points, which is SQLite's BINARY collation of their UTF-8 bytes.
use Prim.Native.Nat.{Ordering}
use Prim.Native.String.{String, compare}
use Prim.Native.String.compare
use mathlib.Core.Path.{◌≡◌, refl}
use mathlib.Core.Bool.{Bool, true, false}
use native.Mathlib.Omega.{arith}
use text.Mathlib.Text.{is_le, is_lt, ◌==◌}

abbrev pub text_lt : String → String → Bool
text_lt s t = is_lt (compare s t)

abbrev pub text_le : String → String → Bool
text_le s t = is_le (compare s t)

abbrev pub turn : Ordering → Ordering
turn Ordering.lt = Ordering.gt
turn Ordering.eq = Ordering.eq
turn Ordering.gt = Ordering.lt

pub compare-turn : (s t : String) → compare t s ≡ turn (compare s t)
compare-turn String.[] String.[] = refl
compare-turn String.[] (String.◌∷◌ d t) = cc (compare.nil-cons d t, compare.cons-nil d t)
compare-turn (String.◌∷◌ c s) String.[] = cc (compare.nil-cons c s, compare.cons-nil c s)
compare-turn (String.◌∷◌ c s) (String.◌∷◌ d t) =
    ground (arith, compare-turn s t, compare.cons-cons c d s t, compare.cons-cons d c t s)

pub text_le_total : (s t : String) → text_le s t ≡ false → text_le t s ≡ true
text_le_total s t h = ground (arith, compare-turn s t)

pub text_le_trans : (s t u : String) → text_le s t ≡ true → text_le t u ≡ true → text_le s u ≡ true
text_le_trans String.[] t String.[] h k = refl
text_le_trans String.[] t (String.◌∷◌ e u) h k = rw (compare.nil-cons e u)
text_le_trans (String.◌∷◌ c s) String.[] u h k = ground (arith, compare.cons-nil c s)
text_le_trans (String.◌∷◌ c s) (String.◌∷◌ d t) String.[] h k = ground (arith, compare.cons-nil d t)
text_le_trans (String.◌∷◌ c s) (String.◌∷◌ d t) (String.◌∷◌ e u) h k = ground (
  arith,
  text_le_trans s t u,
  compare.cons-cons c d s t,
  compare.cons-cons d e t u,
  compare.cons-cons c e s u,
)

pub text_lt_total : (s t : String) → (s == t) ≡ false → text_lt s t ≡ false → text_lt t s ≡ true
text_lt_total s t d h = ground (arith, compare-turn s t)

pub text_lt_trans : (s t u : String) → text_lt s t ≡ true → text_lt t u ≡ true → text_lt s u ≡ true
text_lt_trans String.[] String.[] u h k = k
text_lt_trans String.[] (String.◌∷◌ d t) String.[] h k = ground (arith, compare.cons-nil d t)
text_lt_trans String.[] (String.◌∷◌ d t) (String.◌∷◌ e u) h k = rw (compare.nil-cons e u)
text_lt_trans (String.◌∷◌ c s) String.[] u h k = ground (arith, compare.cons-nil c s)
text_lt_trans (String.◌∷◌ c s) (String.◌∷◌ d t) String.[] h k = ground (arith, compare.cons-nil d t)
text_lt_trans (String.◌∷◌ c s) (String.◌∷◌ d t) (String.◌∷◌ e u) h k = ground (
  arith,
  text_lt_trans s t u,
  compare.cons-cons c d s t,
  compare.cons-cons d e t u,
  compare.cons-cons c e s u,
)

pub text_lt_asym : (s t : String) → text_lt s t ≡ true → text_lt t s ≡ false
text_lt_asym s t h = ground (arith, compare-turn s t)

-- A text that comes before another one is not that one.
pub text_lt-ne : (s t : String) → text_lt s t ≡ true → (s == t) ≡ false
text_lt-ne s t h = ground arith
