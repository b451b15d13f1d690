-- ===== src/Shared/Keys.antt =====
-- `===` on the keys of a map: numbers, texts, and pairs of numbers.
use Prim.Native.Nat.{ℕ, compare, Ordering}
use Prim.Native.String.{String}
use mathlib.Core.Path.{◌≡◌}
use mathlib.Core.Logic.{◌↔◌}
use mathlib.Core.Bool.{Bool, true, false, ◌&&◌}
use native.Mathlib.Omega.{arith}
use text.Mathlib.Text
use text.Mathlib.TextEquality.{eq_iff}

abbrev pub same_number : ℕ → ℕ → Bool
same_number m n = elim (compare m n) [ Ordering.eq ↦ true | _ ↦ false ]

pub same_number_iff : (m n : ℕ) → (same_number m n ≡ true) ↔ (m ≡ n)
same_number_iff m n = ground arith

-- A type whose values can be the keys of a map.
pub record Key {ℓ} (K : Type ℓ) : Type ℓ where
  pub same_key : K → K → Bool
  pub same_key_iff : (j k : K) → (same_key j k ≡ true) ↔ (j ≡ k)

instance abbrev pub number_key : Key ℕ
number_key = record { same_key = same_number; same_key_iff = same_number_iff }

instance abbrev pub string_key : Key String
string_key = record { same_key = Text.◌==◌; same_key_iff = eq_iff }

infix 50 ◌==◌
abbrev pub ◌==◌ {ℓ} : {K : Type ℓ} ⦃key : Key K⦄ → K → K → Bool
◌==◌ ⦃key⦄ j k = key.same_key j k

abbrev pub same_pair : ℕ × ℕ → ℕ × ℕ → Bool
same_pair p q = same_number p.0 q.0 && same_number p.1 q.1

pub same_pair_iff : (p q : ℕ × ℕ) → (same_pair p q ≡ true) ↔ (p ≡ q)
same_pair_iff p q = ground (arith, same_number_iff p.0 q.0, same_number_iff p.1 q.1)

-- A pair of numbers stands for the text with both, as `${streamId}:${tagId}`.
instance abbrev pub pair_key : Key (ℕ × ℕ)
pair_key = record { same_key = same_pair; same_key_iff = same_pair_iff }
