-- ===== src/Prelude/Family.antt =====
-- Families `ℕ → A`: the write at one index, and sums over the first `n` indices.
use Prim.Native.Nat.{ℕ, zero, suc, ◌+◌, ◌≤◌, ◌<◌}
use mathlib.Core.Path.{◌≡◌, refl}
use native.Mathlib.Omega.{arith}
use data_communication.Prelude.Tests.{◌==◌, if◌then◌else◌}

module _ {ℓ} {A : Type ℓ} where
  abbrev pub update : (ℕ → A) → ℕ → A → ℕ → A
  update f i a j = if i == j then a else f j

module _ {ℓ} {A : Type ℓ} (weight : A → ℕ) where
  -- The weights of the values at 0, …, n - 1, added up.
  unfoldable pub total : ℕ → (ℕ → A) → ℕ
  total zero values = 0
  total (suc last) values = weight (values last) + total last values

  pub total-ext :
      (n : ℕ) (f g : ℕ → A)
      → ((k : ℕ) → k < n → weight (f k) ≡ weight (g k))
      → total n f ≡ total n g
  unfolding total
  total-ext zero f g same = refl
  total-ext (suc last) f g same =
      omega (arith, same last (omega arith), total-ext last f g (λ k below. same k (omega arith)))

  -- Writing a value of the same weight leaves the sum alone.
  pub total-update_same :
      (n : ℕ) (f : ℕ → A) (k : ℕ) (value : A)
      → weight (f k) ≡ weight value
      → total n (update f k value) ≡ total n f
  unfolding total
  total-update_same zero f k value even = refl
  total-update_same (suc last) f k value even =
      ground (arith, total-update_same last f k value even)

  total_above :
      (n : ℕ) (f : ℕ → A) (k : ℕ) (value : A) → n ≤ k → total n f ≡ total n (update f k value)
  unfolding total
  total_above zero f k value above = refl
  total_above (suc last) f k value above = ground (arith, total_above last f k value)

  pub total-update :
      (n : ℕ) (f : ℕ → A) (k : ℕ) (value : A)
      → k < n
      → weight value + total n f ≡ weight (f k) + total n (update f k value)
  unfolding total
  total-update zero f k value below = absurd (omega arith)
  total-update (suc last) f k value below =
      ground (arith, total_above last f k value, total-update last f k value)

  pub total_nothing : (n : ℕ) (f : ℕ → A) → ((k : ℕ) → weight (f k) ≡ 0) → total n f ≡ 0
  unfolding total
  total_nothing zero f none_weighs = refl
  total_nothing (suc last) f none_weighs =
      omega (arith, none_weighs last, total_nothing last f none_weighs)

  AtMostOne : ℕ → (ℕ → A) → Type 0
  AtMostOne n f = (k : ℕ) → k < n → weight (f k) ≤ 1

  below_last : (last : ℕ) (f : ℕ → A) → AtMostOne (suc last) f → AtMostOne last f
  unfolding AtMostOne
  below_last last f small k below = small k (omega arith)

  total-bounded : (n : ℕ) (f : ℕ → A) → AtMostOne n f → total n f ≤ n
  unfolding total AtMostOne
  total-bounded zero f small = omega arith
  total-bounded (suc last) f small =
      omega (arith, small last (omega arith), total-bounded last f (below_last last f small))

  total_saturated :
      (n : ℕ) (f : ℕ → A) → AtMostOne n f → total n f ≡ n → (k : ℕ) → k < n → weight (f k) ≡ 1
  unfolding total AtMostOne
  total_saturated zero f small full k below = absurd (omega arith)
  total_saturated (suc last) f small full k below =
      let small' : AtMostOne last f = below_last last f small in
      let bound : total last f ≤ last = total-bounded last f small' in
      let top : weight (f last) ≤ 1 = small last (omega arith) in
      ground (arith, bound, top, total_saturated last f small' (omega arith) k)

  -- A sum of `n` weights of at most one that reaches `n` has no weight zero.
  pub total_full :
      (n : ℕ) (f : ℕ → A)
      → ((k : ℕ) → k < n → weight (f k) ≤ 1)
      → total n f ≡ n
      → (k : ℕ) → k < n
      → weight (f k) ≡ 1
  unfolding AtMostOne
  total_full n f small full k below = total_saturated n f small full k below

  -- A sum of `n` weights of at most one is at most `n`.
  pub total_at_most : (n : ℕ) (f : ℕ → A) → ((k : ℕ) → k < n → weight (f k) ≤ 1) → total n f ≤ n
  unfolding AtMostOne
  total_at_most n f small = total-bounded n f small
