-- ===== src/Memory/Bytes.antt =====
-- Little-endian numbers in a map of bytes.
use native.Mathlib.Nat.{pow-succ', div-div-eq-div-mul, div-add-mod'}
use mathlib.Core.Logic.{◌⊎◌}
use zinc_simulator.Prelude.{
  ℕ, zero, suc, ◌+◌, ◌*◌, ◌/◌, ◌%◌, ◌^◌, ◌≤◌, ◌<◌, ◌≡◌, refl, ap, ◌∙◌, arith, update, List, [], ◌∷◌,
  update_self, update_ne,
}
use zinc_simulator.Memory.{bytes_at, store_at, copy_to, fill_zero, length}

-- The ranges of `n` indices from `i` on and of `m` from `j` on do not meet.
abbrev pub Apart : ℕ → ℕ → ℕ → ℕ → Type 0
Apart i n j m = (j + m ≤ i) ⊎ (i + n ≤ j)

pub store_at_outside : (n : ℕ) (f : ℕ → ℕ) (i v j : ℕ) → Apart i n j 1 → store_at f i n v j ≡ f j
unfolding store_at
store_at_outside zero f i v j h = refl
store_at_outside (suc n) f i v j h =
    store_at_outside n (update f i (v % 256)) (i + 1) (v / 256) j (omega arith)
    ∙ update_ne f i (v % 256) j (λ e. omega arith)

pub bytes_at_ext :
    (n : ℕ) (f g : ℕ → ℕ) (i : ℕ)
    → ((j : ℕ) → i ≤ j → j < i + n → f j ≡ g j)
    → bytes_at f i n ≡ bytes_at g i n
unfolding bytes_at
bytes_at_ext zero f g i h = refl
bytes_at_ext (suc n) f g i h = omega (
  arith,
  h i (omega arith) (omega arith),
  bytes_at_ext n f g (i + 1) (λ j p q. h j (omega arith) (omega arith)),
)

pub bytes_at-store_at-Apart :
    (n m : ℕ) (f : ℕ → ℕ) (i j v : ℕ)
    → Apart i n j m
    → bytes_at (store_at f i n v) j m ≡ bytes_at f j m
bytes_at-store_at-Apart n m f i j v h =
    bytes_at_ext m (store_at f i n v) f j (λ k p q. store_at_outside n f i v k (omega arith))

-- The remainder by 256 ^ (n + 1), from those by 256 and by 256 ^ n.
mod-pow-suc : (v n : ℕ) → v % 256 ^ suc n ≡ v % 256 + 256 * (v / 256 % 256 ^ n)
mod-pow-suc v n =
    let q = v / 256 / 256 ^ n in
    let e : v / 256 ^ suc n ≡ q =
      rw (pow-succ' 256 n) (rw (← div-div-eq-div-mul v 256 (256 ^ n))) in
    omega (
      arith,
      div-add-mod' v (256 ^ suc n),
      div-add-mod' (v / 256) (256 ^ n),
      ap (λ (t : ℕ). t * 256 ^ suc n) e,
      ap (λ (t : ℕ). q * t) (pow-succ' 256 n),
    )

-- What is stored is read back, as far as it fits.
pub bytes_at-store_at :
    (n : ℕ) (f : ℕ → ℕ) (i v : ℕ) → bytes_at (store_at f i n v) i n ≡ v % 256 ^ n
unfolding bytes_at store_at
bytes_at-store_at zero f i v = omega arith
bytes_at-store_at (suc n) f i v = omega (
  arith,
  store_at_outside n (update f i (v % 256)) (i + 1) (v / 256) i (omega arith)
      ∙ update_self f i (v % 256),
  bytes_at-store_at n (update f i (v % 256)) (i + 1) (v / 256),
  mod-pow-suc v n,
)

pub bytes_at-lt : (n : ℕ) (f : ℕ → ℕ) (i : ℕ) → ((j : ℕ) → f j < 256) → bytes_at f i n < 256 ^ n
unfolding bytes_at
bytes_at-lt zero f i h = omega arith
bytes_at-lt (suc n) f i h = omega (arith, h i, bytes_at-lt n f (i + 1) h, pow-succ' 256 n)

-- A range is its front and, above that, its back.
pub bytes_at-add :
    (m n k : ℕ) (f : ℕ → ℕ) (i : ℕ)
    → k ≡ m + n
    → bytes_at f i k ≡ bytes_at f i m + 256 ^ m * bytes_at f (i + m) n
unfolding bytes_at
bytes_at-add zero n k f i e =
    let e' : k ≡ n = omega arith in let z : i + 0 ≡ i = omega arith in rw (e', z) (omega arith)
bytes_at-add (suc m) n zero f i e = absurd (omega arith)
bytes_at-add (suc m) n (suc k) f i e =
    let z : i + suc m ≡ i + 1 + m = omega arith in
    rw z (
      omega (
        arith,
        bytes_at-add m n k f (i + 1) (omega arith),
        ap (λ (t : ℕ). t * bytes_at f (i + 1 + m) n) (pow-succ' 256 m),
      ))

-- A stored byte is a byte.
pub store_at-lt :
    (n : ℕ) (f : ℕ → ℕ) (i v : ℕ) → ((j : ℕ) → f j < 256) → (j : ℕ) → store_at f i n v j < 256
unfolding store_at
store_at-lt zero f i v h j = h j
store_at-lt (suc n) f i v h j =
    store_at-lt n (update f i (v % 256)) (i + 1) (v / 256) (λ k. ground (arith, h k)) j

-- `std::copy`: the list stands at the index `i` on, and nothing else changes.
pub copy_to_outside :
    (xs : List ℕ) (f : ℕ → ℕ) (i j : ℕ) → Apart i (length xs) j 1 → copy_to f i xs j ≡ f j
unfolding copy_to
copy_to_outside [] f i j h = refl
copy_to_outside (x ∷ xs) f i j h =
    copy_to_outside xs (update f i x) (i + 1) j (omega arith) ∙ update_ne f i x j (λ e. omega arith)

abbrev pub nth : List ℕ → ℕ → ℕ
nth [] k = 0
nth (x ∷ xs) zero = x
nth (x ∷ xs) (suc k) = nth xs k

pub copy_to_inside :
    (xs : List ℕ) (f : ℕ → ℕ) (i k : ℕ) → k < length xs → copy_to f i xs (i + k) ≡ nth xs k
unfolding copy_to
copy_to_inside [] f i k h = absurd (omega arith)
copy_to_inside (x ∷ xs) f i zero h =
    let e : i + 0 ≡ i = omega arith in
    rw e (copy_to_outside xs (update f i x) (i + 1) i (omega arith) ∙ update_self f i x)
copy_to_inside (x ∷ xs) f i (suc k) h =
    let e : i + suc k ≡ i + 1 + k = omega arith in
    rw e (copy_to_inside xs (update f i x) (i + 1) k (omega arith))

pub fill_zero_outside : (n : ℕ) (f : ℕ → ℕ) (i j : ℕ) → Apart i n j 1 → fill_zero f i n j ≡ f j
unfolding fill_zero
fill_zero_outside zero f i j h = refl
fill_zero_outside (suc n) f i j h =
    fill_zero_outside n (update f i 0) (i + 1) j (omega arith)
    ∙ update_ne f i 0 j (λ e. omega arith)

pub fill_zero_inside : (n k : ℕ) (f : ℕ → ℕ) (i : ℕ) → k < n → fill_zero f i n (i + k) ≡ 0
unfolding fill_zero
fill_zero_inside zero k f i h = absurd (omega arith)
fill_zero_inside (suc n) zero f i h =
    let first : i + 0 ≡ i = omega arith in
    rw first (fill_zero_outside n (update f i 0) (i + 1) i (omega arith) ∙ update_self f i 0)
fill_zero_inside (suc n) (suc k) f i h =
    let next : i + suc k ≡ i + 1 + k = omega arith in
    rw next (fill_zero_inside n k (update f i 0) (i + 1) (omega arith))
