-- ===== src/Threads/Launcher/Counters.antt =====
-- The launcher's counters, which wrap around, and lists by their places.
use hiaux.Base.{
  ℕ, zero, suc, ◌+◌, ◌-◌, ◌%◌, ◌^◌, ◌<◌, ◌≡◌, ap, ◌⊎◌, List, [], ◌∷◌, ◌++◌, Bool, true, false,
  length, take, drop, get_elem?, some, arith, length-append, drop-zero,
}
use hiaux.Threads.Launcher.{increment}

-- The counters are below 2^64 and apart by the number of the pool's tasks.
abbrev pub IsCounted : ℕ → ℕ → ℕ → Type 0
IsCounted launched finished n =
    (launched < 2 ^ 64)
    × (finished < 2 ^ 64)
    × (n < 2 ^ 64)
    × ((finished + n ≡ launched) ⊎ (finished + n ≡ launched + 2 ^ 64))

pub running-IsCounted : (a b n : ℕ) → IsCounted a b n → (a + 2 ^ 64 - b) % 2 ^ 64 ≡ n
running-IsCounted a b n h = ground arith

pub equal-IsCounted : (a b n : ℕ) → IsCounted a b n → a ≡ b → n ≡ 0
equal-IsCounted a b n h e = ground arith

pub zero-IsCounted : (a b : ℕ) → IsCounted a b 0 → a ≡ b
zero-IsCounted a b h = ground arith

pub launched-IsCounted :
    (a b n m : ℕ) → IsCounted a b n → n < m → m < 2 ^ 64 → IsCounted (increment a) b (n + 1)
unfolding increment
launched-IsCounted a b n m h k l = ground arith

pub finished-IsCounted : (a b n : ℕ) → IsCounted a b (suc n) → IsCounted a (increment b) n
unfolding increment
finished-IsCounted a b n h = ground arith

abbrev pub calls_of : Bool → ℕ
calls_of true = 1
calls_of false = 0

pub length-snoc {ℓ} : {A : Type ℓ} (xs : List A) (x : A) → length (xs ++ x ∷ []) ≡ length xs + 1
length-snoc xs x = length-append xs (x ∷ [])

pub length-without {ℓ} :
    {A : Type ℓ} (xs : List A) (i : ℕ) (x : A)
    → get_elem? xs i ≡ some x
    → suc (length (take i xs ++ drop (suc i) xs)) ≡ length xs
length-without [] i x h = ground arith
length-without (y ∷ ys) zero x h = ap (λ zs. suc (length zs)) (drop-zero ys)
length-without (y ∷ ys) (suc i) x h = ap suc (length-without ys i x h)

pub get_elem?-append {ℓ} :
    {A : Type ℓ} (xs ys : List A) (i : ℕ) (x : A)
    → get_elem? xs i ≡ some x
    → get_elem? (xs ++ ys) i ≡ some x
get_elem?-append [] ys i x h = ground arith
get_elem?-append (z ∷ xs) ys zero x h = h
get_elem?-append (z ∷ xs) ys (suc i) x h = get_elem?-append xs ys i x h
