-- ===== src/Common/Lists.antt =====
-- Lists measured and indexed by native numbers; `slice` is the part of a buffer that a view names.
use Prim.Native.Nat.{ℕ, zero, suc, ◌+◌, ◌-◌, ◌≤◌, ◌<◌}
use mathlib.Core.Bool.{Bool, true, false, ◌&&◌}
use mathlib.Core.List.{List, [], ◌∷◌, ◌++◌}
use mathlib.Core.Logic.{◌↔◌}
use mathlib.Core.Option.{Option, none, some}
use mathlib.Core.Path.{◌≡◌, refl, ap}
use native.Mathlib.Omega.{arith}
use q.Common.Tests.{◌==◌, if◌then◌else◌}

module _ {ℓ} {A : Type ℓ} where
  abbrev pub length : List A → ℕ
  length [] = 0
  length (x ∷ xs) = suc (length xs)

  abbrev pub get_elem? : List A → ℕ → Option A
  get_elem? [] i = none
  get_elem? (x ∷ xs) zero = some x
  get_elem? (x ∷ xs) (suc i) = get_elem? xs i

  abbrev pub get_or : List A → ℕ → A → A
  get_or [] i d = d
  get_or (x ∷ xs) zero d = x
  get_or (x ∷ xs) (suc i) d = get_or xs i d

  abbrev pub set : List A → ℕ → A → List A
  set [] i v = []
  set (x ∷ xs) zero v = v ∷ xs
  set (x ∷ xs) (suc i) v = x ∷ set xs i v

  abbrev pub take : ℕ → List A → List A
  take zero xs = []
  take (suc n) [] = []
  take (suc n) (x ∷ xs) = x ∷ take n xs

  abbrev pub drop : ℕ → List A → List A
  drop zero xs = xs
  drop (suc n) [] = []
  drop (suc n) (x ∷ xs) = drop n xs

  abbrev pub replicate : ℕ → A → List A
  replicate zero a = []
  replicate (suc n) a = a ∷ replicate n a

module _ {ℓ} {A : Type ℓ} where
  pub length-append : (xs ys : List A) → length (xs ++ ys) ≡ length xs + length ys
  length-append [] ys = omega arith
  length-append (x ∷ xs) ys = omega (arith, length-append xs ys)

  pub length-set : (xs : List A) (i : ℕ) (v : A) → length (set xs i v) ≡ length xs
  length-set [] i v = refl
  length-set (x ∷ xs) zero v = refl
  length-set (x ∷ xs) (suc i) v = ap suc (length-set xs i v)

  pub get_elem?-set_self :
      (xs : List A) (i : ℕ) (v : A) → i < length xs → get_elem? (set xs i v) i ≡ some v
  get_elem?-set_self [] i v h = elim h [ ]
  get_elem?-set_self (x ∷ xs) zero v h = refl
  get_elem?-set_self (x ∷ xs) (suc i) v h = get_elem?-set_self xs i v (omega arith)

  pub get_or-append_left :
      (xs ys : List A) (i : ℕ) (d : A) → i < length xs → get_or (xs ++ ys) i d ≡ get_or xs i d
  get_or-append_left [] ys i d h = absurd (omega arith)
  get_or-append_left (x ∷ xs) ys zero d h = refl
  get_or-append_left (x ∷ xs) ys (suc i) d h = get_or-append_left xs ys i d (omega arith)

  pub get_or-beyond : (xs : List A) (i : ℕ) (d : A) → length xs ≤ i → get_or xs i d ≡ d
  get_or-beyond [] i d h = refl
  get_or-beyond (x ∷ xs) zero d h = absurd (omega arith)
  get_or-beyond (x ∷ xs) (suc i) d h = get_or-beyond xs i d (omega arith)

  pub get_or-set :
      (xs : List A) (i j : ℕ) (v d : A)
      → i < length xs
      → get_or (set xs i v) j d ≡ (if i == j then v else get_or xs j d)
  get_or-set [] i j v d h = absurd (omega arith)
  get_or-set (x ∷ xs) zero zero v d h = ground arith
  get_or-set (x ∷ xs) zero (suc j) v d h = ground arith
  get_or-set (x ∷ xs) (suc i) zero v d h = ground arith
  get_or-set (x ∷ xs) (suc i) (suc j) v d h = ground (arith, get_or-set xs i j v d (omega arith))

  pub length-replicate : (n : ℕ) (a : A) → length (replicate n a) ≡ n
  length-replicate zero a = refl
  length-replicate (suc n) a = ap suc (length-replicate n a)

  -- A list of one value, with that value behind its end.
  pub get_or-replicate : (n i : ℕ) (a : A) → get_or (replicate n a) i a ≡ a
  get_or-replicate zero i a = refl
  get_or-replicate (suc n) zero a = refl
  get_or-replicate (suc n) (suc i) a = get_or-replicate n i a

  pub drop-get_or :
      (xs : List A) (i : ℕ) (d : A) → i < length xs → drop i xs ≡ get_or xs i d ∷ drop (i + 1) xs
  drop-get_or [] i d h = absurd (omega arith)
  drop-get_or (x ∷ xs) zero d h = refl
  drop-get_or (x ∷ xs) (suc i) d h =
      let shift : suc i + 1 ≡ suc (i + 1) = omega arith in
      rw shift (drop-get_or xs i d (omega arith))

  pub drop-beyond : (xs : List A) (i : ℕ) → length xs ≤ i → drop i xs ≡ []
  drop-beyond [] zero h = refl
  drop-beyond [] (suc i) h = refl
  drop-beyond (x ∷ xs) zero h = absurd (omega arith)
  drop-beyond (x ∷ xs) (suc i) h = drop-beyond xs i (omega arith)

  -- The next element of a slice.
  pub take-drop-snoc :
      (xs : List A) (i n : ℕ) (d : A)
      → i + n < length xs
      → take (suc n) (drop i xs) ≡ take n (drop i xs) ++ get_or xs (i + n) d ∷ []
  take-drop-snoc [] i n d h = absurd (omega arith)
  take-drop-snoc (x ∷ xs) zero zero d h = refl
  take-drop-snoc (x ∷ xs) zero (suc n) d h = rw (shift, ← take-drop-snoc xs 0 n d (omega arith))
    where
      shift : zero + suc n ≡ suc (0 + n)
      shift = omega arith
  take-drop-snoc (x ∷ xs) (suc i) n d h =
      let shift : suc i + n ≡ suc (i + n) = omega arith in
      rw shift (take-drop-snoc xs i n d (omega arith))

  pub length-take-drop :
      (xs : List A) (i n : ℕ) → i + n ≤ length xs → length (take n (drop i xs)) ≡ n
  length-take-drop xs i zero h = refl
  length-take-drop [] zero (suc n) h = absurd (omega arith)
  length-take-drop [] (suc i) (suc n) h = absurd (omega arith)
  length-take-drop (x ∷ xs) zero (suc n) h = ap suc (length-take-drop xs 0 n (omega arith))
  length-take-drop (x ∷ xs) (suc i) (suc n) h = length-take-drop xs i (suc n) (omega arith)

abbrev pub Bytes : Type 0
Bytes = List ℕ

-- The bytes from `start` up to, not including, `end`.
abbrev pub slice : Bytes → ℕ → ℕ → Bytes
slice bs start end = take (end - start) (drop start bs)

pub slice-snoc :
    (bs : Bytes) (start end : ℕ)
    → start ≤ end
    → end < length bs
    → slice bs start (end + 1) ≡ slice bs start end ++ get_or bs end 0 ∷ []
slice-snoc bs start end h k =
    let n = end - start in
    let longer : end + 1 - start ≡ suc (end - start) = omega arith in
    let here : start + (end - start) ≡ end = omega arith in
    rw longer (rw here at (take-drop-snoc bs start (end - start) 0 (omega arith)))

pub slice_empty : (bs : Bytes) (start : ℕ) → slice bs start start ≡ []
slice_empty bs start = let none_left : start - start ≡ 0 = omega arith in rw none_left

-- `memcmp(a, b, n) == 0` on two views of one length.
abbrev pub bytes_eq : Bytes → Bytes → Bool
bytes_eq [] [] = true
bytes_eq (x ∷ xs) (y ∷ ys) = (x == y) && bytes_eq xs ys
bytes_eq _ _ = false

pub bytes_eq_iff : (a b : Bytes) → (bytes_eq a b ≡ true) ↔ (a ≡ b)
bytes_eq_iff (x ∷ a) (y ∷ b) = ground (arith, bytes_eq_iff a b)
bytes_eq_iff _ _ = ground arith
