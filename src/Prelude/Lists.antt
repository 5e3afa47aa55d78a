-- ===== src/Prelude/Lists.antt =====
-- Lists measured and indexed by native numbers, under the library's names.
use Prim.Native.Nat.{ℕ, zero, suc, ◌+◌, ◌-◌, ◌≤◌, ◌<◌, min}
use mathlib.Core.Path.{◌≡◌, refl, ap}
use mathlib.Core.Logic.{◌≢◌}
use mathlib.Core.Bool.{Bool, true, false, ◌||◌}
use mathlib.Core.List.{List, [], ◌∷◌, ◌++◌, map}
use mathlib.Core.Option.{Option, none, some}
use native.Mathlib.Omega.{arith}

module _ {ℓ} {A : Type ℓ} where
  abbrev pub length : List A → ℕ
  length [] = 0
  length (x ∷ xs) = suc (length xs)

  abbrev pub get_elem? : List A → ℕ → Option A
  get_elem? [] i = none
  get_elem? (x ∷ xs) zero = some x
  get_elem? (x ∷ xs) (suc i) = get_elem? xs i

  abbrev pub get_or : List A → ℕ → A → A
  get_or [] i d = d
  get_or (x ∷ xs) zero d = x
  get_or (x ∷ xs) (suc i) d = get_or xs i d

  -- A write out of bounds changes nothing.
  abbrev pub set : List A → ℕ → A → List A
  set [] i v = []
  set (x ∷ xs) zero v = v ∷ xs
  set (x ∷ xs) (suc i) v = x ∷ set xs i v

  abbrev pub take : ℕ → List A → List A
  take zero xs = []
  take (suc n) [] = []
  take (suc n) (x ∷ xs) = x ∷ take n xs

  abbrev pub drop : ℕ → List A → List A
  drop zero xs = xs
  drop (suc n) [] = []
  drop (suc n) (x ∷ xs) = drop n xs

  abbrev pub any : (A → Bool) → List A → Bool
  any p [] = false
  any p (x ∷ xs) = p x || any p xs

  -- A predicate at every element.
  abbrev pub All {κ} : (A → Type κ) → List A → Type κ
  All P [] = Unit
  All P (x ∷ xs) = P x × All P xs

  pub length-append : (xs ys : List A) → length (xs ++ ys) ≡ length xs + length ys
  length-append [] ys = omega arith
  length-append (x ∷ xs) ys = omega (arith, length-append xs ys)

  pub length-set : (xs : List A) (i : ℕ) (v : A) → length (set xs i v) ≡ length xs
  length-set [] i v = refl
  length-set (x ∷ xs) zero v = refl
  length-set (x ∷ xs) (suc i) v = ap suc (length-set xs i v)

  pub length-take : (n : ℕ) (xs : List A) → length (take n xs) ≡ min n (length xs)
  length-take zero xs = omega arith
  length-take (suc n) [] = omega arith
  length-take (suc n) (x ∷ xs) = omega (arith, length-take n xs)

  pub length-drop : (n : ℕ) (xs : List A) → length (drop n xs) ≡ length xs - n
  length-drop zero xs = omega arith
  length-drop (suc n) [] = omega arith
  length-drop (suc n) (x ∷ xs) = omega (arith, length-drop n xs)

  pub get_elem?-set_self :
      (xs : List A) (i : ℕ) (v : A) → i < length xs → get_elem? (set xs i v) i ≡ some v
  get_elem?-set_self [] i v h = elim h [ ]
  get_elem?-set_self (x ∷ xs) zero v h = refl
  get_elem?-set_self (x ∷ xs) (suc i) v h = get_elem?-set_self xs i v (omega arith)

  pub get_elem?-set_ne :
      (xs : List A) (i j : ℕ) (v : A) → i ≢ j → get_elem? (set xs i v) j ≡ get_elem? xs j
  get_elem?-set_ne [] i j v h = refl
  get_elem?-set_ne (x ∷ xs) zero zero v h = absurd (h refl)
  get_elem?-set_ne (x ∷ xs) zero (suc j) v h = refl
  get_elem?-set_ne (x ∷ xs) (suc i) zero v h = refl
  get_elem?-set_ne (x ∷ xs) (suc i) (suc j) v h = get_elem?-set_ne xs i j v (λ e. h (ap suc e))

  pub get_elem?-lt : (xs : List A) (i : ℕ) → i < length xs → (x : A) × (get_elem? xs i ≡ some x)
  get_elem?-lt [] i h = elim h [ ]
  get_elem?-lt (x ∷ xs) zero h = (x, refl)
  get_elem?-lt (x ∷ xs) (suc i) h = get_elem?-lt xs i (omega arith)

  -- What stands in front of an index is not changed by a write there; the write extends it.
  pub take-set_self : (xs : List A) (n : ℕ) (v : A) → take n (set xs n v) ≡ take n xs
  take-set_self [] zero v = refl
  take-set_self [] (suc n) v = refl
  take-set_self (x ∷ xs) zero v = refl
  take-set_self (x ∷ xs) (suc n) v = ap (λ l. x ∷ l) (take-set_self xs n v)

  pub take-suc-set :
      (xs : List A) (n : ℕ) (v : A)
      → n < length xs
      → take (suc n) (set xs n v) ≡ take n xs ++ (v ∷ [])
  take-suc-set [] n v h = elim h [ ]
  take-suc-set (x ∷ xs) zero v h = refl
  take-suc-set (x ∷ xs) (suc n) v h = ap (λ l. x ∷ l) (take-suc-set xs n v (omega arith))

  pub any-append : (p : A → Bool) (xs ys : List A) → any p (xs ++ ys) ≡ (any p xs || any p ys)
  any-append p [] ys = refl
  any-append p (x ∷ xs) ys = ground (arith, any-append p xs ys)

  pub any-get_elem? :
      (p : A → Bool) (xs : List A) (n i : ℕ) (x : A)
      → i < n
      → get_elem? xs i ≡ some x
      → p x ≡ true
      → any p (take n xs) ≡ true
  any-get_elem? p xs zero i x h e t = elim h [ ]
  any-get_elem? p [] (suc n) i x h e t = ground arith
  any-get_elem? p (y ∷ ys) (suc n) zero x h e t = ground arith
  any-get_elem? p (y ∷ ys) (suc n) (suc i) x h e t =
      ground (arith, any-get_elem? p ys n i x (omega arith) e t)

  -- The place of an element that passes.
  pub any_index :
      (p : A → Bool) (xs : List A) (n : ℕ)
      → any p (take n xs) ≡ true
      → (i : ℕ) × (x : A) × (i < n) × (get_elem? xs i ≡ some x) × (p x ≡ true)
  any_index p xs zero h = ground arith
  any_index p [] (suc n) h = ground arith
  any_index p (y ∷ ys) (suc n) h = go (p y) refl (any_index p ys n)
    where
      Found : List A → ℕ → Type ℓ
      Found xs k = (i : ℕ) × (x : A) × (i < k) × (get_elem? xs i ≡ some x) × (p x ≡ true)

      go : (b : Bool) → p y ≡ b → (any p (take n ys) ≡ true → Found ys n) → Found (y ∷ ys) (suc n)
      go true e ih = (0, y, omega arith, refl, e)
      go false e ih = let (i, x, lt, at, t) = ih (ground arith) in (suc i, x, omega arith, at, t)

module _ {ℓ κ} {A : Type ℓ} {B : Type κ} where
  pub map-take : (f : A → B) (n : ℕ) (xs : List A) → map f (take n xs) ≡ take n (map f xs)
  map-take f zero xs = refl
  map-take f (suc n) [] = refl
  map-take f (suc n) (x ∷ xs) = ap (λ l. f x ∷ l) (map-take f n xs)

  pub map-drop : (f : A → B) (n : ℕ) (xs : List A) → map f (drop n xs) ≡ drop n (map f xs)
  map-drop f zero xs = refl
  map-drop f (suc n) [] = refl
  map-drop f (suc n) (x ∷ xs) = map-drop f n xs

  pub any-map : (p : B → Bool) (f : A → B) (xs : List A) → any p (map f xs) ≡ any (λ x. p (f x)) xs
  any-map p f [] = refl
  any-map p f (x ∷ xs) = ap (λ b. p (f x) || b) (any-map p f xs)

module _ {ℓ κ} {A : Type ℓ} {B : Type κ} where
  pub map-set :
      (f : A → B) (xs : List A) (i : ℕ) (v : A) → map f (set xs i v) ≡ set (map f xs) i (f v)
  map-set f [] i v = refl
  map-set f (x ∷ xs) zero v = refl
  map-set f (x ∷ xs) (suc i) v = ap (λ l. f x ∷ l) (map-set f xs i v)

  -- A write that the function does not see.
  pub map-set_same :
      (f : A → B) (xs : List A) (i : ℕ) (x v : A)
      → get_elem? xs i ≡ some x
      → f v ≡ f x
      → map f (set xs i v) ≡ map f xs
  map-set_same f [] i x v at e = refl
  map-set_same f (y ∷ ys) zero x v at e = ground arith
  map-set_same f (y ∷ ys) (suc i) x v at e = ap (λ l. f y ∷ l) (map-set_same f ys i x v at e)

  pub length-map : (f : A → B) (xs : List A) → length (map f xs) ≡ length xs
  length-map f [] = refl
  length-map f (x ∷ xs) = ap suc (length-map f xs)

module _ {ℓ} {A : Type ℓ} where
  -- Lists that agree on a beginning agree on what is read inside it.
  pub get_or_of_take :
      (n i : ℕ) (xs ys : List A) (d : A)
      → take n xs ≡ take n ys
      → i < n
      → get_or xs i d ≡ get_or ys i d
  get_or_of_take zero i xs ys d e h = elim h [ ]
  get_or_of_take (suc n) i [] [] d e h = refl
  get_or_of_take (suc n) i [] (y ∷ ys) d e h = cc
  get_or_of_take (suc n) i (x ∷ xs) [] d e h = cc
  get_or_of_take (suc n) zero (x ∷ xs) (y ∷ ys) d e h = cc
  get_or_of_take (suc n) (suc i) (x ∷ xs) (y ∷ ys) d e h =
      get_or_of_take n i xs ys d (cc) (omega arith)

  pub take-drop_of_take :
      (n k m : ℕ) (xs ys : List A)
      → take n xs ≡ take n ys
      → k + m ≤ n
      → take m (drop k xs) ≡ take m (drop k ys)
  take-drop_of_take zero k zero xs ys e h = refl
  take-drop_of_take zero k (suc m) xs ys e h = absurd (omega arith)
  take-drop_of_take (suc n) zero m [] [] e h = refl
  take-drop_of_take (suc n) zero m [] (y ∷ ys) e h = cc
  take-drop_of_take (suc n) zero m (x ∷ xs) [] e h = cc
  take-drop_of_take (suc n) zero zero (x ∷ xs) (y ∷ ys) e h = refl
  take-drop_of_take (suc n) zero (suc m) (x ∷ xs) (y ∷ ys) e h =
      let same : x ≡ y = cc in
      let rest = take-drop_of_take n zero m xs ys (cc) (omega arith) in
      rw same (ap (λ l. y ∷ l) rest)
  take-drop_of_take (suc n) (suc k) m [] [] e h = refl
  take-drop_of_take (suc n) (suc k) m [] (y ∷ ys) e h = cc
  take-drop_of_take (suc n) (suc k) m (x ∷ xs) [] e h = cc
  take-drop_of_take (suc n) (suc k) m (x ∷ xs) (y ∷ ys) e h =
      take-drop_of_take n k m xs ys (cc) (omega arith)

  pub take-take : (a b : ℕ) (xs : List A) → a ≤ b → take a (take b xs) ≡ take a xs
  take-take zero b xs h = refl
  take-take (suc a) zero xs h = absurd (omega arith)
  take-take (suc a) (suc b) [] h = refl
  take-take (suc a) (suc b) (x ∷ xs) h = ap (λ l. x ∷ l) (take-take a b xs (omega arith))

  pub take-take-append :
      (n : ℕ) (xs ys : List A) → n ≤ length xs → take n (take n xs ++ ys) ≡ take n xs
  take-take-append zero xs ys h = refl
  take-take-append (suc n) [] ys h = absurd (omega arith)
  take-take-append (suc n) (x ∷ xs) ys h = ap (λ l. x ∷ l) (take-take-append n xs ys (omega arith))
